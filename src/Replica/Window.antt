-- ===== src/Replica/Window.antt =====
-- The timestamps of a replica: what leaves them, and the request rate.
use dual_map.Prelude.{
  ◌+◌, ◌≤◌, ◌≡◌, refl, Bool, false, some, List, [], ◌∷◌, ◌++◌, arith, leb, if◌then◌else◌, All, ◌∙◌,
  Option, ℕ,
}
use dual_map.Request.{Request, Store, mem}
use dual_map.Replica.{Replica, cleanup, add_request}

abbrev pub IsAscending : List ℕ → Type 0
IsAscending [] = Unit
IsAscending (t ∷ l) = All (λ u. t ≤ u) l × IsAscending l

-- The timestamps that are not before the window that ends at `now`, wherever they stand.
abbrev pub recent : ℕ → ℕ → List ℕ → List ℕ
recent window_size now [] = []
recent window_size now (t ∷ l) =
    let rest = recent window_size now l in if leb now (t + window_size) then t ∷ rest else rest

recent-All : (w now t : ℕ) (l : List ℕ) → now ≤ t + w → All (λ u. t ≤ u) l → recent w now l ≡ l
recent-All w now t [] h a = refl
recent-All w now t (u ∷ l) h a = ground (arith, recent-All w now t l)

cleanup-recent : (w now : ℕ) (l : List ℕ) → IsAscending l → cleanup w now l ≡ recent w now l
unfolding cleanup
cleanup-recent w now [] a = refl
cleanup-recent w now (t ∷ l) a = ground (arith, cleanup-recent w now l, recent-All w now t l)

recent-snoc : (w now : ℕ) (l : List ℕ) → recent w now (l ++ now ∷ []) ≡ recent w now l ++ now ∷ []
recent-snoc w now [] = ground arith
recent-snoc w now (t ∷ l) = ground (arith, recent-snoc w now l)

All-snoc :
    (t now : ℕ) (l : List ℕ) → t ≤ now → All (λ u. t ≤ u) l → All (λ u. t ≤ u) (l ++ now ∷ [])
All-snoc t now [] h a = (h, tt)
All-snoc t now (u ∷ l) h a = ground (arith, All-snoc t now l)

All-recent : (w now t : ℕ) (l : List ℕ) → All (λ u. t ≤ u) l → All (λ u. t ≤ u) (recent w now l)
All-recent w now t [] a = tt
All-recent w now t (u ∷ l) a = ground (arith, All-recent w now t l)

snoc-IsAscending :
    (now : ℕ) (l : List ℕ) → IsAscending l → All (λ t. t ≤ now) l → IsAscending (l ++ now ∷ [])
snoc-IsAscending now [] a h = (tt, tt)
snoc-IsAscending now (t ∷ l) a h = ground (arith, snoc-IsAscending now l, All-snoc t now l)

recent-IsAscending : (w now : ℕ) (l : List ℕ) → IsAscending l → IsAscending (recent w now l)
recent-IsAscending w now [] a = tt
recent-IsAscending w now (t ∷ l) a =
    ground (arith, recent-IsAscending w now l, All-recent w now t l)

All-recent_le :
    (w now : ℕ) (l : List ℕ) → All (λ t. t ≤ now) l → All (λ t. t ≤ now) (recent w now l)
All-recent_le w now [] a = tt
All-recent_le w now (t ∷ l) a = ground (arith, All-recent_le w now l)

-- A replica whose timestamps are ascending and not after `now` takes in a request that is not pending:
-- the timestamps that are then left are the ones within the window before `now`, and `now`
-- itself, in ascending order.
pub add_request-recent :
    (hash : Bool → Option ℕ → List ℕ → ℕ) (now : ℕ) (store : Store) (q : Request) (r : Replica)
    → mem q r.pending_requests ≡ false
    → IsAscending r.request_timestamps
    → All (λ t. t ≤ now) r.request_timestamps
    → ((add_request hash now (some q) store r).2.request_timestamps
        ≡ recent r.window_size now r.request_timestamps ++ now ∷ [])
      × IsAscending (add_request hash now (some q) store r).2.request_timestamps
unfolding add_request
add_request-recent hash now store q r new asc past = rw new (
  kept,
  rw kept (
      snoc-IsAscending now _ (recent-IsAscending r.window_size now r.request_timestamps asc)
        (All-recent_le r.window_size now r.request_timestamps past)),
)
  where
    kept :
        cleanup r.window_size now (r.request_timestamps ++ now ∷ [])
        ≡ recent r.window_size now r.request_timestamps ++ now ∷ []
    kept =
        cleanup-recent r.window_size now (r.request_timestamps ++ now ∷ [])
          (snoc-IsAscending now r.request_timestamps asc past)
        ∙ recent-snoc r.window_size now r.request_timestamps
