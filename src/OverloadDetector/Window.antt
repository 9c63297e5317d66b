-- ===== src/OverloadDetector/Window.antt =====
-- The points of a key, and which of them decide.
use dual_map.Prelude.{
  ℕ, ◌+◌, ◌≤◌, ◌≡◌, refl, ap, ◌∙◌, none, some, Option, [], ◌∷◌, ◌++◌, ite, if_pos, if◌then◌else◌,
  leb, All, arith,
}
use dual_map.Prelude.Dict.{assign, lookup-assign}
use dual_map.SharedState.Posting.{key_discrete}
use dual_map.OverloadDetector.{
  Key, Points, Detector, purge, points_at, purge_old_data, add_data_point,
}

-- The points within the window, wherever they stand.
abbrev pub recent : ℕ → ℕ → Points → Points
recent window now [] = []
recent window now ((t, v) ∷ l) =
    let rest = recent window now l in if leb now (t + window) then (t, v) ∷ rest else rest

abbrev pub IsAscending : Points → Type 0
IsAscending [] = Unit
IsAscending (p ∷ l) = All (λ q. p.0 ≤ q.0) l × IsAscending l

recent-All : (w now t : ℕ) (l : Points) → now ≤ t + w → All (λ q. t ≤ q.0) l → recent w now l ≡ l
recent-All w now t [] h a = refl
recent-All w now t ((u, v) ∷ l) h a = ground (arith, recent-All w now t l)

purge-recent : (w now : ℕ) (l : Points) → IsAscending l → purge w now l ≡ recent w now l
unfolding purge
purge-recent w now [] a = refl
purge-recent w now ((t, v) ∷ l) a = ground (arith, purge-recent w now l, recent-All w now t l)

recent-snoc :
    (w now v : ℕ) (l : Points) → recent w now (l ++ (now, v) ∷ []) ≡ recent w now l ++ (now, v) ∷ []
recent-snoc w now v [] = ground arith
recent-snoc w now v ((t, u) ∷ l) = ground (arith, recent-snoc w now v l)

All-snoc :
    (t now v : ℕ) (l : Points)
    → t ≤ now
    → All (λ q. t ≤ q.0) l
    → All (λ q. t ≤ q.0) (l ++ (now, v) ∷ [])
All-snoc t now v [] h a = (h, tt)
All-snoc t now v ((u, w) ∷ l) h a = ground (arith, All-snoc t now v l)

snoc-IsAscending :
    (now v : ℕ) (l : Points)
    → IsAscending l
    → All (λ q. q.0 ≤ now) l
    → IsAscending (l ++ (now, v) ∷ [])
snoc-IsAscending now v [] a h = (tt, tt)
snoc-IsAscending now v ((t, u) ∷ l) a h =
    ground (arith, snoc-IsAscending now v l, All-snoc t now v l)

by_decision :
    {P : Type 0} (c : Dec P) (l : Points) (o : Option Points)
    → (elim (ite c (some l) o) [ none ↦ [] | some m ↦ m ])
      ≡ ite c l (elim o [ none ↦ [] | some m ↦ m ])
by_decision (yes p) l o = refl
by_decision (no p) l o = refl

points_at-assign :
    (key other : Key) (l : Points) (d : Detector)
    → points_at other (record d { points = assign key_discrete key l d.points })
      ≡ ite (key_discrete other key) l (points_at other d)
points_at-assign key other l d =
    rw (lookup-assign key_discrete key other l d.points, points_at)
      (by_decision (key_discrete other key) l _)

overwritten : {A P : Type 0} (c : Dec P) (x y old z : A) → z ≡ ite c y old → ite c x z ≡ ite c x old
overwritten (yes p) x y old z e = refl
overwritten (no p) x y old z e = e

-- If the points of the key are in the order of their times and not after `timestamp`, add_data_point keeps those of
-- them that are within the window before `timestamp`, with the new point behind them, and leaves the points of all other keys.
pub add_data_point-recent :
    (timestamp node gpu value : ℕ) (d : Detector) (other : Key)
    → IsAscending (points_at (node, gpu) d)
    → All (λ q. q.0 ≤ timestamp) (points_at (node, gpu) d)
    → points_at other (add_data_point timestamp node gpu value d)
      ≡ ite
          (key_discrete other (node, gpu))
          (recent d.window_duration timestamp (points_at (node, gpu) d) ++ (timestamp, value) ∷ [])
          (points_at other d)
unfolding add_data_point purge_old_data
add_data_point-recent timestamp node gpu value d other asc past =
    let key : Key = (node, gpu) in
    let all = points_at key d ++ (timestamp, value) ∷ [] in
    let appended : Detector = record d { points = assign key_discrete key all d.points } in
    let self : points_at key appended ≡ all =
      points_at-assign key key all d ∙ if_pos (key_discrete key key) refl all (points_at key d) in
    let kept : purge d.window_duration timestamp (points_at key appended)
        ≡ recent d.window_duration timestamp (points_at key d) ++ (timestamp, value) ∷ [] =
      ap (purge d.window_duration timestamp) self
      ∙ purge-recent d.window_duration timestamp all
          (snoc-IsAscending timestamp value (points_at key d) asc past)
      ∙ recent-snoc d.window_duration timestamp value (points_at key d) in
    points_at-assign key other (purge d.window_duration timestamp (points_at key appended)) appended
    ∙ ap (λ l. ite (key_discrete other key) l (points_at other appended)) kept
    ∙ overwritten (key_discrete other key) _ all (points_at other d) (points_at other appended)
        (points_at-assign key other all d)
