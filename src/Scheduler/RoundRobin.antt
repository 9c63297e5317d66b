-- ===== src/Scheduler/RoundRobin.antt =====
-- dualmap/scheduler/global_scheduler/round_robin_global_scheduler.py, for calls of schedule that do
-- not overlap.
use dual_map.Prelude.{
  ℕ, zero, suc, ◌+◌, ◌%◌, ◌<◌, ◌≤◌, ◌≡◌, refl, ◌∙◌, ap, Bool, true, false, List, [], ◌∷◌, arith,
  ◌==◌, leb, ltb, ◌&&◌,
}
use native.Mathlib.Nat.{mod-eq_of_lt, add-mod_right}

pub record RoundRobin : Type 0 where
  pub num_replicas : ℕ
  pub request_counter : ℕ

unfoldable pub init : ℕ → RoundRobin
init num_replicas = record { num_replicas = num_replicas; request_counter = 0 }

unfoldable pub schedule : RoundRobin → ℕ × RoundRobin
schedule s =
    (s.request_counter % s.num_replicas, record s { request_counter = s.request_counter + 1 })

-- The replicas of the next `k` requests.
abbrev pub schedule_all : ℕ → RoundRobin → List ℕ
schedule_all zero s = []
schedule_all (suc k) s = (schedule s).0 ∷ schedule_all k (schedule s).1

abbrev one : Bool → ℕ
one true = 1
one false = 0

abbrev pub times : ℕ → List ℕ → ℕ
times i [] = 0
times i (r ∷ l) = one (r == i) + times i l

-- How many of the `k` numbers from `c` on are `i` modulo `n`.
abbrev hits : ℕ → ℕ → ℕ → ℕ → ℕ
hits i n c zero = 0
hits i n c (suc k) = one ((c % n) == i) + hits i n (c + 1) k

hits-snoc : (i n c k : ℕ) → hits i n c (suc k) ≡ one (((c + k) % n) == i) + hits i n c k
hits-snoc i n c zero = let same = ap (λ m. one ((m % n) == i)) (plus_zero c) in omega (arith, same)
  where
    plus_zero : (m : ℕ) → m + 0 ≡ m
    plus_zero m = omega arith
hits-snoc i n c (suc k) =
    let same = ap (λ m. one ((m % n) == i)) (shift c k) in
    omega (arith, same, hits-snoc i n (c + 1) k)
  where
    shift : (m k : ℕ) → m + suc k ≡ m + 1 + k
    shift m k = omega arith

hits-shift : (i n c : ℕ) → hits i n (c + 1) n ≡ hits i n c n
hits-shift i n c =
    let wraps = ap (λ m. one (m == i)) (add-mod_right c n) in
    omega (arith, hits-snoc i n c n, wraps)

hits-inside : (i n a k : ℕ) → a + k ≤ n → hits i n a k ≡ one (leb a i && ltb i (a + k))
hits-inside i n a zero h = ground arith
hits-inside i n a (suc k) h =
    rw
      (
        mod-eq_of_lt {n = a} {m = n} (omega (arith, h)),
        hits-inside i n (a + 1) k (omega (arith, h)),
      )
      (ground arith)

hits-any : (i n c : ℕ) → i < n → hits i n c n ≡ 1
hits-any i n zero h = ground (arith, hits-inside i n 0 n)
hits-any i n (suc c) h = ap (λ m. hits i n m n) (next c) ∙ hits-shift i n c ∙ hits-any i n c h
  where
    next : (m : ℕ) → suc m ≡ m + 1
    next m = omega arith

times-hits :
    (i k : ℕ) (s : RoundRobin)
    → times i (schedule_all k s) ≡ hits i s.num_replicas s.request_counter k
unfolding schedule
times-hits i zero s = refl
times-hits i (suc k) s = rw (times-hits i k (record s { request_counter = s.request_counter + 1 }))

-- From any counter on, as many requests in a row as there are replicas reach each replica exactly once.
pub times-schedule_all :
    (i : ℕ) (s : RoundRobin) → i < s.num_replicas → times i (schedule_all s.num_replicas s) ≡ 1
times-schedule_all i s h =
    times-hits i s.num_replicas s ∙ hits-any i s.num_replicas s.request_counter h
