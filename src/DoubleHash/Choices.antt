-- ===== src/DoubleHash/Choices.antt =====
-- The two replicas of a request, and which one is the primary.
use dual_map.Prelude.{
  by_cases_of, ltb, ℕ, ◌+◌, ◌%◌, ◌<◌, ◌≤◌, ◌≡◌, ◌≢◌, refl, Bool, true, false, Option, List, ℤ, ◌≤ℤ◌,
  if◌then◌else◌, Bool-cases, inl, inr, ◌⊎◌, arith,
}
use mathlib.Core.Path.{subst}
use native.Mathlib.Nat.{mod-eq_of_lt, mod_self}
use dual_map.Request.{Request, shortest_prefix}
use dual_map.SharedState.{SharedState}
use dual_map.GlobalRequestQueue.{GlobalRequestQueue}
use dual_map.DoubleHash.{
  Config, choose_replica_ids, target_replica, select_replicas_based_on_metrics,
  affinity_unless_overloaded, running_req_blocks_cnt, hit, ttft, is_replica_overloaded,
}

next_mod : (n i : ℕ) → 2 ≤ n → i < n → ((i + 1) % n < n) × ((i + 1) % n ≢ i)
next_mod n i h lt = elim (Bool-cases (ltb (i + 1) n)) [
  | inl inside ↦
      let e = mod-eq_of_lt {n = i + 1} {m = n} (ground arith) in
      (omega (arith, e, lt), λ same. omega (arith, e, same))
  | inr last ↦
      let wraps : n ≡ i + 1 = ground arith in
      let e = subst (λ k. k % n ≡ 0) wraps (mod_self n) in
      (omega (arith, e, h), λ same. omega (arith, e, same, wraps, h))
]

-- The pair has both replicas, in one order or the other.
abbrev pub IsPairOf : ℕ × ℕ → ℕ × ℕ → Type 0
IsPairOf (a, b) p = (p ≡ (a, b)) ⊎ (p ≡ (b, a))

-- The first replica has the better metric, and of two equal ones no more blocks.
abbrev pub IsBest : (ℕ → ℤ) → (ℕ → ℤ) → Bool → ℕ × ℕ → Type 0
IsBest metric blocks primary_is_max (p, s) =
    (if primary_is_max then metric s ≤ℤ metric p else metric p ≤ℤ metric s)
    × (metric p ≡ metric s → blocks p ≤ℤ blocks s)

module _ (hash_function1 hash_function2 : List ℕ → ℕ → ℕ) where
  -- With two replicas or more, and rings that answer with one of them, the two replicas of a request
  -- are different ones.
  choose_replica_ids-distinct :
      (n : ℕ) (request : Request)
      → 2 ≤ n
      → hash_function1 (shortest_prefix request.hash_session_id) n < n
      → hash_function2 (shortest_prefix request.hash_session_id) n < n
      → let (a, b) = choose_replica_ids hash_function1 hash_function2 n request in
        (a < n) × (b < n) × (a ≢ b)
  unfolding choose_replica_ids
  choose_replica_ids-distinct n request h h₁ h₂ =
      ground (arith, next_mod n (hash_function1 (shortest_prefix request.hash_session_id) n) h h₁)

  -- With two replicas or more, and rings that answer with one of them, the replica that a request could
  -- move to is another one than that where it waits.
  pub target_replica-distinct :
      (n source_replica_id : ℕ) (request : Request)
      → 2 ≤ n
      → hash_function1 (shortest_prefix request.hash_session_id) n < n
      → hash_function2 (shortest_prefix request.hash_session_id) n < n
      → let target = target_replica hash_function1 hash_function2 n source_replica_id request in
        (target < n) × (target ≢ source_replica_id)
  unfolding target_replica
  target_replica-distinct n source_replica_id request h h₁ h₂ =
      ground (arith, choose_replica_ids-distinct n request h h₁ h₂)

-- If the sample is the two replicas in one order or the other, so is the result, and its first one has
-- the larger metric where `primary_is_max`, else the smaller one, and where the metrics are equal no
-- more blocks.
pub select_replicas_based_on_metrics-IsBest :
    (sample : ℕ × ℕ → ℕ × ℕ) (metric blocks : ℕ → ℤ) (a b : ℕ) (primary_is_max : Bool)
    → IsPairOf (a, b) (sample (a, b))
    → IsPairOf (a, b) (select_replicas_based_on_metrics sample metric blocks (a, b) primary_is_max)
      × IsBest metric blocks primary_is_max
          (select_replicas_based_on_metrics sample metric blocks (a, b) primary_is_max)
unfolding select_replicas_based_on_metrics
select_replicas_based_on_metrics-IsBest sample metric blocks a b true (inl e) = rw e (ground arith)
select_replicas_based_on_metrics-IsBest sample metric blocks a b true (inr e) = rw e (ground arith)
select_replicas_based_on_metrics-IsBest sample metric blocks a b false (inl e) = rw e (ground arith)
select_replicas_based_on_metrics-IsBest sample metric blocks a b false (inr e) = rw e (ground arith)

-- One of the two replicas has the larger cache hit, and on equal hits no more blocks. If it is not overloaded, it comes
-- first, and the other one second. If it is, the first of the result has the smaller latency.
abbrev pub IsAffine : ℕ × ℕ → (ℕ → ℤ) → (ℕ → ℤ) → (ℕ → ℤ) → (ℕ → Bool) → ℕ × ℕ → Type 0
IsAffine chosen hits latency blocks overloaded result =
    (first : ℕ × ℕ) × IsPairOf chosen first
    × IsBest hits blocks true first
    × (overloaded first.0 ≡ false → result ≡ first)
    × (overloaded first.0 ≡ true → IsBest latency blocks false result)

module _ (hash : Bool → Option ℕ → List ℕ → ℕ) (now : ℕ) (c : Config) (s : SharedState)
    (q : GlobalRequestQueue) (request : Request) where
  -- If the sample is the two replicas in one order or the other, so is the result. One of the two has the larger
  -- cache hit. If that one is not overloaded, it is the first one of the result; if it is, the first one of the
  -- result has the smaller latency. Between equal ones the number of running blocks decides.
  pub affinity_unless_overloaded-IsAffine :
      (sample : ℕ × ℕ → ℕ × ℕ) (a b : ℕ)
      → IsPairOf (a, b) (sample (a, b))
      → IsPairOf (a, b) (affinity_unless_overloaded hash now c s q request sample (a, b))
        × IsAffine
            (a, b)
            (hit hash now c s q request sample (a, b))
            (ttft hash now c s q request)
            (running_req_blocks_cnt hash now c s q request)
            (is_replica_overloaded hash now c s q request)
            (affinity_unless_overloaded hash now c s q request sample (a, b))
  unfolding affinity_unless_overloaded
  affinity_unless_overloaded-IsAffine sample a b h =
      let hits : ℕ → ℤ = hit hash now c s q request sample (a, b) in
      let latency : ℕ → ℤ = ttft hash now c s q request in
      let blocks : ℕ → ℤ = running_req_blocks_cnt hash now c s q request in
      let overloaded : ℕ → Bool = is_replica_overloaded hash now c s q request in
      let first = select_replicas_based_on_metrics sample hits blocks (a, b) true in
      let (pair, best) = select_replicas_based_on_metrics-IsBest sample hits blocks a b true h in
      let (pair', best') =
        select_replicas_based_on_metrics-IsBest sample latency blocks a b false h in
      by_cases_of
        (λ (r : ℕ × ℕ). IsPairOf (a, b) r × IsAffine (a, b) hits latency blocks overloaded r)
        (overloaded first.0)
        (λ over.
          (pair', (first, pair, best, (λ free. absurd (ground (arith, over, free))), λ _. best')))
        (λ free.
          (pair, (first, pair, best, (λ _. refl), λ over. absurd (ground (arith, over, free)))))
