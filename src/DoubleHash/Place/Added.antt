-- ===== src/DoubleHash/Place/Added.antt =====
-- add_request_to_best_global_queue puts the request into one queue.
use dual_map.Prelude.{
  by_cases, ℕ, ◌+◌, ◌<◌, ◌≡◌, refl, sym, Bool, true, false, ◌&&◌, some, List, ℤ, pos, if◌then◌else◌,
  ◌==◌, arith, ◌>>=◌, inl, inr,
}
use mathlib.Core.Path.{subst}
use native.Mathlib.Nat.{mod-lt}
use dual_map.Request.{Request, shortest_prefix}
use dual_map.SharedState.{SharedState}
use dual_map.GlobalRequestQueue.{GlobalRequestQueue, push, push_in, item_of}
use dual_map.GlobalRequestQueue.Steps.{Operation-AllCounted, pushed}
use dual_map.GlobalRequestQueue.Heaps.{Operation-AllHeaps}
use dual_map.DoubleHash.{
  Config, BalanceType, dualmap_least_loaded, dualmap_cache_affinity, dualmap_min_ttft,
  dualmap_no_rebalance, dualmap, ttft_slo, ttft_avg, nb_cost1, rb_cost1, rb_cost1_aggresive,
  rb_cost1_avg, other, choose_replica_ids, choose_primary, select, affinity_unless_overloaded,
  pending_input_tokens, hit, ttft, cost, running_req_blocks_cnt,
}
use dual_map.DoubleHash.Choices.{
  IsPairOf, select_replicas_based_on_metrics-IsBest, affinity_unless_overloaded-IsAffine,
}
use dual_map.DoubleHash.Rebalance.{Router}
use dual_map.DoubleHash.Rebalance.Rounds.{times_in-Permᴰ, times_queued-at_replica}
use dual_map.DoubleHash.Place.{
  Outside, rebalance_at, placement, chosen_replica_ids, enqueue, add_request_to_best_global_queue,
  assign_replicas, is_overloaded, num_migrate_tokens,
}
use dual_map.DoubleHash.Place.Kept.{
  IsStep, as-IsStep, nothing, two_steps, Gives, Gives-itself, then-Gives, rebalance_at-Gives,
}

-- The rings answer with a replica, and the sample has both elements.
pub record IsOutside (x : Outside) (n : ℕ) : Type 0 where
  pub ring1 : (prefix : List ℕ) → x.hash_function1 prefix n < n
  pub ring2 : (prefix : List ℕ) → x.hash_function2 prefix n < n
  pub sampled : (pair : ℕ × ℕ) → IsPairOf pair (x.sample pair)

abbrev pub one_of : Request → ℕ → ℕ
one_of request id = if request.id == id then 1 else 0

module _ (x : Outside) (c : Config) (now : ℕ) where
  choose_replica_ids-within :
      (n : ℕ) (request : Request)
      → IsOutside x n
      → let (a, b) = choose_replica_ids x.hash_function1 x.hash_function2 n request in
        (a < n) × (b < n)
  unfolding choose_replica_ids
  choose_replica_ids-within n request o =
      let prefix = shortest_prefix request.hash_session_id in
      let h₁ = o.ring1 prefix in
      let h₂ = o.ring2 prefix in
      (
        h₁,
        by_cases (λ r. r < n) (x.hash_function1 prefix n == x.hash_function2 prefix n)
            (mod-lt (x.hash_function1 prefix n + 1) (omega (arith, h₁))) h₂,
      )

  -- The pair of any choice is the one chosen from.
  choose_primary-IsPairOf :
      (n : ℕ) (s : SharedState) (q : GlobalRequestQueue) (request : Request) (a b : ℕ)
      (t : BalanceType)
      → IsOutside x n
      → IsPairOf (a, b) (choose_primary x.hash now c s q request x.sample (a, b) t)
  unfolding choose_primary
  choose_primary-IsPairOf n s q request a b t o = go t
    where
      by_metric :
          (metric : ℕ → ℤ) (largest : Bool)
          → IsPairOf (a, b) (select x.hash now c s q request x.sample (a, b) metric largest)
      by_metric metric largest =
          (select_replicas_based_on_metrics-IsBest x.sample metric
            (running_req_blocks_cnt x.hash now c s q request) a b largest (o.sampled (a, b))).0

      by_affinity :
          IsPairOf (a, b) (affinity_unless_overloaded x.hash now c s q request x.sample (a, b))
      by_affinity =
          (affinity_unless_overloaded-IsAffine x.hash now c s q request x.sample a b
            (o.sampled (a, b))).0

      go :
          (t : BalanceType)
          → IsPairOf (a, b) (choose_primary x.hash now c s q request x.sample (a, b) t)
      go dualmap_least_loaded = by_metric (pending_input_tokens x.hash now c s q request) false
      go dualmap_cache_affinity = by_metric (hit x.hash now c s q request x.sample (a, b)) true
      go dualmap_min_ttft = by_metric (ttft x.hash now c s q request) false
      go dualmap_no_rebalance = by_affinity
      go dualmap = by_affinity
      go ttft_slo = by_affinity
      go ttft_avg = by_affinity
      go nb_cost1 = by_metric (cost x.hash now c s q request) false
      go rb_cost1 = by_metric (cost x.hash now c s q request) false
      go rb_cost1_aggresive = by_metric (cost x.hash now c s q request) false
      go rb_cost1_avg = by_metric (cost x.hash now c s q request) false
      go other = inl refl

  pair_within : (n : ℕ) (p r : ℕ × ℕ) → IsPairOf p r → (p.0 < n) × (p.1 < n) → (r.0 < n) × (r.1 < n)
  pair_within n (a, b) r (inl e) (h, g) = subst (λ r. (r.0 < n) × (r.1 < n)) (sym e) (h, g)
  pair_within n (a, b) r (inr e) (h, g) = subst (λ r. (r.0 < n) × (r.1 < n)) (sym e) (g, h)

  placement-within :
      (request : Request) (w : Router)
      → IsOutside x w.shared.num_replicas
      → ((placement x c now request w).0 < w.shared.num_replicas)
        × ((placement x c now request w).1 < w.shared.num_replicas)
  placement-within request w o =
      let (a, b) = chosen_replica_ids x c now request w in
      pair_within w.shared.num_replicas (a, b) _
        (choose_primary-IsPairOf w.shared.num_replicas w.shared w.queues request a b c.balance_type
          o)
        (choose_replica_ids-within w.shared.num_replicas request o)

  enqueue-IsStep :
      (request : Request) (w : Router)
      → IsOutside x w.shared.num_replicas
      → IsStep nothing (one_of request) w (enqueue x c now request w)
  unfolding push
  enqueue-IsStep request w o =
      let (h, g) = placement-within request w o in
      let primary = (placement x c now request w).0 in
      let hits =
        hit x.hash now c w.shared w.queues request x.sample
          (chosen_replica_ids x c now request w) in
      let r = w.queues.queues primary in
      record {
        entries = λ id.
            let sum =
              times_queued-at_replica id w.shared.num_replicas primary
                (push_in x.heapq request (hits primary) r) w.queues in
            let perm =
              times_in-Permᴰ id (x.heapq.heappush-Permᴰ r.queue (item_of request (hits primary))) in
            ground (arith, sum, perm, h);
        counted = λ all.
            Operation-AllCounted x.heapq {q = w.queues} (pushed primary request (hits primary)) all;
        heaps = λ all.
            Operation-AllHeaps x.heapq {q = w.queues} (pushed primary request (hits primary)) tt
              all;
        replicas = refl;
      }

  both_rebalanced :
      (primary second : ℕ) (few many : ℤ) (w : Router)
      → primary < w.shared.num_replicas
      → second < w.shared.num_replicas
      → Gives w (rebalance_at x c now primary few w >>= rebalance_at x c now second many)
  both_rebalanced primary second few many w h g =
      then-Gives w _ (rebalance_at x c now second many) (rebalance_at-Gives x c now primary few w h)
        (λ w' s.
          rebalance_at-Gives x c now second many w' (subst (λ n. second < n) (sym s.replicas) g))

  -- The request is in the queues once more than before, all others as often as before, and it has its two replicas.
  pub record IsPlaced (request : Request) (w w' : Router) : Type 0 where
    pub step : IsStep nothing (one_of request) w w'
    pub primary : (w'.store request.id).primary_replica ≡ pos (placement x c now request w).0
    pub second : (w'.store request.id).second_replica ≡ pos (placement x c now request w).1

  placed :
      (request : Request) (w w₁ : Router)
      → IsStep nothing (one_of request) w w₁
      → IsPlaced request w (assign_replicas request (placement x c now request w) w₁)
  placed request w w₁ s = record {
    step = record {
      entries = s.entries;
      counted = s.counted;
      heaps = s.heaps;
      replicas = s.replicas;
    };
    primary = ground arith;
    second = ground arith;
  }

  -- If the rings answer with replicas, add_request_to_best_global_queue ends, whether or not it rebalances the
  -- queues of the two replicas. The queues then hold one more entry of the request and as many entries of every
  -- other request as before, and the request is assigned the two replicas that were chosen for it; counts that
  -- were sums over the entries still are, and heaps are heaps.
  pub add_request_to_best_global_queue-IsPlaced :
      (request : Request) (w : Router)
      → IsOutside x w.shared.num_replicas
      → (w' : Router) × (add_request_to_best_global_queue x c now request w ≡ some w')
        × IsPlaced request w w'
  unfolding add_request_to_best_global_queue
  add_request_to_best_global_queue-IsPlaced request w o =
      let (h, g) = placement-within request w o in
      let (primary, second) = placement x c now request w in
      let full = is_overloaded x c now request w primary in
      let (w₁, e, s) =
        by_cases (Gives (enqueue x c now request w)) (full primary && full second)
          (both_rebalanced primary second (num_migrate_tokens x c now request w primary primary)
            (num_migrate_tokens x c now request w primary second) (enqueue x c now request w) h g)
          (Gives-itself (enqueue x c now request w)) in
      (
        assign_replicas request (primary, second) w₁,
        rw e refl,
        placed request w w₁ (
            as-IsStep _ _ nothing (one_of request) w w₁ (λ id. omega arith)
              (two_steps nothing (one_of request) nothing nothing w _ w₁
                (enqueue-IsStep request w o) s)),
      )
