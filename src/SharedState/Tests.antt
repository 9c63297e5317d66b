-- ===== src/SharedState/Tests.antt =====
-- Three replicas, and the choices among them.
use dual_map.Prelude.{
  ℕ, ◌+◌, ◌≡◌, refl, Bool, true, none, some, Option, List, [], ◌∷◌, pos, ltb, ◌≤ℤ◌, All, arith,
  if◌then◌else◌, ◌==◌,
}
use dual_map.Prelude.Best.{IsFirstBest}
use dual_map.KvcacheStore.Mgr
use dual_map.Request.{Request}
use dual_map.Replica
use dual_map.Replica.{Replica, get_num_recompute_token_ids}
use dual_map.SharedState.{
  SharedState, replica_ids, get_min_pending_input_tokens_replica, get_pending_input_tokens_replica,
  prefix_cache_hit_len, get_max_cache_hit_replica, waiting_budget, get_min_ttft_replica,
}
use dual_map.SharedState.Choices.{
  get_max_cache_hit_replica-IsFirstBest, get_min_ttft_replica-most, elem,
}

abbrev hash : Bool → Option ℕ → List ℕ → ℕ
hash first none ids = 1
hash first (some prev) ids = prev + 1

abbrev request : Request
request = record {
  id = 1;
  native_session_id = 0;
  hash_session_id = [];
  input_ids = 1 ∷ 2 ∷ 3 ∷ [];
  num_prefill_tokens = 3;
  output_len = 4;
  arrived_at = 0;
}

-- The replica 0 has the request pending.
abbrev replica : ℕ → Replica
replica i =
    let r =
      Replica.init i (pos (50 + i)) 2
        (Mgr.init (record { block_size = 2; kv_cache_per_token = 1; num_blocks = 100 })) in
    if i == 0 then record r { pending_requests = request ∷ [] } else r

abbrev three : SharedState
three = record { num_replicas = 3; replica_budgets = replica; replica_slo_budget = pos 50 }

abbrev first : List ℕ → ℕ
first [] = 0
first (i ∷ ids) = i

first_fair : (i : ℕ) (rest : List ℕ) → elem (first (i ∷ rest)) (i ∷ rest) ≡ true
first_fair i rest = ground arith

one_has_fewest : get_min_pending_input_tokens_replica three ≡ some (1, 0)
unfolding get_min_pending_input_tokens_replica get_pending_input_tokens_replica Replica.init
one_has_fewest = refl

get_max_cache_hit_replica-IsFirstBest_example :
    (r : ℕ) × (get_max_cache_hit_replica hash request three ≡ pos r)
    × IsFirstBest (λ a b. ltb b a) (prefix_cache_hit_len hash request three) (replica_ids three) r
get_max_cache_hit_replica-IsFirstBest_example =
    get_max_cache_hit_replica-IsFirstBest hash request three (omega arith)

get_min_ttft_replica-most_example :
    (r : ℕ) × ((get_min_ttft_replica hash first 5 request three).0
      ≡ some (r, get_num_recompute_token_ids hash request.input_ids (three.replica_budgets r)))
    × (elem r (replica_ids three) ≡ true)
    × All
        (λ i. waiting_budget hash request three i ≤ℤ waiting_budget hash request three r)
        (replica_ids three)
get_min_ttft_replica-most_example =
    get_min_ttft_replica-most hash first 5 request three first_fair (omega arith)
