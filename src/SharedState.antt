-- ===== src/SharedState.antt =====
-- dualmap/scheduler/utils/shared.py: what the router knows of the replicas, and the choices of a replica. The table of
-- the tasks that post requests is in SharedState/Posting.antt.
pub mod Choices
pub mod Posting
pub mod Leaks
pub mod Tests
use dual_map.Prelude.{
  ℕ, suc, ◌+◌, ◌-◌, ◌≡◌, Bool, true, false, none, some, Option, List, [], ◌∷◌, ℤ, pos, negsuc, ◌-ℤ◌,
  ltb_ℤ, ltb, if◌then◌else◌, length, range_from, ◌==◌, max, ℤ_discrete, ite, lookup, ℕ_discrete,
}
use dual_map.Prelude.Best.{choose}
use dual_map.Prelude.Dict.{assign, del}
use dual_map.Request.{Request, Store, Fields, assign_fields}
use dual_map.Replica.{
  Replica, get_num_recompute_token_ids, get_load_states, get_num_actual_pending_tokens,
}

pub record SharedState : Type 0 where
  pub num_replicas : ℕ
  pub replica_budgets : ℕ → Replica
  pub replica_slo_budget : ℤ

abbrev pub replica_ids : SharedState → List ℕ
replica_ids s = range_from 0 s.num_replicas

abbrev pub input_tokens_of : List Request → ℕ
input_tokens_of [] = 0
input_tokens_of (q ∷ l) = length q.input_ids + input_tokens_of l

unfoldable pub get_pending_input_tokens_replica : ℕ → SharedState → ℕ
get_pending_input_tokens_replica replica_id s =
    input_tokens_of (s.replica_budgets replica_id).pending_requests

unfoldable pub get_num_actual_pending_tokens_replica : ℕ → SharedState → ℤ
get_num_actual_pending_tokens_replica replica_id s =
    get_num_actual_pending_tokens (s.replica_budgets replica_id)

-- The body of the loop of `get_min_pending_input_tokens_replica`.
abbrev pub keep_min : (ℕ → ℕ) → ℕ → Option (ℕ × ℕ) → Option (ℕ × ℕ)
keep_min total replica_id none = some (replica_id, total replica_id)
keep_min total replica_id (some (min_replica_id, min_tokens)) =
    if ltb (total replica_id) min_tokens
    then some (replica_id, total replica_id)
    else some (min_replica_id, min_tokens)

abbrev pub min_loop : (ℕ → ℕ) → List ℕ → Option (ℕ × ℕ) → Option (ℕ × ℕ)
min_loop total [] best = best
min_loop total (replica_id ∷ ids) best = min_loop total ids (keep_min total replica_id best)

unfoldable pub get_min_pending_input_tokens_replica : SharedState → Option (ℕ × ℕ)
unfolding get_pending_input_tokens_replica
get_min_pending_input_tokens_replica s =
    min_loop (λ replica_id. get_pending_input_tokens_replica replica_id s) (replica_ids s) none

abbrev pub max_hit : (ℕ → ℕ) → List ℕ → ℤ
max_hit hit [] = negsuc 0
max_hit hit (replica_id ∷ ids) = pos (choose (λ a b. ltb b a) hit replica_id ids)

abbrev pub largest : (ℕ → ℤ) → List ℕ → Option ℤ
largest budget [] = none
largest budget (i ∷ ids) = some (budget (choose (λ a b. ltb_ℤ b a) budget i ids))

abbrev pub with_budget : (ℕ → ℤ) → ℤ → List ℕ → List ℕ
with_budget budget v [] = []
with_budget budget v (i ∷ ids) =
    let rest = with_budget budget v ids in ite (ℤ_discrete (budget i) v) (i ∷ rest) rest

module _ (hash : Bool → Option ℕ → List ℕ → ℕ) where
  unfoldable pub prefix_cache_hit_len : Request → SharedState → ℕ → ℕ
  prefix_cache_hit_len request s replica_id =
      length request.input_ids
      - get_num_recompute_token_ids hash request.input_ids (s.replica_budgets replica_id)

  unfoldable pub get_max_cache_hit_replica : Request → SharedState → ℤ
  get_max_cache_hit_replica request s = max_hit (prefix_cache_hit_len request s) (replica_ids s)

  -- `current_budget - actual_num_prefill_tokens` of the loop of `get_min_ttft_replica`.
  unfoldable pub waiting_budget : Request → SharedState → ℕ → ℤ
  waiting_budget request s replica_id =
      (s.replica_budgets replica_id).current_budget
      -ℤ pos (get_num_recompute_token_ids hash request.input_ids (s.replica_budgets replica_id))

  -- `get_load_states` of each replica sets the time of its last prefill where there is none.
  unfoldable pub poll_all : ℕ → SharedState → SharedState
  poll_all now s = record s {
    replica_budgets = λ i.
        if ltb i s.num_replicas
        then (get_load_states now (s.replica_budgets i)).1
        else s.replica_budgets i;
  }

  abbrev pub choose_among : (List ℕ → ℕ) → Request → SharedState → Option ℤ → Option (ℕ × ℕ)
  choose_among choice request s none = none
  choose_among choice request s (some max_pending_waiting_budget) =
      let chosen =
        choice
          (with_budget (waiting_budget request s) max_pending_waiting_budget (replica_ids s)) in
      some (chosen, get_num_recompute_token_ids hash request.input_ids (s.replica_budgets chosen))

  -- `choice` is `random.Random(42).choice`. With no replica the source looks up the budget of the
  -- replica -1, which raises KeyError: `none`.
  unfoldable pub get_min_ttft_replica :
      (List ℕ → ℕ) → ℕ → Request → SharedState → Option (ℕ × ℕ) × SharedState
  get_min_ttft_replica choice now request s = (
    choose_among choice request s (largest (waiting_budget request s) (replica_ids s)),
    poll_all now s,
  )
