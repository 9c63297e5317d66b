-- ===== src/DoubleHash.antt =====
-- dualmap/scheduler/utils/double_hash_global_scheduler_utils.py: how DoubleHashGlobalSchedulerUtils chooses
-- two replicas for a request and which of them is the primary one. Latencies and costs, which the
-- source rounds to four decimals, are integers in units of 1/10000.
pub mod Choices
pub mod Enqueue
pub mod Rebalance
pub mod Place
pub mod Schedule
pub mod Tests
use dual_map.Prelude.{
  ℕ, suc, ◌+◌, ◌-◌, ◌*◌, ◌%◌, ◌≡◌, Bool, true, false, not, ◌||◌, Option, List, [], ◌∷◌, ℤ, pos,
  negsuc, ◌+ℤ◌, ◌-ℤ◌, neg, ltb_ℤ, ltb, pos_part, neg_part, ◌==◌, if◌then◌else◌, length, max,
}
use dual_map.Prelude.Best.{choose}
use dual_map.Request.{Request, shortest_prefix}
use dual_map.Replica
use dual_map.Replica.{
  Replica, round_div, get_num_recompute_token_ids, get_request_rate, get_running_req_blocks_cnt,
}
use dual_map.SharedState.{
  SharedState, get_pending_input_tokens_replica, get_num_actual_pending_tokens_replica,
  prefix_cache_hit_len,
}
use dual_map.GlobalRequestQueue.{
  GlobalRequestQueue, get_global_actual_waiting_tokens_count, get_global_input_waiting_tokens_count,
}

pub data BalanceType : Type 0 where
  dualmap_least_loaded : BalanceType
  dualmap_cache_affinity : BalanceType
  dualmap_min_ttft : BalanceType
  dualmap_no_rebalance : BalanceType
  dualmap : BalanceType
  ttft_slo : BalanceType
  ttft_avg : BalanceType
  nb_cost1 : BalanceType
  rb_cost1 : BalanceType
  rb_cost1_aggresive : BalanceType
  rb_cost1_avg : BalanceType
  other : BalanceType

-- `prefill_tpot` and `dh_recompute_punish_ratio` are fractions. The latency threshold is in hundredths of
-- a second, to which waiting delays are rounded, and the interval in units of 1/10000 of a second.
pub record Config : Type 0 where
  pub balance_type : BalanceType
  pub dh_first_balance_ttft_thredhold : ℤ
  pub prefill_tpot_num : ℕ
  pub prefill_tpot_den : ℕ
  pub dh_recompute_punish_ratio_num : ℕ
  pub dh_recompute_punish_ratio_den : ℕ
  pub dh_rebalance_thredhold : ℤ
  pub dh_rebalance_waiting_latency_thredhold : ℕ
  pub dh_replica_pending_req_threshold : ℕ
  pub busy_prefill_interval : ℕ

-- The two hashes are what the rings answer for a prefix and a number of nodes.
module _ (hash_function1 hash_function2 : List ℕ → ℕ → ℕ) where
  unfoldable pub choose_replica_ids : ℕ → Request → ℕ × ℕ
  choose_replica_ids num_replicas request =
      let prefix = shortest_prefix request.hash_session_id in
      let replica_id1 = hash_function1 prefix num_replicas in
      let replica_id2 = hash_function2 prefix num_replicas in
      (
        replica_id1,
        (if replica_id1 == replica_id2 then (replica_id1 + 1) % num_replicas else replica_id2),
      )

  -- Where a request that waits for `source_replica_id` could go.
  unfoldable pub target_replica : ℕ → ℕ → Request → ℕ
  target_replica num_replicas source_replica_id request =
      let (replica_id1, replica_id2) = choose_replica_ids num_replicas request in
      if source_replica_id == replica_id1 then replica_id2 else replica_id1

-- `max` and `min` over the items of a dict with the two replicas, by value.
abbrev pub max_item : (ℕ → ℤ) → ℕ → ℕ → ℕ
max_item metric a b = choose (λ v w. ltb_ℤ w v) metric a (b ∷ [])

abbrev pub min_item : (ℕ → ℤ) → ℕ → ℕ → ℕ
min_item metric a b = choose ltb_ℤ metric a (b ∷ [])

-- `sample` is `random.sample(chosen_replica_ids, 2)` after `random.seed(42)`.
unfoldable pub select_replicas_based_on_metrics :
    (ℕ × ℕ → ℕ × ℕ) → (ℕ → ℤ) → (ℕ → ℤ) → ℕ × ℕ → Bool → ℕ × ℕ
select_replicas_based_on_metrics sample metric blocks (replica_id1, replica_id2) primary_is_max =
    if not (
      ltb_ℤ (metric replica_id1) (metric replica_id2)
      || ltb_ℤ (metric replica_id2) (metric replica_id1))
    then (if not (
          ltb_ℤ (blocks replica_id1) (blocks replica_id2)
          || ltb_ℤ (blocks replica_id2) (blocks replica_id1))
        then sample (replica_id1, replica_id2)
        else (min_item blocks replica_id1 replica_id2, max_item blocks replica_id1 replica_id2))
    else (if primary_is_max
        then (max_item metric replica_id1 replica_id2, min_item metric replica_id1 replica_id2)
        else (min_item metric replica_id1 replica_id2, max_item metric replica_id1 replica_id2))

-- Python's `round` of a fraction, to an integer.
abbrev pub round_ℤ : ℤ → ℕ → ℤ
round_ℤ (pos a) b = pos (round_div a b)
round_ℤ (negsuc a) b = neg (pos (round_div (suc a) b))

abbrev pub scale : ℕ → ℤ → ℤ
scale n (pos a) = pos (n * a)
scale n (negsuc a) = neg (pos (n * suc a))

-- `round(tokens * prefill_tpot, 4)`
unfoldable pub prefill_latency : Config → ℤ → ℤ
prefill_latency c tokens = round_ℤ (scale (10_000 * c.prefill_tpot_num) tokens) c.prefill_tpot_den

-- `round(ttft + punish_ratio * ttft * qps * recompute_latency, 4)`, where `qps` too is in 1/10000.
unfoldable pub cost_of : Config → ℤ → ℕ → ℕ → ℤ
cost_of c ttft qps recompute_latency =
    let unit = 100_000_000 * c.dh_recompute_punish_ratio_den in
    round_ℤ (scale (unit + c.dh_recompute_punish_ratio_num * qps * recompute_latency) ttft) unit

module _ (hash : Bool → Option ℕ → List ℕ → ℕ) (now : ℕ) (c : Config) (s : SharedState)
    (q : GlobalRequestQueue) (request : Request) where
  -- The entries of the dicts that `add_request_to_best_global_queue` fills for a replica.
  unfoldable pub recompute : ℕ → ℕ
  recompute replica_id =
      get_num_recompute_token_ids hash request.input_ids (s.replica_budgets replica_id)

  unfoldable pub pending_input_tokens : ℕ → ℤ
  pending_input_tokens replica_id =
      get_global_input_waiting_tokens_count replica_id q
      +ℤ pos (get_pending_input_tokens_replica replica_id s)

  unfoldable pub num_virtual_pending_tokens : ℕ → ℤ
  unfolding recompute
  num_virtual_pending_tokens replica_id =
      get_global_actual_waiting_tokens_count replica_id q
      +ℤ get_num_actual_pending_tokens_replica replica_id s
      +ℤ pos (recompute replica_id)

  unfoldable pub ttft : ℕ → ℤ
  unfolding num_virtual_pending_tokens
  ttft replica_id = prefill_latency c (num_virtual_pending_tokens replica_id)

  unfoldable pub cost : ℕ → ℤ
  unfolding ttft recompute
  cost replica_id =
      cost_of c (ttft replica_id) (get_request_rate now (s.replica_budgets replica_id))
        (pos_part (prefill_latency c (pos (recompute replica_id))))

  unfoldable pub running_req_blocks_cnt : ℕ → ℤ
  running_req_blocks_cnt replica_id =
      pos (get_running_req_blocks_cnt (s.replica_budgets replica_id))

  unfoldable pub is_replica_overloaded : ℕ → Bool
  unfolding num_virtual_pending_tokens
  is_replica_overloaded replica_id =
      ltb_ℤ c.dh_first_balance_ttft_thredhold (num_virtual_pending_tokens replica_id)

  module _ (sample : ℕ × ℕ → ℕ × ℕ) (chosen : ℕ × ℕ) where
    abbrev pub select : (ℕ → ℤ) → Bool → ℕ × ℕ
    select metric = select_replicas_based_on_metrics sample metric running_req_blocks_cnt chosen

    abbrev pub hit : ℕ → ℤ
    hit replica_id = pos (prefix_cache_hit_len hash request s replica_id)

    -- The branch of `dualmap` and of three other types.
    unfoldable pub affinity_unless_overloaded : ℕ × ℕ
    affinity_unless_overloaded =
        let (high, low) = select hit true in
        if is_replica_overloaded high then select ttft false else (high, low)

    -- The primary and the second replica. An unknown type keeps the order of the hashes.
    unfoldable pub choose_primary : BalanceType → ℕ × ℕ
    choose_primary dualmap_least_loaded = select pending_input_tokens false
    choose_primary dualmap_cache_affinity = select hit true
    choose_primary dualmap_min_ttft = select ttft false
    choose_primary dualmap_no_rebalance = affinity_unless_overloaded
    choose_primary dualmap = affinity_unless_overloaded
    choose_primary ttft_slo = affinity_unless_overloaded
    choose_primary ttft_avg = affinity_unless_overloaded
    choose_primary nb_cost1 = select cost false
    choose_primary rb_cost1 = select cost false
    choose_primary rb_cost1_aggresive = select cost false
    choose_primary rb_cost1_avg = select cost false
    choose_primary other = chosen
