-- ===== src/DoubleHash/Rebalance.antt =====
-- dualmap/scheduler/utils/double_hash_global_scheduler_utils.py: rebalance_replica_global_waiting_reqs, which moves waiting
-- requests from the queue of one replica to those of others. The clock is read once for a call.
pub mod Rounds
pub mod Moves
pub mod Ends
use dual_map.Prelude.{
  ℕ, zero, suc, ◌+◌, ◌-◌, ◌*◌, ◌%◌, ◌≡◌, Bool, true, false, ◌||◌, ◌&&◌, none, some, Option, List,
  [], ◌∷◌, ℤ, pos, ◌+ℤ◌, ◌-ℤ◌, ltb_ℤ, leb_ℤ, max_ℤ, leb, ltb, ◌==◌, if◌then◌else◌, map,
}
use dual_map.Prelude.Best.{choose}
use dual_map.Request.{Request, Fields, Store, assign_fields}
use dual_map.Replica.{get_num_recompute_token_ids}
use dual_map.SharedState.{SharedState, get_num_actual_pending_tokens_replica, poll_all}
use dual_map.GlobalRequestQueue.{
  GlobalRequestQueue, get_global_actual_waiting_tokens_count, get_max_waiting_delay, get_queue_len,
  get_all_requests, get_num_global_actual_waiting_tokens, push, del_req,
}
use dual_map.GlobalRequestQueue.Entry.{Heapq}
use dual_map.DoubleHash.{Config, BalanceType, dualmap, target_replica, prefill_latency, scale}

-- The dicts by replica that are filled before the loop; only the first one changes in it.
pub record Loads : Type 0 where
  pub num_global_actual_waiting_tokens : ℕ → ℤ
  pub num_replica_actual_pending_tokens : ℕ → ℤ
  pub max_waiting_delay : ℕ → ℕ

-- An entry of `requests_migrate_cost`, with the request at its index. The cost is in units of
-- 1/(10000 * prefill_tpot_den).
pub record Candidate : Type 0 where
  pub request : Request
  pub cost : ℤ
  pub source_actual_prefill_len : ℕ
  pub target_replica_id : ℕ
  pub target_actual_prefill_len : ℕ

-- What the loop changes.
pub record Progress : Type 0 where
  pub store : Store
  pub queues : GlobalRequestQueue
  pub waiting : ℕ → ℤ
  pub cur_num_migrated_prefill_tokens : ℕ
  pub rebalance_cnt : ℕ

-- The replica after the source, or the one after the target, that is neither.
abbrev pub other_than : ℕ → ℕ → ℕ → Option ℕ
other_than a b t = if t == a || t == b then none else some t

unfoldable pub neighbour : ℕ → ℕ → ℕ → Option ℕ
neighbour num_replicas source target =
    let tmp = (source + 1) % num_replicas in
    if tmp == source || tmp == target
    then other_than source target ((target + 1) % num_replicas)
    else some tmp

abbrev pub with_room : (ℕ → Bool) → Option ℕ → Option ℕ
with_room is_overloaded none = none
with_room is_overloaded (some t) = if is_overloaded t then none else some t

abbrev pub best_of : Candidate → List Candidate → Candidate
best_of = choose ltb_ℤ (λ candidate. candidate.cost)

abbrev pub cons_candidate : Option Candidate → List Candidate → List Candidate
cons_candidate none l = l
cons_candidate (some candidate) l = candidate ∷ l

-- The cheapest migration, unless it costs nothing less or enough tokens have been moved.
unfoldable pub pick : ℤ → ℕ → List Candidate → Option Candidate
pick num_target migrated [] = none
pick num_target migrated (candidate ∷ l) =
    let best = best_of candidate l in
    if leb_ℤ (pos 0) best.cost
    then none
    else if ltb_ℤ (pos 0) num_target && leb_ℤ num_target (pos migrated)
    then none
    else some best

module _ (heapq : Heapq) (source : ℕ) where
  unfoldable pub migrate : Candidate → Progress → Progress
  migrate candidate p =
      let request = candidate.request in
      let target = candidate.target_replica_id in
      let hit = pos request.num_prefill_tokens -ℤ pos candidate.target_actual_prefill_len in
      record {
        store =
            assign_fields request
              (record (p.store request.id) {
                primary_replica = pos target;
                second_replica = pos source;
              })
              p.store;
        queues = push heapq target request hit (del_req heapq source (some request) p.queues).1;
        waiting = λ i.
            if i == target
            then p.waiting i +ℤ pos candidate.target_actual_prefill_len
            else p.waiting i;
        cur_num_migrated_prefill_tokens =
            p.cur_num_migrated_prefill_tokens + candidate.source_actual_prefill_len;
        rebalance_cnt = p.rebalance_cnt + 1;
      }

module _ (hash_function1 hash_function2 : List ℕ → ℕ → ℕ) (hash : Bool → Option ℕ → List ℕ → ℕ)
    (c : Config) (s : SharedState) (source : ℕ) where
  abbrev pub recompute_at : ℕ → Request → ℕ
  recompute_at replica_id request =
      get_num_recompute_token_ids hash request.input_ids (s.replica_budgets replica_id)

  unfoldable pub is_target_overloaded : Loads → Request → ℕ → Bool
  is_target_overloaded loads request target =
      ltb_ℤ c.dh_rebalance_thredhold (
        loads.num_global_actual_waiting_tokens target
        +ℤ loads.num_replica_actual_pending_tokens target
        +ℤ pos (recompute_at target request))
      || leb c.dh_rebalance_waiting_latency_thredhold (loads.max_waiting_delay target)

  unfoldable pub find_target : Loads → Request → Option ℕ
  find_target loads request =
      let target = target_replica hash_function1 hash_function2 s.num_replicas source request in
      if leb s.num_replicas target
      then none
      else if source == target || is_target_overloaded loads request target
      then with_room (is_target_overloaded loads request) (neighbour s.num_replicas source target)
      else some target

  -- The tokens in front of a request at a replica, with its own, where it would wait by its cache hit.
  unfoldable pub virtual_pending_tokens : Loads → GlobalRequestQueue → Request → ℕ → ℤ
  virtual_pending_tokens loads q request replica_id =
      let actual_prefill_len = recompute_at replica_id request in
      let hit = max_ℤ (pos 0) (pos request.num_prefill_tokens -ℤ pos actual_prefill_len) in
      get_num_global_actual_waiting_tokens replica_id request hit q
      +ℤ loads.num_replica_actual_pending_tokens replica_id
      +ℤ pos actual_prefill_len

  -- `target_ttft - source_ttft`, where only the former is rounded.
  unfoldable pub migration_cost : Loads → GlobalRequestQueue → Request → ℕ → ℤ
  migration_cost loads q request target =
      scale c.prefill_tpot_den (prefill_latency c (virtual_pending_tokens loads q request target))
      -ℤ scale (10_000 * c.prefill_tpot_num) (virtual_pending_tokens loads q request source)

  abbrev pub candidate_at : Loads → GlobalRequestQueue → Request → Option ℕ → Option Candidate
  candidate_at loads q request none = none
  candidate_at loads q request (some target) = some (record {
    request = request;
    cost = migration_cost loads q request target;
    source_actual_prefill_len = recompute_at source request;
    target_replica_id = target;
    target_actual_prefill_len = recompute_at target request;
  })

  abbrev pub candidates : Loads → GlobalRequestQueue → List Request → List Candidate
  candidates loads q [] = []
  candidates loads q (request ∷ l) =
      cons_candidate (candidate_at loads q request (find_target loads request))
        (candidates loads q l)

  module _ (heapq : Heapq) (loads : Loads) (num_target_migrate_prefill_tokens : ℤ) where
    -- `while True`, on fuel; `none` means that the fuel ran out.
    abbrev pub rebalance_loop : ℕ → Progress → Option Progress
    rebalance_loop zero p = none
    rebalance_loop (suc fuel) p =
        elim (pick num_target_migrate_prefill_tokens p.cur_num_migrated_prefill_tokens (
          candidates (record loads { num_global_actual_waiting_tokens = p.waiting }) p.queues
            (get_all_requests source p.queues))) [
              | none ↦ some p
              | some best ↦ rebalance_loop fuel (migrate heapq source best p)
            ]

-- What the scheduler changes: the fields of the requests, the replicas and the queues.
pub record Router : Type 0 where
  pub store : Store
  pub shared : SharedState
  pub queues : GlobalRequestQueue
  pub rebalance_cnt : ℕ

-- The dicts as they are filled, for every replica.
unfoldable pub loads_of : ℕ → SharedState → GlobalRequestQueue → Loads
loads_of now s q = record {
  num_global_actual_waiting_tokens = λ i. get_global_actual_waiting_tokens_count i q;
  num_replica_actual_pending_tokens = λ i. get_num_actual_pending_tokens_replica i s;
  max_waiting_delay = λ i. get_max_waiting_delay now i q;
}

abbrev pub start_of : Router → Progress
start_of w = record {
  store = w.store;
  queues = w.queues;
  waiting = λ i. get_global_actual_waiting_tokens_count i w.queues;
  cur_num_migrated_prefill_tokens = 0;
  rebalance_cnt = w.rebalance_cnt;
}

abbrev pub resume : Router → SharedState → Option Progress → Option Router
resume w s none = none
resume w s (some p) =
    some
      (record { store = p.store; shared = s; queues = p.queues; rebalance_cnt = p.rebalance_cnt })

abbrev pub is_dualmap : BalanceType → Bool
is_dualmap dualmap = true
is_dualmap _ = false

module _ (hash_function1 hash_function2 : List ℕ → ℕ → ℕ) (hash : Bool → Option ℕ → List ℕ → ℕ)
    (heapq : Heapq) (c : Config) (now : ℕ) where
  abbrev pub rebalance_all : ℕ → ℤ → Router → Option Router
  rebalance_all source num_target w = resume w (poll_all hash now w.shared) (
      rebalance_loop hash_function1 hash_function2 hash c w.shared source heapq
        (loads_of now w.shared w.queues) num_target (get_queue_len source w.queues + 1)
        (start_of w))

  -- `rebalance_replica_global_waiting_reqs`. Each round of the loop takes a request out of the queue.
  unfoldable pub rebalance : ℕ → ℤ → Router → Option Router
  rebalance source num_target w =
      if is_dualmap c.balance_type && ltb 1 (get_queue_len source w.queues)
      then rebalance_all source num_target w
      else some w
