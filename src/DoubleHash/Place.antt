-- ===== src/DoubleHash/Place.antt =====
-- dualmap/scheduler/utils/double_hash_global_scheduler_utils.py: add_request_to_best_global_queue, which puts a request
-- into the queue of one of its two replicas (a request that is None goes nowhere), and get_schedulable_waiting_req_list, which takes requests out of the
-- queues for replicas that have room. The clock is read once for a call.
pub mod Kept
pub mod Added
pub mod Taken
use dual_map.Prelude.{
  ℕ, ◌+◌, ◌-◌, ◌≡◌, Bool, true, false, not, ◌||◌, ◌&&◌, none, some, Option, List, [], ◌∷◌, ◌++◌, ℤ,
  pos, ◌+ℤ◌, ◌-ℤ◌, ltb_ℤ, leb, ltb, ◌==◌, if◌then◌else◌, range_from, ◌>>=◌,
}
use dual_map.Request.{Request, Fields, Store, assign_fields}
use dual_map.Replica.{round_div, LoadStates, get_load_states}
use dual_map.SharedState.{SharedState, get_num_actual_pending_tokens_replica}
use dual_map.GlobalRequestQueue.{
  GlobalRequestQueue, get_global_actual_waiting_tokens_count, get_max_waiting_delay, is_empty, push,
  pop_schedulable,
}
use dual_map.GlobalRequestQueue.Entry.{Heapq}
use dual_map.DoubleHash.{
  Config, choose_replica_ids, choose_primary, recompute, num_virtual_pending_tokens, hit, ttft,
}
use dual_map.DoubleHash.Enqueue.{mark}
use dual_map.DoubleHash.Rebalance.{Router, rebalance}

-- `get_load_states` of one replica.
abbrev pub poll : ℕ → ℕ → SharedState → LoadStates × SharedState
poll now replica_id s =
    let (load, r) = get_load_states now (s.replica_budgets replica_id) in
    (load, record s { replica_budgets = λ i. if i == replica_id then r else s.replica_budgets i })

abbrev pub assign_replicas : Request → ℕ × ℕ → Router → Router
assign_replicas request (primary, second) w = record w {
  store =
      assign_fields request
        (record (w.store request.id) { primary_replica = pos primary; second_replica = pos second })
        w.store;
}

-- What the scheduler's code gets from elsewhere: the two hash rings, the hash of a block, `heapq` and `random.sample`.
pub record Outside : Type 0 where
  pub hash_function1 : List ℕ → ℕ → ℕ
  pub hash_function2 : List ℕ → ℕ → ℕ
  pub hash : Bool → Option ℕ → List ℕ → ℕ
  pub heapq : Heapq
  pub sample : ℕ × ℕ → ℕ × ℕ

module _ (x : Outside) (c : Config) (now : ℕ) where
  abbrev pub rebalance_at : ℕ → ℤ → Router → Option Router
  rebalance_at = rebalance x.hash_function1 x.hash_function2 x.hash x.heapq c now

  abbrev pub chosen_replica_ids : Request → Router → ℕ × ℕ
  chosen_replica_ids request w =
      choose_replica_ids x.hash_function1 x.hash_function2 w.shared.num_replicas request

  -- The primary and the second replica.
  abbrev pub placement : Request → Router → ℕ × ℕ
  placement request w =
      choose_primary x.hash now c w.shared w.queues request x.sample (chosen_replica_ids request w)
        c.balance_type

  -- `num_pending_tokens_list`: the request is counted where it will wait.
  abbrev pub num_pending_tokens : Request → Router → ℕ → ℕ → ℤ
  num_pending_tokens request w primary replica_id =
      let virtual = num_virtual_pending_tokens x.hash now c w.shared w.queues request replica_id in
      if replica_id == primary
      then virtual
      else virtual -ℤ pos (recompute x.hash now c w.shared w.queues request replica_id)

  abbrev pub num_migrate_tokens : Request → Router → ℕ → ℕ → ℤ
  num_migrate_tokens request w primary replica_id =
      num_pending_tokens request w primary replica_id -ℤ c.dh_rebalance_thredhold

  abbrev pub needs_rebalance : ℤ → ℕ → Bool
  needs_rebalance tokens delay =
      ltb_ℤ c.dh_rebalance_thredhold tokens || leb c.dh_rebalance_waiting_latency_thredhold delay

  abbrev pub is_overloaded : Request → Router → ℕ → ℕ → Bool
  is_overloaded request w primary replica_id =
      needs_rebalance (num_pending_tokens request w primary replica_id)
        (get_max_waiting_delay now replica_id w.queues)

  -- The request is marked and waits at its primary replica; both replicas have been asked for their load.
  abbrev pub enqueue : Request → Router → Router
  enqueue request w =
      let (replica_id1, replica_id2) = chosen_replica_ids request w in
      let hits =
        hit x.hash now c w.shared w.queues request x.sample (chosen_replica_ids request w) in
      let primary = (placement request w).0 in
      record w {
        store =
            assign_fields request
              (mark hits (ttft x.hash now c w.shared w.queues request)
                (chosen_replica_ids request w) primary (w.store request.id))
              w.store;
        shared = (poll now replica_id2 (poll now replica_id1 w.shared).1).1;
        queues = push x.heapq primary request (hits primary) w.queues;
      }

  unfoldable pub add_request_to_best_global_queue : Request → Router → Option Router
  add_request_to_best_global_queue request w = do
    let (primary, second) = placement request w
    let full = is_overloaded request w primary
    w' ←
        if full primary && full second
        then (rebalance_at primary (num_migrate_tokens request w primary primary)
              (enqueue request w)
            >>= rebalance_at second (num_migrate_tokens request w primary second))
        else some (enqueue request w)
    some (assign_replicas request (primary, second) w')

  -- The first loop of `get_schedulable_waiting_req_list`.
  abbrev pub relieve : ℕ → Router → Option Router
  relieve rid w =
      let num_pending_tokens =
        get_global_actual_waiting_tokens_count rid w.queues
        +ℤ get_num_actual_pending_tokens_replica rid w.shared in
      if needs_rebalance num_pending_tokens (get_max_waiting_delay now rid w.queues)
      then rebalance_at rid (num_pending_tokens -ℤ c.dh_rebalance_thredhold) w
      else some w

  abbrev pub relieve_all : List ℕ → Router → Option Router
  relieve_all [] w = some w
  relieve_all (rid ∷ rids) w = relieve rid w >>= relieve_all rids

  -- Whether the second loop takes requests from the queue of a replica. The interval is rounded to 1/10000 s.
  abbrev pub has_room : ℕ → LoadStates → GlobalRequestQueue → Bool
  has_room rid load q =
      let prefill_interval = round_div (now - load.last_prefill_completed_at) 100 in
      not (is_empty rid q)
      && ltb_ℤ (pos 0) load.current_budget
      && (load.num_pending_requests == 0
          || leb load.num_pending_requests c.dh_replica_pending_req_threshold
            && ltb prefill_interval c.busy_prefill_interval)

  abbrev pub take_schedulable : ℕ → Router → Option (List Request × Router)
  take_schedulable rid w = do
    let (load, shared) = poll now rid w.shared
    let max_pop_num = pos c.dh_replica_pending_req_threshold -ℤ pos load.num_pending_requests
    (requests, queues) ←
        if has_room rid load w.queues
        then pop_schedulable x.heapq rid load.current_budget (some max_pop_num) w.queues
        else some ([], w.queues)
    some (requests, record w { shared = shared; queues = queues })

  abbrev pub take_all : List ℕ → Router → Option (List Request × Router)
  take_all [] w = some ([], w)
  take_all (rid ∷ rids) w = do
    (requests, w₁) ← take_schedulable rid w
    (others, w₂) ← take_all rids w₁
    some (requests ++ others, w₂)

  unfoldable pub get_schedulable_waiting_req_list : Router → Option (List Request × Router)
  get_schedulable_waiting_req_list w = do
    let rids = range_from 0 w.shared.num_replicas
    w' ← relieve_all rids w
    take_all rids w'
