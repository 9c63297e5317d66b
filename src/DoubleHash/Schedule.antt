-- ===== src/DoubleHash/Schedule.antt =====
-- dualmap/scheduler/global_scheduler/double_hash_global_scheduler.py: DoubleHashGlobalScheduler.schedule, which puts a new
-- request into a queue and posts what the queues give. It always answers -1. The clock is read once for a call, and
-- `create_task` is taken to succeed.
pub mod Ends
pub mod Tests
use dual_map.Prelude.{
  ℕ, ◌≡◌, Bool, true, none, some, Option, List, [], ◌∷◌, ℤ, pos, negsuc, ltb, ltb_ℤ, ◌||◌,
  if◌then◌else◌, ◌>>=◌,
}
use dual_map.Request.{Request, Fields, Store, assign_fields}
use dual_map.SharedState.{SharedState, get_max_cache_hit_replica}
use dual_map.SharedState.Posting.{Posting, add_posting_request_tasks}
use dual_map.DoubleHash.{Config}
use dual_map.DoubleHash.Enqueue.{same_value}
use dual_map.DoubleHash.Rebalance.{Router}
use dual_map.DoubleHash.Place.{
  Outside, add_request_to_best_global_queue, get_schedulable_waiting_req_list,
}

pub record System : Type 0 where
  pub router : Router
  pub posting : Posting

-- The replica that a request is assigned, where there is such a one.
abbrev pub replica_of : ℤ → ℕ → Option ℕ
replica_of (pos i) num_replicas = if ltb i num_replicas then some i else none
replica_of (negsuc i) num_replicas = none

module _ (x : Outside) (replicas_ip_port : ℕ → ℕ) (c : Config) (now : ℕ) where
  -- What `add_posting_request_tasks` does first: it notes whether the replica has the largest cache hit.
  unfoldable pub note_routing : ℕ → Request → Router → Router
  note_routing replica_id request w =
      let best = get_max_cache_hit_replica x.hash request w.shared in
      record w {
        store =
            assign_fields request
              (record (w.store request.id) {
                rounting_cache_hit_max = if same_value best (pos replica_id) then pos 1 else pos 0;
              })
              w.store;
      }

  abbrev pub post : ℕ → Request → System → System
  post replica_id request sys = record {
    router = note_routing replica_id request sys.router;
    posting = (add_posting_request_tasks replicas_ip_port true replica_id request.id sys.posting).1;
  }

  abbrev pub send_to : Option ℕ → Request → System → Option System
  send_to (some replica_id) request sys = some (post replica_id request sys)
  send_to none request sys = do
    w ← add_request_to_best_global_queue x c now request sys.router
    some (record sys { router = w })

  abbrev pub send : Request → System → Option System
  send request sys =
      let w = sys.router in
      send_to (replica_of (w.store request.id).primary_replica w.shared.num_replicas) request sys

  abbrev pub send_all : List Request → System → Option System
  send_all [] sys = some sys
  send_all (request ∷ requests) sys = send request sys >>= send_all requests

  abbrev pub add_new : Option Request → Router → Option Router
  add_new none w = some w
  add_new (some request) w = add_request_to_best_global_queue x c now request w

  unfoldable pub schedule : Option Request → System → Option System
  schedule new_request sys = do
    w₁ ← add_new new_request sys.router
    (requests, w₂) ← get_schedulable_waiting_req_list x c now w₁
    send_all requests (record sys { router = w₂ })
