-- ===== src/DoubleHash/Schedule/Tests.antt =====
-- A scheduler with four replicas and a queue in which two requests wait.
use dual_map.Prelude.{ℕ, ◌+◌, ◌≡◌, refl, some, List, pos, arith, length, inl}
use native.Mathlib.Nat.{mod-lt}
use dual_map.Request
use dual_map.Request.{Request}
use dual_map.SharedState.Posting
use dual_map.SharedState.Posting.{Posting}
use dual_map.GlobalRequestQueue
use dual_map.GlobalRequestQueue.{push}
use dual_map.GlobalRequestQueue.Sorted.{sorted_heapq}
use dual_map.GlobalRequestQueue.Steps.{next, none_yet, pushed}
use dual_map.GlobalRequestQueue.Heaps.{AllHeaps, Operations-init-AllHeaps}
use dual_map.DoubleHash.Choices.{IsPairOf}
use dual_map.DoubleHash.Tests.{hash1, hash2, request, in_order, block_hash, shared, config}
use dual_map.DoubleHash.Rebalance.{Router, rebalance}
use dual_map.DoubleHash.Rebalance.Ends.{IsKept, rebalance-IsKept}
use dual_map.DoubleHash.Place.{
  Outside, add_request_to_best_global_queue, get_schedulable_waiting_req_list,
}
use dual_map.DoubleHash.Place.Kept.{IsStep, nothing}
use dual_map.DoubleHash.Place.Added.{IsOutside, IsPlaced, add_request_to_best_global_queue-IsPlaced}
use dual_map.DoubleHash.Place.Taken.{times_of, get_schedulable_waiting_req_list-IsStep}
use dual_map.DoubleHash.Schedule.{System, schedule}
use dual_map.DoubleHash.Schedule.Ends.{IsScheduled, schedule-IsScheduled, new_of}

abbrev waiting : Router
waiting = record {
  store = λ id. Request.init 3;
  shared = shared;
  queues =
      push sorted_heapq 2 (record request { id = 3; arrived_at = 1 }) (pos 1)
        (push sorted_heapq 2 (record request { id = 2 }) (pos 0) (GlobalRequestQueue.init 4));
  rebalance_cnt = 0;
}

abbrev outside : Outside
outside = record {
  hash_function1 = hash1;
  hash_function2 = hash2;
  hash = block_hash;
  heapq = sorted_heapq;
  sample = in_order;
}

any_pair : (pair : ℕ × ℕ) → IsPairOf pair pair
any_pair (a, b) = inl refl

outside-IsOutside : IsOutside outside 4
outside-IsOutside = record {
  ring1 = λ prefix. mod-lt (length prefix) (omega arith);
  ring2 = λ prefix. mod-lt (length prefix + 4) (omega arith);
  sampled = any_pair;
}

waiting-AllHeaps : AllHeaps waiting.queues
waiting-AllHeaps =
    Operations-init-AllHeaps sorted_heapq 4 waiting.queues
      (next (next none_yet (pushed 2 (record request { id = 2 }) (pos 0)))
        (pushed 2 (record request { id = 3; arrived_at = 1 }) (pos 1)))
      ((tt, tt), tt)

rebalance-IsKept_example :
    (w' : Router) × (rebalance hash1 hash2 block_hash sorted_heapq config 5 2 (pos 1) waiting
      ≡ some w')
    × IsKept 2 waiting w'
rebalance-IsKept_example =
    rebalance-IsKept sorted_heapq 2 hash1 hash2 block_hash config 5 (pos 1) waiting (omega arith)

add_request_to_best_global_queue-IsPlaced_example :
    (w' : Router) × (add_request_to_best_global_queue outside config 5 request waiting ≡ some w')
    × IsPlaced outside config 5 request waiting w'
add_request_to_best_global_queue-IsPlaced_example =
    add_request_to_best_global_queue-IsPlaced outside config 5 request waiting outside-IsOutside

get_schedulable_waiting_req_list-IsStep_example :
    (requests : List Request) × (w' : Router) × (get_schedulable_waiting_req_list outside config 5
        waiting
      ≡ some (requests, w'))
    × IsStep (times_of requests) nothing waiting w'
get_schedulable_waiting_req_list-IsStep_example =
    get_schedulable_waiting_req_list-IsStep outside config 5 waiting waiting-AllHeaps

abbrev port : ℕ → ℕ
port i = 8000 + i

abbrev system : System
system = record { router = waiting; posting = Posting.init }

schedule-IsScheduled_example :
    (sys' : System) × (schedule outside port config 5 (some request) system ≡ some sys')
    × IsScheduled (new_of (some request)) system sys'
schedule-IsScheduled_example =
    schedule-IsScheduled outside port config 5 (some request) system waiting-AllHeaps
      outside-IsOutside
