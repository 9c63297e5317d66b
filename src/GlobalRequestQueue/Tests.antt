-- ===== src/GlobalRequestQueue/Tests.antt =====
-- Queues with a few requests, and the theorems at them.
use dual_map.Prelude.{
  ◌-◌, ℕ, zero, suc, ◌≡◌, refl, some, List, [], ◌∷◌, pos, negsuc, arith, inl, inr, map, neg, ◌+ℤ◌,
}
use dual_map.Request.{Request}
use dual_map.GlobalRequestQueue
use dual_map.GlobalRequestQueue.{
  GlobalRequestQueue, ReplicaQueue, push, pop, del_req, discard_expired, pop_schedulable,
  at_replica, item_of, get_num_global_actual_waiting_tokens,
}
use dual_map.GlobalRequestQueue.Entry.{Item, IsHeap}
use dual_map.GlobalRequestQueue.Sorted.{sorted_heapq}
use dual_map.GlobalRequestQueue.Steps.{
  Operations, none_yet, next, pushed, AllCounted, Operations-init-AllCounted,
}
use dual_map.GlobalRequestQueue.Heaps.{AllHeaps, Operations-init-AllHeaps}
use dual_map.GlobalRequestQueue.Schedulable.{IsPopped, pop_schedulable-IsPopped}
use dual_map.GlobalRequestQueue.Waiting.{tokens_ahead, get_num_global_actual_waiting_tokens-ahead}

abbrev request : ℕ → ℕ → Request
request id arrived_at = record {
  id = id;
  native_session_id = 0;
  hash_session_id = [];
  input_ids = 1 ∷ 2 ∷ 3 ∷ [];
  num_prefill_tokens = 30;
  output_len = 4;
  arrived_at = arrived_at;
}

abbrev new : GlobalRequestQueue
new = GlobalRequestQueue.init 2

-- The second request has the longer cache hit and comes first.
abbrev two : GlobalRequestQueue
two = push sorted_heapq 0 (request 2 60) (pos 20) (push sorted_heapq 0 (request 1 50) (pos 10) new)

abbrev operations : Operations sorted_heapq new two
operations =
    next (next none_yet (pushed 0 (request 1 50) (pos 10))) (pushed 0 (request 2 60) (pos 20))

Operations-init-AllCounted_example : AllCounted two
Operations-init-AllCounted_example = Operations-init-AllCounted sorted_heapq 2 two operations

Operations-init-AllHeaps_example : AllHeaps two
Operations-init-AllHeaps_example =
    Operations-init-AllHeaps sorted_heapq 2 two operations ((tt, tt), tt)

-- A budget of 10 lets the first request pass and stops there.
pop_schedulable-IsPopped_example :
    (items : List Item) × (s : ReplicaQueue) × (pop_schedulable sorted_heapq 0
        (pos 10)
        (some (pos 5))
        two
      ≡ some (map (λ item. item.req) items, at_replica 0 s two))
    × IsPopped (some (pos 5)) 0 (pos 10) (two.queues 0).queue items s.queue
pop_schedulable-IsPopped_example =
    pop_schedulable-IsPopped sorted_heapq 0 (pos 10) (some (pos 5)) two
      (Operations-init-AllHeaps_example 0)

first_scheduled :
    (q : GlobalRequestQueue) × (pop_schedulable sorted_heapq 0 (pos 10) (some (pos 5)) two
      ≡ some (request 2 60 ∷ [], q))
unfolding pop_schedulable push GlobalRequestQueue.init neg ◌+ℤ◌
first_scheduled = (_, refl)

get_num_global_actual_waiting_tokens-ahead_example :
    get_num_global_actual_waiting_tokens 0 (request 3 70) (pos 15) two
    ≡ tokens_ahead (item_of (request 3 70) (pos 15)) (two.queues 0).queue
unfolding push GlobalRequestQueue.init neg
get_num_global_actual_waiting_tokens-ahead_example =
    get_num_global_actual_waiting_tokens-ahead 0 (request 3 70) (pos 15) two (refl, (refl, tt))

abbrev entry : ℕ → ℕ → Item
entry id arrived_at = record {
  negtive_prefix_cache_hit_len = negsuc (10 - id);
  arrived_at = arrived_at;
  req = request id arrived_at;
}

-- The entry 1 has waited too long.
abbrev five : GlobalRequestQueue
five =
    at_replica 0
      (record {
        queue = entry 0 90 ∷ entry 1 10 ∷ entry 9 90 ∷ entry 2 90 ∷ entry 3 90 ∷ [];
        actual_waiting_tokens_count = pos 0;
        input_waiting_tokens_count = pos 0;
      })
      new

five-IsHeap : IsHeap (five.queues 0).queue
five-IsHeap zero a b e g = ground arith
five-IsHeap (suc zero) a b e g = ground arith
five-IsHeap (suc (suc k)) a b e (inl g) = absurd (ground arith)
five-IsHeap (suc (suc k)) a b e (inr g) = absurd (ground arith)

-- `discard_expired` leaves a list that is no heap.
not-discard_expired-IsHeap : ¬ IsHeap ((discard_expired 100 0 50 five).1.queues 0).queue
unfolding discard_expired
not-discard_expired-IsHeap heap =
    absurd (ground (arith, heap 1 (entry 9 90) (entry 3 90) refl (inl refl)))
