-- ===== src/GlobalRequestQueue/Heaps.antt =====
-- Which operations keep the queues heaps.
use dual_map.Prelude.{
  by_cases, ap, sym, ◌∙◌, ℕ, ◌≡◌, refl, none, some, Option, List, [], ◌∷◌, ℤ, ◌==◌, arith,
}
use mathlib.Core.Path.{subst}
use mathlib.Core.Option.{some-injective}
use dual_map.Request.{Request}
use dual_map.GlobalRequestQueue
use dual_map.GlobalRequestQueue.Entry.{Item, Heapq, IsHeap}
use dual_map.GlobalRequestQueue.{
  GlobalRequestQueue, ReplicaQueue, push, pop, del_req, at_replica, recount_pending_tokens, without,
  item_of, take_out, del_found, pop_from, pop_schedulable,
}
use dual_map.GlobalRequestQueue.Schedulable.{pop_schedulable-IsPopped}
use dual_map.GlobalRequestQueue.Steps.{
  Operation, pushed, took, deleted, discarded, recounted, scheduled, Operations, none_yet, next,
}

abbrev pub AllHeaps : GlobalRequestQueue → Type 0
AllHeaps q = (replica_id : ℕ) → IsHeap (q.queues replica_id).queue

at_replica-AllHeaps :
    (replica_id : ℕ) (s : ReplicaQueue) (q : GlobalRequestQueue)
    → IsHeap s.queue
    → AllHeaps q
    → AllHeaps (at_replica replica_id s q)
at_replica-AllHeaps replica_id s q h all i =
    by_cases (λ (r : ReplicaQueue). IsHeap r.queue) (i == replica_id) h (all i)

module _ (heapq : Heapq) where
  pop_from-IsHeap :
      (queue : List Item) (s : ReplicaQueue)
      → s.queue ≡ queue
      → IsHeap s.queue
      → IsHeap (pop_from heapq queue s).1.queue
  pop_from-IsHeap [] s e h = h
  pop_from-IsHeap (item ∷ rest) s e h = heapq.heappop_rest-IsHeap item rest (subst IsHeap e h)

  del_found-IsHeap :
      (s : ReplicaQueue) (o : Option (Item × List Item))
      → IsHeap s.queue
      → IsHeap (del_found heapq s o).1.queue
  del_found-IsHeap s none h = h
  del_found-IsHeap s (some (item, rest)) h = heapq.heapify-IsHeap rest

  -- Every operation but `discard_expired`.
  abbrev pub IsOrdering : {q q' : GlobalRequestQueue} → Operation heapq q q' → Type 0
  IsOrdering (discarded now replica_id discard_threshold) = ⊥
  IsOrdering (pushed replica_id request hit) = Unit
  IsOrdering (took replica_id) = Unit
  IsOrdering (deleted replica_id request) = Unit
  IsOrdering (recounted replica_id) = Unit
  IsOrdering (scheduled replica_id budget max_pop_num schedulable q' e) = Unit

  abbrev pub AreOrdering : {q q' : GlobalRequestQueue} → Operations heapq q q' → Type 0
  AreOrdering none_yet = Unit
  AreOrdering (next ops op) = AreOrdering ops × IsOrdering op

  scheduled-AllHeaps :
      (replica_id : ℕ) (budget : ℤ) (max_pop_num : Option ℤ) (requests : List Request)
      (q q' : GlobalRequestQueue)
      → pop_schedulable heapq replica_id budget max_pop_num q ≡ some (requests, q')
      → AllHeaps q
      → AllHeaps q'
  scheduled-AllHeaps replica_id budget max_pop_num requests q q' e all =
      let (items, s, g, p) =
        pop_schedulable-IsPopped heapq replica_id budget max_pop_num q (all replica_id) in
      subst AllHeaps (ap (λ r. r.1) (some-injective _ _ (sym g ∙ e)))
        (at_replica-AllHeaps replica_id s q p.heap all)

  pub Operation-AllHeaps :
      {q q' : GlobalRequestQueue} (op : Operation heapq q q')
      → IsOrdering op
      → AllHeaps q
      → AllHeaps q'
  unfolding push pop del_req recount_pending_tokens
  Operation-AllHeaps {q} (pushed rid request hit) o all =
      at_replica-AllHeaps rid _ q
        (heapq.heappush-IsHeap (q.queues rid).queue (item_of request hit) (all rid)) all
  Operation-AllHeaps {q} (took rid) o all =
      at_replica-AllHeaps rid _ q
        (pop_from-IsHeap (q.queues rid).queue (q.queues rid) refl (all rid)) all
  Operation-AllHeaps {q} (deleted rid none) o all = all
  Operation-AllHeaps {q} (deleted rid (some request)) o all =
      at_replica-AllHeaps rid _ q
        (del_found-IsHeap (q.queues rid) (take_out request (q.queues rid).queue) (all rid)) all
  Operation-AllHeaps {q} (discarded now rid threshold) o all = absurd o
  Operation-AllHeaps {q} (recounted rid) o all = at_replica-AllHeaps rid _ q (all rid) all
  Operation-AllHeaps {q} {q'} (scheduled rid budget max_pop_num schedulable _ e) o all =
      scheduled-AllHeaps rid budget max_pop_num schedulable q q' e all

  Operations-AllHeaps :
      {q q' : GlobalRequestQueue} (ops : Operations heapq q q')
      → AreOrdering ops
      → AllHeaps q
      → AllHeaps q'
  Operations-AllHeaps none_yet o all = all
  Operations-AllHeaps (next ops op) (o, p) all =
      Operation-AllHeaps op p (Operations-AllHeaps ops o all)

  -- After any operations on new queues other than discard_expired, the queue of every replica is a heap.
  pub Operations-init-AllHeaps :
      (num_replicas : ℕ) (q : GlobalRequestQueue)
      (ops : Operations heapq (GlobalRequestQueue.init num_replicas) q)
      → AreOrdering ops
      → AllHeaps q
  unfolding GlobalRequestQueue.init
  Operations-init-AllHeaps num_replicas q ops o =
      Operations-AllHeaps ops o (λ rid k a b e _. absurd (ground arith))
