-- ===== src/GlobalRequestQueue/Steps.antt =====
-- Sequences of operations on the queues, and the counts along them.
use dual_map.Prelude.{
  by_cases, ℕ, ◌+◌, ◌≡◌, refl, none, some, Option, List, [], ◌∷◌, ◌++◌, ℤ, ◌==◌, ltb, length,
}
use mathlib.Core.Path.{subst}
use mathlib.Core.List.{append_assoc, append-nil}
use mathlib.Core.List.Permᴰ
use dual_map.Prelude.Sums.{sum_by}
use dual_map.Request.{Request}
use dual_map.GlobalRequestQueue
use dual_map.GlobalRequestQueue.Entry.{Item, Heapq}
use dual_map.GlobalRequestQueue.{
  GlobalRequestQueue, ReplicaQueue, push, pop, del_req, discard_expired, pop_schedulable,
  at_replica, recount_pending_tokens, discard_loop, without, actual_prefill_tokens, total_tokens,
  pop_loop, scheduled_in,
}
use dual_map.GlobalRequestQueue.Counts.{
  IsCounted, without-IsCounted, push_in-IsCounted, pop_from-IsCounted, del_from-IsCounted,
  LeavesCounted, pop_loop-LeavesCounted,
}

-- Every replica's counts are the sums over its queue.
abbrev pub AllCounted : GlobalRequestQueue → Type 0
AllCounted q = (replica_id : ℕ) → IsCounted (q.queues replica_id)

at_replica-AllCounted :
    (replica_id : ℕ) (s : ReplicaQueue) (q : GlobalRequestQueue)
    → IsCounted s
    → AllCounted q
    → AllCounted (at_replica replica_id s q)
at_replica-AllCounted replica_id s q c all i = by_cases IsCounted (i == replica_id) c (all i)

-- The entries that the loop has still to look at count as if they were in the new queue.
abbrev pub IsCountedWith : List Item → ReplicaQueue → Type 0
IsCountedWith rest s = IsCounted (record s { queue = s.queue ++ rest })

discard_loop-IsCounted :
    (now threshold : ℕ) (rest : List Item) (acc : List Request × ReplicaQueue)
    → IsCountedWith rest acc.1
    → IsCountedWith [] (discard_loop now threshold rest acc).1
discard_loop-IsCounted now threshold [] acc c = c
discard_loop-IsCounted now threshold (item ∷ rest) (discarded, s) c =
    discard_loop-IsCounted now threshold rest _ (
      by_cases (λ (acc : List Request × ReplicaQueue). IsCountedWith rest acc.1)
        (ltb (item.arrived_at + threshold) now)
        (without-IsCounted item (s.queue ++ rest) (record s { queue = s.queue ++ item ∷ rest })
          (Permᴰ.middle item s.queue rest) c)
        (rw (append_assoc s.queue (item ∷ []) rest) c))

nothing_left : (s : ReplicaQueue) → IsCountedWith [] s → IsCounted s
nothing_left s = subst (λ l. IsCounted (record s { queue = l })) (append-nil s.queue)

sum-total : (l : List Item) → total_tokens l ≡ sum_by actual_prefill_tokens l
sum-total [] = refl
sum-total (item ∷ l) = rw (sum-total l)

module _ (heapq : Heapq) where
  -- One operation, with the queues after it.
  pub data Operation (q : GlobalRequestQueue) : GlobalRequestQueue → Type 0 where
    pushed :
        (replica_id : ℕ) (request : Request) (prefix_cache_hit_len : ℤ)
        → Operation q (push heapq replica_id request prefix_cache_hit_len q)
    took : (replica_id : ℕ) → Operation q (pop heapq replica_id q).1
    deleted :
        (replica_id : ℕ) (request : Option Request)
        → Operation q (del_req heapq replica_id request q).1
    discarded :
        (now replica_id discard_threshold : ℕ)
        → Operation q (discard_expired now replica_id discard_threshold q).1
    recounted : (replica_id : ℕ) → Operation q (recount_pending_tokens replica_id q).1
    scheduled :
        (replica_id : ℕ) (cur_replica_budget : ℤ) (max_pop_num : Option ℤ)
        (schedulable : List Request) (q' : GlobalRequestQueue)
        → pop_schedulable heapq replica_id cur_replica_budget max_pop_num q ≡ some (schedulable, q')
        → Operation q q'

  pub data Operations (q : GlobalRequestQueue) : GlobalRequestQueue → Type 0 where
    none_yet : Operations q q
    next : {q₁ q₂ : GlobalRequestQueue} → Operations q q₁ → Operation q₁ q₂ → Operations q q₂

  LeavesAllCounted : Option (List Request × GlobalRequestQueue) → Type 0
  LeavesAllCounted none = Unit
  LeavesAllCounted (some (requests, q)) = AllCounted q

  pop_schedulable-AllCounted :
      (replica_id : ℕ) (budget : ℤ) (max_pop_num : Option ℤ) (q : GlobalRequestQueue)
      → AllCounted q
      → LeavesAllCounted (pop_schedulable heapq replica_id budget max_pop_num q)
  unfolding pop_schedulable LeavesAllCounted
  pop_schedulable-AllCounted replica_id budget max_pop_num q all = lift _ (
      pop_loop-LeavesCounted heapq (length (q.queues replica_id).queue + 1) budget max_pop_num 0
        (q.queues replica_id).queue (q.queues replica_id).actual_waiting_tokens_count
        (q.queues replica_id).input_waiting_tokens_count (all replica_id))
    where
      lift :
          (o : Option (List Item × ReplicaQueue))
          → LeavesCounted heapq o
          → LeavesAllCounted (scheduled_in replica_id q o)
      lift none c = tt
      lift (some (items, s)) c = at_replica-AllCounted replica_id s q c all

  pub Operation-AllCounted :
      {q q' : GlobalRequestQueue} → Operation q q' → AllCounted q → AllCounted q'
  unfolding push pop del_req discard_expired recount_pending_tokens LeavesAllCounted
  Operation-AllCounted {q} (pushed rid request hit) all =
      at_replica-AllCounted rid _ q (push_in-IsCounted heapq request hit (q.queues rid) (all rid))
        all
  Operation-AllCounted {q} (took rid) all =
      at_replica-AllCounted rid _ q
        (pop_from-IsCounted heapq (q.queues rid).queue (q.queues rid) refl (all rid)) all
  Operation-AllCounted {q} (deleted rid none) all = all
  Operation-AllCounted {q} (deleted rid (some request)) all =
      at_replica-AllCounted rid _ q (del_from-IsCounted heapq request (q.queues rid) (all rid)) all
  Operation-AllCounted {q} (discarded now rid threshold) all =
      at_replica-AllCounted rid _ q
        (nothing_left _ (
          discard_loop-IsCounted now threshold (q.queues rid).queue
            ([], record (q.queues rid) { queue = [] }) (all rid)))
        all
  Operation-AllCounted {q} (recounted rid) all =
      at_replica-AllCounted rid _ q
        (record { actual = sum-total (q.queues rid).queue; input = (all rid).input }) all
  Operation-AllCounted {q} (scheduled rid budget max_pop_num schedulable q' e) all =
      subst LeavesAllCounted e (pop_schedulable-AllCounted rid budget max_pop_num q all)

  Operations-AllCounted :
      {q q' : GlobalRequestQueue} → Operations q q' → AllCounted q → AllCounted q'
  Operations-AllCounted none_yet all = all
  Operations-AllCounted (next ops op) all = Operation-AllCounted op (Operations-AllCounted ops all)

  -- After any operations on new queues, the two counts of every replica are the sums, over its queue,
  -- of the tokens to prefill and of the input tokens.
  pub Operations-init-AllCounted :
      (num_replicas : ℕ) (q : GlobalRequestQueue)
      → Operations (GlobalRequestQueue.init num_replicas) q
      → AllCounted q
  unfolding GlobalRequestQueue.init
  Operations-init-AllCounted num_replicas q ops =
      Operations-AllCounted ops (λ _. record { actual = refl; input = refl })
