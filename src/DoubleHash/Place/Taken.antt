-- ===== src/DoubleHash/Place/Taken.antt =====
-- get_schedulable_waiting_req_list takes entries out of the queues and loses none.
use dual_map.Prelude.{
  by_cases, ℕ, zero, suc, ◌+◌, ◌<◌, ◌≤◌, ◌≡◌, refl, sym, some, Option, List, [], ◌∷◌, ◌++◌, map, ℤ,
  pos, ◌+ℤ◌, ◌-ℤ◌, if◌then◌else◌, ◌==◌, arith, All, range_from,
}
use mathlib.Core.Path.{subst}
use dual_map.Request.{Request}
use dual_map.GlobalRequestQueue.{
  GlobalRequestQueue, pop_schedulable, at_replica, get_global_actual_waiting_tokens_count,
  get_max_waiting_delay,
}
use dual_map.GlobalRequestQueue.Entry.{Item}
use dual_map.GlobalRequestQueue.Schedulable.{pop_schedulable-IsPopped}
use dual_map.GlobalRequestQueue.Steps.{Operation-AllCounted, scheduled}
use dual_map.GlobalRequestQueue.Heaps.{AllHeaps, Operation-AllHeaps}
use dual_map.SharedState.{get_num_actual_pending_tokens_replica}
use dual_map.DoubleHash.{Config}
use dual_map.DoubleHash.Rebalance.{Router}
use dual_map.DoubleHash.Rebalance.Rounds.{times_in, times_in-Permᴰ, times_queued-at_replica}
use dual_map.DoubleHash.Place.{
  Outside, relieve, relieve_all, needs_rebalance, has_room, take_schedulable, take_all,
  get_schedulable_waiting_req_list, poll,
}
use dual_map.DoubleHash.Place.Kept.{
  IsStep, as-IsStep, nothing, two_steps, no-IsStep, Gives, Gives-itself, then-Gives,
  rebalance_at-Gives,
}

-- How often a request is in a list.
abbrev pub times_of : List Request → ℕ → ℕ
times_of [] id = 0
times_of (request ∷ l) id = (if request.id == id then 1 else 0) + times_of l id

times_of-append :
    (l m : List Request) (id : ℕ) → times_of (l ++ m) id ≡ times_of l id + times_of m id
times_of-append [] m id = omega arith
times_of-append (request ∷ l) m id = omega (arith, times_of-append l m id)

times_in-popped :
    (id : ℕ) (items rest : List Item)
    → times_in id (items ++ rest) ≡ times_of (map (λ item. item.req) items) id + times_in id rest
times_in-popped id [] rest = omega arith
times_in-popped id (item ∷ items) rest = omega (arith, times_in-popped id items rest)

abbrev pub Takes : Router → Option (List Request × Router) → Type 0
Takes w o =
    (requests : List Request) × (w' : Router) × (o ≡ some (requests, w'))
    × IsStep (times_of requests) nothing w w'

range_from-within : (n start k : ℕ) → start + k ≤ n → All (λ i. i < n) (range_from start k)
range_from-within n start zero h = tt
range_from-within n start (suc k) h =
    (omega (arith, h), range_from-within n (suc start) k (omega (arith, h)))

module _ (x : Outside) (c : Config) (now : ℕ) where
  relieve-Gives :
      (rid : ℕ) (w : Router) → rid < w.shared.num_replicas → Gives w (relieve x c now rid w)
  relieve-Gives rid w h =
      let tokens =
        get_global_actual_waiting_tokens_count rid w.queues
        +ℤ get_num_actual_pending_tokens_replica rid w.shared in
      by_cases (Gives w) (needs_rebalance x c now tokens (get_max_waiting_delay now rid w.queues))
        (rebalance_at-Gives x c now rid (tokens -ℤ c.dh_rebalance_thredhold) w h) (Gives-itself w)

  relieve_all-Gives :
      (rids : List ℕ) (w : Router)
      → All (λ i. i < w.shared.num_replicas) rids
      → Gives w (relieve_all x c now rids w)
  relieve_all-Gives [] w a = Gives-itself w
  relieve_all-Gives (rid ∷ rids) w (h, a) =
      then-Gives w _ (relieve_all x c now rids) (relieve-Gives rid w h)
        (λ w' s. relieve_all-Gives rids w' (subst (λ n. All (λ i. i < n) rids) (sym s.replicas) a))

  -- The queues after a poll of the replica.
  Pops : ℕ → Router → Option (List Request × GlobalRequestQueue) → Type 0
  Pops rid w o =
      (requests : List Request) × (q : GlobalRequestQueue) × (o ≡ some (requests, q))
      × IsStep (times_of requests) nothing w
          (record w { shared = (poll now rid w.shared).1; queues = q })

  Pops-none : (rid : ℕ) (w : Router) → Pops rid w (some ([], w.queues))
  unfolding Pops
  Pops-none rid w = (
    [],
    w.queues,
    refl,
    record { entries = λ id. refl; counted = λ all. all; heaps = λ all. all; replicas = refl },
  )

  Pops-some :
      (rid : ℕ) (budget : ℤ) (max_pop_num : Option ℤ) (w : Router)
      → rid < w.shared.num_replicas
      → AllHeaps w.queues
      → Pops rid w (pop_schedulable x.heapq rid budget max_pop_num w.queues)
  unfolding Pops
  Pops-some rid budget max_pop_num w h heaps =
      let (items, s, e, p) =
        pop_schedulable-IsPopped x.heapq rid budget max_pop_num w.queues (heaps rid) in
      let requests = map (λ item. item.req) items in
      (
        requests,
        at_replica rid s w.queues,
        e,
        record {
          entries = λ id.
              let sum = times_queued-at_replica id w.shared.num_replicas rid s w.queues in
              let perm = times_in-Permᴰ id p.all in
              let parts = times_in-popped id items s.queue in ground (arith, sum, perm, parts, h);
          counted = λ all.
              Operation-AllCounted x.heapq {q = w.queues}
                (scheduled rid budget max_pop_num requests _ e) all;
          heaps = λ all.
              Operation-AllHeaps x.heapq {q = w.queues}
                (scheduled rid budget max_pop_num requests _ e) tt all;
          replicas = refl;
        },
      )

  take_schedulable-Takes :
      (rid : ℕ) (w : Router)
      → rid < w.shared.num_replicas
      → AllHeaps w.queues
      → Takes w (take_schedulable x c now rid w)
  unfolding Pops
  take_schedulable-Takes rid w h heaps =
      let (load, shared) = poll now rid w.shared in
      let budget = load.current_budget in
      let max_pop_num = pos c.dh_replica_pending_req_threshold -ℤ pos load.num_pending_requests in
      let (requests, q, e, s) =
        by_cases (Pops rid w) (has_room x c now rid load w.queues)
          (Pops-some rid budget (some max_pop_num) w h heaps) (Pops-none rid w) in
      (requests, record w { shared = shared; queues = q }, rw e refl, s)

  take_all-Takes :
      (rids : List ℕ) (w : Router)
      → All (λ i. i < w.shared.num_replicas) rids
      → AllHeaps w.queues
      → Takes w (take_all x c now rids w)
  take_all-Takes [] w a heaps = ([], w, refl, no-IsStep w)
  take_all-Takes (rid ∷ rids) w (h, a) heaps =
      let (requests, w₁, e, s) = take_schedulable-Takes rid w h heaps in
      let (others, w₂, e', t) =
        take_all-Takes rids w₁ (subst (λ n. All (λ i. i < n) rids) (sym s.replicas) a)
          (s.heaps heaps) in
      (
        requests ++ others,
        w₂,
        rw e (rw e' refl),
        as-IsStep _ _ (times_of (requests ++ others)) nothing w w₂
            (λ id. omega (arith, times_of-append requests others id))
            (two_steps (times_of requests) nothing (times_of others) nothing w w₁ w₂ s t),
      )

  -- If the queues are heaps, get_schedulable_waiting_req_list ends, with whatever rebalancing it does. Each request is
  -- in the list and in the queues afterwards as often as it was in the queues before; counts that were sums over
  -- the entries still are, and the queues are heaps.
  pub get_schedulable_waiting_req_list-IsStep :
      (w : Router)
      → AllHeaps w.queues
      → (requests : List Request) × (w' : Router) × (get_schedulable_waiting_req_list x c now w
          ≡ some (requests, w'))
        × IsStep (times_of requests) nothing w w'
  unfolding get_schedulable_waiting_req_list
  get_schedulable_waiting_req_list-IsStep w heaps =
      let n = w.shared.num_replicas in
      let rids = range_from 0 n in
      let within = range_from-within n 0 n (omega arith) in
      let (w₁, e, s) = relieve_all-Gives rids w within in
      let (requests, w₂, e', t) =
        take_all-Takes rids w₁ (subst (λ k. All (λ i. i < k) rids) (sym s.replicas) within)
          (s.heaps heaps) in
      (
        requests,
        w₂,
        rw e (rw e' refl),
        as-IsStep _ _ (times_of requests) nothing w w₂ (λ id. omega arith)
            (two_steps nothing nothing (times_of requests) nothing w w₁ w₂ s t),
      )
