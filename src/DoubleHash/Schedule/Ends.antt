-- ===== src/DoubleHash/Schedule/Ends.antt =====
-- DoubleHashGlobalScheduler.schedule ends, and every request is posted or waits.
use dual_map.Prelude.{
  ℕ, zero, suc, ◌+◌, ◌≤◌, ◌≡◌, refl, sym, ◌∙◌, none, some, Option, List, [], ◌∷◌, if◌then◌else◌,
  ◌==◌, arith,
}
use mathlib.Core.Path.{subst}
use dual_map.Request.{Request}
use dual_map.GlobalRequestQueue.Steps.{AllCounted}
use dual_map.GlobalRequestQueue.Heaps.{AllHeaps}
use dual_map.SharedState.Posting.{Posting, Key, add_posting_request_tasks}
use dual_map.DoubleHash.{Config}
use dual_map.DoubleHash.Rebalance.{Router}
use dual_map.DoubleHash.Rebalance.Rounds.{times_queued}
use dual_map.DoubleHash.Place.{Outside}
use dual_map.DoubleHash.Place.Kept.{IsStep, nothing, no-IsStep}
use dual_map.DoubleHash.Place.Added.{IsOutside, one_of, add_request_to_best_global_queue-IsPlaced}
use dual_map.DoubleHash.Place.Taken.{times_of, get_schedulable_waiting_req_list-IsStep}
use dual_map.DoubleHash.Schedule.{
  System, note_routing, post, send_to, send_all, add_new, schedule, replica_of,
}

-- How many tasks have been created for a request.
abbrev pub times_created : (ℕ → Key) → ℕ → ℕ → ℕ
times_created keys zero id = 0
times_created keys (suc n) id = (if (keys n).0 == id then 1 else 0) + times_created keys n id

abbrev pub times_posted : Posting → ℕ → ℕ
times_posted p id = times_created p.keys p.created id

times_created-new :
    (keys : ℕ → Key) (key : Key) (m n id : ℕ)
    → n ≤ m
    → times_created (λ j. if j == m then key else keys j) n id ≡ times_created keys n id
times_created-new keys key m zero id h = refl
times_created-new keys key m (suc n) id h = ground (arith, times_created-new keys key m n id)

-- The entries in the queues and the tasks together, of which `new` have come.
pub record IsScheduled (new : ℕ → ℕ) (sys sys' : System) : Type 0 where
  pub total :
      (id : ℕ)
      → times_queued id sys'.router.queues sys.router.shared.num_replicas
          + times_posted sys'.posting id
        ≡ times_queued id sys.router.queues sys.router.shared.num_replicas
          + times_posted sys.posting id
          + new id
  pub counted : AllCounted sys.router.queues → AllCounted sys'.router.queues
  pub heaps : AllHeaps sys.router.queues → AllHeaps sys'.router.queues
  pub replicas : sys'.router.shared.num_replicas ≡ sys.router.shared.num_replicas

two-IsScheduled :
    (new new' new'' : ℕ → ℕ) (sys sys₁ sys₂ : System)
    → ((id : ℕ) → new'' id ≡ new id + new' id)
    → IsScheduled new sys sys₁
    → IsScheduled new' sys₁ sys₂
    → IsScheduled new'' sys sys₂
two-IsScheduled new new' new'' sys sys₁ sys₂ sum s t = record {
  total = λ id.
      let first = s.total id in
      let second =
        subst
          (λ n.
            times_queued id sys₂.router.queues n + times_posted sys₂.posting id
            ≡ times_queued id sys₁.router.queues n + times_posted sys₁.posting id + new' id)
          s.replicas (t.total id) in
      let added = sum id in omega (arith, first, second, added);
  counted = λ all. t.counted (s.counted all);
  heaps = λ all. t.heaps (s.heaps all);
  replicas = t.replicas ∙ s.replicas;
}

by_router :
    (new : ℕ → ℕ) (sys : System) (w : Router)
    → IsStep nothing new sys.router w
    → IsScheduled new sys (record sys { router = w })
by_router new sys w s = record {
  total = λ id. (let e = s.entries id in omega (arith, e));
  counted = s.counted;
  heaps = s.heaps;
  replicas = s.replicas;
}

abbrev pub new_of : Option Request → ℕ → ℕ
new_of none id = 0
new_of (some request) id = one_of request id

abbrev Schedules : (ℕ → ℕ) → System → Option System → Type 0
Schedules new sys o = (sys' : System) × (o ≡ some sys') × IsScheduled new sys sys'

module _ (x : Outside) (replicas_ip_port : ℕ → ℕ) (c : Config) (now : ℕ) where
  post-IsScheduled :
      (replica_id : ℕ) (request : Request) (sys : System)
      → IsScheduled (one_of request) sys (post x replicas_ip_port c now replica_id request sys)
  unfolding note_routing add_posting_request_tasks
  post-IsScheduled replica_id request sys = record {
    total = λ id.
        let p = sys.posting in
        let same =
          times_created-new p.keys (request.id, replicas_ip_port replica_id) p.created p.created id
            (omega arith) in
        ground (arith, same);
    counted = λ all. all;
    heaps = λ all. all;
    replicas = refl;
  }

  send_to-Schedules :
      (o : Option ℕ) (request : Request) (sys : System)
      → IsOutside x sys.router.shared.num_replicas
      → Schedules (one_of request) sys (send_to x replicas_ip_port c now o request sys)
  send_to-Schedules (some replica_id) request sys h =
      (_, refl, post-IsScheduled replica_id request sys)
  send_to-Schedules none request sys h =
      let (w, e, p) = add_request_to_best_global_queue-IsPlaced x c now request sys.router h in
      (record sys { router = w }, rw e refl, by_router (one_of request) sys w p.step)

  send_all-Schedules :
      (requests : List Request) (sys : System)
      → IsOutside x sys.router.shared.num_replicas
      → Schedules (times_of requests) sys (send_all x replicas_ip_port c now requests sys)
  send_all-Schedules [] sys h = (sys, refl, by_router nothing sys sys.router (no-IsStep sys.router))
  send_all-Schedules (request ∷ requests) sys h =
      let w = sys.router in
      let (sys₁, e, s) =
        send_to-Schedules (replica_of (w.store request.id).primary_replica w.shared.num_replicas)
          request sys h in
      let (sys₂, e', t) =
        send_all-Schedules requests sys₁ (subst (IsOutside x) (sym s.replicas) h) in
      (
        sys₂,
        rw e e',
        two-IsScheduled (one_of request) (times_of requests) (times_of (request ∷ requests)) sys
            sys₁ sys₂ (λ id. refl) s t,
      )

  add_new-IsStep :
      (new_request : Option Request) (w : Router)
      → IsOutside x w.shared.num_replicas
      → (w' : Router) × (add_new x replicas_ip_port c now new_request w ≡ some w')
        × IsStep nothing (new_of new_request) w w'
  add_new-IsStep none w h = (w, refl, no-IsStep w)
  add_new-IsStep (some request) w h =
      let (w', e, p) = add_request_to_best_global_queue-IsPlaced x c now request w h in
      (w', e, p.step)

  -- What the queues gave is neither there nor posted until it is sent.
  after_taking :
      (new : ℕ → ℕ) (requests : List Request) (sys sys₂ : System) (w₁ w₂ : Router)
      → IsStep nothing new sys.router w₁
      → IsStep (times_of requests) nothing w₁ w₂
      → IsScheduled (times_of requests) (record sys { router = w₂ }) sys₂
      → IsScheduled new sys sys₂
  after_taking new requests sys sys₂ w₁ w₂ s t u = record {
    total = λ id.
        let n = sys.router.shared.num_replicas in
        let first = s.entries id in
        let second =
          subst
            (λ n.
              times_queued id w₂.queues n + times_of requests id ≡ times_queued id w₁.queues n + 0)
            s.replicas (t.entries id) in
        let third =
          subst
            (λ n.
              times_queued id sys₂.router.queues n + times_posted sys₂.posting id
              ≡ times_queued id w₂.queues n + times_posted sys.posting id + times_of requests id)
            (t.replicas ∙ s.replicas) (u.total id) in
        omega (arith, first, second, third);
    counted = λ all. u.counted (t.counted (s.counted all));
    heaps = λ all. u.heaps (t.heaps (s.heaps all));
    replicas = u.replicas ∙ t.replicas ∙ s.replicas;
  }

  -- If the queues are heaps and the rings answer with replicas, schedule ends. Each request then waits in the queues or
  -- has had a task created for it as often in all as before, the new request once more; counts that were sums over
  -- the entries still are, and the queues are heaps.
  pub schedule-IsScheduled :
      (new_request : Option Request) (sys : System)
      → AllHeaps sys.router.queues
      → IsOutside x sys.router.shared.num_replicas
      → (sys' : System) × (schedule x replicas_ip_port c now new_request sys ≡ some sys')
        × IsScheduled (new_of new_request) sys sys'
  unfolding schedule
  schedule-IsScheduled new_request sys heaps h =
      let (w₁, e, s) = add_new-IsStep new_request sys.router h in
      let (requests, w₂, e', t) =
        get_schedulable_waiting_req_list-IsStep x c now w₁ (s.heaps heaps) in
      let within = subst (IsOutside x) (sym (t.replicas ∙ s.replicas)) h in
      let (sys₂, e'', u) = send_all-Schedules requests (record sys { router = w₂ }) within in
      (sys₂, rw e (rw e' e''), after_taking (new_of new_request) requests sys sys₂ w₁ w₂ s t u)
