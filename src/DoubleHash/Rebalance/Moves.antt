-- ===== src/DoubleHash/Rebalance/Moves.antt =====
-- What the rebalancing of waiting requests (rebalance_replica_global_waiting_reqs) does to the queues.
use dual_map.Prelude.{
  ℕ, zero, suc, ◌+◌, ◌<◌, ◌≡◌, ◌≢◌, refl, sym, ap, ◌∙◌, Bool, true, false, none, some, Option, List,
  [], ◌∷◌, ℤ, pos, ◌-ℤ◌, ◌==◌, arith, Bool-cases, inl, inr,
}
use mathlib.Core.Path.{subst}
use mathlib.Core.List.{Permᴰ}
use mathlib.Core.List.Permᴰ
use dual_map.Prelude.Perms.{Permᴰ-length}
use dual_map.Request.{Request}
use dual_map.SharedState.{SharedState}
use dual_map.DoubleHash.{Config}
use dual_map.GlobalRequestQueue.{
  GlobalRequestQueue, ReplicaQueue, push, push_in, del_req, del_found, take_out, at_replica,
  without, get_queue_len, item_of, get_all_requests,
}
use dual_map.GlobalRequestQueue.Entry.{Item, Heapq}
use dual_map.GlobalRequestQueue.Steps.{AllCounted, Operation-AllCounted, pushed, deleted}
use dual_map.GlobalRequestQueue.Heaps.{AllHeaps, Operation-AllHeaps}
use dual_map.DoubleHash.Rebalance.{
  Loads, Candidate, Progress, migrate, pick, candidates, rebalance_loop,
}
use dual_map.DoubleHash.Rebalance.Rounds.{
  OnSome, pick-OnSome, candidates-IsMove, All-has, one_if, times_in, times_queued, times_in-Permᴰ,
  times_queued-at_replica, has, IsMove,
}

-- `take_out` finds an entry of the request.
record Found (request : Request) (l : List Item) : Type 0 where
  entry : Item
  others : List Item
  taken : take_out request l ≡ some (entry, others)
  same : entry.req.id ≡ request.id
  perm : Permᴰ l (entry ∷ others)

Found-behind :
    (request : Request) (item : Item) (l : List Item)
    → (item.req.id == request.id) ≡ false
    → Found request l
    → Found request (item ∷ l)
Found-behind request item l other f = record {
  entry = f.entry;
  others = item ∷ f.others;
  taken = rw other (rw f.taken refl);
  same = f.same;
  perm = Permᴰ.trans (Permᴰ.cons refl f.perm) (Permᴰ.swap refl refl);
}

Found-head :
    (request : Request) (item : Item) (l : List Item)
    → (item.req.id == request.id) ≡ true
    → Found request (item ∷ l)
Found-head request item l same = record {
  entry = item;
  others = l;
  taken = rw same refl;
  same = ground arith;
  perm = Permᴰ.refl (item ∷ l);
}

has-Found : (request : Request) (l : List Item) → has request l ≡ true → Found request l
has-Found request [] h = absurd (ground arith)
has-Found request (item ∷ l) h = elim (Bool-cases (item.req.id == request.id)) [
  | inl same ↦ Found-head request item l same
  | inr other ↦ Found-behind request item l other (has-Found request l (ground (arith, h, other)))
]

-- What a change of the queues that moves an entry away from `source` keeps.
record IsMoved (n source : ℕ) (q q' : GlobalRequestQueue) : Type 0 where
  pub conserved : (id : ℕ) → times_queued id q' n ≡ times_queued id q n
  pub shorter : get_queue_len source q' + 1 ≡ get_queue_len source q
  pub counted : AllCounted q → AllCounted q'
  pub heaps : AllHeaps q → AllHeaps q'

module _ (heapq : Heapq) (n source target : ℕ) (request : Request) (hit : ℤ)
    (q : GlobalRequestQueue) where
  abbrev taken_from : GlobalRequestQueue
  taken_from = (del_req heapq source (some request) q).1

  abbrev moved : GlobalRequestQueue
  moved = push heapq target request hit taken_from

  module _ (f : Found request (q.queues source).queue) where
    abbrev left : ReplicaQueue
    left = without f.entry (heapq.heapify f.others) (q.queues source)

    taken_from_lem : taken_from ≡ at_replica source left q
    unfolding del_req
    taken_from_lem = ap (λ o. at_replica source (del_found heapq (q.queues source) o).1 q) f.taken

    times_in-left :
        (id : ℕ) → times_in id (q.queues source).queue ≡ one_if id f.entry + times_in id left.queue
    times_in-left id =
        times_in-Permᴰ id
          (Permᴰ.trans f.perm (Permᴰ.cons refl (Permᴰ.symm (heapq.heapify-Permᴰ f.others))))

    times_in-push :
        (id : ℕ) (r : ReplicaQueue)
        → times_in id (push_in heapq request hit r).queue ≡ one_if id f.entry + times_in id r.queue
    times_in-push id r =
        rw f.same (times_in-Permᴰ id (heapq.heappush-Permᴰ r.queue (item_of request hit)))

    abbrev q₁ : GlobalRequestQueue
    q₁ = at_replica source left q

    moved-conserved :
        source < n → target < n → (id : ℕ) → times_queued id moved n ≡ times_queued id q n
    unfolding push
    moved-conserved hs ht id =
        let r = q₁.queues target in
        let out = times_queued-at_replica id n source left q in
        let into = times_queued-at_replica id n target (push_in heapq request hit r) q₁ in
        let e : times_queued id (push heapq target request hit q₁) n ≡ times_queued id q n =
          ground (arith, out, into, times_in-left id, times_in-push id r) in
        rw taken_from_lem e

    moved-shorter : target ≢ source → get_queue_len source moved + 1 ≡ get_queue_len source q
    unfolding push get_queue_len
    moved-shorter away =
        let all = Permᴰ-length f.perm in
        let rest = Permᴰ-length (heapq.heapify-Permᴰ f.others) in
        rw taken_from_lem (ground (arith, all, rest))

module _ (heapq : Heapq) (n source : ℕ) where
  migrate-IsMoved :
      (candidate : Candidate) (p : Progress)
      → source < n
      → IsMove n source (p.queues.queues source).queue candidate
      → IsMoved n source p.queues (migrate heapq source candidate p).queues
  unfolding migrate
  migrate-IsMoved candidate p h (away, within, found) =
      let target = candidate.target_replica_id in
      let request = candidate.request in
      let hit = pos request.num_prefill_tokens -ℤ pos candidate.target_actual_prefill_len in
      let f = has-Found request (p.queues.queues source).queue found in
      record {
        conserved = moved-conserved heapq n source target request hit p.queues f h within;
        shorter = moved-shorter heapq n source target request hit p.queues f away;
        counted = λ all.
            Operation-AllCounted heapq (pushed target request hit)
              (Operation-AllCounted heapq (deleted source (some request)) all);
        heaps = λ all.
            Operation-AllHeaps heapq (pushed target request hit) tt
              (Operation-AllHeaps heapq (deleted source (some request)) tt all);
      }

  -- What any number of rounds keeps.
  pub record IsRebalanced (p p' : Progress) : Type 0 where
    pub conserved : (id : ℕ) → times_queued id p'.queues n ≡ times_queued id p.queues n
    pub moves :
        get_queue_len source p'.queues + p'.rebalance_cnt
        ≡ get_queue_len source p.queues + p.rebalance_cnt
    pub counted : AllCounted p.queues → AllCounted p'.queues
    pub heaps : AllHeaps p.queues → AllHeaps p'.queues

  no_round : (p : Progress) → IsRebalanced p p
  no_round p = record {
    conserved = λ id. refl;
    moves = refl;
    counted = λ all. all;
    heaps = λ all. all;
  }

  one_round :
      (candidate : Candidate) (p p' : Progress)
      → IsMoved n source p.queues (migrate heapq source candidate p).queues
      → IsRebalanced (migrate heapq source candidate p) p'
      → IsRebalanced p p'
  unfolding migrate get_queue_len
  one_round candidate p p' m r = record {
    conserved = λ id. r.conserved id ∙ m.conserved id;
    moves = (let moves = r.moves in let shorter = m.shorter in omega (arith, moves, shorter));
    counted = λ all. r.counted (m.counted all);
    heaps = λ all. r.heaps (m.heaps all);
  }

  abbrev pub Result : Progress → Option Progress → Type 0
  Result p o = (p' : Progress) × (o ≡ some p') × IsRebalanced p p'

  module _ (hash_function1 hash_function2 : List ℕ → ℕ → ℕ) (hash : Bool → Option ℕ → List ℕ → ℕ)
      (c : Config) (s : SharedState) (loads : Loads) (num_target : ℤ) where
    -- One more round, with what the rest of the loop gives.
    round :
        (fuel : ℕ) (p : Progress) (o : Option Candidate)
        → source < n
        → OnSome (IsMove n source (p.queues.queues source).queue) o
        → ((candidate : Candidate)
            → IsMoved n source p.queues (migrate heapq source candidate p).queues
            → Result (migrate heapq source candidate p) (
                rebalance_loop hash_function1 hash_function2 hash c s source heapq loads num_target
                  fuel
                  (migrate heapq source candidate p)))
        → Result p (elim o [
          | none ↦ some p
          | some best ↦
              rebalance_loop hash_function1 hash_function2 hash c s source heapq loads num_target
                fuel
                (migrate heapq source best p)
        ])
    round fuel p none h m rest = (p, refl, no_round p)
    round fuel p (some best) h m rest =
        let moved = migrate-IsMoved best p h m in
        let (p', e, r) = rest best moved in (p', e, one_round best p p' moved r)

    pub rebalance_loop-IsRebalanced :
        (fuel : ℕ) (p : Progress)
        → source < n
        → n ≡ s.num_replicas
        → get_queue_len source p.queues < fuel
        → Result p (
            rebalance_loop hash_function1 hash_function2 hash c s source heapq loads num_target fuel
              p)
    unfolding get_all_requests
    rebalance_loop-IsRebalanced zero p h e enough = absurd (omega (arith, enough))
    rebalance_loop-IsRebalanced (suc fuel) p h e enough =
        let queue = (p.queues.queues source).queue in
        let found =
          candidates hash_function1 hash_function2 hash c s source
            (record loads { num_global_actual_waiting_tokens = p.waiting }) p.queues
            (get_all_requests source p.queues) in
        let best = pick num_target p.cur_num_migrated_prefill_tokens found in
        let moves =
          candidates-IsMove hash_function1 hash_function2 hash c s source
            (record loads { num_global_actual_waiting_tokens = p.waiting }) p.queues queue queue
            (omega (arith, h, e)) (All-has queue) in
        round fuel p best h
          (subst (λ k. OnSome (IsMove k source queue) best) (sym e)
            (pick-OnSome (IsMove s.num_replicas source queue) num_target
              p.cur_num_migrated_prefill_tokens found moves))
          (λ candidate m.
            let shorter = m.shorter in
            rebalance_loop-IsRebalanced fuel (migrate heapq source candidate p) h e
              (omega (arith, enough, shorter)))
