-- ===== src/DoubleHash/Rebalance/Rounds.antt =====
-- What a round of the rebalancing of waiting requests (rebalance_replica_global_waiting_reqs) chooses, and the number of
-- entries of a request in the queues.
use dual_map.Prelude.{
  by_cases, by_cases_of, ℕ, zero, suc, ◌+◌, ◌%◌, ◌<◌, ◌≡◌, ◌≢◌, refl, ap, ◌∙◌, Bool, true, false,
  ◌||◌, ◌&&◌, none, some, Option, List, [], ◌∷◌, ℤ, pos, leb_ℤ, ltb_ℤ, ltb, leb, ◌==◌,
  if◌then◌else◌, map, All, arith,
}
use native.Mathlib.Nat.{mod-lt}
use mathlib.Core.List.{Permᴰ}
use dual_map.Prelude.Perms.{All-map}
use dual_map.Prelude.Best.{choose-All}
use dual_map.Request.{Request}
use dual_map.SharedState.{SharedState}
use dual_map.GlobalRequestQueue.{GlobalRequestQueue, ReplicaQueue, at_replica}
use dual_map.GlobalRequestQueue.Entry.{Item}
use dual_map.DoubleHash.{Config, target_replica}
use dual_map.DoubleHash.Rebalance.{
  Loads, Candidate, other_than, neighbour, with_room, best_of, cons_candidate, pick, find_target,
  candidates, candidate_at, is_target_overloaded,
}

-- The number of entries of the request in a queue, and in the first `n` queues.
abbrev pub one_if : ℕ → Item → ℕ
one_if id item = if item.req.id == id then 1 else 0

abbrev pub times_in : ℕ → List Item → ℕ
times_in id [] = 0
times_in id (item ∷ l) = one_if id item + times_in id l

abbrev pub times_queued : ℕ → GlobalRequestQueue → ℕ → ℕ
times_queued id q zero = 0
times_queued id q (suc n) = times_in id (q.queues n).queue + times_queued id q n

-- The entry counts of permuted queues agree.
pub times_in-Permᴰ : (id : ℕ) {l m : List Item} → Permᴰ l m → times_in id l ≡ times_in id m
times_in-Permᴰ id Permᴰ.nil = refl
times_in-Permᴰ id (Permᴰ.cons {a} {b} e p) =
    let same = ap (one_if id) e in omega (arith, same, times_in-Permᴰ id p)
times_in-Permᴰ id (Permᴰ.swap {a} {b} {a'} {b'} e g) =
    let same = ap (one_if id) e in let same' = ap (one_if id) g in omega (arith, same, same')
times_in-Permᴰ id (Permᴰ.trans p q) = times_in-Permᴰ id p ∙ times_in-Permᴰ id q

-- What a change of one queue does to the sum.
pub times_queued-at_replica :
    (id n i : ℕ) (s : ReplicaQueue) (q : GlobalRequestQueue)
    → times_queued id (at_replica i s q) n + (if ltb i n then times_in id (q.queues i).queue else 0)
      ≡ times_queued id q n + (if ltb i n then times_in id s.queue else 0)
times_queued-at_replica id zero i s q = ground arith
times_queued-at_replica id (suc n) i s q = ground (arith, times_queued-at_replica id n i s q)

-- A target is never the source.
abbrev pub IsAway : ℕ → ℕ → Option ℕ → Type 0
IsAway n source none = Unit
IsAway n source (some target) = (target ≢ source) × (target < n)

other_than-IsAway : (n a b t : ℕ) → t < n → IsAway n a (other_than a b t)
other_than-IsAway n a b t h =
    by_cases_of (IsAway n a) (t == a || t == b) (λ _. tt) (λ e. (ground arith, h))

neighbour-IsAway : (n source target : ℕ) → 0 < n → IsAway n source (neighbour n source target)
unfolding neighbour
neighbour-IsAway n source target h =
    by_cases_of (IsAway n source) ((source + 1) % n == source || (source + 1) % n == target)
      (λ _. other_than-IsAway n source target ((target + 1) % n) (mod-lt (target + 1) h))
      (λ e. (ground arith, mod-lt (source + 1) h))

with_room-IsAway :
    (n source : ℕ) (is_overloaded : ℕ → Bool) (o : Option ℕ)
    → IsAway n source o
    → IsAway n source (with_room is_overloaded o)
with_room-IsAway n source is_overloaded none a = tt
with_room-IsAway n source is_overloaded (some t) a =
    by_cases (IsAway n source) (is_overloaded t) tt a

-- Whether the queue has an entry of the request.
abbrev pub has : Request → List Item → Bool
has request [] = false
has request (item ∷ l) = if item.req.id == request.id then true else has request l

-- A candidate is a request of the queue, and its target another replica.
abbrev pub IsMove : ℕ → ℕ → List Item → Candidate → Type 0
IsMove n source queue candidate =
    (candidate.target_replica_id ≢ source)
    × (candidate.target_replica_id < n)
    × (has candidate.request queue ≡ true)

abbrev pub OnSome : (Candidate → Type 0) → Option Candidate → Type 0
OnSome P none = Unit
OnSome P (some candidate) = P candidate

cons_candidate-All :
    (P : Candidate → Type 0) (o : Option Candidate) (l : List Candidate)
    → OnSome P o
    → All P l
    → All P (cons_candidate o l)
cons_candidate-All P none l h a = a
cons_candidate-All P (some candidate) l h a = (h, a)

pub pick-OnSome :
    (P : Candidate → Type 0) (num_target : ℤ) (migrated : ℕ) (l : List Candidate)
    → All P l
    → OnSome P (pick num_target migrated l)
unfolding pick
pick-OnSome P num_target migrated [] a = tt
pick-OnSome P num_target migrated (candidate ∷ l) (h, a) =
    let best = best_of candidate l in
    by_cases (OnSome P) (leb_ℤ (pos 0) best.cost) tt (
      by_cases (OnSome P) (ltb_ℤ (pos 0) num_target && leb_ℤ num_target (pos migrated)) tt
        (choose-All P ltb_ℤ (λ (x : Candidate). x.cost) candidate l h a))

-- Every entry is in its queue.
has_cons :
    (request : Request) (item : Item) (l : List Item)
    → has request l ≡ true
    → has request (item ∷ l) ≡ true
has_cons request item l h = ground arith

All-has_cons :
    (item : Item) (queue l : List Item)
    → All (λ x. has x.req queue ≡ true) l
    → All (λ x. has x.req (item ∷ queue) ≡ true) l
All-has_cons item queue l =
    All-map (λ (x : Item). has x.req queue ≡ true) (λ (x : Item). has x.req (item ∷ queue) ≡ true) l
      (λ x. has_cons x.req item queue)

pub All-has : (queue : List Item) → All (λ item. has item.req queue ≡ true) queue
All-has [] = tt
All-has (item ∷ queue) = (ground arith, All-has_cons item queue queue (All-has queue))

module _ (hash_function1 hash_function2 : List ℕ → ℕ → ℕ) (hash : Bool → Option ℕ → List ℕ → ℕ)
    (c : Config) (s : SharedState) (source : ℕ) where
  find_target-IsAway :
      (loads : Loads) (request : Request)
      → 0 < s.num_replicas
      → IsAway s.num_replicas source
          (find_target hash_function1 hash_function2 hash c s source loads request)
  unfolding find_target
  find_target-IsAway loads request h =
      let n = s.num_replicas in
      let target = target_replica hash_function1 hash_function2 n source request in
      let full = is_target_overloaded hash_function1 hash_function2 hash c s source loads request in
      by_cases_of (IsAway n source) (leb n target) (λ _. tt)
        (λ within.
          by_cases_of (IsAway n source) (source == target || full target)
            (λ _.
              with_room-IsAway n source full (neighbour n source target)
                (neighbour-IsAway n source target h))
            (λ free. (ground arith, ground arith)))

  candidate_at-IsMove :
      (loads : Loads) (q : GlobalRequestQueue) (queue : List Item) (request : Request)
      (o : Option ℕ)
      → IsAway s.num_replicas source o
      → has request queue ≡ true
      → OnSome
          (IsMove s.num_replicas source queue)
          (candidate_at hash_function1 hash_function2 hash c s source loads q request o)
  candidate_at-IsMove loads q queue request none away found = tt
  candidate_at-IsMove loads q queue request (some target) (away, within) found =
      (away, within, found)

  pub candidates-IsMove :
      (loads : Loads) (q : GlobalRequestQueue) (queue l : List Item)
      → 0 < s.num_replicas
      → All (λ item. has item.req queue ≡ true) l
      → All (IsMove s.num_replicas source queue) (
          candidates hash_function1 hash_function2 hash c s source loads q
            (map (λ item. item.req) l))
  candidates-IsMove loads q queue [] h a = tt
  candidates-IsMove loads q queue (item ∷ l) h (found, a) =
      cons_candidate-All (IsMove s.num_replicas source queue) _ _
        (candidate_at-IsMove loads q queue item.req _ (find_target-IsAway loads item.req h) found)
        (candidates-IsMove loads q queue l h a)
