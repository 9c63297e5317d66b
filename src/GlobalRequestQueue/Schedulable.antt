-- ===== src/GlobalRequestQueue/Schedulable.antt =====
-- What `pop_schedulable` takes off a queue.
use dual_map.Prelude.{
  ℕ, zero, suc, ◌+◌, ◌<◌, ◌≡◌, refl, true, false, some, Option, List, [], ◌∷◌, ◌++◌, ℤ, pos, ◌-ℤ◌,
  leb_ℤ, arith, length, All, inl, inr, ◌⊎◌, Bool-cases, map,
}
use mathlib.Core.List.{Permᴰ}
use mathlib.Core.List.Permᴰ
use dual_map.Prelude.Perms.{Permᴰ-All, Permᴰ-length}
use dual_map.GlobalRequestQueue.Entry.{Item, Heapq, IsHeap, IsBefore}
use dual_map.GlobalRequestQueue.{
  GlobalRequestQueue, ReplicaQueue, actual_prefill_tokens, input_tokens, without, reached, pop_loop,
  pop_schedulable, at_replica,
}
use dual_map.GlobalRequestQueue.Counts.{holding}
use dual_map.GlobalRequestQueue.Order.{IsHeap-front}

-- The budget after the entries.
abbrev pub left : ℤ → List Item → ℤ
left budget [] = budget
left budget (item ∷ l) = left (budget -ℤ actual_prefill_tokens item) l

-- Each entry is before the ones behind it and before the rest.
abbrev pub Precede : List Item → List Item → Type 0
Precede [] rest = Unit
Precede (item ∷ l) rest = All (IsBefore item) (l ++ rest) × Precede l rest

-- No entry is taken at the maximal number, and none after the budget is used up.
abbrev pub Fits : Option ℤ → ℕ → ℤ → List Item → Type 0
Fits max_pop_num count budget [] = Unit
Fits max_pop_num count budget (item ∷ []) = reached max_pop_num count ≡ false
Fits max_pop_num count budget (item ∷ next ∷ l) =
    (reached max_pop_num count ≡ false)
    × (leb_ℤ (budget -ℤ actual_prefill_tokens item) (pos 0) ≡ false)
    × Fits max_pop_num (count + 1) (budget -ℤ actual_prefill_tokens item) (next ∷ l)

-- `items` are what is popped off `queue`, and `rest` is what stays.
pub record IsPopped (max_pop_num : Option ℤ) (count : ℕ) (budget : ℤ) (queue items rest : List Item)
    : Type 0 where
  pub all : Permᴰ (items ++ rest) queue
  pub order : Precede items rest
  pub heap : IsHeap rest
  pub fits : Fits max_pop_num count budget items
  pub stopped :
      (rest ≡ [])
      ⊎ (reached max_pop_num (count + length items) ≡ true)
      ⊎ (leb_ℤ (left budget items) (pos 0) ≡ true)

cons-Fits :
    (max_pop_num : Option ℤ) (count : ℕ) (budget : ℤ) (item : Item) (l : List Item)
    → reached max_pop_num count ≡ false
    → leb_ℤ (budget -ℤ actual_prefill_tokens item) (pos 0) ≡ false
    → Fits max_pop_num (count + 1) (budget -ℤ actual_prefill_tokens item) l
    → Fits max_pop_num count budget (item ∷ l)
cons-Fits m count budget item [] go more f = go
cons-Fits m count budget item (next ∷ l) go more f = (go, more, f)

module _ (heapq : Heapq) where
  cons-IsPopped :
      (max_pop_num : Option ℤ) (count : ℕ) (budget : ℤ) (item : Item) (queue items rest : List Item)
      → IsHeap (item ∷ queue)
      → reached max_pop_num count ≡ false
      → leb_ℤ (budget -ℤ actual_prefill_tokens item) (pos 0) ≡ false
      → IsPopped max_pop_num
          (count + 1)
          (budget -ℤ actual_prefill_tokens item)
          (heapq.heappop_rest item queue)
          items
          rest
      → IsPopped max_pop_num count budget (item ∷ queue) (item ∷ items) rest
  cons-IsPopped m count budget item queue items rest heap go more p =
      let same = Permᴰ.trans p.all (heapq.heappop_rest-Permᴰ item queue) in
      record {
        all = Permᴰ.cons refl same;
        order =
            (Permᴰ-All (IsBefore item) (Permᴰ.symm same) (IsHeap-front item queue heap), p.order);
        heap = p.heap;
        fits = cons-Fits m count budget item items go more p.fits;
        stopped = rw (shift count (length items)) p.stopped;
      }
    where
      shift : (n k : ℕ) → n + suc k ≡ n + 1 + k
      shift n k = omega arith

  one-IsPopped :
      (max_pop_num : Option ℤ) (count : ℕ) (budget : ℤ) (item : Item) (queue : List Item)
      → IsHeap (item ∷ queue)
      → reached max_pop_num count ≡ false
      → leb_ℤ (budget -ℤ actual_prefill_tokens item) (pos 0) ≡ true
      → IsPopped max_pop_num count budget (item ∷ queue) (item ∷ []) (heapq.heappop_rest item queue)
  one-IsPopped m count budget item queue heap go spent = record {
    all = Permᴰ.cons refl (heapq.heappop_rest-Permᴰ item queue);
    order = (
      Permᴰ-All (IsBefore item) (Permᴰ.symm (heapq.heappop_rest-Permᴰ item queue))
          (IsHeap-front item queue heap),
      tt,
    );
    heap = heapq.heappop_rest-IsHeap item queue heap;
    fits = go;
    stopped = inr (inr spent);
  }

  pop_loop_lem :
      (fuel : ℕ) (budget : ℤ) (max_pop_num : Option ℤ) (count : ℕ) (queue : List Item) (a i : ℤ)
      → IsHeap queue
      → length queue < fuel
      → (items : List Item) × (s : ReplicaQueue) × (pop_loop heapq fuel budget max_pop_num count
            (holding queue a i)
          ≡ some (items, s))
        × IsPopped max_pop_num count budget queue items s.queue
  pop_loop_lem zero budget m count queue a i heap lt = absurd (omega (arith, lt))
  pop_loop_lem (suc fuel) budget m count [] a i heap lt = (
    [],
    holding [] a i,
    refl,
    record { all = Permᴰ.nil; order = tt; heap = heap; fits = tt; stopped = inl refl },
  )
  pop_loop_lem (suc fuel) budget m count (item ∷ rest) a i heap lt =
      elim (Bool-cases (reached m count)) [
        | inl stop ↦ (
          [],
          holding (item ∷ rest) a i,
          rw stop,
          record {
            all = Permᴰ.refl (item ∷ rest);
            order = tt;
            heap = heap;
            fits = tt;
            stopped = inr (inl (rw (plus_zero count) stop));
          },
        )
        | inr go ↦ elim (Bool-cases (leb_ℤ (budget -ℤ actual_prefill_tokens item) (pos 0))) [
          | inl spent ↦ (
            item ∷ [],
            without item (heapq.heappop_rest item rest) (holding (item ∷ rest) a i),
            rw (go, spent),
            one-IsPopped m count budget item rest heap go spent,
          )
          | inr more ↦
              let (items, s, e, p) =
                pop_loop_lem fuel (budget -ℤ actual_prefill_tokens item) m (count + 1)
                  (heapq.heappop_rest item rest) (a -ℤ actual_prefill_tokens item)
                  (i -ℤ input_tokens item) (heapq.heappop_rest-IsHeap item rest heap)
                  (omega (arith, lt, Permᴰ-length (heapq.heappop_rest-Permᴰ item rest))) in
              (
                item ∷ items,
                s,
                rw (go, more, e),
                cons-IsPopped m count budget item rest items s.queue heap go more p,
              )
        ]
      ]
    where
      plus_zero : (n : ℕ) → n + 0 ≡ n
      plus_zero n = omega arith

  -- If the queue of a replica is a heap, pop_schedulable ends. It returns requests in the order of the
  -- queue, before all that stay; popped and left entries together are the entries of the queue, and
  -- what is left is a heap. It takes no entry at the maximal number and none after the budget is
  -- used up, and it stops only there or at the empty queue. The other queues stay as they are.
  pub pop_schedulable-IsPopped :
      (replica_id : ℕ) (budget : ℤ) (max_pop_num : Option ℤ) (q : GlobalRequestQueue)
      → IsHeap (q.queues replica_id).queue
      → (items : List Item) × (s : ReplicaQueue) × (pop_schedulable heapq replica_id budget
            max_pop_num q
          ≡ some (map (λ item. item.req) items, at_replica replica_id s q))
        × IsPopped max_pop_num 0 budget (q.queues replica_id).queue items s.queue
  unfolding pop_schedulable
  pop_schedulable-IsPopped replica_id budget m q heap =
      let r = q.queues replica_id in
      let (items, s, e, p) =
        pop_loop_lem (length r.queue + 1) budget m 0 r.queue r.actual_waiting_tokens_count
          r.input_waiting_tokens_count heap (omega arith) in
      (items, s, rw e, p)
