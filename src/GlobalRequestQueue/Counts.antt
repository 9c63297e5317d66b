-- ===== src/GlobalRequestQueue/Counts.antt =====
-- The counts of a queue are sums over its entries.
use dual_map.Prelude.{
  by_cases, ℕ, ◌+◌, ◌≡◌, refl, none, some, Option, List, [], ◌∷◌, ℤ, pos, ◌+ℤ◌, ◌-ℤ◌, int_laws,
  parts_of_eq, ◌==◌, ◌∙◌, sym, Bool-cases, inl, inr, leb_ℤ, zero, suc,
}
use mathlib.Core.List.{Permᴰ}
use mathlib.Core.List.Permᴰ
use dual_map.Prelude.Sums.{sum_by, sum_by-Permᴰ}
use dual_map.Request.{Request}
use dual_map.GlobalRequestQueue.Entry.{Item, Heapq}
use dual_map.GlobalRequestQueue.{
  ReplicaQueue, actual_prefill_tokens, input_tokens, without, del_found, take_out, behind, popped,
  push_in, pop_from, del_from, item_of, pop_loop, reached,
}

pub record IsCounted (s : ReplicaQueue) : Type 0 where
  pub actual : s.actual_waiting_tokens_count ≡ sum_by actual_prefill_tokens s.queue
  pub input : s.input_waiting_tokens_count ≡ sum_by input_tokens s.queue

minus_head : (c a s : ℤ) → c ≡ a +ℤ s → c -ℤ a ≡ s
minus_head c a s h = omega (int_laws, parts_of_eq h)

plus_head : (c a s : ℤ) → c ≡ s → c +ℤ a ≡ a +ℤ s
plus_head c a s h = omega (int_laws, parts_of_eq h)

-- An entry leaves, and the others stay in any order.
pub without-IsCounted :
    (item : Item) (queue : List Item) (s : ReplicaQueue)
    → Permᴰ s.queue (item ∷ queue)
    → IsCounted s
    → IsCounted (without item queue s)
without-IsCounted item queue s p c = record {
  actual =
      minus_head s.actual_waiting_tokens_count (actual_prefill_tokens item)
        (sum_by actual_prefill_tokens queue) (c.actual ∙ sum_by-Permᴰ actual_prefill_tokens p);
  input =
      minus_head s.input_waiting_tokens_count (input_tokens item) (sum_by input_tokens queue)
        (c.input ∙ sum_by-Permᴰ input_tokens p);
}

-- What is taken out of a list is one of its entries, and the others stay.
abbrev pub TakesOut : List Item → Option (Item × List Item) → Type 0
TakesOut l none = Unit
TakesOut l (some (item, rest)) = Permᴰ l (item ∷ rest)

behind-TakesOut :
    (x : Item) (l : List Item) (o : Option (Item × List Item))
    → TakesOut l o
    → TakesOut (x ∷ l) (behind x o)
behind-TakesOut x l none p = tt
behind-TakesOut x l (some (item, rest)) p = Permᴰ.trans (Permᴰ.cons refl p) (Permᴰ.swap refl refl)

pub take_out-TakesOut : (request : Request) (l : List Item) → TakesOut l (take_out request l)
take_out-TakesOut request [] = tt
take_out-TakesOut request (x ∷ l) = elim (Bool-cases (x.req.id == request.id)) [
  | inl same ↦ rw same (Permᴰ.refl (x ∷ l))
  | inr other ↦ rw other (behind-TakesOut x l (take_out request l) (take_out-TakesOut request l))
]

abbrev pub holding : List Item → ℤ → ℤ → ReplicaQueue
holding queue actual input = record {
  queue = queue;
  actual_waiting_tokens_count = actual;
  input_waiting_tokens_count = input;
}

module _ (heapq : Heapq) where
  pub push_in-IsCounted :
      (request : Request) (hit : ℤ) (s : ReplicaQueue)
      → IsCounted s
      → IsCounted (push_in heapq request hit s)
  push_in-IsCounted request hit s c = record {
    actual =
        plus_head s.actual_waiting_tokens_count (actual_prefill_tokens (item_of request hit))
          (sum_by actual_prefill_tokens s.queue) c.actual
        ∙ sym (
            sum_by-Permᴰ actual_prefill_tokens
              (heapq.heappush-Permᴰ s.queue (item_of request hit)));
    input =
        plus_head s.input_waiting_tokens_count (input_tokens (item_of request hit))
          (sum_by input_tokens s.queue) c.input
        ∙ sym (sum_by-Permᴰ input_tokens (heapq.heappush-Permᴰ s.queue (item_of request hit)));
  }

  pub without_head-IsCounted :
      (item : Item) (rest : List Item) (s : ReplicaQueue)
      → s.queue ≡ item ∷ rest
      → IsCounted s
      → IsCounted (without item (heapq.heappop_rest item rest) s)
  without_head-IsCounted item rest s e =
      without-IsCounted item (heapq.heappop_rest item rest) s
        (rw e (Permᴰ.cons refl (Permᴰ.symm (heapq.heappop_rest-Permᴰ item rest))))

  pub pop_from-IsCounted :
      (queue : List Item) (s : ReplicaQueue)
      → s.queue ≡ queue
      → IsCounted s
      → IsCounted (pop_from heapq queue s).1
  pop_from-IsCounted [] s e c = c
  pop_from-IsCounted (item ∷ rest) s e c = without_head-IsCounted item rest s e c

  del_found-IsCounted :
      (s : ReplicaQueue) (o : Option (Item × List Item))
      → TakesOut s.queue o
      → IsCounted s
      → IsCounted (del_found heapq s o).1
  del_found-IsCounted s none p c = c
  del_found-IsCounted s (some (item, rest)) p c =
      without-IsCounted item (heapq.heapify rest) s
        (Permᴰ.trans p (Permᴰ.cons refl (Permᴰ.symm (heapq.heapify-Permᴰ rest)))) c

  pub del_from-IsCounted :
      (request : Request) (s : ReplicaQueue) → IsCounted s → IsCounted (del_from heapq request s).1
  del_from-IsCounted request s =
      del_found-IsCounted s (take_out request s.queue) (take_out-TakesOut request s.queue)

  -- A loop that ends leaves a counted queue.
  abbrev pub LeavesCounted : Option (List Item × ReplicaQueue) → Type 0
  LeavesCounted none = Unit
  LeavesCounted (some (items, s)) = IsCounted s

  popped-LeavesCounted :
      (item : Item) (o : Option (List Item × ReplicaQueue))
      → LeavesCounted o
      → LeavesCounted (popped item o)
  popped-LeavesCounted item none c = tt
  popped-LeavesCounted item (some (items, s)) c = c

  pub pop_loop-LeavesCounted :
      (fuel : ℕ) (budget : ℤ) (max_pop_num : Option ℤ) (pop_count : ℕ) (queue : List Item)
      (actual input : ℤ)
      → IsCounted (holding queue actual input)
      → LeavesCounted
          (pop_loop heapq fuel budget max_pop_num pop_count (holding queue actual input))
  pop_loop-LeavesCounted zero budget max_pop_num pop_count queue actual input c = tt
  pop_loop-LeavesCounted (suc fuel) budget max_pop_num pop_count [] actual input c = c
  pop_loop-LeavesCounted (suc fuel) budget max_pop_num pop_count (item ∷ rest) actual input c =
      let c' = without_head-IsCounted item rest (holding (item ∷ rest) actual input) refl c in
      by_cases LeavesCounted (reached max_pop_num pop_count) c (
        by_cases LeavesCounted (leb_ℤ (budget -ℤ actual_prefill_tokens item) (pos 0)) c' (
          popped-LeavesCounted item _ (
            pop_loop-LeavesCounted fuel (budget -ℤ actual_prefill_tokens item) max_pop_num
              (pop_count + 1) (heapq.heappop_rest item rest) (actual -ℤ actual_prefill_tokens item)
              (input -ℤ input_tokens item) c')))
