-- ===== src/GlobalRequestQueue/Waiting.antt =====
-- What waits before a request.
use dual_map.Prelude.{
  by_cases_of, ℕ, ◌≡◌, refl, true, false, Bool, List, [], ◌∷◌, ◌++◌, ℤ, pos, ◌+ℤ◌, arith, int_laws,
  ◌==◌, if◌then◌else◌, All, Bool-cases, inl, inr, ◌∙◌, ◌⊎◌,
}
use mathlib.Core.Path.{subst}
use dual_map.Request.{Request}
use dual_map.GlobalRequestQueue.Entry.{Item, IsBefore, IsBefore-trans, item_le}
use dual_map.GlobalRequestQueue.{
  GlobalRequestQueue, actual_prefill_tokens, insert, sort, tokens_before, item_of,
  get_num_global_actual_waiting_tokens,
}

-- The tokens of the entries that are not behind a new one, wherever they stand.
abbrev pub tokens_ahead : Item → List Item → ℤ
tokens_ahead new [] = pos 0
tokens_ahead new (item ∷ l) =
    let later = tokens_ahead new l in
    if item_le item new then actual_prefill_tokens item +ℤ later else later

-- `new` stands in the list, and what is in front of it is before it.
abbrev Reaches : Item → List Item → Type 0
Reaches new [] = ⊥
Reaches new (x ∷ l) =
    ((x.req.id == new.req.id) ≡ true) × (x ≡ new)
    ⊎ ((x.req.id == new.req.id) ≡ false) × IsBefore x new × Reaches new l

swap_heads : (a b s : ℤ) → a +ℤ (b +ℤ s) ≡ b +ℤ (a +ℤ s)
swap_heads a b s = omega int_laws

add_under :
    (b : Bool) (x a t : ℤ) → x +ℤ (if b then a +ℤ t else t) ≡ (if b then a +ℤ (x +ℤ t) else x +ℤ t)
add_under true x a t = swap_heads x a t
add_under false x a t = refl

insert-Reaches :
    (new a : Item) (l : List Item)
    → (a.req.id == new.req.id) ≡ false
    → Reaches new l
    → Reaches new (insert a l)
insert-Reaches new a [] h r = absurd r
insert-Reaches new a (x ∷ l) h (inl (s, e)) =
    by_cases_of (Reaches new) (item_le a x) (λ le. inr (h, subst (IsBefore a) e le, inl (s, e)))
      (λ _. inl (s, e))
insert-Reaches new a (x ∷ l) h (inr (d, b, r)) =
    by_cases_of (Reaches new) (item_le a x)
      (λ le. inr (h, IsBefore-trans a x new le b, inr (d, b, r)))
      (λ _. inr (d, b, insert-Reaches new a l h r))

tokens_before-insert :
    (new a : Item) (l : List Item)
    → (a.req.id == new.req.id) ≡ false
    → Reaches new l
    → tokens_before new.req (insert a l) ≡ (
        if item_le a new
        then actual_prefill_tokens a +ℤ tokens_before new.req l
        else tokens_before new.req l)
tokens_before-insert new a [] h r = absurd r
tokens_before-insert new a (x ∷ l) h (inl (s, e)) = elim (Bool-cases (item_le a x)) [
  | inl le ↦
      let le' : item_le a new ≡ true = subst (λ y. item_le a y ≡ true) e le in rw (le, h, s, le')
  | inr gt ↦
      let gt' : item_le a new ≡ false = subst (λ y. item_le a y ≡ false) e gt in rw (gt, s, gt')
]
tokens_before-insert new a (x ∷ l) h (inr (d, b, r)) = elim (Bool-cases (item_le a x)) [
  | inl le ↦ let le' : item_le a new ≡ true = IsBefore-trans a x new le b in rw (le, h, d, le')
  | inr gt ↦
      rw (gt, d, tokens_before-insert new a l h r)
        (add_under (item_le a new) (actual_prefill_tokens x) (actual_prefill_tokens a)
          (tokens_before new.req l))
]

sort_snoc :
    (new : Item) (l : List Item)
    → All (λ item. (item.req.id == new.req.id) ≡ false) l
    → Reaches new (sort (l ++ new ∷ []))
      × (tokens_before new.req (sort (l ++ new ∷ [])) ≡ tokens_ahead new l)
sort_snoc new [] a = (inl (ground arith, refl), ground arith)
sort_snoc new (x ∷ l) (h, a) =
    let (r, e) = sort_snoc new l a in
    (
      insert-Reaches new x (sort (l ++ new ∷ [])) h r,
      tokens_before-insert new x (sort (l ++ new ∷ [])) h r ∙ rw e,
    )

-- The waiting tokens of a request that is not in the queue are those of the entries that come before
-- it in the order, however the queue is arranged.
pub get_num_global_actual_waiting_tokens-ahead :
    (replica_id : ℕ) (request : Request) (prefix_cache_hit_len : ℤ) (q : GlobalRequestQueue)
    → All (λ item. (item.req.id == request.id) ≡ false) (q.queues replica_id).queue
    → get_num_global_actual_waiting_tokens replica_id request prefix_cache_hit_len q
      ≡ tokens_ahead (item_of request prefix_cache_hit_len) (q.queues replica_id).queue
unfolding get_num_global_actual_waiting_tokens
get_num_global_actual_waiting_tokens-ahead replica_id request prefix_cache_hit_len q a =
    (sort_snoc (item_of request prefix_cache_hit_len) (q.queues replica_id).queue a).1
