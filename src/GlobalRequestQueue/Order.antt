-- ===== src/GlobalRequestQueue/Order.antt =====
-- The queues stay heaps, so that the entry at the front is the first in the order.
use dual_map.Prelude.{
  ℕ, zero, suc, ◌+◌, ◌*◌, ◌/◌, ◌<◌, ◌≡◌, some, List, ◌∷◌, arith, get_elem?, All, inl, inr, ◌⊎◌,
}
use dual_map.Prelude.Perms.{get_elem?-All, get_elem?-le}
use mathlib.Core.Option.{some-injective}
use mathlib.Core.Path.{subst}
use dual_map.GlobalRequestQueue.Entry.{Item, IsHeap, IsBefore, IsBefore-trans}

IsBefore-refl : (a : Item) → IsBefore a a
IsBefore-refl a = ground arith

-- Where `heapq` has the children of an entry.
half : (i : ℕ) → (suc i ≡ 2 * (i / 2) + 1) ⊎ (suc i ≡ 2 * (i / 2) + 2)
half i = ground arith

child :
    (l : List Item) (i : ℕ) (b : Item)
    → get_elem? l (suc i) ≡ some b
    → (get_elem? l (2 * (i / 2) + 1) ≡ some b) ⊎ (get_elem? l (2 * (i / 2) + 2) ≡ some b)
child l i b e = elim (half i) [
  | inl p ↦ inl (subst (λ j. get_elem? l j ≡ some b) p e)
  | inr p ↦ inr (subst (λ j. get_elem? l j ≡ some b) p e)
]

least_at :
    (fuel i : ℕ) (x b : Item) (h : List Item)
    → IsHeap (x ∷ h)
    → i < fuel
    → get_elem? (x ∷ h) i ≡ some b
    → IsBefore x b
least_at zero i x b h heap lt e = absurd (omega (arith, lt))
least_at (suc fuel) zero x b h heap lt e =
    subst (IsBefore x) (some-injective x b e) (IsBefore-refl x)
least_at (suc fuel) (suc i) x b h heap lt e =
    let k = i / 2 in
    let (a, at_k) = get_elem?-le (x ∷ h) (suc i) k b e (omega arith) in
    IsBefore-trans x a b (least_at fuel k x a h heap (omega (arith, lt)) at_k)
      (heap k a b at_k (child (x ∷ h) i b e))

-- The front of a heap is before every other entry.
pub IsHeap-front : (x : Item) (h : List Item) → IsHeap (x ∷ h) → All (IsBefore x) h
IsHeap-front x h heap =
    get_elem?-All (IsBefore x) h λ i b e. least_at (suc (suc i)) (suc i) x b h heap (omega arith) e
