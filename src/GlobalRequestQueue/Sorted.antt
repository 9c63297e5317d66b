-- ===== src/GlobalRequestQueue/Sorted.antt =====
-- Sorting entries, and the heap interface met by sorted lists.
use dual_map.Prelude.{
  by_cases, ℕ, zero, suc, ◌+◌, ◌*◌, ◌<◌, ◌≡◌, refl, some, List, [], ◌∷◌, arith, get_elem?, All, inl,
  inr, Bool-cases,
}
use mathlib.Core.Path.{subst}
use mathlib.Core.Option.{some-injective}
use mathlib.Core.List.{Permᴰ}
use mathlib.Core.List.Permᴰ
use dual_map.Prelude.Perms.{Permᴰ-All, All-map}
use dual_map.GlobalRequestQueue.{insert, sort}
use dual_map.GlobalRequestQueue.Entry.{Item, Heapq, IsHeap, IsBefore, IsBefore-trans, item_le}

abbrev pub IsSorted : List Item → Type 0
IsSorted [] = Unit
IsSorted (a ∷ l) = All (IsBefore a) l × IsSorted l

pub insert-Permᴰ : (a : Item) (l : List Item) → Permᴰ (insert a l) (a ∷ l)
insert-Permᴰ a [] = Permᴰ.refl (a ∷ [])
insert-Permᴰ a (x ∷ l) =
    by_cases (λ m. Permᴰ m (a ∷ x ∷ l)) (item_le a x) (Permᴰ.refl (a ∷ x ∷ l))
      (Permᴰ.trans (Permᴰ.cons refl (insert-Permᴰ a l)) (Permᴰ.swap refl refl))

pub sort-Permᴰ : (l : List Item) → Permᴰ (sort l) l
sort-Permᴰ [] = Permᴰ.nil
sort-Permᴰ (a ∷ l) = Permᴰ.trans (insert-Permᴰ a (sort l)) (Permᴰ.cons refl (sort-Permᴰ l))

pub insert-IsSorted : (a : Item) (l : List Item) → IsSorted l → IsSorted (insert a l)
insert-IsSorted a [] s = (tt, tt)
insert-IsSorted a (x ∷ l) (h, s) = elim (Bool-cases (item_le a x)) [
  | inl le ↦
      rw le ((le, All-map (IsBefore x) (IsBefore a) l (λ y. IsBefore-trans a x y le) h), (h, s))
  | inr gt ↦ rw gt (
    Permᴰ-All (IsBefore x) (Permᴰ.symm (insert-Permᴰ a l)) (ground arith, h),
    insert-IsSorted a l s,
  )
]

pub sort-IsSorted : (l : List Item) → IsSorted (sort l)
sort-IsSorted [] = tt
sort-IsSorted (a ∷ l) = insert-IsSorted a (sort l) (sort-IsSorted l)

All-get_elem? :
    (P : Item → Type 0) (l : List Item) (i : ℕ) (x : Item) → All P l → get_elem? l i ≡ some x → P x
All-get_elem? P [] i x a e = absurd (ground arith)
All-get_elem? P (y ∷ l) zero x (h, a) e = subst P (some-injective y x e) h
All-get_elem? P (y ∷ l) (suc i) x (h, a) e = All-get_elem? P l i x a e

sorted_at :
    (l : List Item) (k j : ℕ) (a b : Item)
    → IsSorted l
    → k < j
    → get_elem? l k ≡ some a
    → get_elem? l j ≡ some b
    → IsBefore a b
sorted_at [] k j a b s lt e g = absurd (ground arith)
sorted_at (x ∷ l) k zero a b s lt e g = absurd (omega (arith, lt))
sorted_at (x ∷ l) zero (suc j) a b (h, s) lt e g =
    subst (λ y. IsBefore y b) (some-injective x a e) (All-get_elem? (IsBefore x) l j b h g)
sorted_at (x ∷ l) (suc k) (suc j) a b (h, s) lt e g = sorted_at l k j a b s (omega (arith, lt)) e g

pub IsSorted-IsHeap : (l : List Item) → IsSorted l → IsHeap l
IsSorted-IsHeap l s k a b e (inl g) = sorted_at l k (2 * k + 1) a b s (omega arith) e g
IsSorted-IsHeap l s k a b e (inr g) = sorted_at l k (2 * k + 2) a b s (omega arith) e g

abbrev pub sorted_heapq : Heapq
sorted_heapq = record {
  heappush = λ h x. sort (x ∷ h);
  heappop_rest = λ x h. sort h;
  heapify = sort;
  heappush-Permᴰ = λ h x. sort-Permᴰ (x ∷ h);
  heappop_rest-Permᴰ = λ x. sort-Permᴰ;
  heapify-Permᴰ = sort-Permᴰ;
  heappush-IsHeap = λ h x _. IsSorted-IsHeap (sort (x ∷ h)) (sort-IsSorted (x ∷ h));
  heappop_rest-IsHeap = λ x h _. IsSorted-IsHeap (sort h) (sort-IsSorted h);
  heapify-IsHeap = λ h. IsSorted-IsHeap (sort h) (sort-IsSorted h);
}
