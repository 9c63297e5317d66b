-- ===== src/Prelude/Sums.antt =====
-- Sums of integers over lists.
use dual_map.Prelude.Int.{ℤ, pos, ◌+ℤ◌, parts_of_eq, int_laws}
use mathlib.Core.Path.{◌≡◌, refl, ap₂, ◌∙◌}
use mathlib.Core.List.{List, [], ◌∷◌, ◌++◌, Permᴰ}
use mathlib.Core.List.Permᴰ.{nil, cons, swap, trans}

swap_parts : (a b s : ℤ) → a +ℤ (b +ℤ s) ≡ b +ℤ (a +ℤ s)
swap_parts a b s = omega int_laws

module _ {ℓ} {A : Type ℓ} (f : A → ℤ) where
  abbrev pub sum_by : List A → ℤ
  sum_by [] = pos 0
  sum_by (x ∷ xs) = f x +ℤ sum_by xs

  pub sum_by-append : (xs ys : List A) → sum_by (xs ++ ys) ≡ sum_by xs +ℤ sum_by ys
  sum_by-append [] ys = omega int_laws
  sum_by-append (x ∷ xs) ys = omega (int_laws, parts_of_eq (sum_by-append xs ys))

  -- The sum does not look at the order.
  pub sum_by-Permᴰ : {xs ys : List A} → Permᴰ xs ys → sum_by xs ≡ sum_by ys
  sum_by-Permᴰ nil = refl
  sum_by-Permᴰ (cons {a} {b} {l₁} {l₂} e p) = ap₂ (λ x s. f x +ℤ s) e (sum_by-Permᴰ p)
  sum_by-Permᴰ (swap {a} {b} {a'} {b'} {l} e g) =
      ap₂ (λ x y. f x +ℤ (f y +ℤ sum_by l)) e g ∙ swap_parts (f b') (f a') (sum_by l)
  sum_by-Permᴰ (trans p q) = sum_by-Permᴰ p ∙ sum_by-Permᴰ q
