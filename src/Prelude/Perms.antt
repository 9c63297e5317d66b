-- ===== src/Prelude/Perms.antt =====
-- What permuted lists share.
use Prim.Native.Nat.{ℕ, zero, suc, ◌≤◌}
use mathlib.Core.Path.{◌≡◌, refl, ap, subst, ◌∙◌}
use mathlib.Core.Option.{some}
use mathlib.Core.List.{List, [], ◌∷◌, ◌++◌, Permᴰ}
use mathlib.Core.List.Permᴰ.{nil, cons, swap, trans}
use native.Mathlib.Omega.{arith}
use dual_map.Prelude.Lists.{length, All, get_elem?}

module _ {ℓ} {A : Type ℓ} where
  pub Permᴰ-length : {xs ys : List A} → Permᴰ xs ys → length xs ≡ length ys
  Permᴰ-length nil = refl
  Permᴰ-length (cons e p) = ap suc (Permᴰ-length p)
  Permᴰ-length (swap e g) = refl
  Permᴰ-length (trans p q) = Permᴰ-length p ∙ Permᴰ-length q

  pub Permᴰ-All {κ} : (P : A → Type κ) {xs ys : List A} → Permᴰ xs ys → All P xs → All P ys
  Permᴰ-All P nil a = a
  Permᴰ-All P (cons e p) (h, a) = (subst P e h, Permᴰ-All P p a)
  Permᴰ-All P (swap e g) (h, (k, a)) = (subst P g k, (subst P e h, a))
  Permᴰ-All P (trans p q) a = Permᴰ-All P q (Permᴰ-All P p a)

  pub All-append {κ} : (P : A → Type κ) (xs ys : List A) → All P xs → All P ys → All P (xs ++ ys)
  All-append P [] ys a b = b
  All-append P (x ∷ xs) ys (h, a) b = (h, All-append P xs ys a b)

  pub All-map {κ μ} :
      (P : A → Type κ) (Q : A → Type μ) (xs : List A) → ((x : A) → P x → Q x) → All P xs → All Q xs
  All-map P Q [] f a = tt
  All-map P Q (x ∷ xs) f (h, a) = (f x h, All-map P Q xs f a)

  -- A property of what stands at each position is one of all elements.
  pub get_elem?-All {κ} :
      (P : A → Type κ) (xs : List A) → ((i : ℕ) (x : A) → get_elem? xs i ≡ some x → P x) → All P xs
  get_elem?-All P [] f = tt
  get_elem?-All P (x ∷ xs) f = (f 0 x refl, get_elem?-All P xs λ i. f (suc i))

  -- Before an element there are elements.
  pub get_elem?-le :
      (xs : List A) (i k : ℕ) (x : A)
      → get_elem? xs i ≡ some x
      → k ≤ i
      → (y : A) × (get_elem? xs k ≡ some y)
  get_elem?-le [] i k x e h = absurd (ground arith)
  get_elem?-le (y ∷ xs) i zero x e h = (y, refl)
  get_elem?-le (y ∷ xs) zero (suc k) x e h = absurd (omega (arith, h))
  get_elem?-le (y ∷ xs) (suc i) (suc k) x e h = get_elem?-le xs i k x e (omega (arith, h))
