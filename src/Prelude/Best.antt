-- ===== src/Prelude/Best.antt =====
-- The first best element of a list, as Python's `max` and `min` with a key choose it.
use mathlib.Core.Path.{◌≡◌, refl, subst}
use mathlib.Core.Logic.{◌⊎◌, inl, inr}
use mathlib.Core.Bool.{Bool, true, false}
use mathlib.Core.List.{List, [], ◌∷◌}
use dual_map.Prelude.Tests.{if◌then◌else◌, by_cases, by_cases_of}
use dual_map.Prelude.Lists.{All}

-- A strict order whose complement is transitive.
pub record IsRanking {K : Type 0} (better : K → K → Bool) : Type 0 where
  pub trans : (a b c : K) → better a b ≡ true → better b c ≡ true → better a c ≡ true
  pub beats : (a b c : K) → better a b ≡ true → better c b ≡ false → better a c ≡ true

module _ {A K : Type 0} (better : K → K → Bool) (key : A → K) where
  -- The best of `best` and the list, the earliest of several.
  abbrev pub choose : A → List A → A
  choose best [] = best
  choose best (x ∷ l) = choose (if better (key x) (key best) then x else best) l

  -- `r` is in the list, better than all in front of it and no worse than all behind it.
  abbrev pub IsFirstBest : List A → A → Type 0
  IsFirstBest [] r = ⊥
  IsFirstBest (x ∷ l) r =
      ((x ≡ r) × All (λ y. better (key y) (key r) ≡ false) l)
      ⊎ (better (key r) (key x) ≡ true) × IsFirstBest l r

module _ {A K : Type 0} {better : K → K → Bool} (ranking : IsRanking better) (key : A → K) where
  IsFirstBest-worse :
      (best x r : A) (l : List A)
      → better (key x) (key best) ≡ false
      → IsFirstBest better key (best ∷ l) r
      → IsFirstBest better key (best ∷ x ∷ l) r
  IsFirstBest-worse best x r l h (inl (e, a)) =
      inl (e, (subst (λ y. better (key x) (key y) ≡ false) e h, a))
  IsFirstBest-worse best x r l h (inr (b, i)) =
      inr (b, inr (ranking.beats (key r) (key best) (key x) b h, i))

  IsFirstBest-better :
      (best x r : A) (l : List A)
      → better (key x) (key best) ≡ true
      → IsFirstBest better key (x ∷ l) r
      → IsFirstBest better key (best ∷ x ∷ l) r
  IsFirstBest-better best x r l h (inl (e, a)) =
      inr (subst (λ y. better (key y) (key best) ≡ true) e h, inl (e, a))
  IsFirstBest-better best x r l h (inr (b, i)) =
      inr (ranking.trans (key r) (key x) (key best) b h, inr (b, i))

  pub choose-IsFirstBest :
      (best : A) (l : List A) → IsFirstBest better key (best ∷ l) (choose better key best l)
  choose-IsFirstBest best [] = inl (refl, tt)
  choose-IsFirstBest best (x ∷ l) =
      by_cases_of (λ c. IsFirstBest better key (best ∷ x ∷ l) (choose better key c l))
        (better (key x) (key best)) (λ h. IsFirstBest-better best x _ l h (choose-IsFirstBest x l))
        (λ h. IsFirstBest-worse best x _ l h (choose-IsFirstBest best l))

-- What holds of all elements holds of the chosen one.
pub choose-All :
    {A K : Type 0} (P : A → Type 0) (better : K → K → Bool) (key : A → K) (best : A) (l : List A)
    → P best
    → All P l
    → P (choose better key best l)
choose-All P better key best [] p a = p
choose-All P better key best (x ∷ l) p (h, a) =
    choose-All P better key (if better (key x) (key best) then x else best) l
      (by_cases P (better (key x) (key best)) h p) a
