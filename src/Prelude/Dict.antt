-- ===== src/Prelude/Dict.antt =====
-- Python's `dict` and `OrderedDict`: an association list in insertion order, the oldest first.
use Prim.Native.Nat.{◌+◌}
use mathlib.Core.Path.{◌≡◌, refl}
use mathlib.Core.Logic.{◌≢◌, inl, inr, ite}
use mathlib.Core.Bool.{Bool, true}
use mathlib.Core.Option.{none, some}
use mathlib.Core.List.{List, [], ◌∷◌, ◌++◌, lookup}
use native.Mathlib.Omega.{arith}
use dual_map.Prelude.Tests.{is_some, Option-cases}
use dual_map.Prelude.Lists.{length, length-append}

module _ {ℓ} {K V : Type ℓ} where
  abbrev pub values : List (K × V) → List V
  values [] = []
  values ((k, v) ∷ d) = v ∷ values d

module _ {ℓ} {K V : Type ℓ} (dec : Discrete K) where
  -- `d[k] = v`: a present key keeps its place.
  unfoldable pub assign : K → V → List (K × V) → List (K × V)
  assign k v [] = (k, v) ∷ []
  assign k v ((j, w) ∷ d) = ite (dec k j) ((j, v) ∷ d) ((j, w) ∷ assign k v d)

  -- `del d[k]`
  unfoldable pub del : K → List (K × V) → List (K × V)
  del k [] = []
  del k ((j, w) ∷ d) = ite (dec k j) d ((j, w) ∷ del k d)

  -- `d.move_to_end(k)`, for a key that is present.
  unfoldable pub move_to_end : K → List (K × V) → List (K × V)
  move_to_end k d = elim (lookup dec k d) [ none ↦ d | some v ↦ del k d ++ (k, v) ∷ [] ]

  abbrev pub contains : K → List (K × V) → Bool
  contains k d = is_some (lookup dec k d)

  -- No key occurs twice.
  abbrev pub IsDistinct : List (K × V) → Type ℓ
  IsDistinct [] = Unit
  IsDistinct ((k, v) ∷ d) = (lookup dec k d ≡ none) × IsDistinct d

module _ {ℓ} {K V : Type ℓ} (dec : Discrete K) where
  pub lookup-assign :
      (k j : K) (v : V) (d : List (K × V))
      → lookup dec j (assign dec k v d) ≡ ite (dec j k) (some v) (lookup dec j d)
  unfolding lookup assign
  lookup-assign k j v [] = refl
  lookup-assign k j v ((i, w) ∷ d) = ground (arith, lookup-assign k j v d)

  pub lookup-append :
      (j : K) (d e : List (K × V))
      → lookup dec j (d ++ e) ≡ (elim (lookup dec j d) [ none ↦ lookup dec j e | some v ↦ some v ])
  unfolding lookup
  lookup-append j [] e = refl
  lookup-append j ((i, w) ∷ d) e = ground (arith, lookup-append j d e)

  pub lookup-del_ne :
      (k j : K) (d : List (K × V)) → j ≢ k → lookup dec j (del dec k d) ≡ lookup dec j d
  unfolding lookup del
  lookup-del_ne k j [] h = refl
  lookup-del_ne k j ((i, w) ∷ d) h = ground (arith, lookup-del_ne k j d)

  pub lookup-del_self :
      (k : K) (d : List (K × V)) → IsDistinct dec d → lookup dec k (del dec k d) ≡ none
  unfolding lookup del
  lookup-del_self k [] h = refl
  lookup-del_self k ((i, w) ∷ d) h = ground (arith, lookup-del_self k d)

  pub del-absent : (k : K) (d : List (K × V)) → lookup dec k d ≡ none → del dec k d ≡ d
  unfolding lookup del
  del-absent k [] h = refl
  del-absent k ((i, w) ∷ d) h = ground (arith, del-absent k d)

  pub length-del :
      (k : K) (d : List (K × V)) → contains dec k d ≡ true → length (del dec k d) + 1 ≡ length d
  unfolding lookup del
  length-del k [] h = absurd (ground arith)
  length-del k ((i, w) ∷ d) h = ground (arith, length-del k d)

  pub length-assign_absent :
      (k : K) (v : V) (d : List (K × V))
      → lookup dec k d ≡ none
      → length (assign dec k v d) ≡ length d + 1
  unfolding lookup assign
  length-assign_absent k v [] h = omega arith
  length-assign_absent k v ((i, w) ∷ d) h = ground (arith, length-assign_absent k v d)

  pub assign-absent :
      (k : K) (v : V) (d : List (K × V))
      → lookup dec k d ≡ none
      → assign dec k v d ≡ d ++ (k, v) ∷ []
  unfolding lookup assign
  assign-absent k v [] h = refl
  assign-absent k v ((i, w) ∷ d) h = ground (arith, assign-absent k v d)

  pub length-assign_present :
      (k : K) (v : V) (d : List (K × V))
      → contains dec k d ≡ true
      → length (assign dec k v d) ≡ length d
  unfolding lookup assign
  length-assign_present k v [] h = absurd (ground arith)
  length-assign_present k v ((i, w) ∷ d) h = ground (arith, length-assign_present k v d)

  pub del-IsDistinct : (k : K) (d : List (K × V)) → IsDistinct dec d → IsDistinct dec (del dec k d)
  unfolding lookup del
  del-IsDistinct k [] h = tt
  del-IsDistinct k ((i, w) ∷ d) h = ground (arith, lookup-del_ne k i d, del-IsDistinct k d)

  pub assign-IsDistinct :
      (k : K) (v : V) (d : List (K × V)) → IsDistinct dec d → IsDistinct dec (assign dec k v d)
  unfolding lookup assign
  assign-IsDistinct k v [] h = (refl, tt)
  assign-IsDistinct k v ((i, w) ∷ d) h =
      ground (arith, lookup-assign k i v d, assign-IsDistinct k v d)

  pub snoc-IsDistinct :
      (k : K) (v : V) (d : List (K × V))
      → lookup dec k d ≡ none
      → IsDistinct dec d
      → IsDistinct dec (d ++ (k, v) ∷ [])
  snoc-IsDistinct k v d absent h = rw (← assign-absent k v d absent) (assign-IsDistinct k v d h)

  pub lookup-move_to_end :
      (k j : K) (d : List (K × V))
      → IsDistinct dec d
      → lookup dec j (move_to_end dec k d) ≡ lookup dec j d
  unfolding lookup move_to_end
  lookup-move_to_end k j d h = elim (Option-cases (lookup dec k d)) [
    | inl e ↦ rw (e, move_to_end)
    | inr (v, e) ↦
        rw (e, move_to_end)
          (ground (
            arith,
            lookup-append j (del dec k d) ((k, v) ∷ []),
            lookup-del_ne k j d,
            lookup-del_self k d,
          ))
  ]

  pub length-move_to_end : (k : K) (d : List (K × V)) → length (move_to_end dec k d) ≡ length d
  unfolding move_to_end
  length-move_to_end k d = elim (Option-cases (lookup dec k d)) [
    | inl e ↦ rw (e, move_to_end)
    | inr (v, e) ↦
        rw (e, move_to_end)
          (omega (arith, length-append (del dec k d) ((k, v) ∷ []), length-del k d (rw e)))
  ]

  pub move_to_end-IsDistinct :
      (k : K) (d : List (K × V)) → IsDistinct dec d → IsDistinct dec (move_to_end dec k d)
  unfolding move_to_end
  move_to_end-IsDistinct k d h = elim (Option-cases (lookup dec k d)) [
    | inl e ↦ rw (e, move_to_end) h
    | inr (v, e) ↦
        rw (e, move_to_end)
          (snoc-IsDistinct k v (del dec k d) (lookup-del_self k d h) (del-IsDistinct k d h))
  ]
