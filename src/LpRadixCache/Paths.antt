-- ===== src/LpRadixCache/Paths.antt =====
-- A change of the nodes of a path keeps the shape of the tree.
use dual_map.Prelude.{
  by_cases, ℕ, ◌≡◌, refl, sym, none, some, Option, List, [], ◌∷◌, ◌==◌, length, drop, ltb, ◌>>=◌,
}
use mathlib.Core.Path.{subst}
use mathlib.Core.Option.{some-injective}
use dual_map.LpRadixCache.{
  Info, TreeNode, Children, node, no_child, child, info, match_len, has_cached_gpu,
}
use dual_map.LpRadixCache.Updates.{cover, release, on_path, on_child}
use dual_map.LpRadixCache.Shape.{IsRadix, AreRadix, Starts}
use dual_map.LpRadixCache.Allocated.{if_some}

abbrev pub IsTree : ℕ → TreeNode → Option TreeNode → Type 0
IsTree n t none = Unit
IsTree n t (some u) =
    IsRadix n u
    × ((info u).key ≡ (info t).key)
    × ((info u).context_length ≡ (info t).context_length)

abbrev pub AreTrees : ℕ → Option Children → Type 0
AreTrees n none = Unit
AreTrees n (some f) = AreRadix n f

-- What the change of one node keeps.
abbrev pub Keeps : (Info → Option Info) → Type 0
Keeps change =
    (i j : Info)
    → change i ≡ some j
    → (j.key ≡ i.key) × (j.value ≡ i.value) × (j.context_length ≡ i.context_length)

module _ (change : Info → Option Info) (keeps : Keeps change) where
  by_node :
      (n : ℕ) (i : Info) (f : Children) (o : Option Info) (p : Option Children)
      → ((j : Info)
          → o ≡ some j
          → (j.key ≡ i.key) × (j.value ≡ i.value) × (j.context_length ≡ i.context_length))
      → IsRadix n (node i f)
      → AreTrees i.context_length p
      → IsTree n (node i f) (o >>= (λ j. p >>= (λ f'. some (node j f'))))
  unfolding IsRadix
  by_node n i f none p h r a = tt
  by_node n i f (some j) none h r a = tt
  by_node n i f (some j) (some f') h (e, g, _) a =
      let (key, value, context) = h j refl in
      (
        (rw context (rw key e), rw value (rw key g), subst (λ m. AreRadix m f') (sym context) a),
        key,
        context,
      )

  by_child :
      (n c : ℕ) (t : TreeNode) (f : Children) (o : Option TreeNode)
      → Starts c (info t).key
      → AreRadix n f
      → IsTree n t o
      → AreTrees n (o >>= (λ t'. some (child c t' f)))
  unfolding IsRadix
  by_child n c t f none s a r = tt
  by_child n c t f (some u) s a (r, key, context) = (subst (Starts c) (sym key) s, r, a)

  by_later :
      (n c : ℕ) (t : TreeNode) (o : Option Children)
      → Starts c (info t).key
      → IsRadix n t
      → AreTrees n o
      → AreTrees n (o >>= (λ f'. some (child c t f')))
  unfolding IsRadix
  by_later n c t none s r a = tt
  by_later n c t (some f) s r a = (s, r, a)

  mutual
    unfolding on_path IsRadix

    pub on_path-IsTree :
        (n : ℕ) (t : TreeNode) (key : List ℕ) → IsRadix n t → IsTree n t (on_path change t key)
    on_path-IsTree n (node i f) key (e, g, a) =
        by_node n i f (change i) (on_child change f key) (keeps i) (e, g, a)
          (on_child-AreTrees i.context_length f key a)

    pub on_child-AreTrees :
        (n : ℕ) (f : Children) (key : List ℕ) → AreRadix n f → AreTrees n (on_child change f key)
    on_child-AreTrees n no_child key a = tt
    on_child-AreTrees n (child c t f) [] a = a
    on_child-AreTrees n (child c t f) (k ∷ key) (s, r, a) =
        by_cases (AreTrees n) (c == k)
          (by_cases (AreTrees n) (ltb (match_len (info t).key (k ∷ key)) (length (info t).key)) tt (
            by_child n c t f _ s a
              (on_path-IsTree n t (drop (match_len (info t).key (k ∷ key)) (k ∷ key)) r)))
          (by_later n c t _ s r (on_child-AreTrees n f (k ∷ key) a))

pub cover-Keeps : (gpu : ℕ) → Keeps (λ i. some (cover gpu i))
unfolding cover
cover-Keeps gpu i j e =
    subst (λ j. (j.key ≡ i.key) × (j.value ≡ i.value) × (j.context_length ≡ i.context_length))
      (some-injective _ _ e)
      (by_cases
        (λ (j : Info).
          (j.key ≡ i.key) × (j.value ≡ i.value) × (j.context_length ≡ i.context_length))
        (has_cached_gpu gpu i) (refl, refl, refl) (refl, refl, refl))

pub release-Keeps : (gpu : ℕ) → Keeps (release gpu)
unfolding release
release-Keeps gpu i j e =
    subst (λ j. (j.key ≡ i.key) × (j.value ≡ i.value) × (j.context_length ≡ i.context_length))
      (if_some (i.num_uncompleted_request_for_gpu_map gpu == 0) _ j e) (refl, refl, refl)
