-- ===== src/LpRadixCache/Allocated.antt =====
-- The allocated size of a GPU is the number of tokens of the nodes that it caches.
use dual_map.Prelude.{
  by_cases_of, by_cases, ℕ, ◌+◌, ◌≡◌, refl, Bool, true, false, none, some, Option, List, [], ◌∷◌,
  ◌==◌, if◌then◌else◌, length, drop, ltb, arith, ◌>>=◌, ◌≢◌, sym,
}
use mathlib.Core.Path.{subst}
use mathlib.Core.Option.{some-injective, none-ne-some}
use dual_map.LpRadixCache.{
  Info, TreeNode, Children, node, no_child, child, info, match_len, size_by, children_by,
  num_tokens, has_cached_gpu, cached_tokens, LpRadixCache, insert,
}
use dual_map.LpRadixCache.Updates.{
  uncached_tokens, cover, on_path, on_child, path_by, path_child, update_cache_metadada,
  remove_completed_input_ids, release, below_root,
}
use dual_map.LpRadixCache.Sizes.{insert_helper-IsGrown, cached_tokens-IsDivided}

-- A tree that a method gives has the sum that is stated.
abbrev Sums : (TreeNode → ℕ) → ℕ → Option TreeNode → Type 0
Sums f n none = Unit
Sums f n (some t) = f t ≡ n

abbrev ChildSums : (Children → ℕ) → ℕ → Option Children → Type 0
ChildSums f n none = Unit
ChildSums f n (some t) = f t ≡ n

-- A change of nodes along a path by which a number of each node grows by another one.
module _ (g more : Info → ℕ) (change : Info → Option Info)
    (changed : (i j : Info) → change i ≡ some j → g j ≡ g i + more i) where
  by_node :
      (i : Info) (f : Children) (o : Option Info) (p : Option Children) (n total : ℕ)
      → ((j : Info) → o ≡ some j → g j ≡ g i + more i)
      → total ≡ g i + more i + n
      → ChildSums (children_by g) n p
      → Sums (size_by g) total (o >>= (λ j. p >>= (λ f'. some (node j f'))))
  unfolding size_by
  by_node i f none p n total h sum s = tt
  by_node i f (some j) none n total h sum s = tt
  by_node i f (some j) (some f') n total h sum s = (let e = h j refl in omega (arith, e, s, sum))

  by_child :
      (c n total : ℕ) (f : Children) (o : Option TreeNode)
      → total ≡ n + children_by g f
      → Sums (size_by g) n o
      → ChildSums (children_by g) total (o >>= (λ t'. some (child c t' f)))
  unfolding size_by
  by_child c n total f none e s = tt
  by_child c n total f (some t) e s = omega (arith, e, s)

  by_later :
      (c n total : ℕ) (t : TreeNode) (o : Option Children)
      → total ≡ size_by g t + n
      → ChildSums (children_by g) n o
      → ChildSums (children_by g) total (o >>= (λ f'. some (child c t f')))
  unfolding size_by
  by_later c n total t none e s = tt
  by_later c n total t (some f) e s = omega (arith, e, s)

  by_test :
      (b : Bool) (n x y : ℕ) (o p : Option Children)
      → ChildSums (children_by g) (n + x) o
      → ChildSums (children_by g) (n + y) p
      → ChildSums (children_by g) (n + (if b then x else y)) (if b then o else p)
  by_test true n x y o p s t = s
  by_test false n x y o p s t = t

  mutual
    unfolding on_path path_by size_by

    on_path-Sums :
        (t : TreeNode) (key : List ℕ)
        → Sums (size_by g) (size_by g t + path_by more t key) (on_path change t key)
    on_path-Sums (node i f) key =
        by_node i f (change i) (on_child change f key) (children_by g f + path_child more f key) _
          (changed i) (omega arith) (on_child-ChildSums f key)

    on_child-ChildSums :
        (f : Children) (key : List ℕ)
        → ChildSums
            (children_by g)
            (children_by g f + path_child more f key)
            (on_child change f key)
    on_child-ChildSums no_child key = omega arith
    on_child-ChildSums (child c t f) [] = omega arith
    on_child-ChildSums (child c t f) (k ∷ key) =
        let rest = drop (match_len (info t).key (k ∷ key)) (k ∷ key) in
        let deeper = on_path-Sums t rest in
        let later = on_child-ChildSums f (k ∷ key) in
        by_test (c == k) (size_by g t + children_by g f) (path_by more t rest)
          (path_child more f (k ∷ key)) _ _
          (by_cases
            (ChildSums (children_by g) (size_by g t + children_by g f + path_by more t rest))
            (ltb (match_len (info t).key (k ∷ key)) (length (info t).key)) tt
            (by_child c (size_by g t + path_by more t rest) _ f (on_path change t rest)
              (omega arith) deeper))
          (by_later c (children_by g f + path_child more f (k ∷ key)) _ t
            (on_child change f (k ∷ key)) (omega arith) later)

mutual
  unfolding path_by

  path_by-nothing : (t : TreeNode) (key : List ℕ) → path_by (λ i. 0) t key ≡ 0
  path_by-nothing (node i f) key = omega (arith, path_child-nothing f key)

  path_child-nothing : (f : Children) (key : List ℕ) → path_child (λ i. 0) f key ≡ 0
  path_child-nothing no_child key = refl
  path_child-nothing (child c t f) [] = refl
  path_child-nothing (child c t f) (k ∷ key) =
      by_cases (λ n. n ≡ 0) (c == k)
        (path_by-nothing t (drop (match_len (info t).key (k ∷ key)) (k ∷ key)))
        (path_child-nothing f (k ∷ key))

cover-same :
    (gpu : ℕ) (i j : Info)
    → some (cover gpu i) ≡ some j
    → cached_tokens gpu j ≡ cached_tokens gpu i + uncached_tokens gpu i
unfolding cover num_tokens has_cached_gpu
cover-same gpu i j e =
    subst (λ j. cached_tokens gpu j ≡ cached_tokens gpu i + uncached_tokens gpu i)
      (some-injective _ _ e) (ground arith)

cover-other :
    (gpu other : ℕ) (i j : Info)
    → other ≢ gpu
    → some (cover gpu i) ≡ some j
    → cached_tokens other j ≡ cached_tokens other i + 0
unfolding cover num_tokens has_cached_gpu
cover-other gpu other i j h e =
    subst (λ j. cached_tokens other j ≡ cached_tokens other i + 0) (some-injective _ _ e)
      (ground arith)

-- The allocated size of each GPU is the number of tokens of the nodes that are cached there.
abbrev pub IsAllocated : LpRadixCache → Type 0
IsAllocated cache =
    (gpu : ℕ) → cache.allocated_size_for_gpus_list gpu ≡ size_by (cached_tokens gpu) cache.root_node

pub insert-IsAllocated :
    (now : ℕ) (key : List ℕ) (cache : LpRadixCache)
    → IsAllocated cache
    → IsAllocated (insert now key cache).1
unfolding insert
insert-IsAllocated now key cache a gpu =
    let (more, most) =
      insert_helper-IsGrown (cached_tokens gpu) (λ l. 0) (cached_tokens-IsDivided gpu) now
        cache.next cache.root_node key key 0 0 in
    let before = a gpu in omega (arith, more, most, before)

-- What a method gives, if it gives a cache, has the property.
abbrev pub Leaves : (LpRadixCache → Type 0) → Option LpRadixCache → Type 0
Leaves P none = Unit
Leaves P (some cache) = P cache

pub update_cache_metadada-IsAllocated :
    (gpu : ℕ) (key : List ℕ) (cache : LpRadixCache)
    → IsAllocated cache
    → Leaves IsAllocated (update_cache_metadada gpu key cache)
unfolding update_cache_metadada
update_cache_metadada-IsAllocated gpu key cache a =
    go _
      (on_path-Sums (cached_tokens gpu) (uncached_tokens gpu) (λ i. some (cover gpu i))
        (cover-same gpu) cache.root_node key)
      (λ other h.
        on_path-Sums (cached_tokens other) (λ i. 0) (λ i. some (cover gpu i))
          (λ i j. cover-other gpu other i j h) cache.root_node key)
  where
    go :
        (o : Option TreeNode)
        → Sums
            (size_by (cached_tokens gpu))
            (size_by (cached_tokens gpu) cache.root_node
              + path_by (uncached_tokens gpu) cache.root_node key)
            o
        → ((other : ℕ)
            → other ≢ gpu
            → Sums
                (size_by (cached_tokens other))
                (size_by (cached_tokens other) cache.root_node
                  + path_by (λ i. 0) cache.root_node key)
                o)
        → Leaves IsAllocated (
            o >>= (λ root. some (record cache {
              root_node = root;
              allocated_size_for_gpus_list = λ j.
                  if j == gpu
                  then cache.allocated_size_for_gpus_list j
                    + path_by (uncached_tokens gpu) cache.root_node key
                  else cache.allocated_size_for_gpus_list j;
            })))
    go none s t = tt
    go (some root) s t = λ j.
        by_cases_of (λ n. n ≡ size_by (cached_tokens j) root) (j == gpu)
          (λ e.
            let same : j ≡ gpu = ground arith in
            let before = a j in
            subst
              (λ k.
                cache.allocated_size_for_gpus_list j
                  + path_by (uncached_tokens gpu) cache.root_node key
                ≡ size_by (cached_tokens k) root)
              (sym same)
              (subst
                (λ k.
                  cache.allocated_size_for_gpus_list k
                    + path_by (uncached_tokens gpu) cache.root_node key
                  ≡ size_by (cached_tokens gpu) root)
                (sym same) (let at = a gpu in omega (arith, s, at))))
          (λ e.
            let other = t j (ground arith) in
            let before = a j in
            let zero = path_by-nothing cache.root_node key in omega (arith, other, before, zero))

pub if_some : {A : Type 0} (b : Bool) (x y : A) → (if b then none else some x) ≡ some y → x ≡ y
if_some true x y e = absurd (none-ne-some y e)
if_some false x y e = some-injective _ _ e

release-same :
    (gpu other : ℕ) (i j : Info)
    → release gpu i ≡ some j
    → cached_tokens other j ≡ cached_tokens other i + 0
unfolding release num_tokens has_cached_gpu
release-same gpu other i j e =
    subst (λ j. cached_tokens other j ≡ cached_tokens other i + 0)
      (if_some (i.num_uncompleted_request_for_gpu_map gpu == 0) _ j e) (omega arith)

pub remove_completed_input_ids-IsAllocated :
    (input_ids : List ℕ) (gpu : ℕ) (cache : LpRadixCache)
    → IsAllocated cache
    → Leaves IsAllocated (remove_completed_input_ids input_ids gpu cache)
unfolding remove_completed_input_ids size_by
remove_completed_input_ids-IsAllocated input_ids gpu cache a = go cache.root_node refl
  where
    go :
        (root : TreeNode)
        → cache.root_node ≡ root
        → Leaves IsAllocated (
            below_root (release gpu) root input_ids
            >>= (λ root. some (record cache { root_node = root })))
    go (node i f) e = rest (on_child (release gpu) f input_ids) (λ other.
        on_child-ChildSums (cached_tokens other) (λ i. 0) (release gpu) (release-same gpu other) f
          input_ids)
      where
        rest :
            (o : Option Children)
            → ((other : ℕ)
                → ChildSums
                    (children_by (cached_tokens other))
                    (children_by (cached_tokens other) f + path_child (λ i. 0) f input_ids)
                    o)
            → Leaves IsAllocated (
                (o >>= (λ f'. some (node i f')))
                >>= (λ root. some (record cache { root_node = root })))
        rest none s = tt
        rest (some f') s = λ other.
            let before =
              subst
                (λ root.
                  cache.allocated_size_for_gpus_list other ≡ size_by (cached_tokens other) root)
                e (a other) in
            let same = s other in
            let zero = path_child-nothing f input_ids in omega (arith, before, same, zero)
