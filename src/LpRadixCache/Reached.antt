-- ===== src/LpRadixCache/Reached.antt =====
-- What holds of a radix cache after insertions, updates of the metadata and removals of requests, without evictions.
use dual_map.Prelude.{
  ℕ, ◌+◌, ◌≤◌, ◌≡◌, refl, sym, ◌∙◌, none, some, Option, List, [], ◌∷◌, ◌==◌, if◌then◌else◌, length,
  arith, ◌>>=◌, pos, ◌≤ℤ◌, int_laws,
}
use mathlib.Core.Path.{subst}
use dual_map.LpRadixCache
use dual_map.LpRadixCache.{
  Info, TreeNode, Children, node, no_child, child, info, match_len, size_by, num_tokens,
  context_so_far, has_cached_gpu, cached_tokens, LpRadixCache, root_node, insert, insert_helper,
}
use dual_map.LpRadixCache.Updates.{
  cover, release, path_by, uncached_tokens, update_cache_metadada, remove_completed_input_ids,
  below_root,
}
use dual_map.LpRadixCache.Shape.{IsRadix, AreRadix, insert_helper-IsRadix}
use dual_map.LpRadixCache.Allocated.{
  IsAllocated, Leaves, insert-IsAllocated, update_cache_metadada-IsAllocated,
  remove_completed_input_ids-IsAllocated,
}
use dual_map.LpRadixCache.Paths.{
  IsTree, AreTrees, on_path-IsTree, on_child-AreTrees, cover-Keeps, release-Keeps,
}

-- One call, with the cache after it.
pub data Call (cache : LpRadixCache) : LpRadixCache → Type 0 where
  inserted : (now : ℕ) (key : List ℕ) → Call cache (insert now key cache).1
  covered :
      (gpu : ℕ) (key : List ℕ) (cache' : LpRadixCache)
      → update_cache_metadada gpu key cache ≡ some cache'
      → Call cache cache'
  removed :
      (input_ids : List ℕ) (gpu : ℕ) (cache' : LpRadixCache)
      → remove_completed_input_ids input_ids gpu cache ≡ some cache'
      → Call cache cache'

pub data Reachable : LpRadixCache → Type 0 where
  started : (now : ℕ) → Reachable (LpRadixCache.reset now)
  called : {cache cache' : LpRadixCache} → Reachable cache → Call cache cache' → Reachable cache'

-- The tree starts at the empty context, and the allocated sizes are those of its nodes.
pub record IsSound (cache : LpRadixCache) : Type 0 where
  pub radix : IsRadix 0 cache.root_node
  pub at_root : (info cache.root_node).context_length ≡ 0
  pub allocated : IsAllocated cache

module _ (now : ℕ) where
  insert-IsSound :
      (key : List ℕ) (cache : LpRadixCache) → IsSound cache → IsSound (insert now key cache).1
  unfolding insert insert_helper
  insert-IsSound key cache s = record {
    radix =
        insert_helper-IsRadix now cache.next 0 0 0 cache.root_node key key s.radix (sym s.at_root)
          refl;
    at_root = same cache.root_node key ∙ s.at_root;
    allocated = insert-IsAllocated now key cache s.allocated;
  }
    where
      same :
          (t : TreeNode) (k : List ℕ)
          → (info (insert_helper now cache.next t k key 0 0).tree).context_length
            ≡ (info t).context_length
      same (node i f) [] = refl
      same (node i f) (k ∷ l) = refl

-- A cache that a method gives has the tree that it made.
abbrev Trees : ℕ → Option LpRadixCache → Type 0
Trees n none = Unit
Trees n (some cache) = IsRadix n cache.root_node × ((info cache.root_node).context_length ≡ n)

update_cache_metadada-Trees :
    (gpu : ℕ) (key : List ℕ) (cache : LpRadixCache)
    → IsSound cache
    → Trees 0 (update_cache_metadada gpu key cache)
unfolding update_cache_metadada
update_cache_metadada-Trees gpu key cache s =
    go _ (on_path-IsTree (λ i. some (cover gpu i)) (cover-Keeps gpu) 0 cache.root_node key s.radix)
  where
    go :
        (o : Option TreeNode)
        → IsTree 0 cache.root_node o
        → Trees 0 (
            o >>= (λ root. some (record cache {
              root_node = root;
              allocated_size_for_gpus_list = λ j.
                  if j == gpu
                  then cache.allocated_size_for_gpus_list j
                    + path_by (uncached_tokens gpu) cache.root_node key
                  else cache.allocated_size_for_gpus_list j;
            })))
    go none t = tt
    go (some u) (r, _, context) = (r, context ∙ s.at_root)

remove_completed_input_ids-Trees :
    (input_ids : List ℕ) (gpu : ℕ) (cache : LpRadixCache)
    → IsSound cache
    → Trees 0 (remove_completed_input_ids input_ids gpu cache)
unfolding remove_completed_input_ids IsRadix
remove_completed_input_ids-Trees input_ids gpu cache s = go cache.root_node s.radix s.at_root
  where
    rest :
        (i : Info) (f : Children) (o : Option Children)
        → IsRadix 0 (node i f)
        → i.context_length ≡ 0
        → AreTrees i.context_length o
        → Trees 0 (
            (o >>= (λ f'. some (node i f'))) >>= (λ root. some (record cache { root_node = root })))
    rest i f none r e a = tt
    rest i f (some f') (context, value, _) e a = ((context, value, a), e)

    go :
        (t : TreeNode)
        → IsRadix 0 t
        → (info t).context_length ≡ 0
        → Trees 0 (
            below_root (release gpu) t input_ids
            >>= (λ root. some (record cache { root_node = root })))
    go (node i f) (context, value, a) e =
        rest i f _ (context, value, a) e
          (on_child-AreTrees (release gpu) (release-Keeps gpu) i.context_length f input_ids a)

Call-IsSound : {cache cache' : LpRadixCache} → Call cache cache' → IsSound cache → IsSound cache'
Call-IsSound {cache} (inserted now key) s = insert-IsSound now key cache s
Call-IsSound {cache} (covered gpu key cache' e) s =
    let (radix, at_root) = subst (Trees 0) e (update_cache_metadada-Trees gpu key cache s) in
    record {
      radix = radix;
      at_root = at_root;
      allocated =
          subst (Leaves IsAllocated) e
            (update_cache_metadada-IsAllocated gpu key cache s.allocated);
    }
Call-IsSound {cache} (removed input_ids gpu cache' e) s =
    let (radix, at_root) =
      subst (Trees 0) e (remove_completed_input_ids-Trees input_ids gpu cache s) in
    record {
      radix = radix;
      at_root = at_root;
      allocated =
          subst (Leaves IsAllocated) e
            (remove_completed_input_ids-IsAllocated input_ids gpu cache s.allocated);
    }

reset-IsSound : (now : ℕ) → IsSound (LpRadixCache.reset now)
unfolding LpRadixCache.reset root_node IsRadix num_tokens has_cached_gpu size_by
reset-IsSound now = record { radix = (refl, refl, tt); at_root = refl; allocated = λ gpu. refl }

-- After any insertions, calls of update_cache_metadada and calls of remove_completed_input_ids on a new cache, and without
-- evictions, every key in the tree starts with the token that it stands under, the context length of a node is that of
-- its parent and the length of its own key, its value is as long as its key, and the allocated size of each GPU is the
-- number of tokens of the nodes that are cached there.
pub Reachable-IsSound : {cache : LpRadixCache} → Reachable cache → IsSound cache
Reachable-IsSound (started now) = reset-IsSound now
Reachable-IsSound (called r call) = Call-IsSound call (Reachable-IsSound r)

-- A property of every node.
mutual
  pub Every : (Info → Type 0) → TreeNode → Type 0
  Every P (node i f) = P i × EveryChild P f

  pub EveryChild : (Info → Type 0) → Children → Type 0
  EveryChild P no_child = Unit
  EveryChild P (child c t f) = Every P t × EveryChild P f

-- No node has more tokens than its context.
abbrev pub IsWithin : Info → Type 0
IsWithin i = (pos 0 ≤ℤ context_so_far i) × (num_tokens i ≤ i.context_length)

lengths-IsWithin :
    (n : ℕ) (i : Info)
    → i.context_length ≡ n + length i.key
    → length i.value ≡ length i.key
    → IsWithin i
unfolding num_tokens context_so_far
lengths-IsWithin n i e g = (omega (int_laws, e, g), omega (arith, e, g))

mutual
  unfolding IsRadix Every

  IsRadix-Every : (n : ℕ) (t : TreeNode) → IsRadix n t → Every IsWithin t
  IsRadix-Every n (node i f) (e, g, a) =
      (lengths-IsWithin n i e g, AreRadix-EveryChild i.context_length f a)

  AreRadix-EveryChild : (n : ℕ) (f : Children) → AreRadix n f → EveryChild IsWithin f
  AreRadix-EveryChild n no_child a = tt
  AreRadix-EveryChild n (child c t f) (s, r, a) = (IsRadix-Every n t r, AreRadix-EveryChild n f a)

-- After such calls no node has more tokens than its context length, so that context_so_far is negative
-- for none.
Reachable-IsWithin : {cache : LpRadixCache} → Reachable cache → Every IsWithin cache.root_node
Reachable-IsWithin {cache} r = IsRadix-Every 0 cache.root_node (Reachable-IsSound r).radix
