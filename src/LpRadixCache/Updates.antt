-- ===== src/LpRadixCache/Updates.antt =====
-- update_cache_metadada and remove_completed_input_ids of LPRadixCache, which change every node of the path to a key.
use dual_map.Prelude.{
  ℕ, ◌+◌, ◌-◌, true, false, none, some, Option, List, [], ◌∷◌, ◌==◌, if◌then◌else◌, length, drop,
  ltb, ◌>>=◌,
}
use dual_map.LpRadixCache.{
  Info, TreeNode, node, Children, no_child, child, info, has_cached_gpu, num_tokens, match_len,
  LpRadixCache,
}

-- `update_cache_metadada` at one node, which counts a request and caches the node on the GPU.
unfoldable pub cover : ℕ → Info → Info
cover gpu i =
    let counts = λ (j : ℕ).
      if j == gpu
      then i.num_uncompleted_request_for_gpu_map j + 1
      else i.num_uncompleted_request_for_gpu_map j in
    if has_cached_gpu gpu i
    then record i { num_uncompleted_request_for_gpu_map = counts }
    else record i {
      num_uncompleted_request_for_gpu_map = counts;
      evicted_gpus = λ j. if j == gpu then false else i.evicted_gpus j;
      cached_gpus = λ j. if j == gpu then true else i.cached_gpus j;
    }

-- What it adds to the allocated size there.
abbrev pub uncached_tokens : ℕ → Info → ℕ
uncached_tokens gpu i = if has_cached_gpu gpu i then 0 else num_tokens i

-- `dec_num_uncompleted_request_for_gpu` at one node, whose assertion fails where no request is counted.
unfoldable pub release : ℕ → Info → Option Info
release gpu i =
    if i.num_uncompleted_request_for_gpu_map gpu == 0
    then none
    else some (record i {
      num_uncompleted_request_for_gpu_map = λ j.
          if j == gpu
          then i.num_uncompleted_request_for_gpu_map j - 1
          else i.num_uncompleted_request_for_gpu_map j;
    })

-- A change of every node from the root to the one that `find_node` gives; `none` where there is no such node or the change
-- of one fails.
unfoldable mutual
  pub on_path : (Info → Option Info) → TreeNode → List ℕ → Option TreeNode
  on_path g (node i f) key = do i' ← g i; f' ← on_child g f key; some (node i' f')

  pub on_child : (Info → Option Info) → Children → List ℕ → Option Children
  on_child g no_child key = some no_child
  on_child g (child c t f) [] = some (child c t f)
  on_child g (child c t f) (k ∷ key) =
      let prefix_len = match_len (info t).key (k ∷ key) in
      let deeper = on_path g t (drop prefix_len (k ∷ key)) in
      let later = on_child g f (k ∷ key) in
      if c == k
      then (if ltb prefix_len (length (info t).key)
          then none
          else do t' ← deeper; some (child c t' f))
      else do f' ← later; some (child c t f')

-- The sum over the nodes of the path.
unfoldable mutual
  pub path_by : (Info → ℕ) → TreeNode → List ℕ → ℕ
  path_by g (node i f) key = g i + path_child g f key

  pub path_child : (Info → ℕ) → Children → List ℕ → ℕ
  path_child g no_child key = 0
  path_child g (child c t f) [] = 0
  path_child g (child c t f) (k ∷ key) =
      let deeper = path_by g t (drop (match_len (info t).key (k ∷ key)) (k ∷ key)) in
      let later = path_child g f (k ∷ key) in if c == k then deeper else later

-- `update_cache_metadada` at the node of a key.
unfoldable pub update_cache_metadada : ℕ → List ℕ → LpRadixCache → Option LpRadixCache
update_cache_metadada gpu key cache = do
  root ← on_path (λ i. some (cover gpu i)) cache.root_node key
  let added = path_by (uncached_tokens gpu) cache.root_node key
  some (record cache {
    root_node = root;
    allocated_size_for_gpus_list = λ j.
        if j == gpu
        then cache.allocated_size_for_gpus_list j + added
        else cache.allocated_size_for_gpus_list j;
  })

-- The root does not count the request that ends.
abbrev pub below_root : (Info → Option Info) → TreeNode → List ℕ → Option TreeNode
below_root g (node i f) key = do f' ← on_child g f key; some (node i f')

-- Where the key is not found, the source looks for the counts of None, which raises AttributeError.
unfoldable pub remove_completed_input_ids : List ℕ → ℕ → LpRadixCache → Option LpRadixCache
remove_completed_input_ids input_ids gpu cache = do
  root ← below_root (release gpu) cache.root_node input_ids
  some (record cache { root_node = root })
