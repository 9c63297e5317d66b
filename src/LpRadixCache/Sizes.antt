-- ===== src/LpRadixCache/Sizes.antt =====
-- The sums over the nodes of a radix tree, and what an insertion adds to them.
use dual_map.Prelude.{
  by_cases_of, by_cases, ℕ, zero, suc, ◌+◌, ◌-◌, ◌<◌, ◌≤◌, ◌≡◌, refl, List, [], ◌∷◌, ◌==◌, length,
  take, drop, arith,
}
use dual_map.LpRadixCache.{
  Info, TreeNode, Children, node, no_child, child, info, match_len, new_leaf, upper, lower, only,
  visited, append_child, InsertedChild, insert_below_split, split_node, found_whole, insert_helper,
  insert_child, size_by, children_by, num_tokens, has_cached_gpu, cached_tokens, LpRadixCache,
  insert, total_size,
}
use dual_map.LpRadixCache.Shape.{length-drop, match_len-le_left}

pub length-take-drop : (n : ℕ) (l : List ℕ) → length (take n l) + length (drop n l) ≡ length l
length-take-drop zero l = omega arith
length-take-drop (suc n) [] = omega arith
length-take-drop (suc n) (x ∷ l) = omega (arith, length-take-drop n l)

-- A number of a node that its load does not change and that a split divides. A new leaf has at most `most` of its value.
pub record IsDivided (g : Info → ℕ) (most : List ℕ → ℕ) : Type 0 where
  pub seen : (now : ℕ) (i : Info) → g (visited now i) ≡ g i
  pub loaded : (i : Info) → g (record i { load = i.load + 1 }) ≡ g i
  pub parted : (now id n k : ℕ) (i : Info) → g (upper now id n k i) + g (lower k i) ≡ g i
  pub leaf :
      (now id n depth : ℕ) (key value : List ℕ) → g (new_leaf now id key value n depth) ≤ most value
  pub less : (n : ℕ) (l : List ℕ) → most (drop n l) ≤ most l

num_tokens-IsDivided : IsDivided num_tokens length
unfolding num_tokens upper lower new_leaf
num_tokens-IsDivided = record {
  seen = λ now i. refl;
  loaded = λ i. refl;
  parted = λ now id n k i. length-take-drop k i.value;
  leaf = λ now id n depth key value. omega arith;
  less = λ n l. omega (arith, length-drop n l);
}

pub cached_tokens-IsDivided : (gpu : ℕ) → IsDivided (cached_tokens gpu) (λ l. 0)
unfolding num_tokens upper lower new_leaf has_cached_gpu
cached_tokens-IsDivided gpu = record {
  seen = λ now i. refl;
  loaded = λ i. refl;
  parted = λ now id n k i. ground (arith, length-take-drop k i.value);
  leaf = λ now id n depth key value. omega arith;
  less = λ n l. omega arith;
}

-- Between the sum before and the sum with the whole value.
abbrev IsGrown : ℕ → ℕ → ℕ → Type 0
IsGrown before value after = (before ≤ after) × (after ≤ before + value)

module _ (g : Info → ℕ) (most : List ℕ → ℕ) (divided : IsDivided g most) (now next : ℕ) where
  children_by-append_child :
      (k : ℕ) (t : TreeNode) (f : Children)
      → children_by g (append_child k t f) ≡ children_by g f + size_by g t
  unfolding size_by
  children_by-append_child k t no_child = omega arith
  children_by-append_child k t (child c u f) = omega (arith, children_by-append_child k t f)

  insert_below_split-IsGrown :
      (i : Info) (f : Children) (split : ℕ) (key value : List ℕ) (context_length depth : ℕ)
      → IsGrown
          (size_by g (node i f))
          (most value)
          (size_by g (insert_below_split now next i f split key value context_length depth).tree)
  unfolding size_by
  insert_below_split-IsGrown i f split [] value context_length depth =
      let seen = divided.seen now i in (omega (arith, seen), omega (arith, seen))
  insert_below_split-IsGrown i f split (k ∷ key) value context_length depth =
      let l =
        new_leaf now (next + 1) (k ∷ key) value (context_length + length (k ∷ key)) (depth + 1) in
      let seen = divided.seen now i in
      let leaf =
        divided.leaf now (next + 1) (context_length + length (k ∷ key)) (depth + 1) (k ∷ key)
          value in
      let sum = children_by-append_child k (node l no_child) f in
      (omega (arith, seen, leaf, sum), omega (arith, seen, leaf, sum))

  children_by-only :
      (l : List ℕ) (t : TreeNode) (n : ℕ)
      → length l ≡ suc n
      → children_by g (only l t) ≡ size_by g t
  unfolding size_by
  children_by-only [] t n e = absurd (omega (arith, e))
  children_by-only (c ∷ l) t n e = omega arith

  split_node-IsGrown :
      (parent : Info) (t : TreeNode) (prefix_len : ℕ) (key value : List ℕ)
      (context_length depth : ℕ)
      → prefix_len < length (info t).key
      → IsGrown
          (size_by g t)
          (most value)
          (size_by g (split_node now next parent t prefix_len key value context_length depth).tree)
  unfolding size_by
  split_node-IsGrown parent (node i f) prefix_len key value context_length depth h =
      let below = node (lower prefix_len i) f in
      let some_left : length (drop prefix_len i.key) ≡ suc (length i.key - prefix_len - 1) =
        omega (arith, length-drop prefix_len i.key, h) in
      let one = children_by-only (drop prefix_len i.key) below _ some_left in
      let both = divided.parted now next parent.context_length prefix_len i in
      let less = divided.less prefix_len value in
      let (more, most) =
        insert_below_split-IsGrown (upper now next parent.context_length prefix_len i)
          (only (drop prefix_len i.key) below) i.id (drop prefix_len key) (drop prefix_len value)
          (context_length + prefix_len) (depth + 2) in
      (omega (arith, more, one, both), omega (arith, most, one, both, less))

  found_whole-IsGrown :
      (t : TreeNode) (value : List ℕ)
      → IsGrown (size_by g t) (most value) (size_by g (found_whole t).tree)
  unfolding size_by
  found_whole-IsGrown (node i f) value =
      let loaded = divided.loaded i in (omega (arith, loaded), omega (arith, loaded))

  mutual
    unfolding insert_helper size_by

    pub insert_helper-IsGrown :
        (t : TreeNode) (key value : List ℕ) (context_length depth : ℕ)
        → IsGrown
            (size_by g t)
            (most value)
            (size_by g (insert_helper now next t key value context_length depth).tree)
    insert_helper-IsGrown (node i f) [] value context_length depth =
        let seen = divided.seen now i in (omega (arith, seen), omega (arith, seen))
    insert_helper-IsGrown (node i f) (k ∷ key) value context_length depth =
        let seen = divided.seen now i in
        let (more, most) = insert_child-IsGrown i f k (k ∷ key) value context_length depth in
        (omega (arith, seen, more), omega (arith, seen, most))

    insert_child-IsGrown :
        (parent : Info) (f : Children) (k : ℕ) (key value : List ℕ) (context_length depth : ℕ)
        → IsGrown (children_by g f) (most value) (
            children_by g
              (insert_child now next parent f k key value context_length depth).children)
    insert_child-IsGrown parent no_child k key value context_length depth =
        let leaf =
          divided.leaf now (next + 1) (context_length + length key) (depth + 1) key value in
        (omega (arith, leaf), omega (arith, leaf))
    insert_child-IsGrown parent (child c t f) k key value context_length depth =
        let prefix_len = match_len (info t).key key in
        let below = divided.less prefix_len value in
        let (later, later') = insert_child-IsGrown parent f k key value context_length depth in
        let (deep, deep') =
          insert_helper-IsGrown t (drop prefix_len key) (drop prefix_len value)
            (context_length + prefix_len) (depth + 1) in
        let (whole, whole') = found_whole-IsGrown t value in
        let P : InsertedChild → Type 0 =
          λ r. IsGrown (size_by g t + children_by g f) (most value) (children_by g r.children) in
        by_cases_of P (c == k)
          (λ _.
            by_cases_of P (prefix_len == length (info t).key)
              (λ _.
                by_cases P (prefix_len == length key) (omega (arith, whole), omega (arith, whole'))
                  (omega (arith, deep), omega (arith, deep', below)))
              (λ part.
                let le = match_len-le_left (info t).key key in
                let (split, split') =
                  split_node-IsGrown parent t prefix_len key value context_length depth
                    (ground (arith, le, part)) in
                (omega (arith, split), omega (arith, split'))))
          (λ _. (omega (arith, later), omega (arith, later')))

-- An insertion leaves the tree at least as large as it was, and larger by at most the length of the key.
pub total_size-insert :
    (now : ℕ) (key : List ℕ) (cache : LpRadixCache)
    → let after = total_size (insert now key cache).1.root_node in
      (total_size cache.root_node ≤ after) × (after ≤ total_size cache.root_node + length key)
unfolding insert total_size
total_size-insert now key cache =
    insert_helper-IsGrown num_tokens length num_tokens-IsDivided now cache.next cache.root_node key
      key 0 0
