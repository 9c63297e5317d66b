-- ===== src/LpRadixCache/Shape.antt =====
-- The shape of a radix tree: every key starts with the token that it stands under, and the context lengths add up.
use dual_map.Prelude.{
  by_cases_of, ℕ, zero, suc, ◌+◌, ◌-◌, ◌<◌, ◌≤◌, ◌≡◌, refl, List, [], ◌∷◌, ◌==◌, length, take, drop,
  arith,
}
use mathlib.Core.Path.{subst, sym}
use dual_map.LpRadixCache.{
  Info, TreeNode, Children, node, no_child, child, info, match_len, new_leaf, upper, lower, only,
  visited, append_child, InsertedChild, insert_below_split, split_node, found_whole, insert_helper,
  insert_child,
}

pub length-take : (n : ℕ) (l : List ℕ) → n ≤ length l → length (take n l) ≡ n
length-take zero l h = refl
length-take (suc n) [] h = absurd (omega (arith, h))
length-take (suc n) (x ∷ l) h = omega (arith, h, length-take n l)

pub length-drop : (n : ℕ) (l : List ℕ) → length (drop n l) ≡ length l - n
length-drop zero l = omega arith
length-drop (suc n) [] = omega arith
length-drop (suc n) (x ∷ l) = omega (arith, length-drop n l)

pub match_len-le_left : (key seq : List ℕ) → match_len key seq ≤ length key
unfolding match_len
match_len-le_left [] seq = omega arith
match_len-le_left (k ∷ key) [] = omega arith
match_len-le_left (k ∷ key) (w ∷ seq) = ground (arith, match_len-le_left key seq)

pub match_len-le_right : (key seq : List ℕ) → match_len key seq ≤ length seq
unfolding match_len
match_len-le_right [] seq = omega arith
match_len-le_right (k ∷ key) [] = omega arith
match_len-le_right (k ∷ key) (w ∷ seq) = ground (arith, match_len-le_right key seq)

abbrev pub Starts : ℕ → List ℕ → Type 0
Starts c [] = ⊥
Starts c (k ∷ key) = c ≡ k

Starts-take : (c n : ℕ) (l : List ℕ) → 0 < n → Starts c l → Starts c (take n l)
Starts-take c zero l h s = absurd (omega (arith, h))
Starts-take c (suc n) [] h s = absurd s
Starts-take c (suc n) (x ∷ l) h s = s

-- Keys that start with the same token agree somewhere.
match_len-positive :
    (c k : ℕ) (key seq : List ℕ) → Starts c key → c ≡ k → 0 < match_len key (k ∷ seq)
unfolding match_len
match_len-positive c k [] seq s e = absurd s
match_len-positive c k (x ∷ key) seq s e = ground arith

-- A node below a context of the given length, its values and its descendants.
unfoldable mutual
  pub IsRadix : ℕ → TreeNode → Type 0
  IsRadix n (node i f) =
      (i.context_length ≡ n + length i.key)
      × (length i.value ≡ length i.key)
      × AreRadix i.context_length f

  pub AreRadix : ℕ → Children → Type 0
  AreRadix n no_child = Unit
  AreRadix n (child c t f) = Starts c (info t).key × IsRadix n t × AreRadix n f

IsRadix-context :
    (n : ℕ) (t : TreeNode) → IsRadix n t → (info t).context_length ≡ n + length (info t).key
unfolding IsRadix
IsRadix-context n (node i f) (e, g, a) = e

append_child-AreRadix :
    (n k : ℕ) (t : TreeNode) (f : Children)
    → Starts k (info t).key
    → IsRadix n t
    → AreRadix n f
    → AreRadix n (append_child k t f)
unfolding IsRadix
append_child-AreRadix n k t no_child s r a = (s, r, tt)
append_child-AreRadix n k t (child c u f) s r (s', r', a) =
    (s', r', append_child-AreRadix n k t f s r a)

only-AreRadix :
    (n : ℕ) (l : List ℕ) (t : TreeNode) → (info t).key ≡ l → IsRadix n t → AreRadix n (only l t)
unfolding IsRadix
only-AreRadix n [] t e r = tt
only-AreRadix n (c ∷ l) t e r = (rw e refl, r, tt)

-- A node of a tree with the shape, as the methods change it.
visited-IsRadix :
    (now n : ℕ) (i : Info) (f f' : Children)
    → IsRadix n (node i f)
    → AreRadix i.context_length f'
    → IsRadix n (node (visited now i) f')
unfolding IsRadix
visited-IsRadix now n i f f' (e, g, a) a' = (e, g, a')

found_whole-IsRadix : (n : ℕ) (t : TreeNode) → IsRadix n t → IsRadix n (found_whole t).tree
unfolding IsRadix
found_whole-IsRadix n (node i f) r = r

pub found_whole-key : (t : TreeNode) → (info (found_whole t).tree).key ≡ (info t).key
found_whole-key (node i f) = refl

module _ (now next : ℕ) where
  leaf-IsRadix :
      (n id depth context_length : ℕ) (key value : List ℕ)
      → context_length ≡ n + length key
      → length value ≡ length key
      → IsRadix n (node (new_leaf now id key value context_length depth) no_child)
  unfolding IsRadix new_leaf
  leaf-IsRadix n id depth context_length key value e g = (e, g, tt)

  insert_below_split-IsRadix :
      (n split depth context_length : ℕ) (i : Info) (f : Children) (key value : List ℕ)
      → IsRadix n (node i f)
      → context_length ≡ i.context_length
      → length value ≡ length key
      → IsRadix n (insert_below_split now next i f split key value context_length depth).tree
  unfolding IsRadix new_leaf
  insert_below_split-IsRadix n split depth context_length i f [] value (e, g, a) same len =
      (e, g, a)
  insert_below_split-IsRadix n split depth context_length i f (k ∷ key) value (e, g, a) same len = (
    e,
    g,
    append_child-AreRadix i.context_length k _ f refl
        (leaf-IsRadix i.context_length (next + 1) (depth + 1) _ (k ∷ key) value
          (omega (arith, same)) len)
        a,
  )

  split_node-IsRadix :
      (n prefix_len depth context_length : ℕ) (parent : Info) (t : TreeNode) (key value : List ℕ)
      → n ≡ parent.context_length
      → IsRadix n t
      → prefix_len ≤ length (info t).key
      → context_length ≡ parent.context_length
      → length value ≡ length key
      → IsRadix n (split_node now next parent t prefix_len key value context_length depth).tree
  unfolding IsRadix upper lower
  split_node-IsRadix n prefix_len depth context_length parent (node i f) key value at (e, g, a) le
        same len =
      let taken = length-take prefix_len i.key le in
      let taken' = length-take prefix_len i.value (omega (arith, le, g)) in
      let rest = length-drop prefix_len i.key in
      let rest' = length-drop prefix_len i.value in
      let key_left = length-drop prefix_len key in
      let value_left = length-drop prefix_len value in
      insert_below_split-IsRadix n i.id (depth + 2) (context_length + prefix_len)
        (upper now next parent.context_length prefix_len i)
        (only (drop prefix_len i.key) (node (lower prefix_len i) f)) (drop prefix_len key)
        (drop prefix_len value)
        (
          omega (arith, at, taken),
          omega (arith, taken, taken'),
          only-AreRadix _ (drop prefix_len i.key) _ refl
              (omega (arith, e, rest, le, at), omega (arith, rest, rest', g), a),
        )
        (omega (arith, same)) (omega (arith, key_left, value_left, len))

  pub insert_helper-key :
      (t : TreeNode) (key value : List ℕ) (context_length depth : ℕ)
      → (info (insert_helper now next t key value context_length depth).tree).key ≡ (info t).key
  unfolding insert_helper
  insert_helper-key (node i f) [] value context_length depth = refl
  insert_helper-key (node i f) (k ∷ key) value context_length depth = refl

  split_node-Starts :
      (c prefix_len depth context_length : ℕ) (parent : Info) (t : TreeNode) (key value : List ℕ)
      → 0 < prefix_len
      → Starts c (info t).key
      → Starts c
          (info (split_node now next parent t prefix_len key value context_length depth).tree).key
  unfolding upper
  split_node-Starts c prefix_len depth context_length parent (node i f) key value h s =
      go (drop prefix_len key)
    where
      go :
          (rest : List ℕ)
          → Starts c
              (info
                (insert_below_split now next
                  (upper now next parent.context_length prefix_len i)
                  (only (drop prefix_len i.key) (node (lower prefix_len i) f))
                  i.id
                  rest
                  (drop prefix_len value)
                  (context_length + prefix_len)
                  (depth + 2)).tree).key
      go [] = Starts-take c prefix_len i.key h s
      go (x ∷ rest) = Starts-take c prefix_len i.key h s

  -- The whole insertion, below a node and among children.
  mutual
    unfolding insert_helper IsRadix new_leaf

    pub insert_helper-IsRadix :
        (n depth context_length : ℕ) (t : TreeNode) (key value : List ℕ)
        → IsRadix n t
        → context_length ≡ (info t).context_length
        → length value ≡ length key
        → IsRadix n (insert_helper now next t key value context_length depth).tree
    insert_helper-IsRadix n depth context_length (node i f) [] value r same len = r
    insert_helper-IsRadix n depth context_length (node i f) (k ∷ key) value (e, g, a) same len =
        (e, g, insert_child-AreRadix depth context_length i f k key value a same len)

    insert_child-AreRadix :
        (depth context_length : ℕ) (parent : Info) (f : Children) (k : ℕ) (key value : List ℕ)
        → AreRadix parent.context_length f
        → context_length ≡ parent.context_length
        → length value ≡ suc (length key)
        → AreRadix parent.context_length
            (insert_child now next parent f k (k ∷ key) value context_length depth).children
    insert_child-AreRadix depth context_length parent no_child k key value a same len = (
      refl,
      leaf-IsRadix parent.context_length (next + 1) (depth + 1) (context_length + length (k ∷ key))
          (k ∷ key) value (omega (arith, same)) len,
      tt,
    )
    insert_child-AreRadix depth context_length parent (child c t f) k key value (s, r, a) same len =
        let n = parent.context_length in
        let prefix_len = match_len (info t).key (k ∷ key) in
        let P : InsertedChild → Type 0 = λ r. AreRadix n r.children in
        by_cases_of P (c == k)
          (λ here.
            let positive = match_len-positive c k (info t).key key s (ground arith) in
            by_cases_of P (prefix_len == length (info t).key)
              (λ whole.
                by_cases_of P (prefix_len == length (k ∷ key))
                  (λ _.
                    (subst (Starts c) (sym (found_whole-key t)) s, found_whole-IsRadix n t r, a))
                  (λ _.
                    let at = IsRadix-context n t r in
                    let key_left = length-drop prefix_len (k ∷ key) in
                    let value_left = length-drop prefix_len value in
                    (
                      subst (Starts c) (sym (insert_helper-key t _ _ _ _)) s,
                      insert_helper-IsRadix n (depth + 1) (context_length + prefix_len) t
                          (drop prefix_len (k ∷ key)) (drop prefix_len value) r
                          (ground (arith, at, same, whole))
                          (omega (arith, key_left, value_left, len)),
                      a,
                    )))
              (λ part. (
                split_node-Starts c prefix_len depth context_length parent t (k ∷ key) value
                    positive s,
                split_node-IsRadix n prefix_len depth context_length parent t (k ∷ key) value refl r
                    (match_len-le_left (info t).key (k ∷ key)) same len,
                a,
              )))
          (λ _. (s, r, insert_child-AreRadix depth context_length parent f k key value a same len))
