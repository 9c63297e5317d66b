-- ===== src/LpRadixCache/Finds.antt =====
-- find_node finds what insert has made.
use dual_map.Prelude.{
  by_cases_of, ℕ, suc, ◌+◌, ◌≡◌, refl, sym, ap, ◌∙◌, true, false, some, List, [], ◌∷◌, ◌==◌, length,
  take, drop, ltb, arith, Bool-cases, inl, inr,
}
use mathlib.Core.Path.{subst}
use dual_map.LpRadixCache.{
  Info, TreeNode, Children, node, no_child, child, info, match_len, new_leaf, upper, lower, only,
  visited, InsertedChild, insert_below_split, split_node, found_whole, insert_helper, insert_child,
  find, find_child, find_node, insert, LpRadixCache,
}
use dual_map.LpRadixCache.Shape.{length-take, match_len-le_left, found_whole-key, insert_helper-key}

match_len_self : (l : List ℕ) → match_len l l ≡ length l
unfolding match_len
match_len_self [] = refl
match_len_self (x ∷ l) = ground (arith, match_len_self l)

drop-length : (l : List ℕ) → drop (length l) l ≡ []
drop-length [] = refl
drop-length (x ∷ l) = drop-length l

match_len-take : (a b : List ℕ) → match_len (take (match_len a b) a) b ≡ match_len a b
unfolding match_len
match_len-take [] b = refl
match_len-take (x ∷ a) [] = refl
match_len-take (x ∷ a) (y ∷ b) = elim (Bool-cases (x == y)) [
  | inl h ↦ rw h (rw h (ap suc (match_len-take a b)))
  | inr h ↦ rw h refl
]

-- The match stops where the lists differ.
match_len-stops :
    (a b x y : List ℕ) (c k : ℕ)
    → drop (match_len a b) a ≡ c ∷ x
    → drop (match_len a b) b ≡ k ∷ y
    → (c == k) ≡ false
unfolding match_len
match_len-stops [] b x y c k e g = absurd (ground arith)
match_len-stops (p ∷ a) [] x y c k e g = absurd (ground arith)
match_len-stops (p ∷ a) (q ∷ b) x y c k e g = elim (Bool-cases (p == q)) [
  | inl h ↦ match_len-stops a b x y c k (rw h at e) (rw h at g)
  | inr h ↦
      (let e' : p ∷ a ≡ c ∷ x = rw h at e in
        let g' : q ∷ b ≡ k ∷ y = rw h at g in ground (arith, e', g', h))
]

abbrev FoundAt : TreeNode → List ℕ → Info → Type 0
FoundAt t key i = (u : TreeNode) × (find t key ≡ some u) × (info u ≡ i)

abbrev FoundChild : TreeNode → Children → ℕ → List ℕ → Info → Type 0
FoundChild parent f k key i = (u : TreeNode) × (find_child parent f k key ≡ some u) × (info u ≡ i)

find_here :
    (parent u : TreeNode) (c k n : ℕ) (f : Children) (key : List ℕ) (i : Info)
    → (c == k) ≡ true
    → match_len (info u).key key ≡ n
    → length (info u).key ≡ n
    → FoundAt u (drop n key) i
    → FoundChild parent (child c u f) k key i
unfolding find
find_here parent u c k n f key i same matched len (w, e, g) = (
  w,
  rw same (
      rw matched (
        by_cases_of (λ o. o ≡ some w) (ltb n (length (info u).key))
          (λ h. absurd (ground (arith, h, len))) (λ _. e))),
  g,
)

find_there :
    (parent t : TreeNode) (c k : ℕ) (f : Children) (key : List ℕ) (i : Info)
    → (c == k) ≡ false
    → FoundChild parent f k key i
    → FoundChild parent (child c t f) k key i
unfolding find
find_there parent t c k f key i other (w, e, g) = (w, rw other e, g)

-- A child with the whole rest of the key.
find_leaf :
    (parent : TreeNode) (k : ℕ) (key : List ℕ) (leaf : Info)
    → leaf.key ≡ key
    → FoundChild parent (child k (node leaf no_child) no_child) k key leaf
unfolding find
find_leaf parent k key leaf e =
    find_here parent (node leaf no_child) k k (length key) no_child key leaf (ground arith)
      (rw e (match_len_self key)) (rw e refl)
      (subst (λ l. FoundAt (node leaf no_child) l leaf) (sym (drop-length key))
        (node leaf no_child, refl, refl))

module _ (now next : ℕ) where
  insert_below_split-found :
      (i : Info) (l rest value : List ℕ) (t : TreeNode) (split context_length depth : ℕ)
      → ((c k : ℕ) (x y : List ℕ) → l ≡ c ∷ x → rest ≡ k ∷ y → (c == k) ≡ false)
      → let r = insert_below_split now next i (only l t) split rest value context_length depth in
        FoundAt r.tree rest r.created
  unfolding find new_leaf
  insert_below_split-found i l [] value t split context_length depth stops = (_, refl, refl)
  insert_below_split-found i [] (k ∷ rest) value t split context_length depth stops =
      find_leaf _ k (k ∷ rest) _ refl
  insert_below_split-found i (c ∷ l) (k ∷ rest) value t split context_length depth stops =
      let leaf =
        new_leaf now (next + 1) (k ∷ rest) value (context_length + length (k ∷ rest)) (depth + 1) in
      let below = child k (node leaf no_child) no_child in
      let parent = node (visited now i) (child c t below) in
      find_there parent t c k below (k ∷ rest) leaf (stops c k l rest refl refl)
        (find_leaf parent k (k ∷ rest) leaf refl)

  split_node-key :
      (parent : Info) (t : TreeNode) (prefix_len context_length depth : ℕ) (key value : List ℕ)
      → (info (split_node now next parent t prefix_len key value context_length depth).tree).key
        ≡ take prefix_len (info t).key
  unfolding upper
  split_node-key parent (node i f) prefix_len context_length depth key value =
      go (drop prefix_len key)
    where
      go :
          (rest : List ℕ)
          → (info
              (insert_below_split now next
                (upper now next parent.context_length prefix_len i)
                (only (drop prefix_len i.key) (node (lower prefix_len i) f))
                i.id
                rest
                (drop prefix_len value)
                (context_length + prefix_len)
                (depth + 2)).tree).key
            ≡ take prefix_len i.key
      go [] = refl
      go (x ∷ rest) = refl

  split_node-found :
      (grand : TreeNode) (parent : Info) (t : TreeNode) (c k context_length depth : ℕ)
      (f : Children) (key value : List ℕ)
      → (c == k) ≡ true
      → let r =
          split_node now next parent t
            (match_len (info t).key key)
            key
            value
            context_length
            depth in
        FoundChild grand (child c r.tree f) k key r.created
  unfolding upper
  split_node-found grand parent (node i g) c k context_length depth f key value same =
      let n = match_len i.key key in
      let r = split_node now next parent (node i g) n key value context_length depth in
      let e = split_node-key parent (node i g) n context_length depth key value in
      find_here grand r.tree c k n f key r.created same
        (ap (λ l. match_len l key) e ∙ match_len-take i.key key)
        (ap length e ∙ length-take n i.key (match_len-le_left i.key key))
        (insert_below_split-found (upper now next parent.context_length n i) (drop n i.key)
          (drop n key) (drop n value) (node (lower n i) g) i.id (context_length + n) (depth + 2)
          (λ c k x y. match_len-stops i.key key x y c k))

  found_whole-found : (t : TreeNode) → FoundAt (found_whole t).tree [] (found_whole t).created
  unfolding find
  found_whole-found (node i f) = (_, refl, refl)

  mutual
    unfolding insert_helper find new_leaf

    insert_helper-found :
        (t : TreeNode) (key value : List ℕ) (context_length depth : ℕ)
        → let r = insert_helper now next t key value context_length depth in
          FoundAt r.tree key r.created
    insert_helper-found (node i f) [] value context_length depth = (_, refl, refl)
    insert_helper-found (node i f) (k ∷ key) value context_length depth =
        insert_child-found _ i f k (k ∷ key) value context_length depth

    insert_child-found :
        (grand : TreeNode) (parent : Info) (f : Children) (k : ℕ) (key value : List ℕ)
        (context_length depth : ℕ)
        → let r = insert_child now next parent f k key value context_length depth in
          FoundChild grand r.children k key r.created
    insert_child-found grand parent no_child k key value context_length depth =
        find_leaf grand k key _ refl
    insert_child-found grand parent (child c t f) k key value context_length depth =
        let n = match_len (info t).key key in
        let deeper =
          insert_helper now next t (drop n key) (drop n value) (context_length + n) (depth + 1) in
        let P : InsertedChild → Type 0 = λ r. FoundChild grand r.children k key r.created in
        by_cases_of P (c == k)
          (λ same.
            by_cases_of P (n == length (info t).key)
              (λ whole.
                by_cases_of P (n == length key)
                  (λ all.
                    let e = found_whole-key t in
                    find_here grand (found_whole t).tree c k n f key (found_whole t).created same
                      (ap (λ l. match_len l key) e) (ap length e ∙ ground (arith, whole))
                      (subst (λ l. FoundAt (found_whole t).tree l (found_whole t).created)
                        (sym (ap (λ m. drop m key) (ground (arith, all)) ∙ drop-length key))
                        (found_whole-found t)))
                  (λ _.
                    let e =
                      insert_helper-key now next t (drop n key) (drop n value) (context_length + n)
                        (depth + 1) in
                    find_here grand deeper.tree c k n f key deeper.created same
                      (ap (λ l. match_len l key) e) (ap length e ∙ ground (arith, whole))
                      (insert_helper-found t (drop n key) (drop n value) (context_length + n)
                        (depth + 1))))
              (λ _. split_node-found grand parent t c k context_length depth f key value same))
          (λ other.
            find_there grand t c k _ key _ other
              (insert_child-found grand parent f k key value context_length depth))

-- Whatever the tree, find_node with a key that was just inserted finds the node that insert has returned.
pub find_node-insert :
    (now : ℕ) (key : List ℕ) (cache : LpRadixCache)
    → let (r, cache') = insert now key cache in
      (u : TreeNode) × (find_node key cache' ≡ some u) × (info u ≡ r.created)
unfolding find_node insert
find_node-insert now key cache = insert_helper-found now cache.next cache.root_node key key 0 0
