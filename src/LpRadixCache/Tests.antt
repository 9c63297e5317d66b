-- ===== src/LpRadixCache/Tests.antt =====
-- Two keys with a common beginning: the second one splits the node of the first.
use dual_map.Prelude.{ℕ, ◌+◌, ◌≤◌, ◌≡◌, refl, some, [], ◌∷◌, length}
use dual_map.LpRadixCache
use dual_map.LpRadixCache.{
  LpRadixCache, TreeNode, info, insert, find_node, total_size, insert_helper, match_len, find,
  new_leaf, upper, lower, size_by, num_tokens, root_node, has_cached_gpu, get_evictable_size,
}
use dual_map.LpRadixCache.Reached.{Reachable, started, called, inserted, IsSound, Reachable-IsSound}
use dual_map.LpRadixCache.Sizes.{total_size-insert}
use dual_map.LpRadixCache.Finds.{find_node-insert}

abbrev empty : LpRadixCache
empty = LpRadixCache.reset 5

abbrev first : LpRadixCache
first = (insert 6 (1 ∷ 2 ∷ 3 ∷ 4 ∷ []) empty).1

abbrev second : LpRadixCache
second = (insert 7 (1 ∷ 2 ∷ 5 ∷ []) first).1

-- The tokens of the two keys, the common ones once.
second-total_size : total_size second.root_node ≡ 5
unfolding total_size insert insert_helper LpRadixCache.reset root_node match_len new_leaf upper
    lower size_by num_tokens
second-total_size = refl

-- The leaf stands two levels below the root, and its depth says three.
split_depth : (insert 7 (1 ∷ 2 ∷ 5 ∷ []) first).0.created.depth ≡ 3
unfolding insert insert_helper LpRadixCache.reset root_node match_len new_leaf upper lower
split_depth = refl

second-Reachable : Reachable second
second-Reachable =
    called (called (started 5) (inserted 6 (1 ∷ 2 ∷ 3 ∷ 4 ∷ []))) (inserted 7 (1 ∷ 2 ∷ 5 ∷ []))

Reachable-IsSound_example : IsSound second
Reachable-IsSound_example = Reachable-IsSound second-Reachable

total_size-insert_example :
    let after = total_size second.root_node in
    (total_size first.root_node ≤ after)
    × (after ≤ total_size first.root_node + length {A = ℕ} (1 ∷ 2 ∷ 5 ∷ []))
total_size-insert_example = total_size-insert 7 (1 ∷ 2 ∷ 5 ∷ []) first

find_node-insert_example :
    let (r, cache) = insert 7 (1 ∷ 2 ∷ 5 ∷ []) first in
    (u : TreeNode) × (find_node (1 ∷ 2 ∷ 5 ∷ []) cache ≡ some u) × (info u ≡ r.created)
find_node-insert_example = find_node-insert 7 (1 ∷ 2 ∷ 5 ∷ []) first
