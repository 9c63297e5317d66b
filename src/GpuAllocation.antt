-- ===== src/GpuAllocation.antt =====
-- dualmap/scheduler/utils/preble_global_scheduler_utils.py: the GPUs that PrebleGlobalSchedulerUtils allocates to the nodes of
-- the radix tree. A dict by node is a function of the id of the node, a set of GPUs a list, and a node with all that stand
-- above it the list of their data, the node first and the root, with id 0, last.
pub mod Migrates
pub mod Tests
use dual_map.Prelude.{
  ℕ, ◌+◌, ◌-◌, Bool, true, false, not, ◌&&◌, none, some, Option, List, [], ◌∷◌, ◌==◌, if◌then◌else◌,
  length, ltb, ℤ, pos, ◌-ℤ◌, ltb_ℤ, ◌>>=◌,
}
use dual_map.LpRadixCache.{
  Info, TreeNode, node, Children, no_child, child, num_tokens, context_so_far,
}

abbrev pub Allocations : Type 0
Allocations = ℕ → Option (List ℕ)

abbrev pub mem : ℕ → List ℕ → Bool
mem g [] = false
mem g (h ∷ s) = if h == g then true else mem g s

-- `get(node, set())`
abbrev pub gpus_of : Allocations → ℕ → List ℕ
gpus_of a j = elim (a j) [ none ↦ [] | some s ↦ s ]

abbrev pub set : ℕ → List ℕ → Allocations → Allocations
set k s a = λ j. if j == k then some s else a j

abbrev pub del : ℕ → Allocations → Allocations
del k a = λ j. if j == k then none else a j

abbrev pub union : List ℕ → List ℕ → List ℕ
union [] t = t
union (g ∷ s) t = let rest = union s t in if mem g t then rest else g ∷ rest

abbrev pub discard : ℕ → List ℕ → List ℕ
discard g [] = []
discard g (h ∷ s) = let rest = discard g s in if h == g then rest else h ∷ rest

-- `none` for the KeyError of a node that was split and has no allocation. A pair is a child and the node put above it.
unfoldable pub update_gpu_allocations_with_split_nodes :
    List (ℕ × ℕ) → Allocations → Option Allocations
update_gpu_allocations_with_split_nodes [] a = some a
update_gpu_allocations_with_split_nodes ((child_node, new_node) ∷ l) a = do
  s ← a child_node
  update_gpu_allocations_with_split_nodes l (set new_node s a)

abbrev pub unless_empty : List ℕ → Option (List ℕ) → List ℕ
unless_empty parents none = parents
unless_empty parents (some []) = parents
unless_empty parents (some (g ∷ s)) = g ∷ s

unfoldable pub get_parent_gpu_allocation : List ℕ → List Info → Allocations → List ℕ
get_parent_gpu_allocation all_gpus [] a = all_gpus
get_parent_gpu_allocation all_gpus (i ∷ above) a =
    unless_empty (get_parent_gpu_allocation all_gpus above a) (a i.id)

-- Less than 128 tokens to prefill count as all of them.
unfoldable pub get_actual_num_prefill_tokens_for_target_gpu : ℕ → ℕ → List Info → Allocations → ℤ
get_actual_num_prefill_tokens_for_target_gpu n gpu_id [] a = pos n
get_actual_num_prefill_tokens_for_target_gpu n gpu_id (i ∷ above) a =
    let actual = pos n -ℤ context_so_far i in
    let parents = get_actual_num_prefill_tokens_for_target_gpu n gpu_id above a in
    if i.id == 0
    then pos n
    else if mem gpu_id (gpus_of a i.id)
    then (if ltb_ℤ actual (pos 128) then pos n else actual)
    else parents

unfoldable pub add_gpu_allocation_for_parent : List Info → List ℕ → Allocations → Allocations
add_gpu_allocation_for_parent [] gpu_id a = a
add_gpu_allocation_for_parent (i ∷ above) gpu_id a =
    add_gpu_allocation_for_parent above gpu_id (set i.id (union (gpus_of a i.id) gpu_id) a)

abbrev pub put_left : ℕ → List ℕ → Allocations → Allocations
put_left k [] a = del k a
put_left k (g ∷ s) a = set k (g ∷ s) a

unfoldable pub remove_gpu_allocation_from_node : Info → ℕ → Allocations → Allocations
remove_gpu_allocation_from_node i gpu_id a = elim (a i.id) [
  | none ↦ a
  | some s ↦ put_left i.id (discard gpu_id s) a
]

unfoldable pub is_unshare_prefix_over_50_percent_for_node : Info → Bool
is_unshare_prefix_over_50_percent_for_node i = ltb_ℤ (context_so_far i) (pos (num_tokens i))

unfoldable pub is_more_share_prefix_node : Info → Bool
is_more_share_prefix_node i = not (is_unshare_prefix_over_50_percent_for_node i)

unfoldable pub get_nearest_ancestor_node_with_low_share_prefix_ratio : List Info → Option Info
get_nearest_ancestor_node_with_low_share_prefix_ratio [] = none
get_nearest_ancestor_node_with_low_share_prefix_ratio (i ∷ above) =
    let parents = get_nearest_ancestor_node_with_low_share_prefix_ratio above in
    if is_unshare_prefix_over_50_percent_for_node i then some i else parents

-- Whether a child has the GPU; `none` for the TypeError of a child without allocation before it.
unfoldable pub child_has : ℕ → Children → Allocations → Option Bool
child_has gpu no_child a = some false
child_has gpu (child c (node i below) f) a =
    let rest = child_has gpu f a in do s ← a i.id; if mem gpu s then some true else rest

-- The node is given with its children and those above it; `none` where `find_node` found none.
unfoldable pub migrate_request_between_gpus :
    Option (List Info × Info × Children) → ℕ → ℕ → Allocations → Option Allocations
migrate_request_between_gpus none source_gpu_id target_gpu_id a = some a
migrate_request_between_gpus (some (above, i, children)) source_gpu_id target_gpu_id a = do
  kept ← child_has source_gpu_id children a
  let left = if kept then a else remove_gpu_allocation_from_node i source_gpu_id a
  some (add_gpu_allocation_for_parent (i ∷ above) (target_gpu_id ∷ []) left)

unfoldable mutual
  pub update_gpu_allocations_for_children : TreeNode → ℕ → Allocations → Allocations
  update_gpu_allocations_for_children (node i f) gpu_id a = update_all f gpu_id a

  pub update_all : Children → ℕ → Allocations → Allocations
  update_all no_child gpu_id a = a
  update_all (child c (node i below) f) gpu_id a =
      update_all f gpu_id (update_all below gpu_id (set i.id (gpu_id ∷ []) a))
