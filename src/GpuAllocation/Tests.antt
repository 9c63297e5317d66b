-- ===== src/GpuAllocation/Tests.antt =====
-- A node with two children, one of which has the GPU that a request is moved away from.
use dual_map.Prelude.{ℕ, ◌≡◌, refl, true, false, none, some, ◌==◌, if◌then◌else◌, [], ◌∷◌, ◌>>=◌}
use dual_map.LpRadixCache.{Info, Children, no_child, child, node}
use dual_map.GpuAllocation.{
  Allocations, add_gpu_allocation_for_parent, remove_gpu_allocation_from_node, child_has,
  migrate_request_between_gpus,
}
use dual_map.GpuAllocation.Migrates.{has, has_after, migrate_request_between_gpus-has}

abbrev info_of : ℕ → Info
info_of id = record {
  id = id;
  key = [];
  value = [];
  num_uncompleted_request_for_gpu_map = λ gpu. 0;
  load = 1;
  last_access_time = 0;
  evicted_gpus = λ gpu. false;
  cached_gpus = λ gpu. false;
  context_length = 0;
  depth = 0;
}

abbrev allocations : Allocations
allocations j =
    if j == 1
    then some (5 ∷ 6 ∷ [])
    else if j == 2
    then some (5 ∷ [])
    else if j == 3
    then some (6 ∷ [])
    else none

abbrev two_children : Children
two_children = child 7 (node (info_of 2) no_child) (child 8 (node (info_of 3) no_child) no_child)

abbrev one_child : Children
one_child = child 8 (node (info_of 3) no_child) no_child

-- The source stays where a child has it and goes where none has it.
kept :
    (do
      a ←
          migrate_request_between_gpus
            (some (info_of 0 ∷ [], info_of 1, two_children))
            5
            9
            allocations
      some (has a 1 5))
    ≡ some true
unfolding migrate_request_between_gpus add_gpu_allocation_for_parent remove_gpu_allocation_from_node
    child_has
kept = refl

taken :
    (do
      a ← migrate_request_between_gpus (some (info_of 0 ∷ [], info_of 1, one_child)) 5 9 allocations
      some (has a 1 5))
    ≡ some false
unfolding migrate_request_between_gpus add_gpu_allocation_for_parent remove_gpu_allocation_from_node
    child_has
taken = refl

migrate_request_between_gpus-has_example :
    (a' : Allocations) × (migrate_request_between_gpus
        (some (info_of 0 ∷ [], info_of 1, one_child))
        5
        9
        allocations
      ≡ some a')
    × ((j g : ℕ)
        → has a' j g ≡ has_after (info_of 0 ∷ []) (info_of 1) one_child 5 9 allocations j g)
migrate_request_between_gpus-has_example =
    migrate_request_between_gpus-has (info_of 0 ∷ []) (info_of 1) one_child 5 9 allocations
      (refl, tt)
