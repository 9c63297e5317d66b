-- ===== src/GpuAllocation/Migrates.antt =====
-- Which GPUs a node has after the allocations change.
use dual_map.Prelude.{
  by_cases_of, ℕ, ◌≡◌, refl, sym, ap, ◌∙◌, Bool, true, false, not, ◌&&◌, ◌||◌, none, some, Option,
  List, [], ◌∷◌, ◌==◌, if◌then◌else◌, arith, ◌>>=◌, Bool-cases, is_some, inl, inr, ℕ_discrete,
}
use mathlib.Core.Path.{subst}
use dual_map.LpRadixCache.{Info, Children, no_child, child, node}
use dual_map.GpuAllocation.{
  Allocations, mem, gpus_of, set, del, union, discard, add_gpu_allocation_for_parent, put_left,
  remove_gpu_allocation_from_node, child_has, migrate_request_between_gpus,
}

abbrev pub has : Allocations → ℕ → ℕ → Bool
has a j g = mem g (gpus_of a j)

abbrev pub stands_in : ℕ → List Info → Bool
stands_in j [] = false
stands_in j (i ∷ p) = j == i.id || stands_in j p

mem-union : (g : ℕ) (s t : List ℕ) → mem g (union s t) ≡ (mem g s || mem g t)
mem-union g [] t = refl
mem-union g (h ∷ s) t = ground (arith, mem-union g s t)

mem-discard : (g h : ℕ) (s : List ℕ) → mem g (discard h s) ≡ (mem g s && not (g == h))
mem-discard g h [] = refl
mem-discard g h (k ∷ s) = ground (arith, mem-discard g h s)

has-set :
    (k j g : ℕ) (s : List ℕ) (a : Allocations)
    → has (set k s a) j g ≡ (if j == k then mem g s else has a j g)
has-set k j g s a =
    by_cases_of
      (λ (o : Option (List ℕ)).
        mem g (elim o [ none ↦ [] | some s ↦ s ]) ≡ (if j == k then mem g s else has a j g))
      (j == k) (λ h. rw h refl) (λ h. rw h refl)

has-del : (k j g : ℕ) (a : Allocations) → has (del k a) j g ≡ (if j == k then false else has a j g)
has-del k j g a =
    by_cases_of
      (λ (o : Option (List ℕ)).
        mem g (elim o [ none ↦ [] | some s ↦ s ]) ≡ (if j == k then false else has a j g))
      (j == k) (λ h. rw h refl) (λ h. rw h refl)

has-put_left :
    (k j g : ℕ) (s : List ℕ) (a : Allocations)
    → has (put_left k s a) j g ≡ (if j == k then mem g s else has a j g)
has-put_left k j g [] a = has-del k j g a
has-put_left k j g (h ∷ s) a = has-set k j g (h ∷ s) a

if_same :
    (j k : ℕ) (b : Bool) (f : ℕ → Bool)
    → (if j == k then f k || b else f j) ≡ (f j || ((j == k) && b))
if_same j k b f = elim (ℕ_discrete j k) [
  | yes e ↦
      subst (λ k. (if j == k then f k || b else f j) ≡ (f j || ((j == k) && b))) e (ground arith)
  | no n ↦ ground arith
]

or_assoc : (x y z m : Bool) → ((x || (y && m)) || (z && m)) ≡ (x || ((y || z) && m))
or_assoc x y z m = ground arith

has-add :
    (path : List Info) (gpus : List ℕ) (a : Allocations) (j g : ℕ)
    → has (add_gpu_allocation_for_parent path gpus a) j g
      ≡ (has a j g || (stands_in j path && mem g gpus))
unfolding add_gpu_allocation_for_parent
has-add [] gpus a j g = ground arith
has-add (i ∷ p) gpus a j g =
    let s = union (gpus_of a i.id) gpus in
    has-add p gpus (set i.id s a) j g
    ∙ ap (λ b. b || (stands_in j p && mem g gpus))
        (has-set i.id j g s a
          ∙ ap (λ b. if j == i.id then b else has a j g) (mem-union g (gpus_of a i.id) gpus)
          ∙ if_same j i.id (mem g gpus) (λ k. has a k g))
    ∙ or_assoc (has a j g) (j == i.id) (stands_in j p) (mem g gpus)

if_same_and :
    (j k : ℕ) (b : Bool) (f : ℕ → Bool)
    → (if j == k then f k && not b else f j) ≡ (f j && not ((j == k) && b))
if_same_and j k b f = elim (ℕ_discrete j k) [
  | yes e ↦
      subst (λ k. (if j == k then f k && not b else f j) ≡ (f j && not ((j == k) && b))) e
        (ground arith)
  | no n ↦ ground arith
]

abbrev held_in : Option (List ℕ) → List ℕ
held_in o = elim o [ none ↦ [] | some s ↦ s ]

remove_at-has :
    (k source : ℕ) (a : Allocations) (j g : ℕ) (o : Option (List ℕ))
    → a k ≡ o
    → has (elim o [ none ↦ a | some s ↦ put_left k (discard source s) a ]) j g
      ≡ (has a j g && not ((j == k) && (g == source)))
remove_at-has k source a j g none e =
    let gone : has a k g ≡ false = ap (λ o. mem g (held_in o)) e in
    elim (ℕ_discrete j k) [
      | yes same ↦
          subst (λ j. has a j g ≡ (has a j g && not ((j == k) && (g == source)))) (sym same)
            (ground (arith, gone))
      | no other ↦ ground arith
    ]
remove_at-has k source a j g (some s) e =
    has-put_left k j g (discard source s) a
    ∙ ap (λ b. if j == k then b else has a j g)
        (mem-discard g source s
          ∙ ap (λ b. b && not (g == source)) (sym (ap (λ o. mem g (held_in o)) e)))
    ∙ if_same_and j k (g == source) (λ k. has a k g)

has-remove :
    (i : Info) (source : ℕ) (a : Allocations) (j g : ℕ)
    → has (remove_gpu_allocation_from_node i source a) j g
      ≡ (has a j g && not ((j == i.id) && (g == source)))
unfolding remove_gpu_allocation_from_node
has-remove i source a j g = remove_at-has i.id source a j g (a i.id) refl

-- Whether some of the children has the GPU.
abbrev pub some_child : ℕ → Allocations → Children → Bool
some_child gpu a no_child = false
some_child gpu a (child c (node i below) f) = has a i.id gpu || some_child gpu a f

-- Every child has an allocation.
abbrev pub AreAllocated : Allocations → Children → Type 0
AreAllocated a no_child = Unit
AreAllocated a (child c (node i below) f) = (is_some (a i.id) ≡ true) × AreAllocated a f

first_child :
    (gpu : ℕ) (o : Option (List ℕ)) (rest : Option Bool) (m : Bool)
    → is_some o ≡ true
    → rest ≡ some m
    → (o >>= λ s. if mem gpu s then some true else rest) ≡ some (mem gpu (held_in o) || m)
first_child gpu none rest m i e = absurd (ground (arith, i))
first_child gpu (some s) rest m i e = elim (Bool-cases (mem gpu s)) [
  | inl h ↦ rw h refl
  | inr h ↦ rw h e
]

child_has-some_child :
    (gpu : ℕ) (f : Children) (a : Allocations)
    → AreAllocated a f
    → child_has gpu f a ≡ some (some_child gpu a f)
unfolding child_has
child_has-some_child gpu no_child a h = refl
child_has-some_child gpu (child c (node i below) f) a (h, later) =
    first_child gpu (a i.id) (child_has gpu f a) (some_child gpu a f) h
      (child_has-some_child gpu f a later)

unless_kept : (x y : Bool) → (x && not y) ≡ (x && not (y && not false))
unless_kept x y = ground arith

has-left :
    (kept : Bool) (i : Info) (source : ℕ) (a : Allocations) (j g : ℕ)
    → has (if kept then a else remove_gpu_allocation_from_node i source a) j g
      ≡ (has a j g && not (((j == i.id) && (g == source)) && not kept))
has-left true i source a j g = ground arith
has-left false i source a j g =
    has-remove i source a j g ∙ unless_kept (has a j g) ((j == i.id) && (g == source))

mem_one : (g target : ℕ) → mem g (target ∷ []) ≡ (g == target)
mem_one g target = ground arith

-- Whether a node has a GPU after a migration: if it had it, unless it is the source at the node of the request, and no
-- child of the node had that, and the target at that node and at all nodes above it.
abbrev pub has_after : List Info → Info → Children → ℕ → ℕ → Allocations → ℕ → ℕ → Bool
has_after above i children source target a j g =
    (has a j g && not (((j == i.id) && (g == source)) && not (some_child source a children)))
    || (stands_in j (i ∷ above) && (g == target))

-- For a node of the tree whose children all have allocations, migrate_request_between_gpus returns, and the GPUs that any node
-- then has are the ones it had, less the source at the node of the request if no child has it, and with the target at this
-- node and at all above it.
pub migrate_request_between_gpus-has :
    (above : List Info) (i : Info) (children : Children) (source target : ℕ) (a : Allocations)
    → AreAllocated a children
    → (a' : Allocations) × (migrate_request_between_gpus (some (above, i, children)) source target a
        ≡ some a')
      × ((j g : ℕ) → has a' j g ≡ has_after above i children source target a j g)
unfolding migrate_request_between_gpus
migrate_request_between_gpus-has above i children source target a h =
    let kept = some_child source a children in
    let left = if kept then a else remove_gpu_allocation_from_node i source a in
    let final = add_gpu_allocation_for_parent (i ∷ above) (target ∷ []) left in
    (
      final,
      ap
          (λ o. o >>= λ (kept : Bool). some (
            add_gpu_allocation_for_parent (i ∷ above) (target ∷ [])
              (if kept then a else remove_gpu_allocation_from_node i source a)))
          (child_has-some_child source children a h),
      λ j g.
          has-add (i ∷ above) (target ∷ []) left j g
          ∙ ap (λ b. b || (stands_in j (i ∷ above) && mem g (target ∷ [])))
              (has-left kept i source a j g)
          ∙ ap
              (λ b.
                (has a j g && not (((j == i.id) && (g == source)) && not kept))
                || (stands_in j (i ∷ above) && b))
              (mem_one g target),
    )
