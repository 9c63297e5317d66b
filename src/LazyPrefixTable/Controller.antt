-- ===== src/LazyPrefixTable/Controller.antt =====
-- `LazyExpansionController`: one request through the table and the detector.
use dual_map.Prelude.{
  ℕ, ◌+◌, ◌-◌, ◌≡◌, ◌&&◌, not, none, some, Option, List, arith, ltb, if◌then◌else◌, ℕ_discrete,
  length, take,
}
use dual_map.LazyPrefixTable.Table.{LazyPrefixTable, lookup_depth, mark_expand, mark_shrink}
use dual_map.LazyPrefixTable.Table.View.{IsLayered}
use dual_map.LazyPrefixTable.Table.Walk.{lookup_depth-Walks}
use dual_map.LazyPrefixTable.Table.Changes
use dual_map.LazyPrefixTable.Detector.{HotPrefixDetector, leb_ratio, observe}
use dual_map.LazyPrefixTable.Detector.Counts.{IsCounted, note-IsCounted}

pub blocks_discrete : Discrete (List ℕ)
blocks_discrete = hlevel ℕ_discrete

pub record LazyExpansionController : Type 0 where
  pub table : LazyPrefixTable
  pub detector : HotPrefixDetector (List ℕ)
  pub cnt : ℕ

-- `if is_hot and depth < len(prefix_blocks)`
unfoldable pub expand_hot : List ℕ → ℕ → LazyExpansionController → LazyExpansionController
expand_hot prefix_blocks depth c =
    let ((is_hot, ratio), detector) =
      observe blocks_discrete (take depth prefix_blocks) c.detector in
    if is_hot && ltb depth (length prefix_blocks)
    then record c { table = mark_expand prefix_blocks (depth + 1) c.table; detector = detector }
    else record c { detector = detector }

-- `if depth > 1`: observing the parent counts it once more.
unfoldable pub shrink_cold : List ℕ → ℕ → LazyExpansionController → LazyExpansionController
shrink_cold prefix_blocks depth c =
    let ((_, p_ratio), detector) =
      observe blocks_discrete (take (depth - 1) prefix_blocks) c.detector in
    if ltb 1 depth
    then if not (leb_ratio (2, 100) p_ratio)
      then record c { table = mark_shrink prefix_blocks depth c.table; detector = detector }
      else record c { detector = detector }
    else c

-- `none` means that `lookup` does not end.
unfoldable pub process : List ℕ → LazyExpansionController → Option LazyExpansionController
process prefix_blocks c = elim (lookup_depth prefix_blocks c.table) [
  | none ↦ none
  | some (depth, table) ↦ some (
      shrink_cold prefix_blocks depth
        (expand_hot prefix_blocks depth (record c { table = table; cnt = c.cnt + 1 })))
]

pub record IsSound (c : LazyExpansionController) : Type 0 where
  pub layered : IsLayered c.table
  pub counted : IsCounted blocks_discrete c.detector

module _ (p : List ℕ) (depth : ℕ) (c : LazyExpansionController) (s : IsSound c) where
  expand_hot-IsSound : IsSound (expand_hot p depth c)
  unfolding expand_hot observe
  expand_hot-IsSound = ground (
    arith,
    s.layered,
    note-IsCounted blocks_discrete (take depth p) c.detector s.counted,
    Changes.mark_expand-IsLayered depth p c.table s.layered,
  )

  shrink_cold-IsSound : IsSound (shrink_cold p depth c)
  unfolding shrink_cold observe
  shrink_cold-IsSound = ground (
    arith,
    s.layered,
    s.counted,
    note-IsCounted blocks_discrete (take (depth - 1) p) c.detector s.counted,
    Changes.mark_shrink-IsLayered depth p c.table s.layered,
  )

-- A request always gets through: `process` ends on a sound controller and leaves a sound one, with
-- one more request counted.
pub process-IsSound :
    (p : List ℕ) (c : LazyExpansionController)
    → IsSound c
    → (c' : LazyExpansionController) × (process p c ≡ some c') × IsSound c' × (c'.cnt ≡ c.cnt + 1)
unfolding process
process-IsSound p c s =
    let (d, t, e, w) = lookup_depth-Walks p c.table s.layered in
    let start : LazyExpansionController = record c { table = t; cnt = c.cnt + 1 } in
    let c₁ = expand_hot p d start in
    (
      shrink_cold p d c₁,
      rw (e, process),
      shrink_cold-IsSound p d c₁
          (expand_hot-IsSound p d start (record { layered = w.layered; counted = s.counted })),
      unfold shrink_cold expand_hot in ground arith,
    )
