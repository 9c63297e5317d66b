-- ===== src/LazyPrefixTable/Tests.antt =====
-- Small tables, and the theorems about them at concrete inputs.
use dual_map.Prelude.{
  ℕ, zero, suc, true, ◌↔◌, ◌+◌, ◌<◌, ◌≡◌, refl, some, List, [], ◌∷◌, arith, length, ltb,
  if◌then◌else◌, lookup, ℕ_discrete,
}
use dual_map.Prelude.Dict.{assign, del, move_to_end}
use dual_map.LazyPrefixTable.Bucket
use dual_map.LazyPrefixTable.Bucket.{LruCapBucket}
use dual_map.LazyPrefixTable.Table
use dual_map.LazyPrefixTable.Table.{LazyPrefixTable, lookup_depth, mark_expand, mark_shrink}
use dual_map.LazyPrefixTable.Table.View.{init-IsLayered}
use dual_map.LazyPrefixTable.Table.Walk.{
  Walks, lookup_depth-Walks, lookup_depth-mark_expand, lookup_depth-mark_shrink,
}
use dual_map.LazyPrefixTable.Detector
use dual_map.LazyPrefixTable.Detector.{HotPrefixDetector, Ratio, note, observe}
use dual_map.LazyPrefixTable.Detector.Counts.{
  IsCounted, init-IsCounted, note-IsCounted, IsHot, IsShare, observe-IsHot, length-note,
}
use dual_map.LazyPrefixTable.Controller.{LazyExpansionController, IsSound, process, process-IsSound}

abbrev table : LazyPrefixTable
table = Table.init 512 2

abbrev prefix : List ℕ
prefix = 11 ∷ 12 ∷ 13 ∷ []

program : Unit {0}
unfolding Table.init Table.get_bucket Table.set_bucket Table.rolling_hash Table.decide_level
    Table.lookup_from Table.lookup_depth Table.mark_expand Table.mark_shrink Bucket.init Bucket.get
    Bucket.put Bucket.delete assign del move_to_end lookup ℕ_discrete
program = tt

-- The table after one lookup: level 1 exists, is empty, and was asked once.
abbrev asked : LazyPrefixTable
asked = record {
  block_size = 512;
  cap_per_level = 2;
  level_buckets = (1, record { capacity = 2; entries = [] }) ∷ [];
  stats = (1, 1) ∷ [];
  hash_base = 1315423911;
}

first_lookup : lookup_depth prefix table ≡ some (1, asked)
unfolding program
first_lookup = refl

lookup_depth-Walks_example :
    (d : ℕ) × (t' : LazyPrefixTable) × (lookup_depth prefix table ≡ some (d, t'))
    × Walks table prefix 1 d t'
lookup_depth-Walks_example = lookup_depth-Walks prefix table (init-IsLayered 512 2)

lookup_depth-mark_expand_example :
    (d' : ℕ) × (t₁ : LazyPrefixTable) × (lookup_depth prefix (mark_expand prefix 2 asked)
      ≡ some (d', t₁))
    × (1 < d')
unfolding Table.init
lookup_depth-mark_expand_example =
    lookup_depth-mark_expand prefix table asked 1 (init-IsLayered 512 2) first_lookup (omega arith)
      (omega arith)

lookup_depth-mark_shrink_example :
    (t₁ : LazyPrefixTable) × (lookup_depth prefix (mark_shrink prefix 1 asked) ≡ some (1, t₁))
lookup_depth-mark_shrink_example =
    lookup_depth-mark_shrink prefix table asked 1 (init-IsLayered 512 2) first_lookup

full_bucket : LruCapBucket
full_bucket = record { capacity = 2; entries = (1, 2) ∷ (3, 2) ∷ [] }

full_bucket-IsValid : Bucket.IsValid full_bucket
unfolding full_bucket lookup ℕ_discrete
full_bucket-IsValid = record { distinct = (refl, (refl, tt)); bounded = omega arith }

put-IsValid_bucket : Bucket.IsValid (Bucket.put 7 2 full_bucket)
put-IsValid_bucket = Bucket.put-IsValid full_bucket full_bucket-IsValid 7 2

abbrev detector : HotPrefixDetector ℕ
detector = Detector.init 3 (1, 2) 1

note-IsCounted_example : IsCounted ℕ_discrete (note ℕ_discrete 5 detector)
note-IsCounted_example = note-IsCounted ℕ_discrete 5 detector (init-IsCounted ℕ_discrete 3 (1, 2) 1)

length-note_example : length (note ℕ_discrete 5 detector).window ≡ (
    if ltb (length detector.window) detector.window_size
    then length detector.window + 1
    else length detector.window)
length-note_example = length-note ℕ_discrete 5 detector

-- The prefix 5, observed `n` times with a threshold of a half.
abbrev observed : ℕ → HotPrefixDetector ℕ
observed zero = Detector.init 200 (1, 2) 20
observed (suc n) = note ℕ_discrete 5 (observed n)

observed-IsCounted : (n : ℕ) → IsCounted ℕ_discrete (observed n)
observed-IsCounted zero = init-IsCounted ℕ_discrete 200 (1, 2) 20
observed-IsCounted (suc n) = note-IsCounted ℕ_discrete 5 (observed n) (observed-IsCounted n)

observe-IsHot_example :
    let s = observed 24 in
    let ((is_hot, ratio), s') = observe ℕ_discrete 5 s in
    (is_hot ≡ true ↔ IsHot ℕ_discrete s.min_samples s.hot_ratio 5 s'.window)
    × IsShare ℕ_discrete s.min_samples 5 s'.window ratio
observe-IsHot_example = observe-IsHot ℕ_discrete 5 (observed 24) (observed-IsCounted 24)

abbrev controller : LazyExpansionController
controller = record { table = table; detector = Detector.init 200 (612, 10000) 20; cnt = 0 }

process-IsSound_example :
    (c' : LazyExpansionController) × (process prefix controller ≡ some c')
    × IsSound c'
    × (c'.cnt ≡ 1)
process-IsSound_example =
    process-IsSound prefix controller
      (record { layered = init-IsLayered 512 2; counted = init-IsCounted _ 200 (612, 10000) 20 })
