-- ===== src/OverloadDetector.antt =====
-- dualmap/scheduler/utils/ttft_overload_detector_preble.py: TTFTWindowedOverloadedDetector, which keeps the times to first
-- token of each node on each GPU over a window. Times and values are in microseconds, and an average is a sum and a
-- number of points. The window is of whole minutes, so that its half is exact.
pub mod Window
pub mod Tests
use dual_map.Prelude.{
  ℕ, suc, ◌+◌, ◌*◌, ◌/◌, ◌≡◌, Bool, true, false, none, some, Option, List, [], ◌∷◌, ◌++◌,
  if◌then◌else◌, length, ltb, leb, lookup, ap, ◌∙◌,
}
use dual_map.Prelude.Dict.{assign, del}
use dual_map.SharedState.Posting.{key_discrete}

-- A node and a GPU.
abbrev pub Key : Type 0
Key = ℕ × ℕ

-- Times with their values, the oldest first.
abbrev pub Points : Type 0
Points = List (ℕ × ℕ)

pub record Detector : Type 0 where
  pub points : List (Key × Points)
  pub window_duration : ℕ
  pub half_window_duration : ℕ

unfoldable pub init : ℕ → Detector
init window_duration = record {
  points = [];
  window_duration = window_duration;
  half_window_duration = window_duration / 2;
}

unfoldable pub purge : ℕ → ℕ → Points → Points
purge window now [] = []
purge window now ((timestamp, value) ∷ rest) =
    let later = purge window now rest in
    if ltb (timestamp + window) now then later else (timestamp, value) ∷ rest

abbrev pub points_at : Key → Detector → Points
points_at key d = elim (lookup key_discrete key d.points) [ none ↦ [] | some l ↦ l ]

unfoldable pub purge_old_data : Key → ℕ → Detector → Detector
purge_old_data key current_time d = record d {
  points =
      assign key_discrete key (purge d.window_duration current_time (points_at key d)) d.points;
}

unfoldable pub add_data_point : ℕ → ℕ → ℕ → ℕ → Detector → Detector
add_data_point timestamp node gpu value d =
    let key : Key = (node, gpu) in
    let all = points_at key d ++ (timestamp, value) ∷ [] in
    purge_old_data key timestamp (record d { points = assign key_discrete key all d.points })

abbrev pub put_found : Key → Key → Option Points → Detector → Detector
put_found old_key new_key none d = d
put_found old_key new_key (some l) d = record d {
  points = assign key_discrete new_key l (del key_discrete old_key d.points);
}

unfoldable pub replace_old_node_with_new : ℕ → ℕ → ℕ → Detector → Detector
replace_old_node_with_new old_node new_node runtime_idx d =
    put_found (old_node, runtime_idx) (new_node, runtime_idx)
      (lookup key_discrete (old_node, runtime_idx) d.points) d

abbrev pub halves : ℕ → ℕ → Points → List ℕ × List ℕ
halves half now [] = ([], [])
halves half now ((timestamp, value) ∷ rest) =
    let (first_half, second_half) = halves half now rest in
    if ltb (timestamp + half) now
    then (value ∷ first_half, second_half)
    else (first_half, value ∷ second_half)

abbrev pub sum_of : List ℕ → ℕ
sum_of [] = 0
sum_of (v ∷ l) = v + sum_of l

pub record Average : Type 0 where
  pub sum : ℕ
  pub count : ℕ

abbrev pub average_of : List ℕ → Average
average_of l = record { sum = sum_of l; count = length l }

abbrev pub averages_of : List ℕ × List ℕ → Option (Average × Average)
averages_of ([], second_half) = none
averages_of (v ∷ l, []) = none
averages_of (v ∷ l, w ∷ m) = some (average_of (v ∷ l), average_of (w ∷ m))

-- `none` for the pair of two None, also where the key is not there.
unfoldable pub calculate_half_window_averages : Key → ℕ → Detector → Option (Average × Average)
calculate_half_window_averages key now d =
    averages_of (halves d.half_window_duration now (points_at key d))

unfoldable pub delete_node_in_target_gpu : ℕ → ℕ → Detector → Detector
delete_node_in_target_gpu node gpu d = record d { points = del key_discrete (node, gpu) d.points }

-- `avg_second_half >= 2 * avg_first_half`
abbrev pub is_doubled : Option (Average × Average) → Bool
is_doubled none = false
is_doubled (some (a, b)) = leb (2 * a.sum * b.count) (b.sum * a.count)

unfoldable pub is_node_overloaded : ℕ → ℕ → ℕ → Detector → Bool
is_node_overloaded node gpu now d = is_doubled (calculate_half_window_averages (node, gpu) now d)
