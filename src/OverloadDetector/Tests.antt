-- ===== src/OverloadDetector/Tests.antt =====
-- A window of 100, in which the values of a node double.
use dual_map.Prelude.{◌≡◌, refl, true, [], ◌∷◌, ◌++◌, ite, lookup, ℕ_discrete, arith}
use dual_map.SharedState.Posting.{key_discrete}
use dual_map.OverloadDetector.{
  Detector, points_at, add_data_point, is_node_overloaded, calculate_half_window_averages,
}
use dual_map.OverloadDetector.Window.{recent, add_data_point-recent}

abbrev two_points : Detector
two_points = record {
  points = ((7, 1), (20, 2) ∷ (90, 4) ∷ []) ∷ [];
  window_duration = 100;
  half_window_duration = 50;
}

doubled : is_node_overloaded 7 1 100 two_points ≡ true
unfolding is_node_overloaded calculate_half_window_averages lookup key_discrete ℕ_discrete
doubled = refl

-- The older of the two points is before the window.
add_data_point-recent_example :
    points_at (7, 1) (add_data_point 130 7 1 5 two_points)
    ≡ ite
        (key_discrete (7, 1) (7, 1))
        (recent 100 130 (points_at (7, 1) two_points) ++ (130, 5) ∷ [])
        (points_at (7, 1) two_points)
unfolding lookup key_discrete ℕ_discrete
add_data_point-recent_example =
    add_data_point-recent 130 7 1 5 two_points (7, 1) ((omega arith, tt), (tt, tt))
      (omega arith, (omega arith, tt))
