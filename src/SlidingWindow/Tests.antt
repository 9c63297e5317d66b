-- ===== src/SlidingWindow/Tests.antt =====
-- A window of 100 that the first of two requests has left.
use dual_map.Prelude.{ℕ, ◌≡◌, refl, [], some, pos, arith, ◌-ℤ◌, ◌+ℤ◌}
use dual_map.SlidingWindow
use dual_map.SlidingWindow.{Histogram, add_request, remove_old_entries}
use dual_map.SlidingWindow.Counts.{
  Reachable, started, called, added, IsCounted, Reachable-IsCounted,
}

abbrev context_length : ℕ → ℕ
context_length leaf = 10

abbrev num_tokens : ℕ → ℕ
num_tokens leaf = 6

abbrev one : Histogram
one = add_request context_length num_tokens 5 1 3 20 (SlidingWindow.init 100 (λ node. []))

abbrev two : Histogram
two = add_request context_length num_tokens 120 1 4 20 one

two-count : two.num_requests 1 ≡ some (pos 1)
unfolding add_request SlidingWindow.init remove_old_entries ◌-ℤ◌ ◌+ℤ◌
two-count = refl

two-Reachable : Reachable context_length num_tokens two
two-Reachable = called (called (started 100 (λ node. [])) (added 5 1 3 20)) (added 120 1 4 20)

Reachable-IsCounted_example : IsCounted context_length num_tokens two
Reachable-IsCounted_example =
    Reachable-IsCounted context_length num_tokens (λ leaf. omega arith) two-Reachable
