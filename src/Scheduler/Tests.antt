-- ===== src/Scheduler/Tests.antt =====
-- The round robin over three replicas.
use dual_map.Prelude.{◌≡◌, refl, [], ◌∷◌, arith}
use dual_map.Scheduler.RoundRobin.{RoundRobin, schedule, schedule_all, times, times-schedule_all}

abbrev state : RoundRobin
state = record { num_replicas = 3; request_counter = 7 }

next_three : schedule_all 3 state ≡ 1 ∷ 2 ∷ 0 ∷ []
unfolding schedule
next_three = refl

times-schedule_all_example : times 2 (schedule_all 3 state) ≡ 1
times-schedule_all_example = times-schedule_all 2 state (omega arith)
