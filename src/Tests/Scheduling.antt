-- ===== src/Tests/Scheduling.antt =====
-- The theorems on the scheduler at a sample: two cycles, and a stop in the sleep after the first.
use telecloud_subscription_r.Base.{
  ℕ, ◌+◌, ◌≤◌, ◌<◌, ◌≡◌, refl, false, some, [], ◌∷◌, All, arith, raise, value_error,
}
use telecloud_subscription_r.Health.{new_health}
use telecloud_subscription_r.Scheduler.{
  seconds, Cycle, Loop, rounds, stale_after, run_cycle, delay, sleep_with_heartbeat, sleep, is_set,
  beat, min, waited, lasting, cycle_exit,
}
use telecloud_subscription_r.Scheduler.Rounds.{run_forever-stops}
use telecloud_subscription_r.Tests.Samples.{confirming}

-- ten seconds of work that fails, one of pruning
abbrev failing : Cycle
failing = record {
  outcome = raise (value_error "broken");
  took = 10000000;
  prune_took = 1000000;
  jitter = 0;
}

abbrev steady_cycles : ℕ → Cycle
steady_cycles i = failing

abbrev started_loop : Loop
started_loop = record {
  now = 0;
  health = new_health (stale_after confirming) 0;
  last_exit = 0;
  beats = [];
  starts = [];
}

-- a stop in the thirtieth second
abbrev stop_time : ℕ
stop_time = 30000000

pruning_quick : (i : ℕ) → (steady_cycles i).prune_took ≤ 1000000
pruning_quick i = omega arith

run_forever-stops_example :
    (l' : Loop) × (rounds confirming 30000001 steady_cycles (some stop_time) 0 started_loop
      ≡ some l')
    × (stop_time ≤ l'.now)
    × (l'.now ≤ stop_time + seconds 900 + 1000000)
    × All (λ s. s < stop_time) l'.starts
run_forever-stops_example =
    run_forever-stops confirming steady_cycles stop_time 1000000 pruning_quick started_loop
      (omega arith) (omega arith) refl

-- the loop at the stop: awake at each tick, and at the stop itself
abbrev stopped_loop : Loop
stopped_loop = record {
  now = 30000000;
  health = record { stale_after = stale_after confirming; last_beat = 30000000; ready = false };
  last_exit = 1;
  beats = 30000000 ∷ 26000000 ∷ 10000000 ∷ 0 ∷ [];
  starts = 0 ∷ [];
}

stopped_at_stop :
    rounds confirming 3 steady_cycles (some stop_time) 0 started_loop ≡ some stopped_loop
unfolding rounds run_cycle delay sleep_with_heartbeat sleep is_set beat min waited lasting
    cycle_exit stale_after
stopped_at_stop = refl
