-- ===== src/Scheduler.antt =====
-- src/tele_scraper/scheduler.py, and what __main__.py gives its health state. Times are
-- microseconds of the monotonic clock; the wait for the stop event wakes up when its time is out
-- or the stop is requested, whichever is first. What a cycle does and how long it takes comes from
-- the environment, cycle by cycle, and so does the moment of a stop request, if there is one.
use telecloud_subscription_r.Base.{
  ℕ, zero, suc, ◌+◌, ◌-◌, ◌*◌, ◌/◌, Bool, true, false, not, ◌&&◌, Option, none, some, List, [], ◌∷◌,
  ltb, leb, Result, return, raise, if◌then◌else◌,
}
use telecloud_subscription_r.Config.{Settings}
use telecloud_subscription_r.Health.{HealthState, heartbeat}
use telecloud_subscription_r.Models.{RunReport, exit_code}
pub mod Sleep
pub mod Rounds
pub mod Alive

abbrev pub seconds : ℕ → ℕ
seconds n = n * 1000000

-- `_TICK_SECONDS`
abbrev pub tick : ℕ
tick = 15000000

-- one cycle of the environment: what `run_once` comes to and after how long, how long pruning takes,
-- and the jitter that is drawn
pub record Cycle : Type 0 where
  pub outcome : Result RunReport
  pub took : ℕ
  pub prune_took : ℕ
  pub jitter : ℕ

-- The loop: the clock, the health state, the exit code so far, and for the theorems when the loop
-- beat and when it started cycles, the latest first.
pub record Loop : Type 0 where
  pub now : ℕ
  pub health : HealthState
  pub last_exit : ℕ
  pub beats : List ℕ
  pub starts : List ℕ

-- `self._stop.is_set()`
unfoldable pub is_set : Option ℕ → ℕ → Bool
is_set none now = false
is_set (some t) now = leb t now

unfoldable pub beat : Loop → Loop
unfolding heartbeat
beat l = record l { health = heartbeat l.now l.health; beats = l.now ∷ l.beats }

abbrev pub pass : ℕ → Loop → Loop
pass d l = record l { now = l.now + d }

unfoldable pub min : ℕ → ℕ → ℕ
min a b = if leb a b then a else b

-- `wait_for(self._stop.wait(), timeout=chunk)`, begun while no stop is requested
unfoldable pub waited : Option ℕ → ℕ → ℕ → ℕ
unfolding min
waited none now chunk = chunk
waited (some t) now chunk = min (t - now) chunk

-- the rounds of `_sleep_with_heartbeat`; what is left of the sleep, and the loop
unfoldable pub sleep : ℕ → Option ℕ → ℕ → Loop → ℕ × Loop
unfolding is_set beat min waited
sleep zero stop remaining l = (remaining, l)
sleep (suc fuel) stop remaining l = elim (ltb 0 remaining && not (is_set stop l.now)) [
  | false ↦ (remaining, l)
  | true ↦
      sleep fuel stop (remaining - min tick remaining)
        (beat (pass (waited stop l.now (min tick remaining)) l))
]

-- Every round but the last takes a whole tick of what remains.
unfoldable pub sleep_with_heartbeat : Option ℕ → ℕ → Loop → Loop
unfolding sleep
sleep_with_heartbeat stop duration l = (sleep (suc (duration / tick)) stop duration l).1

-- how long `wait_for(run_once(), timeout)` takes, and the exit code it leaves
unfoldable pub lasting : ℕ → ℕ → ℕ
unfolding min
lasting took timeout = min took timeout

exit_of : Result RunReport → ℕ
exit_of (return report) = exit_code report
exit_of (raise e) = 1

unfoldable pub cycle_exit : Cycle → ℕ → ℕ
unfolding exit_of
cycle_exit c timeout = if ltb timeout c.took then 1 else exit_of c.outcome

module _ (settings : Settings) where
  -- a cycle, its heartbeats around it, and pruning, whose exceptions are suppressed
  unfoldable pub run_cycle : Cycle → Loop → Loop
  unfolding beat lasting cycle_exit
  run_cycle c l =
      let timeout = seconds settings.run_timeout_seconds in
      let begun = beat (record l { starts = l.now ∷ l.starts }) in
      let done =
        beat (record (pass (lasting c.took timeout) begun) { last_exit = cycle_exit c timeout }) in
      pass c.prune_took done

  unfoldable pub delay : Cycle → ℕ
  delay c = seconds settings.run_interval_seconds + c.jitter

  -- The rounds of `run_forever`, from cycle `i` of the environment, as far as the fuel goes: whether
  -- the loop is over, and where it stands.
  unfoldable pub reached : ℕ → (ℕ → Cycle) → Option ℕ → ℕ → Loop → Bool × Loop
  reached zero cycles stop i l = (false, l)
  reached (suc fuel) cycles stop i l = elim (is_set stop l.now) [
    | true ↦ (true, l)
    | false ↦
        let pruned = run_cycle (cycles i) l in
        elim (is_set stop pruned.now) [
          | true ↦ (true, pruned)
          | false ↦
              reached fuel cycles stop (suc i) (sleep_with_heartbeat stop (delay (cycles i)) pruned)
        ]
  ]

  -- where the loop is over; `none` if the fuel runs out
  unfoldable pub ended : Bool × Loop → Option Loop
  ended (true, l) = some l
  ended (false, l) = none

  unfoldable pub rounds : ℕ → (ℕ → Cycle) → Option ℕ → ℕ → Loop → Option Loop
  unfolding ended reached
  rounds fuel cycles stop i l = ended (reached fuel cycles stop i l)

  -- `stale_after_seconds` of `_run` in __main__.py
  unfoldable pub stale_after : ℕ
  stale_after = seconds (settings.run_interval_seconds + settings.run_timeout_seconds + 120)
