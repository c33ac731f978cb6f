-- ===== src/Domain/Rules/QuietHours.antt =====
-- Quiet hours are the half-open arc of the day from the start to the end, also past midnight.
use telecloud_subscription_r.Base.{ℕ, ◌+◌, ◌-◌, ◌%◌, ◌<◌, ◌≡◌, ◌≢◌, String, not, arith, ltb}
use telecloud_subscription_r.Domain.Rules.{in_quiet_hours}
use telecloud_subscription_r.Platform.{Platform, DateTime}

-- microseconds of a day
abbrev pub day : ℕ
day = 86400000000

-- how long after `start` the clock shows `t`, going round
abbrev pub after : ℕ → ℕ → ℕ
after start t = (t + day - start) % day

module _ (p : Platform) (now : DateTime) (start end : ℕ) (tz : String) where
  -- For times of day, a moment is quiet exactly when the clock reaches it after the start before
  -- it reaches the end.
  pub in_quiet_hours-arc :
      start < day
      → end < day
      → p.local_time now tz < day
      → in_quiet_hours p now start end tz
        ≡ ltb (after start (p.local_time now tz)) (after start end)
  unfolding in_quiet_hours
  in_quiet_hours-arc s e l = ground arith

  -- A window with distinct ends and the window with its ends exchanged divide the day between them.
  pub in_quiet_hours_swap :
      start ≢ end → in_quiet_hours p now end start tz ≡ not (in_quiet_hours p now start end tz)
  unfolding in_quiet_hours
  in_quiet_hours_swap ne = ground arith
