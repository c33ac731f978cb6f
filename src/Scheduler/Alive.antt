-- ===== src/Scheduler/Alive.antt =====
-- That the process counts as live all along while the loop runs.
use telecloud_subscription_r.Base.{ℕ, ◌≤◌, ◌≡◌, Bool, true, List, [], ◌∷◌}
use telecloud_subscription_r.Config.{Settings}
use telecloud_subscription_r.Health.{is_live}
use telecloud_subscription_r.Scheduler.{stale_after}

module _ (settings : Settings) where
  -- At every moment from a heartbeat to the next, and from the last one to `now`, the process
  -- counts as live.
  abbrev pub IsAlive : ℕ → ℕ → List ℕ → Type 0
  IsAlive stale now [] = Unit
  IsAlive stale now (b ∷ bs) =
      ((at : ℕ) (ready : Bool)
        → b ≤ at
        → at ≤ now
        → is_live at (record { stale_after = stale; last_beat = b; ready = ready }) ≡ true)
      × IsAlive stale b bs
