-- ===== src/Health.antt =====
-- src/tele_scraper/health.py: liveness and readiness, and the answers of the endpoints. Instants are
-- readings of the monotonic clock in microseconds. The HTTP server around it is left out, and the
-- body of /metrics is an argument.
use Prim.Native.Char.{code}
use Prim.Native.String.{◌++◌}
use telecloud_subscription_r.Base.{
  ℕ, ◌-◌, String, Bool, false, List, [], ◌∷◌, ltb, is_empty, str_eq, ◌==◌, if◌then◌else◌,
}
use telecloud_subscription_r.Base.Text.{split, rstrip}

pub record HealthState : Type 0 where
  pub stale_after : ℕ
  pub last_beat : ℕ
  pub ready : Bool

abbrev pub new_health : ℕ → ℕ → HealthState
new_health stale_after now = record { stale_after = stale_after; last_beat = now; ready = false }

unfoldable pub heartbeat : ℕ → HealthState → HealthState
heartbeat now h = record h { last_beat = now }

unfoldable pub set_ready : Bool → HealthState → HealthState
set_ready ready h = record h { ready = ready }

-- The monotonic clock does not run back, so the difference is not cut off.
unfoldable pub seconds_since_beat : ℕ → HealthState → ℕ
seconds_since_beat now h = now - h.last_beat

unfoldable pub is_live : ℕ → HealthState → Bool
unfolding seconds_since_beat
is_live now h = ltb (seconds_since_beat now h) h.stale_after

pub record Answer : Type 0 where
  pub status : ℕ
  pub body : String

first_part : List String → String
first_part [] = ""
first_part (s ∷ ss) = s

or_root : String → String
or_root path = if is_empty path then "/" else path

-- `self.path.split("?", 1)[0].rstrip("/") or "/"`
unfoldable pub route_path : String → String
unfolding first_part or_root split rstrip
route_path path = or_root (rstrip (λ c. code c == b'/') (first_part (split b'?' path)))

-- `do_GET`; `shown` renders a time since the last heartbeat
unfoldable pub get_answer : (ℕ → String) → String → ℕ → HealthState → String → Answer
unfolding is_live seconds_since_beat route_path
get_answer shown exposition now h path =
    let since = "seconds_since_heartbeat=" ++ (shown (seconds_since_beat now h) ++ "\n") in
    if str_eq (route_path path) "/metrics"
    then record { status = 200; body = exposition }
    else if str_eq (route_path path) "/healthz"
    then (if is_live now h
        then record { status = 200; body = "ok\n" ++ since }
        else record { status = 503; body = "wedged\n" ++ since })
    else if str_eq (route_path path) "/readyz"
    then (if h.ready
        then record { status = 200; body = "ready\n" }
        else record { status = 503; body = "not ready\n" })
    else record { status = 404; body = "not found\n" }
