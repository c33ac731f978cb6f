-- ===== src/Tests/Samples.antt =====
-- A platform over ASCII, two components, a routing table, a store and a message.
use Prim.Native.Char.{code}
use Prim.Native.String.{◌++◌}
use telecloud_subscription_r.Base.{
  ℕ, ◌-◌, ◌%◌, String, Bool, true, false, ◌&&◌, ◌||◌, Option, none, some, List, [], ◌∷◌, ◌==◌, leb,
  str_eq, Result, return, if◌then◌else◌,
}
use telecloud_subscription_r.Base.Int.{ℤ, pos}
use telecloud_subscription_r.Base.Text.{show_ℕ}
use telecloud_subscription_r.Config.{Route, detailed, Settings}
use telecloud_subscription_r.Models.{
  ChannelTarget, Component, purchased, Evaluation, NotificationEvent, success, expired,
  expiring_soon, ack_components,
}
use telecloud_subscription_r.Notify.Router.{Notifier, World}
use telecloud_subscription_r.Platform.{Platform, DateTime, utc, naive}
use telecloud_subscription_r.Store.Protocol.{Sent, Ack}
use telecloud_subscription_r.Store.Sqlite.{SqliteStateStore}

abbrev digit_of : ℕ → Option ℕ
digit_of c = if leb 48 c && leb c 57 then some (c - 48) else none

abbrev microseconds_of : DateTime → ℕ
microseconds_of (utc n) = n
microseconds_of (naive n) = n

abbrev pub ascii : Platform
ascii = record {
  is_space = λ c. code c == 32;
  digit_value = λ c. digit_of (code c);
  lower = λ s. s;
  repr = λ s. "'" ++ (s ++ "'");
  isoformat = λ t. show_ℕ (microseconds_of t);
  sha256_16 = λ s. s;
  fnmatchcase = λ name pattern. str_eq pattern "*" || str_eq name pattern;
  local_time = λ t tz. microseconds_of t % 86400000000;
}

abbrev pub hour : ℕ
hour = 3600000000

-- valid until the tenth hour
abbrev pub machine : Component
machine = record {
  component_id = "vm-1";
  name = "Machine";
  kind = purchased;
  portal_status = none;
  activated_at = none;
  validity_period = none;
  expires_at = some (utc 36000000000);
  expires_at_derived = false;
  parse_error = none;
}

abbrev pub warnings : List ℤ
warnings = pos 21600000000 ∷ pos 7200000000 ∷ []

-- seen in the fifth hour, five hours ahead of its expiry
abbrev pub machine_soon : Evaluation
machine_soon = record {
  component = machine;
  status = expiring_soon;
  evaluated_at = utc 18000000000;
  rung = some (pos 21600000000);
  remaining = some (pos 18000000000);
  reason = "inside warning window";
}

abbrev pub machine_over : Evaluation
machine_over = record {
  component = machine;
  status = expired;
  evaluated_at = utc 36000000000;
  rung = none;
  remaining = some (pos 0);
  reason = "expiry has passed";
}

abbrev pub ops : ChannelTarget
ops = record { channel = "slack"; address = "ops" }

abbrev pub ops_route : Route
ops_route = record {
  recipient = "ops";
  channels = record { channel = "slack"; address = some "ops"; address_env = none } ∷ [];
  statuses = expired ∷ expiring_soon ∷ [];
  components = "*" ∷ [];
  locale = "";
  quiet_hours = none;
  mode = detailed;
  summary_ack = ack_components;
}

abbrev settings_with : Bool → Bool → Settings
settings_with required dry = record {
  routes = ops_route ∷ [];
  default_locale = "en";
  require_acknowledgement = required;
  dry_run = dry;
  notify_enabled = true;
  ack_ttl_days = 7;
  state_retention_days = 30;
  monitor_credentials = true;
  monitor_account_expiry = true;
  detect_missing_components = true;
  thresholds = warnings;
  credential_thresholds = warnings;
  suspended_tokens = [];
  portal_username = "ann";
  portal_password = "";
  portal_password_hash = "abc";
  portal_password_hash_algo = "sha256";
  portal_session_cookie = "";
  portal_auth_header = "";
  portal_components_path = "/renewlist";
  portal_page_size = 50;
  portal_max_pages = 3;
  scrape_max_attempts = 3;
  run_interval_seconds = 3600;
  run_jitter_seconds = 30;
  run_timeout_seconds = 900;
  smtp_host = "";
  smtp_port = 587;
  smtp_username = "";
  smtp_password = "";
  smtp_from = "";
  smtp_tls = "auto";
  telegram_bot_token = "";
  telegram_api_base = "https://api.telegram.org";
}

abbrev pub confirming : Settings
confirming = settings_with true false

abbrev pub repeating : Settings
repeating = settings_with false false

abbrev pub rehearsing : Settings
rehearsing = settings_with true true

abbrev pub machine_message : NotificationEvent
machine_message = record {
  evaluation = machine_over;
  others = [];
  recipient = "ops";
  target = ops;
  locale = "en";
  digest = false;
  ack_mode = ack_components;
}

abbrev pub no_environment : String → Option String
no_environment name = none

abbrev pub plain_render : NotificationEvent → Result String
plain_render event = return "subject"

-- a notifier that accepts everything
abbrev pub accepting : String → Option Notifier
accepting channel = some (λ before event. return (success event))

abbrev pub world_of : SqliteStateStore → World SqliteStateStore
world_of s = record { store = s; clock = λ n. 1000; ticks = 0; outbox = [] }

abbrev pub machine_sent : Sent
machine_sent = record {
  scope = "ops|slack|ops|vm-1";
  dedup_key = "k";
  recipient = "ops";
  channel = "slack";
  component_id = "vm-1";
  status = "EXPIRED";
  rung = "-";
  ack_key = "vm-1|EXPIRED|-";
  fingerprint = "36000000000|-";
}

abbrev pub machine_ack : Ack
machine_ack = record {
  ack_key = "vm-1|EXPIRED|-";
  component_id = "vm-1";
  status = "EXPIRED";
  rung = "-";
  fingerprint = "36000000000|-";
  acked_by = "ann";
}
