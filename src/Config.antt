-- ===== src/Config.antt =====
-- src/tele_scraper/config.py: the routing table, its validation, and the settings that the
-- modelled parts read.
pub mod Loading
pub mod Precedence
pub mod Startup
pub mod Settled
use telecloud_subscription_r.Base.{
  ℕ, String, Bool, false, ◌||◌, Option, none, some, List, [], ◌∷◌, any, map, is_empty, str_eq,
  Result, return, raise, and_then, value_error, config_error, other_error, if◌then◌else◌,
}
use telecloud_subscription_r.Base.Int.{ℤ}
use telecloud_subscription_r.Base.Text.{strip}
use telecloud_subscription_r.Models.{AckMode, ChannelTarget, Status, active, status_eq}
use telecloud_subscription_r.Platform.{Platform}

-- times of day in microseconds since midnight
pub record QuietHours : Type 0 where
  pub start : ℕ
  pub end : ℕ
  pub tz : String

pub record ChannelSpec : Type 0 where
  pub channel : String
  pub address : Option String
  pub address_env : Option String

pub data Mode : Type 0 where
  detailed summary : Mode

pub record Route : Type 0 where
  pub recipient : String
  pub channels : List ChannelSpec
  pub statuses : List Status
  pub components : List String
  pub locale : String
  pub quiet_hours : Option QuietHours
  pub mode : Mode
  pub summary_ack : AckMode

pub record Settings : Type 0 where
  pub routes : List Route
  pub default_locale : String
  pub require_acknowledgement : Bool
  pub dry_run : Bool
  pub notify_enabled : Bool
  pub ack_ttl_days : ℕ
  pub state_retention_days : ℕ
  pub monitor_credentials : Bool
  pub monitor_account_expiry : Bool
  pub detect_missing_components : Bool
  pub thresholds : List ℤ
  pub credential_thresholds : List ℤ
  pub suspended_tokens : List String
  pub portal_username : String
  pub portal_password : String
  pub portal_password_hash : String
  pub portal_password_hash_algo : String
  pub portal_session_cookie : String
  pub portal_auth_header : String
  pub portal_components_path : String
  pub portal_page_size : ℕ
  pub portal_max_pages : ℕ
  pub scrape_max_attempts : ℕ
  pub run_interval_seconds : ℕ
  pub run_jitter_seconds : ℕ
  pub run_timeout_seconds : ℕ
  pub smtp_host : String
  pub smtp_port : ℕ
  pub smtp_username : String
  pub smtp_password : String
  pub smtp_from : String
  pub smtp_tls : String
  pub telegram_bot_token : String
  pub telegram_api_base : String

abbrev pub known_channels : List String
known_channels = "email" ∷ "telegram" ∷ "slack" ∷ "discord" ∷ "sms" ∷ []

-- `_exactly_one_source` refuses a spec with both sources, and one with none.
one_source : String → Option String → Option String → Result ChannelSpec
one_source channel (some a) none =
    return (record { channel = channel; address = some a; address_env = none })
one_source channel none (some v) =
    return (record { channel = channel; address = none; address_env = some v })
one_source channel _ _ = raise (value_error "must set exactly one of 'address' or 'address_env'")

-- `_not_active`
unfoldable pub route : Route → Result Route
route r =
    if any (status_eq active) r.statuses
    then raise (value_error "routing on ACTIVE would notify on every healthy component")
    else return r

-- `seen.count(name) > 1` for some name
unfoldable pub repeats : List String → Bool
repeats [] = false
repeats (s ∷ ss) = any (str_eq s) ss || repeats ss

-- `RoutingTable._unique_recipients`
unfoldable pub routing_table : List Route → Result (List Route)
unfolding repeats
routing_table routes =
    if repeats (map (λ r. r.recipient) routes)
    then raise (value_error "duplicate recipient(s) in routing table")
    else return routes

-- membership in `required_channels()`
unfoldable pub requires : List Route → String → Bool
requires routes channel = any (λ r. any (λ spec. str_eq channel spec.channel) r.channels) routes

module _ (p : Platform) (environ : String → Option String) where
  open p use {lower, is_space}

  -- `_known_channel`, then `_exactly_one_source`
  unfoldable pub channel_spec : String → Option String → Option String → Result ChannelSpec
  unfolding one_source strip
  channel_spec channel address address_env =
      let name = lower (strip is_space channel) in
      if any (str_eq name) known_channels
      then one_source name address address_env
      else raise (value_error "unknown channel")

  -- `ChannelTarget`, whose validator folds the channel
  target : String → String → ChannelTarget
  unfolding strip
  target channel address = record { channel = lower (strip is_space channel); address = address }

  from_environment : String → Option String → Result ChannelTarget
  unfolding target strip
  from_environment channel none = raise (other_error "AssertionError")
  from_environment channel (some name) =
      let text = strip is_space (elim (environ name) [ none ↦ "" | some v ↦ v ]) in
      if is_empty text
      then raise (config_error "references address_env, which is unset or empty")
      else return (target channel text)

  -- `ChannelSpec.resolve`, on the two sources
  resolve_from : String → Option String → Option String → Result ChannelTarget
  unfolding from_environment target
  resolve_from channel (some address) _ = return (target channel address)
  resolve_from channel none env = from_environment channel env

  unfoldable pub resolve : ChannelSpec → Result ChannelTarget
  unfolding resolve_from
  resolve spec = resolve_from spec.channel spec.address spec.address_env

  resolve_all : List ChannelSpec → Result (List ChannelTarget)
  unfolding resolve
  resolve_all [] = return []
  resolve_all (spec ∷ specs) =
      and_then (resolve spec) (λ t. and_then (resolve_all specs) (λ ts. return (t ∷ ts)))

  -- `Route.targets`
  unfoldable pub targets : Route → Result (List ChannelTarget)
  unfolding resolve_all
  targets r = resolve_all r.channels
