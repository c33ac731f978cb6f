-- ===== src/Config/Startup.antt =====
-- src/tele_scraper/config.py: `Settings()`, the routing table and `load_settings`. What pydantic reads
-- of the types and the defaults of the environment and of a JSON document, `json.loads`, the reading
-- of files and the names of the time zone database are parameters; what the source checks and
-- derives is not.
use telecloud_subscription_r.Base.{
  String, Bool, Option, none, some, List, [], ◌∷◌, is_empty, Result, return, raise, and_then,
  value_error, config_error, key_error, if◌then◌else◌,
}
use telecloud_subscription_r.Base.Text.{strip}
use telecloud_subscription_r.Config.{
  Settings, Route, ChannelSpec, QuietHours, channel_spec, route, routing_table, targets,
}
use telecloud_subscription_r.Config.Loading.{
  Environ, some_way_to_authenticate, http_url, unless_blank, ladder_setting, suspended_setting,
  export_dotenv_extras, named_error,
}
use telecloud_subscription_r.Platform.{Platform}
use telecloud_subscription_r.Scraper.Json.{Json, Object}

-- The fields that the source derives something from, as texts; and the settings that are taken as
-- they are. The ladders, tokens and routes of the latter are filled in by `derive`.
pub record Fields : Type 0 where
  pub portal_base_url : String
  pub warn_thresholds : String
  pub credential_warn_thresholds : String
  pub portal_suspended_tokens : String
  pub app_timezone : String
  pub notify_routes_json : String
  pub notify_routes_file : Option String
  pub plain : Settings

-- what the program takes from outside while it starts
pub record Outside : Type 0 where
  -- the fields of `Settings` that pydantic reads; `none` is a `ValidationError` of its own
  pub read_environment : Environ → Option Fields
  -- the routes of a document, with their defaults, before the validators of the source
  pub read_routes : Json → Option (List Route)
  -- `json.loads`
  pub decode : String → Option Json
  -- `read_text`; `none` is an `OSError`
  pub read_text : String → Option String
  -- whether `ZoneInfo` knows a name
  pub is_timezone : String → Bool

module _ (p : Platform) (outside : Outside) where
  open p use {is_space}
  open outside use {read_environment, read_routes, decode, read_text, is_timezone}

  -- `_known_tz`
  unfoldable pub known_tz : String → Result String
  known_tz v = if is_timezone v then return v else raise (value_error "unknown timezone")

  -- `timezone`, whose `ZoneInfoNotFoundError` is a `KeyError`
  unfoldable pub timezone : Fields → Result String
  timezone f =
      if is_timezone f.app_timezone
      then return f.app_timezone
      else raise (key_error "No time zone found")

  -- the validators of `Settings`
  unfoldable pub validated : Fields → Result Fields
  unfolding known_tz http_url some_way_to_authenticate unless_blank
  validated f = and_then (known_tz f.app_timezone) (λ tz.
      and_then (http_url f.portal_base_url) (λ url.
        and_then (some_way_to_authenticate f.plain) (λ plain. return (record f {
          portal_base_url = url;
          notify_routes_file = elim f.notify_routes_file [
            | none ↦ none
            | some path ↦ unless_blank p path
          ];
        }))))

  -- `Settings()` and the `ConfigError` of `load_settings`
  unfoldable pub build : Environ → Result Fields
  unfolding validated named_error
  build environ = elim (read_environment environ) [
    | none ↦ raise (config_error "invalid configuration")
    | some f ↦ named_error "invalid configuration" (validated f)
  ]

  unfoldable pub check_quiet_hours : Option QuietHours → Result (Option QuietHours)
  unfolding known_tz
  check_quiet_hours none = return none
  check_quiet_hours (some q) = and_then (known_tz q.tz) (λ _. return (some q))

  module _ (environ : Environ) where
    unfoldable pub check_specs : List ChannelSpec → Result (List ChannelSpec)
    unfolding channel_spec
    check_specs [] = return []
    check_specs (s ∷ specs) =
        and_then (channel_spec p environ s.channel s.address s.address_env)
          (λ t. and_then (check_specs specs) (λ ts. return (t ∷ ts)))

    -- the validators of one route, after that of its recipient; a route has a channel
    unfoldable pub check_channels : Route → List ChannelSpec → Result Route
    unfolding check_specs check_quiet_hours route
    check_channels r [] = raise (value_error "channels should have at least 1 item")
    check_channels r (s ∷ specs) = and_then (check_specs (s ∷ specs)) (λ ts.
        and_then (check_quiet_hours r.quiet_hours)
          (λ q. route (record r { channels = ts; quiet_hours = q })))

    unfoldable pub check_route : Route → Result Route
    unfolding check_channels
    check_route r =
        if is_empty r.recipient
        then raise (value_error "recipient should have at least 1 character")
        else check_channels r r.channels

    unfoldable pub check_routes : List Route → Result (List Route)
    unfolding check_route
    check_routes [] = return []
    check_routes (r ∷ rs) =
        and_then (check_route r) (λ t. and_then (check_routes rs) (λ ts. return (t ∷ ts)))

    unfoldable pub check_table : Option (List Route) → Result (List Route)
    unfolding check_routes routing_table
    check_table none = raise (value_error "ValidationError")
    check_table (some rs) = and_then (check_routes rs) routing_table

    -- `RoutingTable.model_validate`
    unfoldable pub model_validate : Json → Result (List Route)
    unfolding check_table
    model_validate payload = check_table (read_routes payload)

    -- a bare list is taken for the routes
    unfoldable pub as_table : Json → Json
    as_table (Json.array routes) =
        Json.object (Object.entry "routes" (Json.array routes) Object.no_entries)
    as_table payload = payload

    -- the text of the routing table: the file, or else the inline value
    unfoldable pub raw_routing : Fields → Result String
    unfolding strip
    raw_routing f = elim f.notify_routes_file [
      | some path ↦ elim (read_text path) [
        | none ↦ raise (config_error "NOTIFY_ROUTES_FILE: cannot read")
        | some raw ↦ return raw
      ]
      | none ↦
          if is_empty (strip is_space f.notify_routes_json)
          then raise (config_error "no routing configured")
          else return f.notify_routes_json
    ]

    unfoldable pub parse_routing : Option Json → Result (List Route)
    unfolding as_table model_validate named_error
    parse_routing none = raise (config_error "routing table is not valid JSON")
    parse_routing (some payload) =
        named_error "routing table is invalid" (model_validate (as_table payload))

    -- `routing`
    unfoldable pub routing : Fields → Result (List Route)
    unfolding raw_routing parse_routing
    routing f = and_then (raw_routing f) (λ raw. parse_routing (decode raw))

    -- the loop over `route.targets()`
    unfoldable pub touch_targets : List Route → Result (Unit {0})
    unfolding targets
    touch_targets [] = return tt
    touch_targets (r ∷ rs) = and_then (targets p environ r) (λ _. touch_targets rs)

    -- the settings with what the properties derive when they are read
    unfoldable pub derive : Fields → Result Settings
    unfolding ladder_setting suspended_setting routing
    derive f = and_then (ladder_setting p "WARN_THRESHOLDS" f.warn_thresholds) (λ ts.
        and_then (ladder_setting p "CREDENTIAL_WARN_THRESHOLDS" f.credential_warn_thresholds) (λ cs.
          and_then (routing f) (λ rs. return (record f.plain {
            thresholds = ts;
            credential_thresholds = cs;
            suspended_tokens = suspended_setting p f.portal_suspended_tokens;
            routes = rs;
          }))))

    -- what `load_settings` reads of the fields, with the routing table or without it
    unfoldable pub touch : Bool → Fields → Result Fields
    unfolding ladder_setting timezone routing touch_targets
    touch require_notifications f =
        and_then (ladder_setting p "WARN_THRESHOLDS" f.warn_thresholds) (λ _.
          and_then (ladder_setting p "CREDENTIAL_WARN_THRESHOLDS" f.credential_warn_thresholds)
            (λ _. and_then (timezone f) (λ _.
              if require_notifications
              then and_then (routing f) (λ rs. and_then (touch_targets rs) (λ _. return f))
              else return f)))

  -- `load_settings`, on the lines of `.env`; the environment that it leaves, too
  unfoldable pub load_settings : Bool → List String → Environ → Result Fields × Environ
  unfolding export_dotenv_extras build touch
  load_settings require_notifications lines environ =
      let environ' = export_dotenv_extras p lines environ in
      (and_then (build environ') (touch environ' require_notifications), environ')
