-- ===== src/Config/Settled.antt =====
-- What is settled once the settings are loaded.
use telecloud_subscription_r.Base.{
  ◌≡◌, ◌≢◌, refl, sym, String, true, false, Bool-cases, inl, inr, Option, none, some, List, [], ◌∷◌,
  map, any, All, return, and_then-return, return-injective, is_empty,
}
use telecloud_subscription_r.Base.Int.{ℤ}
use telecloud_subscription_r.Config.{
  Settings, Route, ChannelSpec, route, repeats, routing_table, targets,
}
use telecloud_subscription_r.Config.Loading.{
  Environ, ladder_setting, named_error-return, suspended_setting,
}
use telecloud_subscription_r.Config.Startup.{
  Fields, Outside, check_specs, check_channels, check_table, check_quiet_hours, check_route,
  check_routes, model_validate, raw_routing, parse_routing, routing, touch_targets, derive, touch,
  load_settings, build, timezone,
}
use telecloud_subscription_r.Domain.Rules.{parse_thresholds}
use telecloud_subscription_r.Domain.Rules.Durations.{parse_thresholds_ladder, IsFalling, IsPositive}
use telecloud_subscription_r.Models.{ChannelTarget, status_eq, active}
use telecloud_subscription_r.Platform.{Platform}
use telecloud_subscription_r.Scraper.Json.{Json}

-- a warning ladder that is not empty and strictly falls
abbrev pub IsLadder : List ℤ → Type 0
IsLadder ts = IsFalling ts × IsPositive ts × (ts ≢ [])

-- a route that does not ask for ACTIVE
abbrev pub IsQuiet : Route → Type 0
IsQuiet r = any (status_eq active) r.statuses ≡ false

route-IsQuiet : (r : Route) {t : Route} → route r ≡ return t → IsQuiet t
unfolding route
route-IsQuiet r h = elim (Bool-cases (any (status_eq active) r.statuses)) [
  | inl asks ↦ cc (rw asks at h)
  | inr quiet ↦ rw (sym (return-injective (rw quiet at h))) quiet
]

routing_table-repeats :
    (rs : List Route) {ts : List Route}
    → routing_table rs ≡ return ts
    → (rs ≡ ts) × (repeats (map (λ r. r.recipient) rs) ≡ false)
unfolding routing_table
routing_table-repeats rs h = elim (Bool-cases (repeats (map (λ r. r.recipient) rs))) [
  | inl twice ↦ cc (rw twice at h)
  | inr once ↦ (return-injective (rw once at h), once)
]

module _ (p : Platform) (outside : Outside) (environ : Environ) where
  ladder_setting-IsLadder :
      (name raw : String) {ts : List ℤ} → ladder_setting p name raw ≡ return ts → IsLadder ts
  unfolding ladder_setting
  ladder_setting-IsLadder name raw h =
      parse_thresholds_ladder p raw (named_error-return name (parse_thresholds p raw) h)

  check_channels-IsQuiet :
      (r : Route) (specs : List ChannelSpec) {t : Route}
      → check_channels p outside environ r specs ≡ return t
      → IsQuiet t
  unfolding check_channels
  check_channels-IsQuiet r [] h = cc
  check_channels-IsQuiet r (s ∷ specs) h =
      let (ts, checked, rest) = and_then-return (check_specs p outside environ (s ∷ specs)) _ h in
      let (q, known, done) = and_then-return (check_quiet_hours p outside r.quiet_hours) _ rest in
      route-IsQuiet (record r { channels = ts; quiet_hours = q }) done

  check_route-IsQuiet :
      (r : Route) {t : Route} → check_route p outside environ r ≡ return t → IsQuiet t
  unfolding check_route
  check_route-IsQuiet r h = elim (Bool-cases (is_empty r.recipient)) [
    | inl blank ↦ cc (rw blank at h)
    | inr named ↦ check_channels-IsQuiet r r.channels (rw named at h)
  ]

  check_routes-IsQuiet :
      (rs : List Route) {ts : List Route}
      → check_routes p outside environ rs ≡ return ts
      → All IsQuiet ts
  unfolding check_routes
  check_routes-IsQuiet [] h = rw (sym (return-injective h)) tt
  check_routes-IsQuiet (r ∷ rs) h =
      let (t, first, rest) = and_then-return (check_route p outside environ r) _ h in
      let (ts, others, done) = and_then-return (check_routes p outside environ rs) _ rest in
      rw (sym (return-injective done)) (check_route-IsQuiet r first, check_routes-IsQuiet rs others)

  -- what the validators leave of a routing table
  abbrev IsTable : List Route → Type 0
  IsTable rs = All IsQuiet rs × (repeats (map (λ r. r.recipient) rs) ≡ false)

  check_table-IsTable :
      (o : Option (List Route)) {rs : List Route}
      → check_table p outside environ o ≡ return rs
      → IsTable rs
  unfolding check_table
  check_table-IsTable none h = cc
  check_table-IsTable (some rs) h =
      let (ts, checked, done) = and_then-return (check_routes p outside environ rs) _ h in
      let (same, once) = routing_table-repeats ts done in
      rw (sym same) (check_routes-IsQuiet rs checked, once)

  parse_routing-IsTable :
      (o : Option Json) {rs : List Route}
      → parse_routing p outside environ o ≡ return rs
      → IsTable rs
  unfolding parse_routing model_validate
  parse_routing-IsTable none h = cc
  parse_routing-IsTable (some payload) h =
      check_table-IsTable _ (named_error-return "routing table is invalid" _ h)

  routing-IsTable :
      (f : Fields) {rs : List Route} → routing p outside environ f ≡ return rs → IsTable rs
  unfolding routing
  routing-IsTable f h =
      let (raw, read, done) = and_then-return (raw_routing p outside environ f) _ h in
      parse_routing-IsTable (outside.decode raw) done

  -- a route whose channels all have an address
  abbrev IsRoutable : Route → Type 0
  IsRoutable r = (ts : List ChannelTarget) × (targets p environ r ≡ return ts)

  touch_targets-IsRoutable :
      (rs : List Route) {u : Unit {0}}
      → touch_targets p outside environ rs ≡ return u
      → All IsRoutable rs
  unfolding touch_targets
  touch_targets-IsRoutable [] h = tt
  touch_targets-IsRoutable (r ∷ rs) h =
      let (ts, resolved, rest) = and_then-return (targets p environ r) _ h in
      ((ts, resolved), touch_targets-IsRoutable rs rest)

  touch-IsSettled :
      (f : Fields) {g : Fields}
      → touch p outside environ true f ≡ return g
      → (s : Settings) × (derive p outside environ g ≡ return s)
        × IsLadder s.thresholds
        × IsLadder s.credential_thresholds
        × All IsQuiet s.routes
        × (repeats (map (λ r. r.recipient) s.routes) ≡ false)
        × All IsRoutable s.routes
  unfolding touch derive
  touch-IsSettled f h =
      let (ts, ladder, h1) =
        and_then-return (ladder_setting p "WARN_THRESHOLDS" f.warn_thresholds) _ h in
      let (cs, credentials, h2) =
        and_then-return (ladder_setting p "CREDENTIAL_WARN_THRESHOLDS" f.credential_warn_thresholds)
          _ h1 in
      let (tz, zone, h3) = and_then-return (timezone p outside f) _ h2 in
      let (rs, routed, h4) = and_then-return (routing p outside environ f) _ h3 in
      let (u, touched, h5) = and_then-return (touch_targets p outside environ rs) _ h4 in
      let (quiet, once) = routing-IsTable f routed in
      rw (sym (return-injective h5)) (
        record f.plain {
          thresholds = ts;
          credential_thresholds = cs;
          suspended_tokens = suspended_setting p f.portal_suspended_tokens;
          routes = rs;
        },
        rw (ladder, credentials, routed) refl,
        ladder_setting-IsLadder "WARN_THRESHOLDS" f.warn_thresholds ladder,
        ladder_setting-IsLadder "CREDENTIAL_WARN_THRESHOLDS" f.credential_warn_thresholds
            credentials,
        quiet,
        once,
        touch_targets-IsRoutable rs touched,
      )

module _ (p : Platform) (outside : Outside) where
  -- Settings that were loaded for a run are settled: whatever is derived from them later is there,
  -- so that no `ConfigError` comes up in the middle of a run. Both warning ladders are not empty,
  -- positive and strictly falling; no route asks for ACTIVE; no recipient stands twice; and every
  -- channel of every route has an address in the environment that the loading left.
  pub load_settings-IsSettled :
      (lines : List String) (environ : Environ) {f : Fields}
      → (load_settings p outside true lines environ).0 ≡ return f
      → (s : Settings) × (derive p outside (load_settings p outside true lines environ).1 f
          ≡ return s)
        × IsLadder s.thresholds
        × IsLadder s.credential_thresholds
        × All IsQuiet s.routes
        × (repeats (map (λ r. r.recipient) s.routes) ≡ false)
        × All
            (λ r.
              (ts : List ChannelTarget) × (targets p
                  (load_settings p outside true lines environ).1
                  r
                ≡ return ts))
            s.routes
  unfolding load_settings
  load_settings-IsSettled lines environ h =
      let environ' = (load_settings p outside true lines environ).1 in
      let (f, built, touched) = and_then-return (build p outside environ') _ h in
      touch-IsSettled p outside environ' f touched
