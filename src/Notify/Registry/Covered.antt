-- ===== src/Notify/Registry/Covered.antt =====
-- That no channel of the routing table is without its notifier.
use telecloud_subscription_r.Base.{
  ◌≡◌, refl, sym, ap, ◌∙◌, if◌then◌else◌, String, Bool, true, Option, some, List, [], ◌∷◌, In, here,
  there, any, is_empty, str_eq, eq_refl, eq_iff, Bool-cases, inl, inr, ◌⊎◌, Result, return,
  and_then-return, return-injective,
}
use telecloud_subscription_r.Config.{
  Route, ChannelSpec, Settings, requires, known_channels, targets,
}
use telecloud_subscription_r.Models.{NotificationEvent, ChannelTarget}
use telecloud_subscription_r.Notify.Channels.{slack_send, discord_send, telegram_send, sms_send}
use telecloud_subscription_r.Notify.Mail.{Command, Fault, email_send}
use telecloud_subscription_r.Notify.Registry.{
  mail_notifier, telegram_url, Send, Notifiers, none_built, put, email_unless_unset, with_email,
  with_telegram, with_plain, with_others, resolve_routes, build_notifiers,
}
use telecloud_subscription_r.Notify.Sending.{Rendered, Web}
use telecloud_subscription_r.Platform.{Platform}

any-In {ℓ} :
    {A : Type ℓ} (test : A → Bool) {a : A} {xs : List A}
    → In a xs
    → test a ≡ true
    → any test xs ≡ true
any-In test (here {xs = xs}) h = rw h refl
any-In test (there {x = x} {xs = xs} m) h = elim (Bool-cases (test x)) [
  | inl first ↦ rw first refl
  | inr later ↦ rw later (any-In test m h)
]

requires-In :
    (routes : List Route) {r : Route} {spec : ChannelSpec}
    → In r routes
    → In spec r.channels
    → requires routes spec.channel ≡ true
unfolding requires
requires-In routes {r = r} {spec = spec} listed used =
    any-In (λ r. any (λ s. str_eq spec.channel s.channel) r.channels) listed
      (any-In (λ s. str_eq spec.channel s.channel) used (eq_refl spec.channel))

known_channel :
    (c : String)
    → any (str_eq c) known_channels ≡ true
    → (c ≡ "email") ⊎ (c ≡ "telegram") ⊎ (c ≡ "slack") ⊎ (c ≡ "discord") ⊎ (c ≡ "sms")
known_channel c h = elim (Bool-cases (str_eq c "email")) [
  | inl email ↦ inl ((eq_iff c "email").0 email)
  | inr e ↦ elim (Bool-cases (str_eq c "telegram")) [
    | inl telegram ↦ inr (inl ((eq_iff c "telegram").0 telegram))
    | inr t ↦ elim (Bool-cases (str_eq c "slack")) [
      | inl slack ↦ inr (inr (inl ((eq_iff c "slack").0 slack)))
      | inr s ↦ elim (Bool-cases (str_eq c "discord")) [
        | inl discord ↦ inr (inr (inr (inl ((eq_iff c "discord").0 discord))))
        | inr d ↦ elim (Bool-cases (str_eq c "sms")) [
          | inl sms ↦ inr (inr (inr (inr ((eq_iff c "sms").0 sms))))
          | inr m ↦ cc (rw (e, t, s, d, m) at h)
        ]
      ]
    ]
  ]
]

module _ (p : Platform) (settings : Settings) (web : Web)
    (perform : List Command → Command → Option Fault)
    (render : NotificationEvent → Result Rendered) where
  -- the sender of each channel: mail over SMTP, the three services over the web, and the stub of sms
  pub sender : String → Send
  sender channel =
      if str_eq channel "email"
      then email_send perform render (mail_notifier p settings web perform render)
      else if str_eq channel "telegram"
      then telegram_send p web render (telegram_url p settings web perform render)
      else if str_eq channel "slack"
      then slack_send p web render
      else if str_eq channel "discord"
      then discord_send p web render
      else sms_send

  -- the dictionary has the channel's own sender under its name
  abbrev pub Has : Notifiers → String → Type 0
  Has ns channel = ns channel ≡ some (sender channel)

  put-Has :
      (channel : String) (send : Send) (ns : Notifiers)
      → send ≡ sender channel
      → Has (put channel send ns) channel
  unfolding put
  put-Has channel send ns own = rw (eq_refl channel) (ap some own)

  put-keeps :
      (other : String) (send : Send) (ns : Notifiers) (channel : String)
      → send ≡ sender other
      → Has ns channel
      → Has (put other send ns) channel
  unfolding put
  put-keeps other send ns channel own h = elim (Bool-cases (str_eq channel other)) [
    | inl same ↦ rw same (ap some (own ∙ ap sender (sym ((eq_iff channel other).0 same))))
    | inr apart ↦ rw apart h
  ]

  email_unless_unset-put :
      (names : List String) (ns : Notifiers) {out : Notifiers}
      → email_unless_unset p settings web perform render names ns ≡ return out
      → put "email" (sender "email") ns ≡ out
  unfolding email_unless_unset sender
  email_unless_unset-put [] ns h = return-injective h
  email_unless_unset-put (name ∷ names) ns h = cc

  with_email-Has :
      (ns : Notifiers) {out : Notifiers}
      → requires settings.routes "email" ≡ true
      → with_email p settings web perform render ns ≡ return out
      → Has out "email"
  unfolding with_email
  with_email-Has ns used h =
      rw (← email_unless_unset-put _ ns (rw used at h)) (put-Has "email" (sender "email") ns refl)

  with_telegram-put :
      (ns : Notifiers) {out : Notifiers}
      → requires settings.routes "telegram" ≡ true
      → with_telegram p settings web perform render ns ≡ return out
      → put "telegram" (sender "telegram") ns ≡ out
  unfolding with_telegram sender
  with_telegram-put ns used h = elim (Bool-cases (is_empty settings.telegram_bot_token)) [
    | inl unset ↦ cc (rw (used, unset) at h)
    | inr set ↦ return-injective (rw (used, set) at h)
  ]

  with_telegram-Has :
      (ns : Notifiers) {out : Notifiers}
      → requires settings.routes "telegram" ≡ true
      → with_telegram p settings web perform render ns ≡ return out
      → Has out "telegram"
  with_telegram-Has ns used h =
      rw (← with_telegram-put ns used h) (put-Has "telegram" (sender "telegram") ns refl)

  with_telegram-keeps :
      (ns : Notifiers) (channel : String) {out : Notifiers}
      → Has ns channel
      → with_telegram p settings web perform render ns ≡ return out
      → Has out channel
  unfolding with_telegram
  with_telegram-keeps ns channel has h = elim (Bool-cases (requires settings.routes "telegram")) [
    | inr unused ↦ rw (← return-injective (rw unused at h)) has
    | inl used ↦
        rw (← with_telegram-put ns used h)
          (put-keeps "telegram" (sender "telegram") ns channel refl has)
  ]

  with_plain-Has :
      (channel : String) (send : Send) (ns : Notifiers)
      → send ≡ sender channel
      → requires settings.routes channel ≡ true
      → Has (with_plain p settings web perform render channel send ns) channel
  unfolding with_plain
  with_plain-Has channel send ns own used = rw used (put-Has channel send ns own)

  with_plain-keeps :
      (other : String) (send : Send) (ns : Notifiers) (channel : String)
      → send ≡ sender other
      → Has ns channel
      → Has (with_plain p settings web perform render other send ns) channel
  unfolding with_plain
  with_plain-keeps other send ns channel own has =
      elim (Bool-cases (requires settings.routes other)) [
        | inl used ↦ rw used (put-keeps other send ns channel own has)
        | inr unused ↦ rw unused has
      ]

  with_others-keeps :
      (ns : Notifiers) (channel : String)
      → Has ns channel
      → Has (with_others p settings web perform render ns) channel
  unfolding with_others sender
  with_others-keeps ns channel has =
      with_plain-keeps "sms" _ _ channel refl (
        with_plain-keeps "discord" _ _ channel refl
          (with_plain-keeps "slack" _ ns channel refl has))

  with_others-Has :
      (ns : Notifiers) (channel : String)
      → requires settings.routes channel ≡ true
      → (channel ≡ "slack") ⊎ (channel ≡ "discord") ⊎ (channel ≡ "sms")
      → Has (with_others p settings web perform render ns) channel
  unfolding with_others sender
  with_others-Has ns channel used (inl slack) = with_plain-keeps "sms" _ _ channel refl (
      with_plain-keeps "discord" _ _ channel refl
        (rw slack (with_plain-Has "slack" _ ns refl (rw slack at used))))
  with_others-Has ns channel used (inr (inl discord)) =
      with_plain-keeps "sms" _ _ channel refl
        (rw discord (with_plain-Has "discord" _ _ refl (rw discord at used)))
  with_others-Has ns channel used (inr (inr sms)) =
      rw sms (with_plain-Has "sms" _ _ refl (rw sms at used))

  module _ (environ : String → Option String) where
    resolve_routes-In :
        (routes : List Route) {r : Route}
        → resolve_routes p settings web perform render environ routes ≡ return tt
        → In r routes
        → (ts : List ChannelTarget) × (targets p environ r ≡ return ts)
    unfolding resolve_routes
    resolve_routes-In (r ∷ rs) h here =
        let (ts, found, rest) = and_then-return (targets p environ r) _ h in (ts, found)
    resolve_routes-In (r ∷ rs) h (there m) =
        let (ts, found, rest) = and_then-return (targets p environ r) _ h in
        resolve_routes-In rs rest m
    resolve_routes-In [] h m = elim m [ ]

    by_channel :
        (ns : Notifiers) (channel : String) {out : Notifiers}
        → (channel ≡ "email")
          ⊎ (channel ≡ "telegram")
          ⊎ (channel ≡ "slack")
          ⊎ (channel ≡ "discord")
          ⊎ (channel ≡ "sms")
        → requires settings.routes channel ≡ true
        → (mid : Notifiers) → with_email p settings web perform render ns ≡ return mid
        → with_telegram p settings web perform render mid ≡ return out
        → Has (with_others p settings web perform render out) channel
    by_channel ns channel (inl email) used mid h k =
        with_others-keeps _ channel
          (with_telegram-keeps mid channel (rw email (with_email-Has ns (rw email at used) h)) k)
    by_channel ns channel (inr (inl telegram)) used mid h k =
        with_others-keeps _ channel (rw telegram (with_telegram-Has mid (rw telegram at used) k))
    by_channel ns channel (inr (inr other)) used mid h k = with_others-Has _ channel used other

    -- Once the notifiers are built, every channel of every route of the table that is one of the
    -- known channels has its own sender under its name, and every route's targets have their
    -- addresses.
    pub build_notifiers-Has :
        {ns : Notifiers} {r : Route} {spec : ChannelSpec}
        → build_notifiers p settings web perform render environ ≡ return ns
        → In r settings.routes
        → In spec r.channels
        → any (str_eq spec.channel) known_channels ≡ true
        → Has ns spec.channel × (ts : List ChannelTarget) × (targets p environ r ≡ return ts)
    unfolding build_notifiers
    build_notifiers-Has {spec = spec} h listed used known =
        let (mid, mailed, more) =
          and_then-return (with_email p settings web perform render none_built) _ h in
        let (last, chatted, rest) =
          and_then-return (with_telegram p settings web perform render mid) _ more in
        let (u, resolved, done) =
          and_then-return (resolve_routes p settings web perform render environ settings.routes) _
            rest in
        let (ts, found) = resolve_routes-In settings.routes resolved listed in
        (
          rw (← return-injective done) (
              by_channel none_built spec.channel (known_channel spec.channel known)
                (requires-In settings.routes listed used) mid mailed chatted),
          ts,
          found,
        )
