-- ===== src/Notify/Registry.antt =====
-- src/tele_scraper/notify/registry.py: which notifiers are built from the settings, and the test
-- messages. The registration of secrets for the log is left out.
use Prim.Native.Char.{code}
use Prim.Native.String.{◌++◌ as concat}
pub mod Covered
use telecloud_subscription_r.Base.{
  ℕ, String, Bool, true, false, not, Option, none, some, List, [], ◌∷◌, ◌++◌, is_empty, str_eq,
  or_text, ◌==◌, Error, message, Result, return, raise, and_then, channel_error, if◌then◌else◌,
}
use telecloud_subscription_r.Base.Int.{pos}
use telecloud_subscription_r.Base.Text.{join, rstrip}
use telecloud_subscription_r.Config.{Route, Settings, requires, targets}
use telecloud_subscription_r.Domain.Status.{add_delta}
use telecloud_subscription_r.Models.{
  Component, purchased, Evaluation, expiring_soon, ChannelTarget, NotificationEvent, ack_components,
  DeliveryResult, failure,
}
use telecloud_subscription_r.Notify.Channels.{slack_send, discord_send, telegram_send, sms_send}
use telecloud_subscription_r.Notify.Mail.{EmailNotifier, Command, Fault, email_send}
use telecloud_subscription_r.Notify.Sending.{Rendered, Web}
use telecloud_subscription_r.Platform.{Platform, DateTime}

abbrev pub Send : Type 0
Send = NotificationEvent → Result DeliveryResult

-- the dictionary of notifiers by channel, as `get`
abbrev pub Notifiers : Type 0
Notifiers = String → Option Send

abbrev pub none_built : Notifiers
none_built name = none

-- `notifiers[channel] = …`
unfoldable pub put : String → Send → Notifiers → Notifiers
put channel send ns name = if str_eq name channel then some send else ns name

module _ (p : Platform) (settings : Settings) (web : Web)
    (perform : List Command → Command → Option Fault)
    (render : NotificationEvent → Result Rendered) where
  -- the settings of mail that are unset
  unset_smtp : List String
  unset_smtp =
      (if is_empty settings.smtp_host then "SMTP_HOST" ∷ [] else [])
      ++ (if is_empty settings.smtp_from then "SMTP_FROM" ∷ [] else [])

  unfoldable pub mail_notifier : EmailNotifier
  mail_notifier = record {
    host = settings.smtp_host;
    port = settings.smtp_port;
    sender = settings.smtp_from;
    username = settings.smtp_username;
    password = settings.smtp_password;
    tls = settings.smtp_tls;
  }

  unfoldable pub email_unless_unset : List String → Notifiers → Result Notifiers
  unfolding put mail_notifier email_send join
  email_unless_unset [] ns = return (put "email" (email_send perform render mail_notifier) ns)
  email_unless_unset (name ∷ names) ns = raise (
      channel_error
        (concat "routing table uses 'email' but " (concat (join ", " (name ∷ names)) " is unset")))

  unfoldable pub with_email : Notifiers → Result Notifiers
  unfolding email_unless_unset unset_smtp requires
  with_email ns =
      if requires settings.routes "email" then email_unless_unset unset_smtp ns else return ns

  -- `TelegramNotifier._url`
  unfoldable pub telegram_url : String
  unfolding rstrip
  telegram_url =
      concat (rstrip (λ c. code c == b'/') settings.telegram_api_base)
        (concat "/bot" (concat settings.telegram_bot_token "/sendMessage"))

  unfoldable pub with_telegram : Notifiers → Result Notifiers
  unfolding put telegram_url telegram_send requires
  with_telegram ns =
      if requires settings.routes "telegram"
      then if is_empty settings.telegram_bot_token
        then raise (channel_error "routing table uses 'telegram' but TELEGRAM_BOT_TOKEN is unset")
        else return (put "telegram" (telegram_send p web render telegram_url) ns)
      else return ns

  -- a channel that needs no settings
  unfoldable pub with_plain : String → Send → Notifiers → Notifiers
  unfolding put requires
  with_plain channel send ns = if requires settings.routes channel then put channel send ns else ns

  unfoldable pub with_others : Notifiers → Notifiers
  unfolding with_plain slack_send discord_send sms_send
  with_others ns = with_plain "sms" sms_send (
      with_plain "discord" (discord_send p web render)
        (with_plain "slack" (slack_send p web render) ns))

  module _ (environ : String → Option String) where
    -- The routes' targets are resolved, for their addresses to be redacted.
    unfoldable pub resolve_routes : List Route → Result (Unit {0})
    unfolding targets
    resolve_routes [] = return tt
    resolve_routes (r ∷ rs) = and_then (targets p environ r) (λ ts. resolve_routes rs)

    unfoldable pub build_notifiers : Result Notifiers
    unfolding with_email with_telegram with_others resolve_routes
    build_notifiers = and_then (with_email none_built) (λ ns.
        and_then (with_telegram ns)
          (λ ns. and_then (resolve_routes settings.routes) (λ _. return (with_others ns))))

    -- `build_test_event` at an instant; the expiry is two days later
    unfoldable pub build_test_event :
        DateTime → String → ChannelTarget → String → Result NotificationEvent
    unfolding add_delta
    build_test_event now recipient target locale =
        and_then (add_delta now (pos 172800000000)) (λ expiry. return (record {
          evaluation = record {
            component = record {
              component_id = "configuration-test";
              name = "TEST MESSAGE - tele-scraper configuration check";
              kind = purchased;
              portal_status = some "TEST";
              activated_at = none;
              validity_period = none;
              expires_at = some expiry;
              expires_at_derived = false;
              parse_error = none;
            };
            status = expiring_soon;
            evaluated_at = now;
            rung = some (pos 259200000000);
            remaining = some (pos 172800000000);
            reason = "this is a configuration test, not a real alert";
          };
          others = [];
          recipient = recipient;
          target = target;
          locale = locale;
          digest = false;
          ack_mode = ack_components;
        }))

    -- `described` is `f"{type(exc).__name__}: {exc}"`; every exception of a notifier is a failure.
    module _ (described : Error → String) (notifiers : Notifiers) where
      attempted : NotificationEvent → Result DeliveryResult → DeliveryResult
      unfolding failure
      attempted event (return r) = r
      attempted event (raise e) = failure event (described e) none

      test_result : NotificationEvent → Option Send → DeliveryResult
      unfolding attempted failure
      test_result event none =
          failure event
            (concat "channel " (concat (p.repr event.target.channel) " is not configured")) none
      test_result event (some send) = attempted event (send event)

      test_targets : DateTime → Route → List ChannelTarget → Result (List DeliveryResult)
      unfolding test_result build_test_event
      test_targets now r [] = return []
      test_targets now r (t ∷ ts) =
          and_then (build_test_event now r.recipient t (or_text r.locale settings.default_locale))
            (λ event.
              and_then (test_targets now r ts)
                (λ rest. return (test_result event (notifiers t.channel) ∷ rest)))

      -- the test messages of some routes, with one instant for them all
      unfoldable pub send_test_messages : DateTime → List Route → Result (List DeliveryResult)
      unfolding test_targets targets
      send_test_messages now [] = return []
      send_test_messages now (r ∷ rs) = and_then (targets p environ r) (λ ts.
          and_then (test_targets now r ts)
            (λ results. and_then (send_test_messages now rs) (λ rest. return (results ++ rest))))
