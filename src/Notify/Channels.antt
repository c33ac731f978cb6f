-- ===== src/Notify/Channels.antt =====
-- src/tele_scraper/notify/slack.py, discord.py, telegram.py, email.py and sms.py: the notifiers.
-- What a message renders to is an argument.
use Prim.Native.String.{◌++◌ as concat}
pub mod Honest
use telecloud_subscription_r.Base.{
  ℕ, String, Bool, true, false, not, ◌&&◌, Option, none, some, List, [], ◌∷◌, ◌++◌, is_empty,
  str_eq, leb, ◌==◌, Error, Result, return, raise, and_then, message, value_error, other_error,
  channel_error, if◌then◌else◌,
}
use telecloud_subscription_r.Base.Text.{show_ℕ, join}
use telecloud_subscription_r.Models.{
  NotificationEvent, DeliveryResult, AckMode, ack_none, success, failure, event_ack_key,
}
use telecloud_subscription_r.Notify.Acks.{ack_callback_data}
use telecloud_subscription_r.Notify.Sending.{
  truncate, Rendered, Payload, slack_payload, discord_payload, telegram_payload, Posted, accepted,
  transient, failed, Web, post_json,
}
use telecloud_subscription_r.Platform.{Platform}

abbrev is_ack_none : AckMode → Bool
is_ack_none ack_none = true
is_ack_none _ = false

module _ (p : Platform) (web : Web) (render : NotificationEvent → Result Rendered) where
  open web use {float}

  -- `float(response.headers.get("retry-after", 60))`
  unfoldable pub retry_after_of : Option String → Result ℕ
  retry_after_of none = return 60
  retry_after_of (some header) = elim (float header) [
    | none ↦ raise (value_error "could not convert string to float")
    | some n ↦ return n
  ]

  -- what the channel of that name makes of the outcome of its request
  unfoldable pub normalized : String → NotificationEvent → Posted → Result DeliveryResult
  unfolding retry_after_of success failure show_ℕ
  normalized name event (transient m) =
      return (failure event (concat name (concat " transport error: " m)) none)
  normalized name event (failed e) =
      return (failure event (concat name (concat " transport error: " (message e))) none)
  normalized name event (accepted code header) =
      if code == 429
      then and_then (retry_after_of header)
          (λ n. return (failure event (concat name " rate limited") (some n)))
      else if leb 400 code
      then return
          (failure event (concat name (concat " rejected the message: HTTP " (show_ℕ code))) none)
      else return (success event)

  unfoldable pub slack_text : Rendered → String
  unfolding truncate
  slack_text m = concat "*" (concat m.subject (concat "*\n" (truncate m.body 3000)))

  unfoldable pub discord_text : Rendered → String
  unfolding truncate
  discord_text m = truncate (concat "**" (concat m.subject (concat "**\n" m.body))) 2000

  unfoldable pub slack_send : NotificationEvent → Result DeliveryResult
  unfolding normalized post_json slack_text
  slack_send event = and_then (render event) (λ m.
      normalized "slack" event (post_json web event.target.address (slack_payload (slack_text m))))

  unfoldable pub discord_send : NotificationEvent → Result DeliveryResult
  unfolding normalized post_json discord_text
  discord_send event = and_then (render event) (λ m.
      normalized "discord" event
        (post_json web event.target.address (discord_payload (discord_text m))))

  -- the button of a message, if it is offered one and its key is short enough
  unfoldable pub button : NotificationEvent → Option String
  unfolding ack_callback_data event_ack_key
  button event =
      if event.digest && is_ack_none event.ack_mode
      then none
      else ack_callback_data (event_ack_key p event)

  unfoldable pub telegram_payload_of : NotificationEvent → Rendered → Payload
  unfolding truncate button
  telegram_payload_of event m =
      telegram_payload event.target.address (truncate m.body 4096) (button event)

  -- `url` is that of `sendMessage` for the bot.
  unfoldable pub telegram_send : String → NotificationEvent → Result DeliveryResult
  unfolding normalized post_json telegram_payload_of
  telegram_send url event =
      and_then (render event)
        (λ m. normalized "telegram" event (post_json web url (telegram_payload_of event m)))

-- `SmsNotifier.send`, which refuses
unfoldable pub sms_send : NotificationEvent → Result DeliveryResult
unfolding join
sms_send event = raise (
    channel_error (
      concat "SMS provider has not been chosen; cannot deliver to " (
        concat event.recipient (
          concat ". Outstanding decisions: " (
            join "; " (
              "provider name and API base URL" ∷ "credential shape"
              ∷ "sender ID / short code and registration requirement"
              ∷ "delivery receipts: polled or callback" ∷ "per-message cost and rate cap" ∷ []))))))
