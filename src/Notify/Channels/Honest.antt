-- ===== src/Notify/Channels/Honest.antt =====
-- What a webhook or the bot reports as delivered was accepted by its server.
use telecloud_subscription_r.Base.{
  ℕ, ◌<◌, ◌≡◌, refl, String, true, false, Option, leb, ◌==◌, arith, Bool-cases, inl, inr, Result,
  return, and_then, and_then-return, return-injective,
}
use telecloud_subscription_r.Models.{NotificationEvent, DeliveryResult, failure}
use telecloud_subscription_r.Notify.Channels.{
  retry_after_of, normalized, slack_text, discord_text, telegram_payload_of, slack_send,
  discord_send, telegram_send,
}
use telecloud_subscription_r.Notify.Sending.{
  Rendered, Payload, slack_payload, discord_payload, Reply, replied, transport_fault, other_fault,
  Posted, accepted, transient, failed, Attempt, Web, attempt_outcome, post_once, post_json,
}
use telecloud_subscription_r.Platform.{Platform}

-- the channels that post by HTTP
pub data HttpChannel : Type 0 where
  slack discord telegram : HttpChannel

module _ (p : Platform) (web : Web) (render : NotificationEvent → Result Rendered) where
  open web use {retrying, server}

  unfoldable pub http_send : HttpChannel → String → NotificationEvent → Result DeliveryResult
  unfolding slack_send discord_send telegram_send
  http_send slack url event = slack_send p web render event
  http_send discord url event = discord_send p web render event
  http_send telegram url event = telegram_send p web render url event

  unfoldable pub address_of : HttpChannel → String → NotificationEvent → String
  address_of telegram url event = url
  address_of _ url event = event.target.address

  unfoldable pub payload_of : HttpChannel → NotificationEvent → Rendered → Payload
  payload_of slack event m = slack_payload (slack_text p web render m)
  payload_of discord event m = discord_payload (discord_text p web render m)
  payload_of telegram event m = telegram_payload_of p web render event m

  name_of : HttpChannel → String
  name_of slack = "slack"
  name_of discord = "discord"
  name_of telegram = "telegram"

  http_send_lem :
      (c : HttpChannel) (url : String) (event : NotificationEvent)
      → http_send c url event
        ≡ and_then (render event) (λ m.
          normalized p web render
            (name_of c)
            event
            (post_json web (address_of c url event) (payload_of c event m)))
  unfolding http_send slack_send discord_send telegram_send address_of payload_of name_of
  http_send_lem slack url event = refl
  http_send_lem discord url event = refl
  http_send_lem telegram url event = refl

  -- Only a response without an error code is a success.
  normalized-ok :
      (name : String) (event : NotificationEvent) (x : Posted) {r : DeliveryResult}
      → normalized p web render name event x ≡ return r
      → r.ok ≡ true
      → (code : ℕ) × (header : Option String) × (x ≡ accepted code header) × (code < 400)
  unfolding normalized failure
  normalized-ok name event (transient m) h ok =
      let no : false ≡ true = rw (← return-injective h) at ok in cc
  normalized-ok name event (failed e) h ok =
      let no : false ≡ true = rw (← return-injective h) at ok in cc
  normalized-ok name event (accepted code header) h ok = elim (Bool-cases (code == 429)) [
    | inl limited ↦
        let (n, read, done) =
          and_then-return (retry_after_of p web render header) _ (rw limited at h) in
        let no : false ≡ true = rw (← return-injective done) at ok in cc
    | inr open_ ↦ elim (Bool-cases (leb 400 code)) [
      | inl bad ↦
          let done = return-injective (rw (open_, bad) at h) in
          let no : false ≡ true = rw (← done) at ok in cc
      | inr good ↦ (code, header, refl, ground arith)
    ]
  ]

  attempt_outcome-accepted :
      (x : Reply) {code : ℕ} {header : Option String}
      → attempt_outcome web x ≡ accepted code header
      → x ≡ replied code header
  unfolding attempt_outcome
  attempt_outcome-accepted (replied code header) h = elim (Bool-cases (leb 500 code)) [
    | inl broken ↦ cc (rw broken at h)
    | inr fine ↦ cc (rw fine at h)
  ]
  attempt_outcome-accepted (transport_fault m) h = cc
  attempt_outcome-accepted (other_fault e) h = cc

  -- `tries` is what tenacity documents: what comes out is what an attempt came to.
  module _
      (tries : (n : ℕ) (act : Attempt) (k : ℕ)
        → (k' : ℕ) × ((retrying n act k).0 ≡ (act k').0)) where
    -- A message that the Slack, Discord or Telegram notifier reports as delivered was posted, as it
    -- was rendered for the channel, and answered with a response without an error code.
    pub http_send-accepted :
        (c : HttpChannel) (url : String) (event : NotificationEvent) {r : DeliveryResult}
        → http_send c url event ≡ return r
        → r.ok ≡ true
        → (m : Rendered) × (k : ℕ) × (code : ℕ) × (header : Option String) × (render event
            ≡ return m)
          × (server (address_of c url event) (payload_of c event m) k ≡ replied code header)
          × (code < 400)
    unfolding post_json post_once
    http_send-accepted c url event h ok =
        let (m, rendered, sent) =
          and_then-return (render event) _ (rw (http_send_lem c url event) at h) in
        let (code, header, answered, fine) =
          normalized-ok (name_of c) event
            (post_json web (address_of c url event) (payload_of c event m)) sent ok in
        let (k, last) = tries 3 (post_once web (address_of c url event) (payload_of c event m)) 0 in
        let read =
          attempt_outcome-accepted (server (address_of c url event) (payload_of c event m) k)
            (cc (last, answered)) in
        (m, k, code, header, rendered, read, fine)
