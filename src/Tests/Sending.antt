-- ===== src/Tests/Sending.antt =====
-- The theorems on the notifiers at samples.
use telecloud_subscription_r.Base.{
  ℕ, zero, suc, ◌<◌, ◌≡◌, refl, String, true, Option, none, List, In, here, there, inl, Result,
  return,
}
use telecloud_subscription_r.Config.{targets}
use telecloud_subscription_r.Models.{NotificationEvent, ChannelTarget, success}
use telecloud_subscription_r.Notify.Channels.Honest.{
  telegram, http_send, address_of, payload_of, http_send-accepted,
}
use telecloud_subscription_r.Notify.Mail.{EmailNotifier, Command, login, Fault, send_sync}
use telecloud_subscription_r.Notify.Mail.Encrypted.{IsSecured, send_sync-IsSecured}
use telecloud_subscription_r.Notify.Registry.{none_built, with_others, build_notifiers}
use telecloud_subscription_r.Notify.Registry.Covered.{Has, build_notifiers-Has}
use telecloud_subscription_r.Notify.Sending.{
  Rendered, Payload, Reply, replied, Posted, accepted, transient, failed, Attempt, Web,
}
use telecloud_subscription_r.Tests.Samples.{
  ascii, confirming, ops_route, no_environment, machine_message,
}

abbrev unless_transient : Attempt → Posted × ℕ → Posted × ℕ
unless_transient more (transient m, k) = more k
unless_transient more (accepted code header, k) = (accepted code header, k)
unless_transient more (failed e, k) = (failed e, k)

-- attempts one after the other, the last of them whatever it comes to
retry_post : ℕ → Attempt → Attempt
retry_post zero act k = act k
retry_post (suc n) act k = unless_transient (retry_post n act) (act k)

unless_transient_lem :
    (act more : Attempt) (k : ℕ) (o : Posted × ℕ)
    → act k ≡ o
    → ((j : ℕ) → (i : ℕ) × ((more j).0 ≡ (act i).0))
    → (i : ℕ) × ((unless_transient more o).0 ≡ (act i).0)
unless_transient_lem act more k (transient m, j) same next = next j
unless_transient_lem act more k (accepted code header, j) same next = (k, cc (same))
unless_transient_lem act more k (failed e, j) same next = (k, cc (same))

retry_post_lem : (n : ℕ) (act : Attempt) (k : ℕ) → (i : ℕ) × ((retry_post n act k).0 ≡ (act i).0)
unfolding retry_post
retry_post_lem zero act k = (k, refl)
retry_post_lem (suc n) act k =
    unless_transient_lem act (retry_post n act) k (act k) refl (retry_post_lem n act)

-- a server that is down at the first attempt
abbrev recovering : String → Payload → ℕ → Reply
recovering url payload zero = replied 503 none
recovering url payload (suc k) = replied 200 none

abbrev outside : Web
outside = record { retrying = retry_post; server = recovering; float = λ header. none }

abbrev rendered_plain : NotificationEvent → Result Rendered
rendered_plain event = return (record { subject = "Expired"; body = "Machine expired." })

bot_delivered :
    http_send ascii outside rendered_plain telegram "https://bot" machine_message
    ≡ return (success machine_message)
unfolding http_send retry_post success
bot_delivered = refl

bot_ok : (success machine_message).ok ≡ true
unfolding success
bot_ok = refl

http_send-accepted_example :
    (m : Rendered) × (k : ℕ) × (code : ℕ) × (header : Option String) × (rendered_plain
        machine_message
      ≡ return m)
    × (recovering
          (address_of ascii outside rendered_plain telegram "https://bot" machine_message)
          (payload_of ascii outside rendered_plain telegram machine_message m)
          k
        ≡ replied code header)
    × (code < 400)
http_send-accepted_example =
    http_send-accepted ascii outside rendered_plain retry_post_lem telegram "https://bot"
      machine_message bot_delivered bot_ok

abbrev smtps : EmailNotifier
smtps = record {
  host = "mail";
  port = 465;
  sender = "bot@mail";
  username = "bot";
  password = "pw";
  tls = "auto";
}

abbrev performed : List Command → Command → Option Fault
performed done c = none

abbrev short_message : Rendered
short_message = record { subject = "Expired"; body = "Machine expired." }

login_sent : In (login "bot" "pw") (send_sync performed smtps "ann@mail" short_message).1
unfolding send_sync
login_sent = there here

send_sync-IsSecured_example : IsSecured performed smtps
send_sync-IsSecured_example =
    send_sync-IsSecured performed smtps "ann@mail" short_message "bot" "pw" (inl refl) login_sent

slack_built :
    build_notifiers ascii confirming outside performed rendered_plain no_environment
    ≡ return (with_others ascii confirming outside performed rendered_plain none_built)
unfolding build_notifiers
slack_built = refl

build_notifiers-Has_example :
    Has ascii confirming outside performed rendered_plain
      (with_others ascii confirming outside performed rendered_plain none_built)
      "slack"
    × (ts : List ChannelTarget) × (targets ascii no_environment ops_route ≡ return ts)
build_notifiers-Has_example =
    build_notifiers-Has ascii confirming outside performed rendered_plain no_environment slack_built
      here here refl
