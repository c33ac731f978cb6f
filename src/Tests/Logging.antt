-- ===== src/Tests/Logging.antt =====
-- What the redaction of log events does to one event.
use telecloud_subscription_r.Base.{String, refl, ◌≡◌, List, []}
use telecloud_subscription_r.Observability.Redaction.{
  Entries, Value, Values, redact_processor, register_secret,
}
use telecloud_subscription_r.Config.{Settings}
use telecloud_subscription_r.Tests.Samples.{ascii, confirming}

abbrev secrets : List String
secrets =
    register_secret "12345:bot" (register_secret "hunter2hunter2" (register_secret "short" []))

abbrev event : Entries
event = Entries.entry "token_kind" (Value.text "bearer") (
    Entries.entry "url" (Value.text "https://api.telegram.org/bot12345:bot/getUpdates") (
      Entries.entry "detail"
        (Value.dictionary (
          Entries.entry "args"
            (Value.sequence (Values.value (Value.text "-p hunter2hunter2") Values.no_values))
            Entries.no_entries))
        Entries.no_entries))

redacted_event :
    redact_processor secrets ascii event
    ≡ Entries.entry "token_kind" (Value.text "***REDACTED***") (
        Entries.entry "url" (Value.text "https://api.telegram.org/bot***REDACTED***/getUpdates") (
          Entries.entry "detail"
            (Value.dictionary (
              Entries.entry "args"
                (Value.sequence (Values.value (Value.text "-p ***REDACTED***") Values.no_values))
                Entries.no_entries))
            Entries.no_entries))
unfolding register_secret redact_processor
redacted_event = refl

abbrev settings : Settings
settings = record confirming {
  telegram_bot_token = "12345:bot";
  smtp_password = "hunter2hunter2";
  portal_auth_header = "short";
  portal_session_cookie = "";
  portal_password = "";
}
