-- ===== src/Observability/Redaction.antt =====
-- src/tele_scraper/observability/logging.py: the secrets that are registered, and what they and the
-- names of keys take out of a log event. The set of secrets is the list in the order in which the
-- program happens to go through it.
use telecloud_subscription_r.Base.{
  ℕ, String, Bool, true, false, not, ◌&&◌, ◌||◌, List, [], ◌∷◌, any, is_empty, str_eq, leb,
  if◌then◌else◌,
}
use telecloud_subscription_r.Base.Text.{text_length, contains, replace}
use telecloud_subscription_r.Config.{Settings}
use telecloud_subscription_r.Platform.{Platform}
pub mod Texts
pub mod Clean
pub mod Registered

-- `REDACTED`
abbrev pub redacted : String
redacted = "***REDACTED***"

-- `_SECRET_KEY_MARKERS`
abbrev pub secret_key_markers : List String
secret_key_markers =
    "password" ∷ "passwd" ∷ "secret" ∷ "token" ∷ "api_key" ∷ "apikey" ∷ "authorization"
    ∷ "auth_header" ∷ "cookie" ∷ "session" ∷ "credential" ∷ "webhook" ∷ "dsn" ∷ []

-- `register_secret`; a set holds each value once
unfoldable pub register_secret : String → List String → List String
unfolding text_length
register_secret value secrets =
    if not (is_empty value) && leb 8 (text_length value) && not (any (str_eq value) secrets)
    then value ∷ secrets
    else secrets

-- `_register_secrets` of __main__.py
unfoldable pub register_secrets : Settings → List String → List String
unfolding register_secret
register_secrets settings secrets = register_secret settings.telegram_bot_token (
    register_secret settings.smtp_password (
      register_secret settings.portal_auth_header (
        register_secret settings.portal_session_cookie
          (register_secret settings.portal_password secrets))))

-- `_scrub_text`
unfoldable pub scrub_text : List String → String → String
unfolding contains replace
scrub_text [] text = text
scrub_text (secret ∷ secrets) text =
    scrub_text secrets (if contains secret text then replace secret redacted text else text)

-- what a log event holds: texts, dictionaries, lists or tuples, and values of other types
mutual
  pub data Value : Type 0 where
    text : String → Value
    dictionary : Entries → Value
    sequence : Values → Value
    other : Value

  pub data Entries : Type 0 where
    no_entries : Entries
    entry : String → Value → Entries → Entries

  pub data Values : Type 0 where
    no_values : Values
    value : Value → Values → Values

-- whether the name of a key looks like that of a secret
unfoldable pub is_secret_key : Platform → String → Bool
unfolding contains
is_secret_key p key = any (λ marker. contains marker (p.lower key)) secret_key_markers

module _ (secrets : List String) where
  unfoldable mutual
    unfolding scrub_text

    -- `_scrub_value`
    pub scrub_value : Value → Value
    scrub_value (text s) = text (scrub_text secrets s)
    scrub_value (dictionary es) = dictionary (scrub_entries es)
    scrub_value (sequence vs) = sequence (scrub_values vs)
    scrub_value other = other

    pub scrub_entries : Entries → Entries
    scrub_entries no_entries = no_entries
    scrub_entries (entry key v es) = entry key (scrub_value v) (scrub_entries es)

    pub scrub_values : Values → Values
    scrub_values no_values = no_values
    scrub_values (value v vs) = value (scrub_value v) (scrub_values vs)

  module _ (p : Platform) where
    -- `redact_processor`
    unfoldable pub redact_processor : Entries → Entries
    unfolding is_secret_key scrub_value
    redact_processor no_entries = no_entries
    redact_processor (entry key v es) =
        entry key (if is_secret_key p key then text redacted else scrub_value v)
          (redact_processor es)
