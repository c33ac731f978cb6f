-- ===== src/Config/Loading.antt =====
-- src/tele_scraper/config.py: how settings are checked and derived while they are loaded, and the
-- lines of `.env`. The reading of files and the environment of pydantic are left out.
use Prim.Native.String.{◌++◌ as concat}
use Prim.Native.Char.{code}
use telecloud_subscription_r.Base.{
  ℕ, String, Bool, not, ◌&&◌, ◌||◌, Option, none, some, List, [], ◌∷◌, map, keep, is_empty, is_some,
  str_eq, ◌==◌, Result, return, raise, value_error, config_error, key_error, overflow_error,
  other_error, scrape_error, auth_error, parse_error, state_store_error, channel_error, ◌≡◌,
  if◌then◌else◌,
}
use telecloud_subscription_r.Base.Int.{ℤ}
use telecloud_subscription_r.Base.Text.{strip, rstrip, split, starts_with, remove_prefix}
use telecloud_subscription_r.Config.{Settings}
use telecloud_subscription_r.Domain.Rules.{parse_thresholds}
use telecloud_subscription_r.Domain.Status.{normalize_token}
use telecloud_subscription_r.Platform.{Platform}

-- `bool(a and b)` and `bool(a or b)` of texts
unfoldable pub has_credentials : Settings → Bool
has_credentials s =
    not (is_empty s.portal_username)
    && (not (is_empty s.portal_password) || not (is_empty s.portal_password_hash))

unfoldable pub has_session : Settings → Bool
has_session s = not (is_empty s.portal_session_cookie) || not (is_empty s.portal_auth_header)

-- `_some_way_to_authenticate`
unfoldable pub some_way_to_authenticate : Settings → Result Settings
unfolding has_credentials has_session
some_way_to_authenticate s =
    if not (has_credentials s) && not (has_session s)
    then raise (value_error "no way to authenticate to the portal")
    else return s

-- `_http_url`
unfoldable pub http_url : String → Result String
unfolding starts_with rstrip
http_url v =
    if starts_with v "http://" || starts_with v "https://"
    then return (rstrip (λ c. code c == b'/') v)
    else raise (value_error "PORTAL_BASE_URL must start with http:// or https://")

-- an entry of the process environment
abbrev pub Environ : Type 0
Environ = String → Option String

-- `os.environ.setdefault(key, value)`
unfoldable pub set_default : String → String → Environ → Environ
set_default key value environ name =
    if str_eq name key && not (is_some (environ key)) then some value else environ name

-- the text before a separator, and after it if it is there
unfoldable pub partition : ℕ → String → String × Option String
partition sep String.[] = ("", none)
partition sep (String.◌∷◌ c s) =
    let rest = partition sep s in
    if code c == sep then ("", some s) else (String.◌∷◌ c rest.0, rest.1)

-- `value.split(" #", 1)[0]`
unfoldable pub before_comment : String → String
unfolding starts_with
before_comment String.[] = ""
before_comment (String.◌∷◌ c s) =
    let rest = before_comment s in
    if starts_with (String.◌∷◌ c s) " #" then "" else String.◌∷◌ c rest

-- `s.strip(c)` of one character
unfoldable pub unquoted : ℕ → String → String
unfolding strip
unquoted quote s = strip (λ c. code c == quote) s

-- `except ValueError as exc: raise ConfigError(…)`, with the name of the setting
unfoldable pub named_error : {A : Type 0} → String → Result A → Result A
named_error name (return a) = return a
named_error name (raise (value_error m)) = raise (config_error (concat name (concat ": " m)))
named_error name (raise e) = raise e

pub named_error-return :
    {A : Type 0} (name : String) (r : Result A) {a : A}
    → named_error name r ≡ return a
    → r ≡ return a
unfolding named_error
named_error-return name (return a) h = h
named_error-return name (raise (value_error m)) h = cc
named_error-return name (raise (key_error m)) h = cc
named_error-return name (raise (overflow_error m)) h = cc
named_error-return name (raise (other_error m)) h = cc
named_error-return name (raise (config_error m)) h = cc
named_error-return name (raise (scrape_error m)) h = cc
named_error-return name (raise (auth_error m)) h = cc
named_error-return name (raise (parse_error m)) h = cc
named_error-return name (raise (state_store_error m)) h = cc
named_error-return name (raise (channel_error m)) h = cc

module _ (p : Platform) where
  open p use {is_space}

  -- `thresholds` and `credential_thresholds`, of the setting of that name
  unfoldable pub ladder_setting : String → String → Result (List ℤ)
  unfolding parse_thresholds named_error
  ladder_setting name raw = named_error name (parse_thresholds p raw)

  -- `suspended_tokens`, with repetitions
  unfoldable pub suspended_setting : String → List String
  unfolding normalize_token split strip
  suspended_setting raw =
      map (normalize_token p) (keep (λ t. not (is_empty (strip is_space t))) (split b',' raw))

  -- `_blank_path_is_unset`
  unfoldable pub unless_blank : String → Option String
  unfolding strip
  unless_blank v = if is_empty (strip is_space v) then none else some v

  -- `line.removeprefix("export ")`
  unfoldable pub without_export : String → String
  unfolding remove_prefix
  without_export line = elim (remove_prefix "export " line) [ none ↦ line | some rest ↦ rest ]

  unfoldable pub exported : String → Option String → Environ → Environ
  unfolding set_default before_comment unquoted strip
  exported key none environ = environ
  exported key (some raw) environ =
      let value = unquoted 39 (unquoted 34 (strip is_space (before_comment raw))) in
      if not (is_empty (strip is_space key)) && not (is_empty value)
      then set_default (strip is_space key) value environ
      else environ

  -- one line of `.env`
  unfoldable pub export_line : String → Environ → Environ
  unfolding exported without_export partition strip starts_with
  export_line raw environ =
      let line = strip is_space raw in
      let parts = partition b'=' (without_export line) in
      if is_empty line || starts_with line "#" then environ else exported parts.0 parts.1 environ

  -- `_export_dotenv_extras`, on the lines of the file
  unfoldable pub export_dotenv_extras : List String → Environ → Environ
  unfolding export_line
  export_dotenv_extras [] environ = environ
  export_dotenv_extras (line ∷ lines) environ =
      export_dotenv_extras lines (export_line line environ)
