-- ===== src/Scraper/Hints.antt =====
-- src/tele_scraper/scraper/client.py: what it says of a transport error, and its guess at what the
-- portal returned.
use Prim.Native.String.{◌++◌ as concat}
use telecloud_subscription_r.Base.{String, Bool, ◌&&◌, ◌||◌, is_empty, if◌then◌else◌}
use telecloud_subscription_r.Base.Text.{contains, starts_with, lstrip, take}
use telecloud_subscription_r.Platform.{Platform}

-- `_explain_transport_error`
unfoldable pub explained : String → String → String
unfolding contains
explained target detail = concat "failed to fetch " (
    concat target (
      concat ": " (
        concat detail (
          if contains "CERTIFICATE_VERIFY_FAILED" detail
          then concat
              " - the portal's TLS chain could not be verified. This usually means it serves "
              (concat
                "its certificate without the intermediate CA. Fetch the intermediate from the "
                (concat
                  "certificate's AIA 'CA Issuers' URL and point PORTAL_CA_BUNDLE at it; do not "
                  "disable verification."))
          else ""))))

-- `classify_payload`
module _ (p : Platform) where
  open p use {is_space, lower}

  abbrev says : String → String → Bool
  says head needle = contains needle head

  unfoldable pub classify_payload : String → String → String
  unfolding contains starts_with lstrip take
  classify_payload content_type body =
      let head = lower (take 4000 body) in
      let start = lstrip is_space body in
      if says (lower content_type) "json"
        || is_empty start
        || starts_with start "["
        || starts_with start "{"
      then "json"
      else if says head "type=\"password\""
          || says head "type='password'"
          || (says head "<form" && says head "login")
      then "login_page"
      else if says head "<html" || says head "<!doctype html"
      then (if says head "login" && says head "password" then "login_page" else "html")
      else "unknown"
