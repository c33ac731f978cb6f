-- ===== src/Scraper/Client/Capture.antt =====
-- `capture` of src/tele_scraper/scraper/client.py: one page as it came, and a guess at what it is.
-- What the portal answers to the request for the page, with the content type, is a parameter.
use Prim.Native.String.{◌++◌ as concat}
use telecloud_subscription_r.Base.{
  String, Option, none, some, leb, Exec, return, raise, scrape_error, auth_error, ◌>>◌,
  if◌then◌else◌,
}
use telecloud_subscription_r.Base.Text.{show_ℕ, or_text}
use telecloud_subscription_r.Config.{Settings}
use telecloud_subscription_r.Platform.{Platform}
use telecloud_subscription_r.Scraper.Client.{
  Exchange, responded, transport_fault, request_fault, Session, Web, is_refusal, login,
}
use telecloud_subscription_r.Scraper.Hints.{explained, classify_payload}

module _ (p : Platform) (settings : Settings) (web : Web)
    (serve : String → Session → Exchange × String) where
  -- `path or self._settings.portal_components_path`
  capture_target : Option String → String
  capture_target none = settings.portal_components_path
  capture_target (some path) = or_text path settings.portal_components_path

  captured : String → Exchange × String → Exec Session (String × String × String)
  unfolding is_refusal show_ℕ explained classify_payload
  captured target (transport_fault m, content_type) s =
      (raise (scrape_error (explained target m)), s)
  captured target (request_fault m, content_type) s = (raise (scrape_error (explained target m)), s)
  captured target (responded code text, content_type) s =
      if is_refusal code
      then (
        raise (
            auth_error (
              concat "portal rejected the supplied session on "
                (concat target (concat ": HTTP " (show_ℕ code))))),
        s,
      )
      else if leb 400 code
      then (raise (scrape_error (concat target (concat ": HTTP " (show_ℕ code)))), s)
      else (return (text, content_type, classify_payload p content_type text), s)

  fetch_page : String → Exec Session (String × String × String)
  unfolding captured
  fetch_page target s = captured target (serve target s) s

  -- `capture`; a borrowed session makes `login` do nothing
  unfoldable pub capture : Option String → Exec Session (String × String × String)
  unfolding fetch_page capture_target login
  capture path = login p settings web >> fetch_page (capture_target path)
