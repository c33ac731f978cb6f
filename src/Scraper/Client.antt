-- ===== src/Scraper/Client.antt =====
-- src/tele_scraper/scraper/client.py: the requests of one run to the portal. The portal is
-- arbitrary: what it answers to a request may depend on all the requests before it.
use Prim.Native.String.{◌++◌ as concat}
pub mod Attempts
pub mod Pages
pub mod Capture
use telecloud_subscription_r.Base.{
  ℕ, zero, suc, ◌+◌, ◌-◌, String, Bool, true, false, not, ◌&&◌, ◌||◌, Option, none, some, List, [],
  ◌∷◌, ◌++◌, length, is_empty, str_eq, leb, ltb, ◌==◌, ◌≡◌, Error, Exec, Result, return, raise,
  and_then, other_error, value_error, config_error, scrape_error, auth_error, parse_error, pure,
  throw, ◌>>=◌, ◌>>◌, if◌then◌else◌,
}
use telecloud_subscription_r.Base.Text.{strip, show_ℕ, contains, starts_with, lstrip, take}
use telecloud_subscription_r.Config.{Settings}
use telecloud_subscription_r.Platform.{Platform}
use telecloud_subscription_r.Scraper.Account.{AccountInfo, parse_account}
use telecloud_subscription_r.Scraper.Envelope.{Page, parse_envelope, parse_login_token}
use telecloud_subscription_r.Scraper.Hints.{explained}
use telecloud_subscription_r.Scraper.Json.{Json, Object}

-- the login with its payload, or one page of the listing
pub data Request : Type 0 where
  login_request : String → String → Request
  page_request : ℕ → Request

-- A response with its status code and text; a fault of the kinds that are retried (a timeout or a
-- transport error of httpx); or another error of httpx.
pub data Exchange : Type 0 where
  responded : ℕ → String → Exchange
  transport_fault : String → Exchange
  request_fault : String → Exchange

-- what the client keeps, and the requests that it has sent, the latest first
pub record Session : Type 0 where
  pub sent : List Request
  pub token : Option String
  pub account : Option AccountInfo

-- what one attempt comes to
pub data Attempted : Type 0 where
  got : String → Attempted
  transient : String → Attempted
  failed : Error → Attempted

abbrev pub Attempt : Type 0
Attempt = Session → Attempted × Session

-- `status_code in (401, 403)`
unfoldable pub is_refusal : ℕ → Bool
is_refusal code = code == 401 || code == 403

-- The attempts that are made while `left` are allowed: the last one's outcome stands, because it is
-- not one to retry or because no more are left; each one before it was transient.
pub data Retried (act : Attempt) : ℕ → Session → Attempted × Session → Type 0 where
  stopped :
      {left : ℕ} {s : Session} {o : Attempted × Session}
      → act s ≡ o
      → ((m : String) → o.0 ≡ transient m → left ≡ 1)
      → Retried act left s o
  again :
      {left : ℕ} {s : Session} {m : String} {s' : Session} {o : Attempted × Session}
      → act s ≡ (transient m, s')
      → Retried act (suc left) s' o
      → Retried act (suc (suc left)) s o

-- what the client takes from others
pub record Web : Type 0 where
  -- `json.loads`, with `value_error` for what it cannot decode; `repr` and `str` of what it gives
  pub loads : String → Result Json
  pub repr_of : Json → String
  pub shown : Json → String
  -- `hashlib.new(algo, text.encode()).hexdigest()`
  pub hashed : String → String → String
  -- tenacity's `AsyncRetrying`, with a number of attempts
  pub retrying : ℕ → Attempt → Attempt
  -- the portal, on a request and those before it
  pub answer : Request → List Request → Exchange

module _ (p : Platform) (settings : Settings) (web : Web) where
  open p use {is_space}
  open web use {loads, repr_of, shown, hashed, retrying, answer}

  -- A request is answered, and stays sent. The client follows redirects: the requests that httpx
  -- sends for them belong to the one that is sent here, and the response is the last one's.
  unfoldable pub send : Request → Session → Exchange × Session
  send r s = (answer r s.sent, record s { sent = r ∷ s.sent })

  -- `_password_digest`
  unfoldable pub password_digest : Result String
  unfolding strip
  password_digest =
      let digest = strip is_space settings.portal_password_hash in
      if not (is_empty digest)
      then return digest
      else if is_empty settings.portal_password
      then raise (config_error "set PORTAL_PASSWORD_HASH (preferred) or PORTAL_PASSWORD to log in")
      else if str_eq settings.portal_password_hash_algo "none"
      then return settings.portal_password
      else return (hashed settings.portal_password_hash_algo settings.portal_password)

  -- The token of a login is kept, and what it says of the account.
  unfoldable pub logged_in : Json → Result String → Exec Session (Unit {0})
  unfolding parse_account
  logged_in body (return token) s =
      (return tt, record s { token = some token; account = some (parse_account shown body) })
  logged_in body (raise (parse_error m)) s = (raise (auth_error m), s)
  logged_in body (raise e) s = (raise e, s)

  unfoldable pub login_body : Result Json → Exec Session (Unit {0})
  unfolding logged_in parse_login_token
  login_body (return body) = logged_in body (parse_login_token repr_of body)
  login_body (raise (value_error m)) =
      throw (scrape_error (concat "login response was not JSON: " m))
  login_body (raise e) = throw e

  unfoldable pub login_response : Exchange → Exec Session (Unit {0})
  unfolding login_body is_refusal show_ℕ explained
  login_response (transport_fault m) = throw (scrape_error (explained "login" m))
  login_response (request_fault m) = throw (scrape_error (explained "login" m))
  login_response (responded code text) =
      if is_refusal code
      then throw (auth_error (concat "portal rejected the credentials: HTTP " (show_ℕ code)))
      else if leb 400 code
      then throw (scrape_error (concat "login failed: HTTP " (show_ℕ code)))
      else login_body (loads text)

  login_with : Result String → Exec Session (Unit {0})
  unfolding send login_response
  login_with (raise e) s = (raise e, s)
  login_with (return digest) s =
      let (x, s') = send (login_request settings.portal_username digest) s in login_response x s'

  unfoldable pub has_borrowed_session : Bool
  has_borrowed_session =
      not (is_empty settings.portal_session_cookie && is_empty settings.portal_auth_header)

  unfoldable pub login : Exec Session (Unit {0})
  unfolding login_with password_digest has_borrowed_session
  login s = if has_borrowed_session then (return tt, s) else login_with password_digest s

  -- the checks of `_once` on the response
  unfoldable pub once_response : Exchange → Attempted
  unfolding is_refusal show_ℕ
  once_response (transport_fault m) = transient m
  once_response (request_fault m) = failed (
      scrape_error
        (concat "failed to fetch " (concat settings.portal_components_path (concat ": " m))))
  once_response (responded code text) =
      if is_refusal code
      then failed (
          auth_error (
            concat "portal rejected our credentials on "
              (concat settings.portal_components_path (concat ": HTTP " (show_ℕ code)))))
      else if code == 429 || leb 500 code
      then transient (concat settings.portal_components_path (concat ": HTTP " (show_ℕ code)))
      else if leb 400 code
      then failed
          (scrape_error (concat settings.portal_components_path (concat ": HTTP " (show_ℕ code))))
      else got text

  -- `_once`
  unfoldable pub once : ℕ → Attempt
  unfolding send once_response
  once page s = let (x, s') = send (page_request page) s in (once_response x, s')

  -- the end of `get`: the last attempt's text or exception
  unfoldable pub fetched : Attempted × Session → Result String × Session
  fetched (got text, s) = (return text, s)
  fetched (transient m, s) = (
    raise (
        scrape_error
          (concat "failed to fetch " (concat settings.portal_components_path (concat ": " m)))),
    s,
  )
  fetched (failed e, s) = (raise e, s)

  unfoldable pub get : ℕ → Exec Session String
  unfolding fetched once
  get page s = fetched (retrying settings.scrape_max_attempts (once page) s)

  -- one page's text, as a page
  unfoldable pub decoded : ℕ → Result Json → Result Page
  unfolding parse_envelope show_ℕ
  decoded page (return payload) = parse_envelope repr_of payload
  decoded page (raise (value_error m)) =
      raise (parse_error (concat "page " (concat (show_ℕ page) (concat " was not valid JSON: " m))))
  decoded page (raise e) = raise e

  -- `not parsed.items or len(collected) >= parsed.total`
  unfoldable pub is_last : Page → List Object → Bool
  is_last page collected = length page.items == 0 || leb page.total (length collected)

  -- what the loop does with a page: it returns what it has collected, or goes on
  unfoldable pub collect :
      (List Object → Exec Session (List Object))
      → List Object
      → Result Page
      → Exec Session (List Object)
  unfolding is_last
  collect more collected (raise e) s = (raise e, s)
  collect more collected (return page) s =
      if is_last page (collected ++ page.items)
      then (return (collected ++ page.items), s)
      else more (collected ++ page.items) s

  -- The loop from page number `page` on, with `left` pages up to the bound.
  unfoldable pub pages : ℕ → ℕ → List Object → Exec Session (List Object)
  unfolding get decoded collect show_ℕ
  pages zero page collected s = (
    raise (
        scrape_error (
          concat "pagination exceeded PORTAL_MAX_PAGES (" (
            concat (show_ℕ settings.portal_max_pages)
              "); the portal may be reporting an incorrect total"))),
    s,
  )
  pages (suc left) page collected s =
      (get page >>= λ text. collect (pages left (suc page)) collected (decoded page (loads text))) s

  unfoldable pub fetch_components : Exec Session (List Object)
  unfolding login pages
  fetch_components = login >> pages settings.portal_max_pages 1 []

  -- `FixturePortalClient.fetch_components`, on what reading the file at `path` comes to; an
  -- `OSError` is an `other_error`
  unfoldable pub fixture_components : String → Result String → Result (List Object)
  unfolding parse_envelope
  fixture_components path (raise (other_error m)) =
      raise (scrape_error (concat "cannot read fixture " (concat path (concat ": " m))))
  fixture_components path (raise e) = raise e
  fixture_components path (return raw) = fixture_page path (loads raw)
    where
      fixture_page : String → Result Json → Result (List Object)
      fixture_page path (return payload) =
          and_then (parse_envelope repr_of payload) (λ page. return page.items)
      fixture_page path (raise (value_error m)) =
          raise (parse_error (concat "fixture " (concat path (concat " is not valid JSON: " m))))
      fixture_page path (raise e) = raise e
