-- ===== src/Tests/Scraping.antt =====
-- The theorems on the portal and on whole cycles at a sample: one page with one entry.
use telecloud_subscription_r.Base.{
  ℕ, zero, suc, ◌*◌, ◌<◌, ◌≡◌, refl, String, false, none, some, List, [], ◌∷◌, is_empty, arith,
  ◌==◌, str_eq, Result, return, raise, value_error, if◌then◌else◌,
}
use telecloud_subscription_r.Base.Int.{pos}
use telecloud_subscription_r.Models.{Component, Evaluation, RunReport, purchased, active}
use telecloud_subscription_r.Domain.Status.{derive_status, add_delta}
use telecloud_subscription_r.Notify.Router.{World}
use telecloud_subscription_r.Platform.{utc}
use telecloud_subscription_r.Scraper.Client.{
  Request, login_request, page_request, Exchange, responded, Session, Attempted, got, transient,
  failed, Attempt, Retried, stopped, again, Web, fetch_components,
}
use telecloud_subscription_r.Scraper.Client.Attempts.{IsPatient, fetch_components-IsPatient}
use telecloud_subscription_r.Scraper.Json.{
  Json, integer, text, array, object, no_elements, element, no_entries, entry, Object, get, to_str,
}
use telecloud_subscription_r.Scraper.Listing.{field, parse_component}
use telecloud_subscription_r.Scraper.Listing.Reading.{parse_component-active}
use telecloud_subscription_r.Scraper.Stamp.{parse_timestamp}
use telecloud_subscription_r.Store.Database.{empty_database}
use telecloud_subscription_r.Store.Sqlite.{SqliteStateStore}
use telecloud_subscription_r.Store.Sqlite.Laws.{opened}
use telecloud_subscription_r.Tests.Samples.{ascii, confirming, warnings, world_of}

-- an entry that expires at noon of the second day of datetime
abbrev noon_entry : Object
noon_entry = entry "id" (text "vm-1") (
    entry "name" (text "Machine")
      (entry "expirationTime" (text "0001-01-02 13:00:00.5 +0100 CET") no_entries))

abbrev shown_json : Json → String
shown_json v = "{}"

abbrev no_stamp : String → String
no_stamp raw = "time data does not match format"

-- the entry as a component
abbrev noon_component : Component
noon_component = record {
  component_id = "vm-1";
  name = "Machine";
  kind = purchased;
  portal_status = none;
  activated_at = none;
  validity_period = none;
  expires_at = some (utc 129600500000);
  expires_at_derived = false;
  parse_error = none;
}

noon_parsed : parse_component ascii shown_json no_stamp noon_entry 0 ≡ return noon_component
unfolding parse_component add_delta
noon_parsed = refl

-- in the sixth hour of that day
abbrev morning : ℕ
morning = 108000000000

abbrev noon_active : Evaluation
noon_active = record {
  component = noon_component;
  status = active;
  evaluated_at = utc morning;
  rung = none;
  remaining = some (pos 21600500000);
  reason = "valid";
}

noon_derived : derive_status ascii noon_component (utc morning) warnings [] ≡ return noon_active
unfolding derive_status
noon_derived = refl

parse_component-active_example :
    (is_empty (field ascii shown_json no_stamp "id" noon_entry) ≡ false)
    × (t : ℕ) × (parse_timestamp ascii no_stamp
          (to_str shown_json (get "expirationTime" noon_entry))
        ≡ return (utc t))
    × (morning < t)
parse_component-active_example =
    parse_component-active ascii shown_json no_stamp noon_entry 0 morning warnings [] noon_active
      noon_parsed noon_derived refl

-- what the portal serves: a token, and one page
abbrev login_reply : Json
login_reply = object (
    entry "status" (integer (pos 0))
      (entry "data" (object (entry "token" (text "secret") no_entries)) no_entries))

abbrev listing_reply : Json
listing_reply = object (
    entry "status" (integer (pos 0)) (
      entry "data"
        (object (
          entry "items" (array (element (object noon_entry) no_elements))
            (entry "total" (integer (pos 1)) no_entries)))
        no_entries))

abbrev load : String → Result Json
load body =
    if str_eq body "token"
    then return login_reply
    else if str_eq body "page"
    then return listing_reply
    else raise (value_error "no JSON")

abbrev serve : Request → List Request → Exchange
serve (login_request name digest) sent = responded 200 "token"
serve (page_request number) sent = if number == 1 then responded 200 "page" else responded 404 ""

-- attempts one after the other, with the outcome of the first one
abbrev after_first : Attempt → Attempted × Session → Attempted × Session
after_first more (got body, s) = (got body, s)
after_first more (transient m, s) = more s
after_first more (failed e, s) = (failed e, s)

try_again : ℕ → Attempt → Attempt
try_again zero act s = act s
try_again (suc zero) act s = act s
try_again (suc (suc n)) act s = after_first (try_again (suc n) act) (act s)

after_first-Retried :
    (n : ℕ) (act : Attempt) (s : Session) (o : Attempted × Session)
    → act s ≡ o
    → ((s' : Session) → Retried act (suc n) s' (try_again (suc n) act s'))
    → Retried act (suc (suc n)) s (after_first (try_again (suc n) act) o)
after_first-Retried n act s (got body, s') same more = stopped same (λ m h. cc)
after_first-Retried n act s (transient m, s') same more = again same (more s')
after_first-Retried n act s (failed e, s') same more = stopped same (λ m h. cc)

try_again-Retried :
    (n : ℕ) (act : Attempt) (s : Session) → 0 < n → Retried act n s (try_again n act s)
unfolding try_again
try_again-Retried zero act s h = absurd (omega arith)
try_again-Retried (suc zero) act s h = stopped refl (λ m k. refl)
try_again-Retried (suc (suc n)) act s h =
    after_first-Retried n act s (act s) refl (λ s'. try_again-Retried (suc n) act s' (omega arith))

abbrev portal : Web
portal = record {
  loads = load;
  repr_of = shown_json;
  shown = shown_json;
  hashed = λ algo body. body;
  retrying = try_again;
  answer = serve;
}

abbrev fresh_session : Session
fresh_session = record { sent = []; token = none; account = none }

some_attempts : 0 < confirming.scrape_max_attempts
some_attempts = omega arith

fetch_components-IsPatient_example :
    IsPatient serve 1 (3 * 3) fresh_session (fetch_components ascii confirming portal fresh_session)
fetch_components-IsPatient_example =
    fetch_components-IsPatient ascii confirming portal try_again-Retried some_attempts fresh_session
      tt

abbrev clear_report : RunReport
clear_report = record {
  run_id = "run";
  started_at = utc 0;
  finished_at = utc morning;
  evaluations_made = noon_active ∷ [];
  results = [];
  scrape_failed = false;
}

abbrev empty_world : World SqliteStateStore
empty_world = world_of (opened empty_database)
