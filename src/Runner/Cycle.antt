-- ===== src/Runner/Cycle.antt =====
-- src/tele_scraper/runner.py, `run_once` with the portal client and the parser: one whole cycle,
-- from the requests to the portal to the report.
use telecloud_subscription_r.Base.{
  String, Option, none, some, List, Exec, Result, return, raise, and_then, scrape_error, auth_error,
  parse_error,
}
use telecloud_subscription_r.Config.{Settings}
use telecloud_subscription_r.Models.{Component, NotificationEvent, RunReport}
use telecloud_subscription_r.Notify.Router.{World, Notifier}
use telecloud_subscription_r.Platform.{Platform, DateTime}
use telecloud_subscription_r.Runner.{Scraped, listed, unreachable, unparsed, run_once}
use telecloud_subscription_r.Scraper.Account.{AccountInfo, account_components}
use telecloud_subscription_r.Scraper.Client.{Web, Session, fetch_components}
use telecloud_subscription_r.Scraper.Json.{Object}
use telecloud_subscription_r.Scraper.Listing.{parse_components}
use telecloud_subscription_r.Store.Protocol.{StateStore}

-- The `except` clauses: a credential incident is a scrape error; other exceptions pass.
unfoldable pub handled : Result (List Component) → Result Scraped
handled (return cs) = return (listed cs)
handled (raise (scrape_error m)) = return unreachable
handled (raise (auth_error m)) = return unreachable
handled (raise (parse_error m)) = return (unparsed m)
handled (raise e) = raise e

-- `unusable` is the message of `strptime`.
module _ (p : Platform) (S : StateStore) (settings : Settings) (web : Web)
    (unusable : String → String) where
  -- the components of the account, if the last login told of one
  unfoldable pub credentials : Option AccountInfo → Option (List Component)
  unfolding account_components
  credentials none = none
  credentials (some info) = some (account_components info settings.monitor_account_expiry)

  -- the `try` statement
  unfoldable pub scraped : Result (List Object) → Result Scraped
  unfolding handled parse_components
  scraped items = handled (and_then items (parse_components p web.shown unusable))

  module _ (notifiers : String → Option Notifier) (render : NotificationEvent → Result String)
      (environ : String → Option String) where
    -- the rest of the cycle, with the session that the client is left with
    unfoldable pub go_on :
        String
        → DateTime
        → DateTime
        → DateTime
        → Result Scraped
        → Session
        → World S.State
        → Result RunReport × (Session × World S.State)
    unfolding run_once credentials
    go_on run_id started now finished (raise e) session w = (raise e, (session, w))
    go_on run_id started now finished (return s) session w =
        let (r, w') =
          run_once p S settings notifiers render environ run_id started now finished s
            (credentials session.account) w in
        (r, (session, w'))

    unfoldable pub cycle :
        String → DateTime → DateTime → DateTime → Exec (Session × World S.State) RunReport
    unfolding go_on scraped fetch_components
    cycle run_id started now finished (session, w) =
        let (items, session') = fetch_components p settings web session in
        go_on run_id started now finished (scraped items) session' w
