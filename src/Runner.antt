-- ===== src/Runner.antt =====
-- src/tele_scraper/runner.py: one cycle, from what the portal listed to the report. The portal
-- client and the parser are left out: a cycle starts from what they gave, and from the credentials
-- that `account_components` derived. Readings of `datetime.now` are arguments.
use Prim.Native.String.{◌++◌ as concat}
use telecloud_subscription_r.Base.{
  ℕ, suc, ◌+◌, ◌*◌, String, Bool, true, false, not, ◌&&◌, ◌||◌, Option, none, some, List, [], ◌∷◌,
  ◌++◌, map, keep, any, str_eq, Exec, Result, return, raise, and_then, pure, ◌>>=◌, ◌>>◌,
  if◌then◌else◌,
}
use telecloud_subscription_r.Base.Text.{starts_with}
use telecloud_subscription_r.Config.{Settings}
use telecloud_subscription_r.Domain.Status.{evaluate_all}
use telecloud_subscription_r.Models.{
  Component, purchased, label, Evaluation, NotificationEvent, DeliveryResult, RunReport, value,
  unknown, fingerprint,
}
use telecloud_subscription_r.Notify.Router.{World, Notifier, on_store, time, dispatch}
use telecloud_subscription_r.Platform.{Platform, DateTime}
use telecloud_subscription_r.Store.Protocol.{StateStore, Known}
pub mod Missing
pub mod Loud
pub mod Cycle
pub mod Clear

-- the ids that the program makes up itself
abbrev pub empty_result_id : String
empty_result_id = "__run__"

synthetic_ids : List String
synthetic_ids = empty_result_id ∷ "__account_password__" ∷ "__account_expiry__" ∷ []

-- `_is_trackable`
unfoldable pub is_trackable : Component → Bool
unfolding synthetic_ids starts_with
is_trackable c =
    not
      (any (str_eq c.component_id) synthetic_ids || starts_with c.component_id "unidentified-item-")

-- `Component(…)` with an id, a name and a parse error
abbrev pub synthetic : String → String → String → Component
synthetic component_id name error = record {
  component_id = component_id;
  name = name;
  kind = purchased;
  portal_status = none;
  activated_at = none;
  validity_period = none;
  expires_at = none;
  expires_at_derived = false;
  parse_error = some error;
}

unfoldable pub missing_component : String → String → Component
missing_component component_id name =
    synthetic component_id name
      "no longer listed by the portal; it may have been deleted, or the listing may be incomplete"

unfoldable pub empty_result_component : String → Component
empty_result_component detail = synthetic empty_result_id "scrape returned no components" detail

-- what fetching and parsing came to
pub data Scraped : Type 0 where
  listed : List Component → Scraped
  unreachable : Scraped
  unparsed : String → Scraped

unfoldable pub scrape_failed : Scraped → Bool
scrape_failed unreachable = true
scrape_failed _ = false

-- the components that a cycle goes on with
unfoldable pub scraped_components : Scraped → List Component
unfolding empty_result_component
scraped_components unreachable = []
scraped_components (unparsed message) =
    empty_result_component (concat "parser failed: " message) ∷ []
scraped_components (listed []) =
    empty_result_component "portal returned zero components; cannot confirm anything" ∷ []
scraped_components (listed (c ∷ cs)) = c ∷ cs

abbrev pub present : List Component → String → Bool
present trackable component_id = any (λ c. str_eq component_id c.component_id) trackable

-- `f"{component_id}|{Status.UNKNOWN.value}|-"`
unfoldable pub missing_key : String → String
missing_key component_id = concat component_id (concat "|" (concat (value unknown) "|-"))

module _ (p : Platform) (S : StateStore) where
  open S use {State, list_known, is_acknowledged, forget, record_seen, prune}

  -- what becomes of a component that is not listed any more, if its absence is acknowledged or not
  unfoldable pub absent :
      Known → Bool → Exec (World State) (List Component) → Exec (World State) (List Component)
  unfolding missing_component on_store
  absent row true later = on_store p S (forget row.component_id) >> later
  absent row false later =
      later >>= λ missing. pure (missing_component row.component_id row.name ∷ missing)

  -- the loop over the known components
  unfoldable pub find_missing : (String → Bool) → List Known → Exec (World State) (List Component)
  unfolding absent on_store time missing_key
  find_missing is_present [] = pure []
  find_missing is_present (row ∷ rows) =
      let later = find_missing is_present rows in
      if is_present row.component_id
      then later
      else (time >>= λ now.
          on_store p S (
            is_acknowledged (missing_key row.component_id)
              (fingerprint p (missing_component row.component_id row.name)) now)
          >>= λ acked. absent row acked later)

  -- the end of `_add_missing`: what is listed is remembered
  remembered : List Component → List Component → Exec (World State) (List Component)
  unfolding on_store time is_trackable label
  remembered components missing = time >>= λ now.
      on_store p S
        (record_seen (map (λ c. (c.component_id, label c)) (keep is_trackable components)) now)
      >> pure (components ++ missing)

  -- `_add_missing`
  unfoldable pub add_missing : List Component → Exec (World State) (List Component)
  unfolding find_missing is_trackable remembered on_store
  add_missing components = on_store p S list_known >>= λ known.
      find_missing (present (keep is_trackable components)) known >>= remembered components

  module _ (settings : Settings) where
    -- `_evaluate_credentials`, on the components of the account if the login gave one
    unfoldable pub evaluate_credentials :
        Option (List Component) → DateTime → Result (List Evaluation)
    evaluate_credentials none now = return []
    evaluate_credentials (some components) now =
        if settings.monitor_credentials
        then evaluate_all p components now settings.credential_thresholds []
        else return []

    -- `prune_state`
    unfoldable pub prune_state : ℕ → Exec (World State) (Unit {0})
    prune_state now = on_store p S (prune (settings.state_retention_days * 86400) now) >> pure tt

    -- the evaluations of a cycle, of its components and of the credentials
    unfoldable pub evaluated :
        List Component → Option (List Component) → DateTime → Result (List Evaluation)
    unfolding evaluate_all evaluate_credentials
    evaluated components account now =
        and_then (evaluate_all p components now settings.thresholds settings.suspended_tokens)
          (λ es. and_then (evaluate_credentials account now) (λ cs. return (es ++ cs)))

    unfoldable pub listed_components : Scraped → Exec (World State) (List Component)
    unfolding add_missing scraped_components scrape_failed
    listed_components scraped =
        if not (scrape_failed scraped) && settings.detect_missing_components
        then add_missing (scraped_components scraped)
        else pure (scraped_components scraped)

    module _ (notifiers : String → Option Notifier) (render : NotificationEvent → Result String)
        (environ : String → Option String) where
      -- the deliveries of a cycle, and its report
      reported :
          String
          → DateTime
          → DateTime
          → DateTime
          → Bool
          → Result (List Evaluation)
          → Exec (World State) RunReport
      unfolding dispatch
      reported run_id started now finished failed (raise e) w = (raise e, w)
      reported run_id started now finished failed (return es) w =
          (dispatch p S settings notifiers render environ es now >>= λ results. pure (record {
            run_id = run_id;
            started_at = started;
            finished_at = finished;
            evaluations_made = es;
            results = results;
            scrape_failed = failed;
          }))
            w

      -- `run_once`
      unfoldable pub run_once :
          String
          → DateTime
          → DateTime
          → DateTime
          → Scraped
          → Option (List Component)
          → Exec (World State) RunReport
      unfolding reported evaluated listed_components scrape_failed
      run_once run_id started now finished scraped account =
          listed_components scraped >>= λ components.
          reported run_id started now finished (scrape_failed scraped)
            (evaluated components account now)
