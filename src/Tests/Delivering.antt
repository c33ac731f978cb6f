-- ===== src/Tests/Delivering.antt =====
-- The theorems on deliveries and cycles at samples.
use telecloud_subscription_r.Base.{
  String, ◌≡◌, refl, false, none, [], ◌∷◌, here, Result, return, inl, inr, ◌⊎◌,
}
use telecloud_subscription_r.Models.{
  Evaluation, NotificationEvent, DeliveryResult, success, RunReport, exit_code, event_is_critical,
  is_critical, unknown,
}
use telecloud_subscription_r.Notify.Router.{World, deliver, dispatch, admit, held_quiet, suppressed}
use telecloud_subscription_r.Notify.Router.Confirmed.{at_tick, IsLeft, admit-outstanding}
use telecloud_subscription_r.Notify.Router.Holds.{held_quiet-critical}
use telecloud_subscription_r.Notify.Router.Once.{deliver_once}
use telecloud_subscription_r.Notify.Router.Silence.{dispatch_silent}
use telecloud_subscription_r.Platform.{utc}
use telecloud_subscription_r.Runner.{listed, run_once, empty_result_component}
use telecloud_subscription_r.Runner.Loud.{run_once-loud}
use telecloud_subscription_r.Store.Database.{empty_database}
use telecloud_subscription_r.Store.Sqlite.{
  sqlite, SqliteStateStore, already_sent, record_sent, is_acknowledged, list_known, record_seen,
}
use telecloud_subscription_r.Store.Sqlite.Laws.{opened}
use telecloud_subscription_r.Tests.Planning.{confirming_planned}
use telecloud_subscription_r.Tests.Samples.{
  ascii, confirming, repeating, rehearsing, no_environment, plain_render, accepting, world_of,
  machine_over, machine_message,
}

abbrev fresh : World SqliteStateStore
fresh = world_of (opened empty_database)

abbrev delivered : Result DeliveryResult × World SqliteStateStore
delivered =
    deliver ascii sqlite repeating accepting plain_render no_environment (utc 0) machine_message
      fresh

machine_delivered : delivered.0 ≡ return (success machine_message)
unfolding deliver already_sent event_is_critical is_critical success record_sent
machine_delivered = refl

deliver_once_example :
    deliver ascii sqlite repeating accepting plain_render no_environment
      (utc 7200000000)
      machine_message
      delivered.1
    ≡ (return (suppressed machine_message "dedup"), delivered.1)
unfolding success
deliver_once_example =
    deliver_once ascii repeating accepting plain_render no_environment machine_message refl (utc 0)
      (utc 7200000000) fresh delivered.1 refl machine_delivered refl refl refl

admit-outstanding_example :
    (left : String ⊎ NotificationEvent) × (admit ascii sqlite confirming machine_message
        (at_tick ascii empty_database (λ n. 1000) [] 0)
      ≡ (return left, at_tick ascii empty_database (λ n. 1000) [] 1))
    × IsLeft ascii empty_database (λ n. 1000) [] 1000 machine_message left
admit-outstanding_example =
    admit-outstanding ascii empty_database (λ n. 1000) [] confirming machine_message 0 refl
      (inl refl)

machine_admitted :
    (admit ascii sqlite confirming machine_message fresh).0 ≡ return (inr machine_message)
unfolding admit is_acknowledged
machine_admitted = refl

held_quiet-critical_example : held_quiet ascii sqlite confirming machine_message (utc 0) ≡ false
held_quiet-critical_example =
    held_quiet-critical ascii sqlite confirming no_environment (machine_over ∷ []) (utc 0) fresh
      confirming_planned here refl machine_admitted

dispatch_silent_example :
    (dispatch ascii sqlite rehearsing accepting plain_render no_environment
      (machine_over ∷ [])
      (utc 0)
      fresh).1.outbox
    ≡ []
dispatch_silent_example =
    dispatch_silent ascii sqlite rehearsing accepting plain_render no_environment (inl refl)
      (machine_over ∷ []) (utc 0) fresh

abbrev empty_cycle : Result RunReport × World SqliteStateStore
empty_cycle =
    run_once ascii sqlite confirming accepting plain_render no_environment "run" (utc 0) (utc 1)
      (utc 2) (listed []) none fresh

abbrev nothing_found : Evaluation
nothing_found = record {
  component = empty_result_component "portal returned zero components; cannot confirm anything";
  status = unknown;
  evaluated_at = utc 1;
  rung = none;
  remaining = none;
  reason = "parse error: portal returned zero components; cannot confirm anything";
}

abbrev empty_cycle_report : RunReport
empty_cycle_report = record {
  run_id = "run";
  started_at = utc 0;
  finished_at = utc 2;
  evaluations_made = nothing_found ∷ [];
  results = [];
  scrape_failed = false;
}

empty_cycle_ran : empty_cycle.0 ≡ return empty_cycle_report
unfolding run_once list_known record_seen is_acknowledged
empty_cycle_ran = refl

run_once-loud_example : exit_code empty_cycle_report ≡ 2
run_once-loud_example =
    run_once-loud ascii sqlite confirming accepting plain_render no_environment "run" (utc 0)
      (utc 1) (utc 2) (listed []) none fresh tt empty_cycle_ran
