-- ===== src/Tests/Interleaving.antt =====
-- Two deliveries of one cycle, step by step in turns.
use telecloud_subscription_r.Base.{◌≡◌, refl, List, [], ◌∷◌, ◌++◌, All}
use telecloud_subscription_r.Models.{NotificationEvent, event_is_critical, is_critical, success}
use telecloud_subscription_r.Notify.Plan.{scope}
use telecloud_subscription_r.Notify.Router.{World}
use telecloud_subscription_r.Notify.Router.Apart.{IsApart}
use telecloud_subscription_r.Notify.Router.Interleaved.{world, IsNew, interleaved-IsApart}
use telecloud_subscription_r.Notify.Router.Steps.{Task, planned, advance, one_of, no_more, go_on}
use telecloud_subscription_r.Platform.{utc}
use telecloud_subscription_r.Store.Database.{empty_database}
use telecloud_subscription_r.Store.Sqlite.{sqlite, SqliteStateStore, already_sent, record_sent}
use telecloud_subscription_r.Tests.Samples.{
  ascii, repeating, accepting, plain_render, no_environment, machine_message,
}

abbrev step : Task → World SqliteStateStore → Task × World SqliteStateStore
step t w = advance ascii sqlite repeating accepting plain_render no_environment (utc 0) t w

abbrev for_dev : NotificationEvent
for_dev = record machine_message { recipient = "dev" }

abbrev start : World SqliteStateStore
start =
    world ascii repeating accepting plain_render no_environment (utc 0) (λ n. 1000) empty_database
      [] 0 empty_database []

-- both are admitted, then both are sent, then both are recorded
abbrev in_turns : Task → Task → World SqliteStateStore → (Task × Task) × World SqliteStateStore
in_turns t u w = let (t', w1) = step t w in let (u', w2) = step u w1 in ((t', u'), w2)

abbrev third_round : NotificationEvent → NotificationEvent → World SqliteStateStore
third_round e u =
    let (ts, w) = in_turns (planned e) (planned u) start in
    let (ts', w') = in_turns ts.0 ts.1 w in (in_turns ts'.0 ts'.1 w').1

both_sent : (third_round machine_message for_dev).outbox ≡ machine_message ∷ for_dev ∷ []
unfolding advance event_is_critical is_critical already_sent success record_sent
both_sent = refl

-- a target that a route lists twice gives two messages of one scope, and both go out
twice_sent :
    (third_round machine_message machine_message).outbox ≡ machine_message ∷ machine_message ∷ []
unfolding advance event_is_critical is_critical already_sent success record_sent
twice_sent = refl

apart : IsApart (machine_message ∷ for_dev ∷ [])
unfolding scope
apart = (((refl, refl), tt), (tt, tt))

abbrev reached : (Task × Task) × World SqliteStateStore
reached = in_turns (planned machine_message) (planned for_dev) start

interleaved-IsApart_example :
    (sent : List NotificationEvent) × (reached.1.outbox ≡ [] ++ sent)
    × IsApart sent
    × All
        (IsNew ascii repeating accepting plain_render no_environment
          (utc 0)
          (λ n. 1000)
          empty_database
          [])
        sent
interleaved-IsApart_example =
    interleaved-IsApart ascii repeating accepting plain_render no_environment (utc 0) (λ n. 1000)
      empty_database [] refl 0 (machine_message ∷ for_dev ∷ []) (reached.0.0 ∷ reached.0.1 ∷ [])
      reached.1 apart
      (go_on (one_of [] (planned machine_message) (planned for_dev ∷ []) start) (
        go_on
          (one_of (reached.0.0 ∷ []) (planned for_dev) [] (step (planned machine_message) start).1)
          no_more))
