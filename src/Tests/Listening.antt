-- ===== src/Tests/Listening.antt =====
-- A listener that is asked to stop after two polls, the first of which fails.
use telecloud_subscription_r.Base.{
  ℕ, zero, suc, ◌+◌, ◌≤◌, ◌≡◌, refl, String, Bool, true, Option, none, some, List, [], ◌∷◌, ◌++◌,
  All, Result, return, raise, other_error, leb, arith,
}
use telecloud_subscription_r.Base.Int.{pos}
use telecloud_subscription_r.Notify.Acks.{Update, Listener, poll_once}
use telecloud_subscription_r.Notify.Acks.Keeping.{IsPassed, Ended}
use telecloud_subscription_r.Notify.Acks.Listening.{IsPause, poll_once-Passed, run_forever-outlives}
use telecloud_subscription_r.Notify.Acks.Polling.{Response, Loop, run_forever, read_response}
use telecloud_subscription_r.Scraper.Json.{Json, Elements, Object}
use telecloud_subscription_r.Store.Database.{put_sent, empty_database}
use telecloud_subscription_r.Store.Sqlite.{SqliteStateStore, sqlite, new_store}
use telecloud_subscription_r.Store.Sqlite.Laws.{opened}
use telecloud_subscription_r.Base.{if◌then◌else◌, inl, inr}
use telecloud_subscription_r.Models.{fingerprint}
use telecloud_subscription_r.Store.Database.{Database}
use telecloud_subscription_r.Tests.Samples.{confirming, machine_sent, machine, ascii}

abbrev listener : SqliteStateStore → Listener SqliteStateStore
listener s = record { store = s; clock = λ n. 2000 + n; ticks = 0; offset = 40; answers = [] }

abbrev press : Json
press = Json.object (
    Object.entry "update_id" (Json.integer (pos 41)) (
      Object.entry "callback_query"
        (Json.object (
          Object.entry "id" (Json.text "q1") (
            Object.entry "data" (Json.text "ack:vm-1|EXPIRED|-") (
              Object.entry "from"
                (Json.object (Object.entry "username" (Json.text "ann") Object.no_entries))
                Object.no_entries))))
        Object.no_entries))

abbrev answered : Response
answered = record {
  status_code = 200;
  json = some (
      Json.object (
        Object.entry "ok" (Json.bool true) (
          Object.entry "result" (Json.array (Elements.element press Elements.no_elements))
            Object.no_entries)));
}

abbrev telegram : ℕ → ℕ → Result Response
telegram zero offset = raise (other_error "connection lost")
telegram (suc n) offset = return answered

abbrev stopped : ℕ → Bool
stopped n = leb 2 n

abbrev updates : List (Option Update)
updates =
    some (record {
      update_id = some 41;
      query = some (record {
        data_ = some "ack:vm-1|EXPIRED|-";
        callback_id = some "q1";
        sender = some ("ann", "");
      });
    })
    ∷ []

response_read : read_response (λ _. "") answered ≡ return updates
unfolding read_response
response_read = refl

abbrev outcome : Option (Loop SqliteStateStore)
outcome =
    run_forever (λ _. "") sqlite confirming telegram stopped 3
      (listener (opened (put_sent machine_sent 1000 empty_database)))

-- the pauses, the offset and the answers at the end
abbrev summary : Option (Loop SqliteStateStore) → List ℕ × ℕ × List (String × String)
summary none = ([], 0, [])
summary (some c) = (c.pauses, c.listener.offset, c.listener.answers)

loop_run :
    summary outcome ≡ (1 ∷ [], 42, ("q1", "Confirmed — this alert will stop repeating.") ∷ [])
unfolding run_forever telecloud_subscription_r.Store.Sqlite.find_fingerprint put_sent
    telecloud_subscription_r.Store.Sqlite.acknowledge
loop_run = refl

-- On a store that is closed the handling of the press raises, and its update is passed all the same.
poll_once-Passed_example :
    (begun rest : List (Option Update)) × (updates ≡ begun ++ rest)
    × All
        (IsPassed (poll_once sqlite confirming (return updates) (listener new_store)).1.offset)
        begun
    × ((listener new_store).offset
        ≤ (poll_once sqlite confirming (return updates) (listener new_store)).1.offset)
    × Ended sqlite confirming
        (poll_once sqlite confirming (return updates) (listener new_store)).0
        begun
        rest
poll_once-Passed_example = poll_once-Passed sqlite confirming updates (listener new_store)

run_forever-outlives_example :
    (end : Loop SqliteStateStore) × (run_forever
        (λ _. "")
        sqlite
        confirming
        telegram
        stopped
        3
        (listener new_store)
      ≡ some end)
    × (end.polls ≡ 2)
    × All IsPause end.pauses
    × (40 ≤ end.listener.offset)
run_forever-outlives_example =
    run_forever-outlives sqlite confirming (λ _. "") telegram stopped 2 3 (listener new_store)
      (omega arith) (λ j below. ground arith) refl

abbrev sent_database : Database
sent_database = put_sent machine_sent 1000 empty_database

same_facts : fingerprint ascii machine ≡ "36000000000|-"
unfolding fingerprint telecloud_subscription_r.Base.Text.show_ℕ
same_facts = refl
