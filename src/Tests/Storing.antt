-- ===== src/Tests/Storing.antt =====
-- The theorems on the state stores at samples.
use mathlib.Core.List.{Perm}
use telecloud_subscription_r.Base.{
  String, ◌≡◌, refl, true, some, List, [], ◌∷◌, return, raise, state_store_error, arith,
  if◌then◌else◌,
}
use telecloud_subscription_r.Base.Text.{starts_with, has_bar}
use telecloud_subscription_r.Notify.Acks.Callback.{parse_ack_key-ack_callback_data}
use telecloud_subscription_r.Notify.Acks.{ack_callback_data, parse_ack_key}
use telecloud_subscription_r.Models.{ack_key, value, rung_key}
use telecloud_subscription_r.Store.Database.{empty_database, put_ack}
use telecloud_subscription_r.Store.Database.Digests.{distinct_keys}
use telecloud_subscription_r.Store.Database.Unique.{IsKeyed, put_ack-IsKeyed}
use telecloud_subscription_r.Store.Memory.{cleared}
use telecloud_subscription_r.Store.Memory.Agreement.{
  Agrees, sending, confirming as confirming_write, in_memory, in_sqlite, memory-Agrees_sqlite,
}
use telecloud_subscription_r.Store.Sqlite.{
  is_acknowledged, record_digest_members, find_digest_members, prune,
}
use telecloud_subscription_r.Store.Sqlite.Laws.{
  opened, find_digest_members-record, record_digest_members_outcome, is_acknowledged-prune,
}
use telecloud_subscription_r.Tests.Samples.{machine_sent, machine_ack, machine_over}

abbrev two_members : List (String × String)
two_members = ("vm-1|EXPIRED|-", "f") ∷ ("vm-2|EXPIRED|-", "g") ∷ []

two_distinct : distinct_keys two_members ≡ true
two_distinct = refl

find_digest_members-record_example :
    (found : List (String × String)) × ((find_digest_members "__digest__|EXPIRED"
        (record_digest_members "__digest__|EXPIRED" two_members 1000 (opened empty_database)).1).0
      ≡ return found)
    × Perm found two_members
find_digest_members-record_example =
    find_digest_members-record empty_database "__digest__|EXPIRED" two_members 1000 two_distinct

record_digest_members_outcome_example :
    (record_digest_members "__digest__|EXPIRED" two_members 1000 (opened empty_database)).0 ≡ (
      if distinct_keys two_members
      then return tt
      else raise (state_store_error "digest membership write failed"))
record_digest_members_outcome_example =
    record_digest_members_outcome empty_database "__digest__|EXPIRED" two_members 1000

empty-IsKeyed : IsKeyed empty_database
empty-IsKeyed = record { known = tt; acked = tt; sent = tt }

is_acknowledged-prune_example :
    (is_acknowledged "vm-1|EXPIRED|-" "36000000000|-" 3000
      (prune 2592000 2000 (opened (put_ack machine_ack 604800 1000 empty_database))).1).0
    ≡ (is_acknowledged "vm-1|EXPIRED|-" "36000000000|-" 3000
        (opened (put_ack machine_ack 604800 1000 empty_database))).0
is_acknowledged-prune_example =
    is_acknowledged-prune (put_ack machine_ack 604800 1000 empty_database) 2592000 2000 3000
      "vm-1|EXPIRED|-" "36000000000|-" (put_ack-IsKeyed empty-IsKeyed machine_ack 604800 1000)
      (omega arith)

memory-Agrees_sqlite_example :
    Agrees
      (in_memory (sending machine_sent 1000 ∷ confirming_write machine_ack 60 1500 ∷ []) cleared)
      (in_sqlite
        (sending machine_sent 1000 ∷ confirming_write machine_ack 60 1500 ∷ [])
        (opened empty_database))
memory-Agrees_sqlite_example =
    memory-Agrees_sqlite (sending machine_sent 1000 ∷ confirming_write machine_ack 60 1500 ∷ [])

parse_ack_key-ack_callback_data_example :
    parse_ack_key "ack:vm-1|EXPIRED|-" ≡ some (ack_key machine_over)
unfolding ack_key ack_callback_data starts_with has_bar value rung_key
parse_ack_key-ack_callback_data_example =
    parse_ack_key-ack_callback_data machine_over "ack:vm-1|EXPIRED|-" refl refl refl refl
