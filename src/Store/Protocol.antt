-- ===== src/Store/Protocol.antt =====
-- src/tele_scraper/state/store.py, `StateStore`: what the service asks of its dedup backend. Each
-- method is an action on the backend's state; where a method reads the clock itself, the reading is
-- an argument. Times are whole seconds.
use telecloud_subscription_r.Base.{ℕ, String, Bool, Option, List, Exec}

-- the arguments of `record_sent`
pub record Sent : Type 0 where
  pub scope : String
  pub dedup_key : String
  pub recipient : String
  pub channel : String
  pub component_id : String
  pub status : String
  pub rung : String
  pub ack_key : String
  pub fingerprint : String

-- the arguments of `acknowledge`, but for the two times
pub record Ack : Type 0 where
  pub ack_key : String
  pub component_id : String
  pub status : String
  pub rung : String
  pub fingerprint : String
  pub acked_by : String

-- one dictionary of `find_acknowledgeable`
pub record Outstanding : Type 0 where
  pub ack_key : String
  pub status : String
  pub rung : String
  pub fingerprint : String

-- one dictionary of `list_known`
pub record Known : Type 0 where
  pub component_id : String
  pub name : String
  pub last_seen : ℕ

pub record StateStore : Type 1 where
  pub State : Type 0
  pub already_sent : String → String → Exec State Bool
  pub record_sent : Sent → ℕ → Exec State (Unit {0})
  pub find_fingerprint : String → Exec State (Option String)
  pub record_digest_members : String → List (String × String) → ℕ → Exec State (Unit {0})
  pub find_digest_members : String → Exec State (List (String × String))
  pub record_seen : List (String × String) → ℕ → Exec State (Unit {0})
  pub list_known : Exec State (List Known)
  pub forget : String → Exec State (Unit {0})
  pub is_acknowledged : String → String → ℕ → Exec State Bool
  pub acknowledge : Ack → ℕ → ℕ → Exec State (Unit {0})
  pub find_acknowledgeable : String → Exec State (List Outstanding)
  pub prune : ℕ → ℕ → Exec State ℕ
  pub check : Exec State (Unit {0})
  pub close : Exec State (Unit {0})
