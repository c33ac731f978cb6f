-- ===== src/Cli/ByHand.antt =====
-- `_acknowledge` of src/tele_scraper/__main__.py over the SQLite store: what is confirmed by hand.
use telecloud_subscription_r.Base.{ℕ, suc, ◌*◌, String, List, [], ◌∷◌}
use telecloud_subscription_r.Config.{Settings}
use telecloud_subscription_r.Notify.Router.{World}
use telecloud_subscription_r.Platform.{Platform}
use telecloud_subscription_r.Store.Database.{Database, put_ack}
use telecloud_subscription_r.Store.Protocol.{Ack, Outstanding}
use telecloud_subscription_r.Store.Sqlite.{SqliteStateStore}
use telecloud_subscription_r.Store.Sqlite.Laws.{opened}

-- an open store on the tables `db`, at reading `n` of the clock
abbrev pub at : (ℕ → ℕ) → ℕ → Database → World SqliteStateStore
at clock n db = record { store = opened db; clock = clock; ticks = n; outbox = [] }

module _ (p : Platform) (settings : Settings) (clock : ℕ → ℕ) (cid by : String) where
  -- the confirmation of one row
  abbrev ack_of : Outstanding → Ack
  ack_of row = record {
    ack_key = row.ack_key;
    component_id = cid;
    status = row.status;
    rung = row.rung;
    fingerprint = row.fingerprint;
    acked_by = by;
  }

  ttl : ℕ
  ttl = settings.ack_ttl_days * 86400

  -- the tables after the rows were confirmed, the first one at reading `n` of the clock
  put_acks : List Outstanding → ℕ → Database → Database
  unfolding ttl
  put_acks [] n db = db
  put_acks (row ∷ rows) n db = put_acks rows (suc n) (put_ack (ack_of row) ttl (clock n) db)
