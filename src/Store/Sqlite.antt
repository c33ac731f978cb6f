-- ===== src/Store/Sqlite.antt =====
-- src/tele_scraper/state/store.py, `SqliteStateStore`: the tables behind one connection. The lock
-- makes each method one step. A connection is `broken` while every statement on it raises
-- `sqlite3.Error`, which the methods turn into `StateStoreError`.
pub mod Laws
pub mod Errors
use Prim.Native.String.{◌++◌ as concat}
use telecloud_subscription_r.Base.{
  ℕ, ◌-◌, String, Bool, true, false, Option, none, some, List, [], ◌∷◌, Exec, Result, return, raise,
  state_store_error, if◌then◌else◌, config_error, str_eq,
}
use telecloud_subscription_r.Store.Database.{
  Database, sent_in, put_sent, put_members, members_in, put_seen, fingerprint_in, acked_in, put_ack,
  acknowledgeable_in, pruned, removed, known_key,
}
use telecloud_subscription_r.Store.Protocol.{StateStore, Sent, Ack, Outstanding, Known}
use telecloud_subscription_r.Store.Table.{delete}

pub record SqliteStateStore : Type 0 where
  pub connection : Option Database
  pub broken : Bool

-- `__init__`, and `open` on a path: `none` is a path that cannot be opened
abbrev pub new_store : SqliteStateStore
new_store = record { connection = none; broken = false }

unfoldable pub open_store : Option Database → Exec SqliteStateStore (Unit {0})
open_store none s = (raise (state_store_error "cannot open state store"), s)
open_store (some file) s = (return tt, record s { connection = some file })

-- `_require`, and the `try` of a method around its statements, which give `f`: a `sqlite3.Error` is
-- raised as the `StateStoreError` of the method, of which `what` is the text. A connection that is
-- broken raises at the first statement of every method, so that nothing is changed by then.
unfoldable pub on_connection :
    {A : Type 0}
    → String
    → Option Database
    → (Database → Result A × Database)
    → Exec SqliteStateStore A
on_connection what none f s = (raise (state_store_error "state store used before open()"), s)
on_connection what (some db) f s =
    let (r, db') = f db in
    if s.broken
    then (raise (state_store_error (concat what ": sqlite3.Error")), s)
    else (r, record s { connection = some db' })

unfoldable pub statements :
    {A : Type 0} → String → (Database → Result A × Database) → Exec SqliteStateStore A
unfolding on_connection
statements what f s = on_connection what s.connection f s

-- a method that only reads, and one that writes and commits
unfoldable pub query : {A : Type 0} → String → (Database → A) → Exec SqliteStateStore A
unfolding statements
query what f = statements what (λ db. (return (f db), db))

unfoldable pub write : String → (Database → Database) → Exec SqliteStateStore (Unit {0})
unfolding statements
write what f = statements what (λ db. (return tt, f db))

unfoldable pub already_sent : String → String → Exec SqliteStateStore Bool
unfolding query sent_in
already_sent scope dedup_key = query "dedup lookup failed" (sent_in scope dedup_key)

unfoldable pub record_sent : Sent → ℕ → Exec SqliteStateStore (Unit {0})
unfolding write put_sent
record_sent sent now = write "dedup write failed" (put_sent sent now)

unfoldable pub find_fingerprint : String → Exec SqliteStateStore (Option String)
unfolding query fingerprint_in
find_fingerprint ack_key = query "fingerprint lookup failed" (fingerprint_in ack_key)

unfoldable pub record_digest_members :
    String → List (String × String) → ℕ → Exec SqliteStateStore (Unit {0})
unfolding statements put_members
record_digest_members digest_key members now =
    statements "digest membership write failed" (put_members digest_key members now)

unfoldable pub find_digest_members : String → Exec SqliteStateStore (List (String × String))
unfolding query members_in
find_digest_members digest_key = query "digest membership lookup failed" (members_in digest_key)

unfoldable pub record_seen : List (String × String) → ℕ → Exec SqliteStateStore (Unit {0})
unfolding write put_seen
record_seen [] now s = (return tt, s)
record_seen (c ∷ cs) now s =
    write "known-component write failed"
      (λ db. record db { known_components = put_seen (c ∷ cs) now db.known_components }) s

unfoldable pub list_known : Exec SqliteStateStore (List Known)
unfolding query
list_known = query "known-component lookup failed" (λ db. db.known_components)

unfoldable pub forget : String → Exec SqliteStateStore (Unit {0})
unfolding write delete
forget component_id =
    write "forget failed"
      (λ db. record db { known_components = delete known_key component_id db.known_components })

unfoldable pub is_acknowledged : String → String → ℕ → Exec SqliteStateStore Bool
unfolding query acked_in
is_acknowledged ack_key fingerprint now =
    query "acknowledgement lookup failed" (acked_in ack_key fingerprint now)

unfoldable pub acknowledge : Ack → ℕ → ℕ → Exec SqliteStateStore (Unit {0})
unfolding write put_ack
acknowledge ack ttl_seconds now = write "acknowledgement write failed" (put_ack ack ttl_seconds now)

unfoldable pub find_acknowledgeable : String → Exec SqliteStateStore (List Outstanding)
unfolding query acknowledgeable_in
find_acknowledgeable component_id =
    query "acknowledgement lookup failed" (acknowledgeable_in component_id)

-- `now` stands for both readings of the clock; a cutoff before the epoch deletes nothing.
unfoldable pub prune : ℕ → ℕ → Exec SqliteStateStore ℕ
unfolding statements pruned removed
prune older_than_seconds now = statements "dedup prune failed" (λ db.
    (return (removed (now - older_than_seconds) now db), pruned (now - older_than_seconds) now db))

unfoldable pub check : Exec SqliteStateStore (Unit {0})
unfolding write
check = write "state store unhealthy" (λ db. db)

unfoldable pub close : Exec SqliteStateStore (Unit {0})
close s = (return tt, record s { connection = none })

abbrev pub sqlite : StateStore
sqlite = record {
  State = SqliteStateStore;
  already_sent = already_sent;
  record_sent = record_sent;
  find_fingerprint = find_fingerprint;
  record_digest_members = record_digest_members;
  find_digest_members = find_digest_members;
  record_seen = record_seen;
  list_known = list_known;
  forget = forget;
  is_acknowledged = is_acknowledged;
  acknowledge = acknowledge;
  find_acknowledgeable = find_acknowledgeable;
  prune = prune;
  check = check;
  close = close;
}

-- `build_store`, of a backend that `SqliteStateStore` implements or not
unfoldable pub build_store : String → Result SqliteStateStore
build_store backend =
    if str_eq backend "sqlite"
    then return new_store
    else raise (state_store_error "state backend is not implemented; only 'sqlite' is available")
