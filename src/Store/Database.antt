-- ===== src/Store/Database.antt =====
-- src/tele_scraper/state/store.py: the four tables of `SqliteStateStore`, and what each of its
-- methods reads from them and writes to them.
pub mod Deliveries
pub mod Acknowledgements
pub mod Digests
pub mod Listing
pub mod Unique
use telecloud_subscription_r.Base.{
  ℕ, ◌+◌, ◌-◌, String, Bool, true, false, not, ◌&&◌, ◌||◌, Option, none, some, List, [], ◌∷◌, ◌++◌,
  map, keep, any, length, ltb, leb, is_empty, str_eq, Exec, Result, return, raise,
  state_store_error, if◌then◌else◌,
}
use telecloud_subscription_r.Models.{str_leb}
use telecloud_subscription_r.Store.Protocol.{StateStore, Sent, Ack, Outstanding, Known}
use telecloud_subscription_r.Store.Table.{select, upsert, delete}

pub record SentRow : Type 0 where
  pub sent : Sent
  pub open sent use *
  pub sent_at : ℕ

pub record AckRow : Type 0 where
  pub ack : Ack
  pub open ack use *
  pub acked_at : ℕ
  pub expires_at : ℕ

pub record MemberRow : Type 0 where
  pub digest_key : String
  pub ack_key : String
  pub fingerprint : String
  pub recorded_at : ℕ

pub record Database : Type 0 where
  pub digest_members : List MemberRow
  pub known_components : List Known
  pub acknowledgements : List AckRow
  pub sent_notifications : List SentRow

abbrev pub empty_database : Database
empty_database = record {
  digest_members = [];
  known_components = [];
  acknowledgements = [];
  sent_notifications = [];
}

-- the primary keys
abbrev pub sent_key : SentRow → String
sent_key r = r.sent.scope

abbrev pub acked_key : AckRow → String
acked_key r = r.ack.ack_key

abbrev pub known_key : Known → String
known_key r = r.component_id

is_sent : String → Option SentRow → Bool
is_sent dedup_key none = false
is_sent dedup_key (some r) = str_eq r.sent.dedup_key dedup_key

unfoldable pub sent_in : String → String → Database → Bool
unfolding select is_sent
sent_in scope dedup_key db = is_sent dedup_key (select sent_key scope db.sent_notifications)

-- the row that is inserted
abbrev pub sent_row : Sent → ℕ → SentRow
sent_row new now = record { sent = new; sent_at = now }

-- `DO UPDATE SET`: the recipient, the channel and the component id of the old row stay.
replace_sent : Sent → ℕ → SentRow → SentRow
replace_sent new now r = record {
  sent = record (r.sent) {
    dedup_key = new.dedup_key;
    status = new.status;
    rung = new.rung;
    ack_key = new.ack_key;
    fingerprint = new.fingerprint;
  };
  sent_at = now;
}

unfoldable pub put_sent : Sent → ℕ → Database → Database
unfolding upsert replace_sent
put_sent new now db = record db {
  sent_notifications =
      upsert sent_key new.scope (sent_row new now) (replace_sent new now) db.sent_notifications;
}

-- whether the primary key (digest_key, ack_key) is taken
has_member : String → String → List MemberRow → Bool
has_member digest_key ack_key rows =
    any (λ r. str_eq r.digest_key digest_key && str_eq r.ack_key ack_key) rows

-- `executemany`: a row whose key is taken raises `IntegrityError`, and the rows before it stay.
insert_members :
    String → ℕ → List (String × String) → List MemberRow → Result (Unit {0}) × List MemberRow
unfolding has_member
insert_members digest_key now [] rows = (return tt, rows)
insert_members digest_key now ((ack, fp) ∷ members) rows =
    let rest = insert_members digest_key now members (
      rows
      ++ record { digest_key = digest_key; ack_key = ack; fingerprint = fp; recorded_at = now }
        ∷ []) in
    if has_member digest_key ack rows
    then (raise (state_store_error "digest membership write failed"), rows)
    else rest

unfoldable pub put_members :
    String → List (String × String) → ℕ → Database → Result (Unit {0}) × Database
unfolding insert_members
put_members digest_key members now db =
    let (r, rows) =
      insert_members digest_key now members
        (keep (λ r. not (str_eq r.digest_key digest_key)) db.digest_members) in
    (r, record db { digest_members = rows })

unfoldable pub insert_member : String × String → List (String × String) → List (String × String)
insert_member m [] = m ∷ []
insert_member m (m' ∷ ms) =
    let later = insert_member m ms in if str_leb m.0 m'.0 then m ∷ m' ∷ ms else m' ∷ later

unfoldable pub by_ack_key : List (String × String) → List (String × String)
unfolding insert_member
by_ack_key [] = []
by_ack_key (m ∷ ms) = insert_member m (by_ack_key ms)

-- The statement names no order. SQLite looks the rows up in the index of the primary key, and gives
-- them by `ack_key`.
unfoldable pub members_in : String → Database → List (String × String)
unfolding by_ack_key
members_in digest_key db = by_ack_key (
    map (λ r. (r.ack_key, r.fingerprint))
      (keep (λ r. str_eq r.digest_key digest_key) db.digest_members))

unfoldable pub put_seen : List (String × String) → ℕ → List Known → List Known
unfolding upsert
put_seen [] now rows = rows
put_seen ((cid, name) ∷ components) now rows = put_seen components now (
    upsert known_key cid (record { component_id = cid; name = name; last_seen = now })
      (λ r. record r { name = name; last_seen = now }) rows)

-- `ORDER BY sent_at DESC LIMIT 1`; of rows sent at one time, the one that was inserted first
newest : Option SentRow → List SentRow → Option SentRow
newest best [] = best
newest none (r ∷ rs) = newest (some r) rs
newest (some b) (r ∷ rs) = newest (some (if ltb b.sent_at r.sent_at then r else b)) rs

shown : Option SentRow → Option String
shown none = none
shown (some r) = if is_empty r.sent.fingerprint then none else some r.sent.fingerprint

unfoldable pub fingerprint_in : String → Database → Option String
unfolding newest shown
fingerprint_in ack_key db =
    shown (newest none (keep (λ r. str_eq r.sent.ack_key ack_key) db.sent_notifications))

in_force : String → ℕ → Option AckRow → Bool
in_force fingerprint now none = false
in_force fingerprint now (some r) = str_eq r.ack.fingerprint fingerprint && ltb now r.expires_at

unfoldable pub acked_in : String → String → ℕ → Database → Bool
unfolding select in_force
acked_in ack_key fingerprint now db =
    in_force fingerprint now (select acked_key ack_key db.acknowledgements)

abbrev pub ack_row : Ack → ℕ → ℕ → AckRow
ack_row new ttl now = record { ack = new; acked_at = now; expires_at = now + ttl }

replace_ack : Ack → ℕ → ℕ → AckRow → AckRow
replace_ack new ttl now r = record {
  ack = record (r.ack) { fingerprint = new.fingerprint; acked_by = new.acked_by };
  acked_at = now;
  expires_at = now + ttl;
}

unfoldable pub put_ack : Ack → ℕ → ℕ → Database → Database
unfolding upsert replace_ack
put_ack new ttl now db = record db {
  acknowledgements =
      upsert acked_key new.ack_key (ack_row new ttl now) (replace_ack new ttl now)
        db.acknowledgements;
}

-- `SELECT DISTINCT`: each row once, where it stands first
distinct_from : List Outstanding → List Outstanding → List Outstanding
distinct_from found [] = []
distinct_from found (o ∷ os) =
    let seen = distinct_from found os in
    let rest = distinct_from (o ∷ found) os in
    let same = λ (q : Outstanding).
      str_eq q.ack_key o.ack_key
      && str_eq q.status o.status
      && str_eq q.rung o.rung
      && str_eq q.fingerprint o.fingerprint in
    if any same found then seen else o ∷ rest

unfoldable pub acknowledgeable_in : String → Database → List Outstanding
unfolding distinct_from
acknowledgeable_in component_id db = distinct_from [] (
    map
      (λ r. record {
        ack_key = r.sent.ack_key;
        status = r.sent.status;
        rung = r.sent.rung;
        fingerprint = r.sent.fingerprint;
      })
      (keep (λ r. str_eq r.sent.component_id component_id && not (is_empty r.sent.ack_key))
        db.sent_notifications))

-- What `prune` deletes: deliveries before the cutoff, and acknowledgements that have lapsed.
unfoldable pub pruned : ℕ → ℕ → Database → Database
pruned cutoff now db = record db {
  sent_notifications = keep (λ r. not (ltb r.sent_at cutoff)) db.sent_notifications;
  acknowledgements = keep (λ r. not (ltb r.expires_at now)) db.acknowledgements;
}

-- the sum of the two row counts
unfoldable pub removed : ℕ → ℕ → Database → ℕ
removed cutoff now db =
    length (keep (λ r. ltb r.sent_at cutoff) db.sent_notifications)
    + length (keep (λ r. ltb r.expires_at now) db.acknowledgements)
