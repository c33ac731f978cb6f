-- ===== src/Store/Memory.antt =====
-- src/tele_scraper/state/store.py, `MemoryStateStore`: five dictionaries, each a list of items in
-- the order of their insertion. Its methods raise nothing.
use telecloud_subscription_r.Base.{
  ℕ, ◌+◌, ◌-◌, String, Bool, true, false, not, ◌&&◌, Option, none, some, List, [], ◌∷◌, map, keep,
  length, ltb, is_empty, str_eq, Exec, Result, return, pure, if◌then◌else◌,
}
use telecloud_subscription_r.Store.Protocol.{StateStore, Sent, Ack, Outstanding, Known}
use telecloud_subscription_r.Store.Table.{select, upsert, delete}
pub mod Agreement

-- the items of `_rows`, `_acks`, `_sent_fingerprints` and `_digests`
pub record Row : Type 0 where
  pub scope : String
  pub dedup_key : String
  pub sent_at : ℕ

pub record AckItem : Type 0 where
  pub ack_key : String
  pub fingerprint : String
  pub expires_at : ℕ
  pub acked_by : String

pub record Situation : Type 0 where
  pub ack_key : String
  pub fingerprint : String
  pub status : String
  pub rung : String
  pub component_id : String

pub record Digest : Type 0 where
  pub digest_key : String
  pub members : List (String × String)

pub record MemoryStateStore : Type 0 where
  pub rows : List Row
  pub acks : List AckItem
  pub sent_fingerprints : List Situation
  pub known : List Known
  pub digests : List Digest

-- `__init__`, and what `close` leaves
abbrev pub cleared : MemoryStateStore
cleared = record { rows = []; acks = []; sent_fingerprints = []; known = []; digests = [] }

abbrev pub row_key : Row → String
row_key r = r.scope

abbrev pub ack_item_key : AckItem → String
ack_item_key a = a.ack_key

abbrev pub situation_key : Situation → String
situation_key s = s.ack_key

abbrev pub digest_item_key : Digest → String
digest_item_key d = d.digest_key

abbrev pub seen_key : Known → String
seen_key k = k.component_id

is_row : String → Option Row → Bool
is_row dedup_key none = false
is_row dedup_key (some r) = str_eq r.dedup_key dedup_key

unfoldable pub already_sent : String → String → Exec MemoryStateStore Bool
unfolding select is_row
already_sent scope dedup_key s = (return (is_row dedup_key (select row_key scope s.rows)), s)

abbrev row_of : Sent → ℕ → Row
row_of new now = record { scope = new.scope; dedup_key = new.dedup_key; sent_at = now }

-- `d[key] = value` keeps the place of a key that is there.
put_situation : Sent → List Situation → List Situation
unfolding upsert
put_situation new situations =
    upsert situation_key new.ack_key
      (record {
        ack_key = new.ack_key;
        fingerprint = new.fingerprint;
        status = new.status;
        rung = new.rung;
        component_id = new.component_id;
      })
      (λ old. record old {
        fingerprint = new.fingerprint;
        status = new.status;
        rung = new.rung;
        component_id = new.component_id;
      })
      situations

unfoldable pub record_sent : Sent → ℕ → Exec MemoryStateStore (Unit {0})
unfolding upsert put_situation
record_sent new now s = (
  return tt,
  record s {
    rows =
        upsert row_key new.scope (row_of new now)
          (λ old. record old { dedup_key = new.dedup_key; sent_at = now }) s.rows;
    sent_fingerprints =
        if is_empty new.ack_key then s.sent_fingerprints else put_situation new s.sent_fingerprints;
  },
)

fingerprint_of : Option Situation → Option String
fingerprint_of none = none
fingerprint_of (some r) = some r.fingerprint

unfoldable pub find_fingerprint : String → Exec MemoryStateStore (Option String)
unfolding select fingerprint_of
find_fingerprint ack_key s =
    (return (fingerprint_of (select situation_key ack_key s.sent_fingerprints)), s)

unfoldable pub record_digest_members :
    String → List (String × String) → ℕ → Exec MemoryStateStore (Unit {0})
unfolding upsert
record_digest_members digest_key members now s = (
  return tt,
  record s {
    digests =
        upsert digest_item_key digest_key (record { digest_key = digest_key; members = members })
          (λ old. record old { members = members }) s.digests;
  },
)

members_of : Option Digest → List (String × String)
members_of none = []
members_of (some d) = d.members

unfoldable pub find_digest_members : String → Exec MemoryStateStore (List (String × String))
unfolding select members_of
find_digest_members digest_key s =
    (return (members_of (select digest_item_key digest_key s.digests)), s)

see_all : List (String × String) → ℕ → List Known → List Known
unfolding upsert
see_all [] now known = known
see_all ((cid, name) ∷ components) now known = see_all components now (
    upsert seen_key cid (record { component_id = cid; name = name; last_seen = now })
      (λ old. record old { name = name; last_seen = now }) known)

unfoldable pub record_seen : List (String × String) → ℕ → Exec MemoryStateStore (Unit {0})
unfolding see_all
record_seen components now s = (return tt, record s { known = see_all components now s.known })

unfoldable pub list_known : Exec MemoryStateStore (List Known)
list_known s = (return s.known, s)

unfoldable pub forget : String → Exec MemoryStateStore (Unit {0})
unfolding delete
forget component_id s = (return tt, record s { known = delete seen_key component_id s.known })

holds : String → ℕ → Option AckItem → Bool
holds fingerprint now none = false
holds fingerprint now (some a) = str_eq a.fingerprint fingerprint && ltb now a.expires_at

unfoldable pub is_acknowledged : String → String → ℕ → Exec MemoryStateStore Bool
unfolding select holds
is_acknowledged ack_key fingerprint now s =
    (return (holds fingerprint now (select ack_item_key ack_key s.acks)), s)

abbrev ack_item : Ack → ℕ → ℕ → AckItem
ack_item new ttl_seconds now = record {
  ack_key = new.ack_key;
  fingerprint = new.fingerprint;
  expires_at = now + ttl_seconds;
  acked_by = new.acked_by;
}

unfoldable pub acknowledge : Ack → ℕ → ℕ → Exec MemoryStateStore (Unit {0})
unfolding upsert
acknowledge new ttl_seconds now s = (
  return tt,
  record s {
    acks =
        upsert ack_item_key new.ack_key (ack_item new ttl_seconds now)
          (λ old. record old {
            fingerprint = new.fingerprint;
            expires_at = now + ttl_seconds;
            acked_by = new.acked_by;
          })
          s.acks;
  },
)

unfoldable pub find_acknowledgeable : String → Exec MemoryStateStore (List Outstanding)
find_acknowledgeable component_id s = (
  return (
      map
        (λ r. record {
          ack_key = r.ack_key;
          status = r.status;
          rung = r.rung;
          fingerprint = r.fingerprint;
        })
        (keep (λ r. str_eq r.component_id component_id) s.sent_fingerprints)),
  s,
)

abbrev is_stale : ℕ → Row → Bool
is_stale cutoff r = ltb r.sent_at cutoff

abbrev is_lapsed : ℕ → AckItem → Bool
is_lapsed now a = ltb a.expires_at now

-- `now` stands for the readings of the clock; a cutoff before the epoch deletes no row.
unfoldable pub prune : ℕ → ℕ → Exec MemoryStateStore ℕ
prune older_than_seconds now s =
    let cutoff = now - older_than_seconds in
    (
      return (length (keep (is_stale cutoff) s.rows) + length (keep (is_lapsed now) s.acks)),
      record s {
        rows = keep (λ r. not (is_stale cutoff r)) s.rows;
        acks = keep (λ a. not (is_lapsed now a)) s.acks;
      },
    )

unfoldable pub check : Exec MemoryStateStore (Unit {0})
check = pure tt

unfoldable pub close : Exec MemoryStateStore (Unit {0})
close s = (return tt, cleared)

abbrev pub memory : StateStore
memory = record {
  State = MemoryStateStore;
  already_sent = already_sent;
  record_sent = record_sent;
  find_fingerprint = find_fingerprint;
  record_digest_members = record_digest_members;
  find_digest_members = find_digest_members;
  record_seen = record_seen;
  list_known = list_known;
  forget = forget;
  is_acknowledged = is_acknowledged;
  acknowledge = acknowledge;
  find_acknowledgeable = find_acknowledgeable;
  prune = prune;
  check = check;
  close = close;
}
