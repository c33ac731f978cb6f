-- ===== src/Store/Sqlite/Laws.antt =====
-- What the methods of an open store answer after one another.
use mathlib.Core.List.{Perm}
use telecloud_subscription_r.Base.{
  ℕ, ◌+◌, ◌-◌, ◌≤◌, String, ◌≡◌, refl, ap, ◌∙◌, return-if, true, false, ◌&&◌, some, List, str_eq,
  is_empty, ltb, return, raise, state_store_error, if◌then◌else◌,
}
use telecloud_subscription_r.Store.Database.{Database, sent_in, acked_in}
use telecloud_subscription_r.Store.Database.Acknowledgements.{acked_in-put_ack, acked_in-pruned}
use telecloud_subscription_r.Store.Database.Deliveries.{
  sent_in-put_sent, SentBefore, fingerprint_in-put_sent,
}
use telecloud_subscription_r.Store.Database.Digests.{
  distinct_keys, put_members_outcome, members_in-put_members,
}
use telecloud_subscription_r.Store.Database.Unique.{IsKeyed}
use telecloud_subscription_r.Store.Protocol.{Sent, Ack}
use telecloud_subscription_r.Store.Sqlite.{
  SqliteStateStore, already_sent, record_sent, is_acknowledged, acknowledge, find_fingerprint,
  record_digest_members, find_digest_members, prune,
}

-- a store with a working connection
abbrev pub opened : Database → SqliteStateStore
opened db = record { connection = some db; broken = false }

module _ (db : Database) where
  -- A delivery that was recorded is found again; another delivery to its scope takes its place,
  -- and a delivery to another scope does not.
  pub already_sent-record_sent :
      (new : Sent) (now : ℕ) (scope dedup_key : String)
      → (already_sent scope dedup_key (record_sent new now (opened db)).1).0 ≡ (
          if str_eq new.scope scope
          then return (str_eq new.dedup_key dedup_key)
          else (already_sent scope dedup_key (opened db)).0)
  unfolding already_sent record_sent
  already_sent-record_sent new now scope dedup_key =
      ap return (sent_in-put_sent new now scope dedup_key db)
      ∙ return-if (str_eq new.scope scope) (str_eq new.dedup_key dedup_key)
          (sent_in scope dedup_key db)

  -- An acknowledgement holds for its own situation, only with the facts it was made against, and
  -- until `ttl` seconds have passed; the acknowledgements of other situations do not change.
  pub is_acknowledged-acknowledge :
      (new : Ack) (ttl now : ℕ) (ack_key fingerprint : String) (later : ℕ)
      → (is_acknowledged ack_key fingerprint later (acknowledge new ttl now (opened db)).1).0 ≡ (
          if str_eq new.ack_key ack_key
          then return (str_eq new.fingerprint fingerprint && ltb later (now + ttl))
          else (is_acknowledged ack_key fingerprint later (opened db)).0)
  unfolding is_acknowledged acknowledge
  is_acknowledged-acknowledge new ttl now ack_key fingerprint later =
      ap return (acked_in-put_ack new ttl now ack_key fingerprint later db)
      ∙ return-if (str_eq new.ack_key ack_key)
          (str_eq new.fingerprint fingerprint && ltb later (now + ttl))
          (acked_in ack_key fingerprint later db)

  -- The fingerprint found for a situation is the one of the delivery that was recorded last.
  pub find_fingerprint-record_sent :
      (new : Sent) (now : ℕ)
      → is_empty new.fingerprint ≡ false
      → SentBefore new.ack_key new now db.sent_notifications
      → (find_fingerprint new.ack_key (record_sent new now (opened db)).1).0
        ≡ return (some new.fingerprint)
  unfolding find_fingerprint record_sent
  find_fingerprint-record_sent new now f h = ap return (fingerprint_in-put_sent new now db f h)

  -- Recording the members of a digest succeeds exactly if no situation stands twice among them;
  -- if one does, the write raises.
  pub record_digest_members_outcome :
      (digest_key : String) (members : List (String × String)) (now : ℕ)
      → (record_digest_members digest_key members now (opened db)).0 ≡ (
          if distinct_keys members
          then return tt
          else raise (state_store_error "digest membership write failed"))
  unfolding record_digest_members
  record_digest_members_outcome digest_key members now =
      put_members_outcome digest_key now members db

  -- Members of a digest that are recorded are found again, each once, in some order and without
  -- those that were recorded for it before, if no situation stands twice among them.
  pub find_digest_members-record :
      (digest_key : String) (members : List (String × String)) (now : ℕ)
      → distinct_keys members ≡ true
      → (found : List (String × String)) × ((find_digest_members digest_key
            (record_digest_members digest_key members now (opened db)).1).0
          ≡ return found)
        × Perm found members
  unfolding record_digest_members find_digest_members
  find_digest_members-record digest_key members now distinct =
      (_, refl, members_in-put_members digest_key now members db distinct)

  -- Pruning changes no answer about an acknowledgement from then on.
  pub is_acknowledged-prune :
      (older_than_seconds now later : ℕ) (ack_key fingerprint : String)
      → IsKeyed db
      → now ≤ later
      → (is_acknowledged ack_key fingerprint later (prune older_than_seconds now (opened db)).1).0
        ≡ (is_acknowledged ack_key fingerprint later (opened db)).0
  unfolding is_acknowledged prune
  is_acknowledged-prune older_than_seconds now later ack_key fingerprint keyed h =
      ap return
        (acked_in-pruned (now - older_than_seconds) now later ack_key fingerprint db keyed.acked h)
