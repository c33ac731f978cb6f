-- ===== src/Store/Database/Unique.antt =====
-- Every write keeps the primary keys unique.
use telecloud_subscription_r.Base.{ℕ, String, refl, not, List, [], ◌∷◌, ltb}
use telecloud_subscription_r.Store.Database.{
  Database, sent_key, acked_key, known_key, put_sent, replace_sent, sent_row, put_ack, replace_ack,
  ack_row, put_seen, put_members, pruned,
}
use telecloud_subscription_r.Store.Protocol.{Sent, Ack, Known}
use telecloud_subscription_r.Store.Table.{
  delete, HasUniqueKeys, upsert-HasUniqueKeys, delete-HasUniqueKeys, keep-HasUniqueKeys,
}

pub record IsKeyed (db : Database) : Type 0 where
  pub known : HasUniqueKeys known_key db.known_components
  pub acked : HasUniqueKeys acked_key db.acknowledgements
  pub sent : HasUniqueKeys sent_key db.sent_notifications

module _ {db : Database} (h : IsKeyed db) where
  pub put_sent-IsKeyed : (new : Sent) (now : ℕ) → IsKeyed (put_sent new now db)
  unfolding put_sent replace_sent
  put_sent-IsKeyed new now = record {
    known = h.known;
    acked = h.acked;
    sent =
        upsert-HasUniqueKeys sent_key new.scope (sent_row new now) (replace_sent new now)
          db.sent_notifications refl (λ r. refl) h.sent;
  }

  pub put_ack-IsKeyed : (new : Ack) (ttl now : ℕ) → IsKeyed (put_ack new ttl now db)
  unfolding put_ack replace_ack
  put_ack-IsKeyed new ttl now = record {
    known = h.known;
    acked =
        upsert-HasUniqueKeys acked_key new.ack_key (ack_row new ttl now) (replace_ack new ttl now)
          db.acknowledgements refl (λ r. refl) h.acked;
    sent = h.sent;
  }

  pub pruned-IsKeyed : (cutoff now : ℕ) → IsKeyed (pruned cutoff now db)
  unfolding pruned
  pruned-IsKeyed cutoff now = record {
    known = h.known;
    acked =
        keep-HasUniqueKeys acked_key (λ r. not (ltb r.expires_at now)) db.acknowledgements h.acked;
    sent =
        keep-HasUniqueKeys sent_key (λ r. not (ltb r.sent_at cutoff)) db.sent_notifications h.sent;
  }

  pub put_members-IsKeyed :
      (digest_key : String) (members : List (String × String)) (now : ℕ)
      → IsKeyed (put_members digest_key members now db).1
  unfolding put_members
  put_members-IsKeyed digest_key members now = record {
    known = h.known;
    acked = h.acked;
    sent = h.sent;
  }

put_seen-HasUniqueKeys :
    (cs : List (String × String)) (now : ℕ) (rows : List Known)
    → HasUniqueKeys known_key rows
    → HasUniqueKeys known_key (put_seen cs now rows)
unfolding put_seen
put_seen-HasUniqueKeys [] now rows u = u
put_seen-HasUniqueKeys ((cid, name) ∷ cs) now rows u =
    put_seen-HasUniqueKeys cs now _ (upsert-HasUniqueKeys known_key cid _ _ rows refl (λ r. refl) u)

module _ {db : Database} (h : IsKeyed db) where
  pub put_seen-IsKeyed :
      (cs : List (String × String)) (now : ℕ)
      → IsKeyed (record db { known_components = put_seen cs now db.known_components })
  put_seen-IsKeyed cs now = record {
    known = put_seen-HasUniqueKeys cs now db.known_components h.known;
    acked = h.acked;
    sent = h.sent;
  }

  pub forget-IsKeyed :
      (cid : String)
      → IsKeyed (record db { known_components = delete known_key cid db.known_components })
  forget-IsKeyed cid = record {
    known = delete-HasUniqueKeys known_key cid db.known_components h.known;
    acked = h.acked;
    sent = h.sent;
  }
