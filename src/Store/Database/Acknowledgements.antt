-- ===== src/Store/Database/Acknowledgements.antt =====
-- What the table of acknowledgements answers after one is recorded, or lapsed ones are pruned.
use telecloud_subscription_r.Base.{
  ℕ, ◌+◌, ◌≤◌, String, ◌≡◌, refl, not, ◌&&◌, Option, none, some, arith, str_eq, ltb, if◌then◌else◌,
  Bool-cases, inl, inr,
}
use telecloud_subscription_r.Store.Database.{
  Database, AckRow, acked_key, in_force, acked_in, put_ack, ack_row, replace_ack, pruned,
}
use telecloud_subscription_r.Store.Protocol.{Ack}
use telecloud_subscription_r.Store.Table.{
  select, select-upsert, select-keep, row_if, HasUniqueKeys, upserted,
}

-- An acknowledgement holds for its situation, with the facts that it was made against, until it
-- ages out. The acknowledgements of other situations are untouched.
pub acked_in-put_ack :
    (new : Ack) (ttl now : ℕ) (ack_key fingerprint : String) (later : ℕ) (db : Database)
    → acked_in ack_key fingerprint later (put_ack new ttl now db) ≡ (
        if str_eq new.ack_key ack_key
        then str_eq new.fingerprint fingerprint && ltb later (now + ttl)
        else acked_in ack_key fingerprint later db)
unfolding acked_in put_ack in_force replace_ack
acked_in-put_ack new ttl now ack_key fingerprint later db =
    rw
      (select-upsert acked_key new.ack_key ack_key (ack_row new ttl now) (replace_ack new ttl now)
        db.acknowledgements refl (λ r. refl))
      (elim (Bool-cases (str_eq new.ack_key ack_key)) [
        | inr other ↦ rw other refl
        | inl same ↦ rw same (after (select acked_key new.ack_key db.acknowledgements))
      ])
  where
    after :
        (o : Option AckRow)
        → in_force fingerprint later
            (some (upserted acked_key (ack_row new ttl now) (replace_ack new ttl now) o))
          ≡ (str_eq new.fingerprint fingerprint && ltb later (now + ttl))
    after none = refl
    after (some r) = refl

in_force-row_if :
    (now later : ℕ) (fingerprint : String) (o : Option AckRow)
    → now ≤ later
    → in_force fingerprint later (row_if acked_key (λ r. not (ltb r.expires_at now)) o)
      ≡ in_force fingerprint later o
unfolding in_force
in_force-row_if now later fingerprint none h = refl
in_force-row_if now later fingerprint (some r) h = ground arith

-- Pruning forgets no acknowledgement that still holds, now or later.
pub acked_in-pruned :
    (cutoff now later : ℕ) (ack_key fingerprint : String) (db : Database)
    → HasUniqueKeys acked_key db.acknowledgements
    → now ≤ later
    → acked_in ack_key fingerprint later (pruned cutoff now db)
      ≡ acked_in ack_key fingerprint later db
unfolding acked_in pruned
acked_in-pruned cutoff now later ack_key fingerprint db unique h =
    rw (select-keep acked_key (λ r. not (ltb r.expires_at now)) ack_key db.acknowledgements unique)
      (in_force-row_if now later fingerprint (select acked_key ack_key db.acknowledgements) h)
