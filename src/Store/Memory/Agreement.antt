-- ===== src/Store/Memory/Agreement.antt =====
-- The in-process store answers like the SQLite store about repeats and confirmations.
use telecloud_subscription_r.Base.{
  ℕ, ◌+◌, String, ◌≡◌, refl, sym, ◌∙◌, ap, Bool, true, false, ◌&&◌, Option, none, some, List, [],
  ◌∷◌, ltb, str_eq, Result, return, return-injective, Bool-cases, inl, inr, if◌then◌else◌,
}
use telecloud_subscription_r.Store.Database.{Database, empty_database, put_sent, put_ack}
use telecloud_subscription_r.Store.Database.Acknowledgements.{acked_in-put_ack}
use telecloud_subscription_r.Store.Database.Deliveries.{sent_in-put_sent}
use telecloud_subscription_r.Store.Memory.{
  MemoryStateStore, cleared, Row, AckItem, row_key, row_of, ack_item_key, ack_item, is_row, holds,
  already_sent, record_sent, is_acknowledged, acknowledge,
}
use telecloud_subscription_r.Store.Protocol.{Sent, Ack}
use telecloud_subscription_r.Store.Sqlite.{
  SqliteStateStore, already_sent as sqlite_already_sent, record_sent as sqlite_record_sent,
  is_acknowledged as sqlite_is_acknowledged, acknowledge as sqlite_acknowledge,
}
use telecloud_subscription_r.Store.Sqlite.Laws.{opened}
use telecloud_subscription_r.Store.Table.{select, select-upsert, upserted}

abbrev answer : {A : Type 0} → Result A × MemoryStateStore → Result A
answer o = o.0

already_sent-after :
    (new : Sent) (now : ℕ) (scope dedup_key : String) (s : MemoryStateStore)
    → answer (already_sent scope dedup_key (record_sent new now s).1)
      ≡ return (
          if str_eq new.scope scope
          then str_eq new.dedup_key dedup_key
          else is_row dedup_key (select row_key scope s.rows))
unfolding already_sent record_sent is_row
already_sent-after new now scope dedup_key s =
    rw
      (select-upsert row_key new.scope scope (row_of new now)
        (λ old. record old { dedup_key = new.dedup_key; sent_at = now }) s.rows refl (λ r. refl))
      (elim (Bool-cases (str_eq new.scope scope)) [
        | inr other ↦ rw other refl
        | inl same ↦ rw same (after (select row_key new.scope s.rows))
      ])
  where
    after :
        (o : Option Row)
        → return (
            is_row dedup_key (
              some (
                upserted row_key
                  (row_of new now)
                  (λ old. record old { dedup_key = new.dedup_key; sent_at = now })
                  o)))
          ≡ return (str_eq new.dedup_key dedup_key)
    after none = refl
    after (some r) = refl

is_acknowledged-after :
    (new : Ack) (ttl now : ℕ) (ack_key fingerprint : String) (later : ℕ) (s : MemoryStateStore)
    → answer (is_acknowledged ack_key fingerprint later (acknowledge new ttl now s).1)
      ≡ return (
          if str_eq new.ack_key ack_key
          then str_eq new.fingerprint fingerprint && ltb later (now + ttl)
          else holds fingerprint later (select ack_item_key ack_key s.acks))
unfolding is_acknowledged acknowledge holds
is_acknowledged-after new ttl now ack_key fingerprint later s =
    rw
      (select-upsert ack_item_key new.ack_key ack_key (ack_item new ttl now)
        (λ old. record old {
          fingerprint = new.fingerprint;
          expires_at = now + ttl;
          acked_by = new.acked_by;
        })
        s.acks refl (λ r. refl))
      (elim (Bool-cases (str_eq new.ack_key ack_key)) [
        | inr other ↦ rw other refl
        | inl same ↦ rw same (after (select ack_item_key new.ack_key s.acks))
      ])
  where
    after :
        (o : Option AckItem)
        → return (
            holds fingerprint later (
              some (
                upserted ack_item_key
                  (ack_item new ttl now)
                  (λ old. record old {
                    fingerprint = new.fingerprint;
                    expires_at = now + ttl;
                    acked_by = new.acked_by;
                  })
                  o)))
          ≡ return (str_eq new.fingerprint fingerprint && ltb later (now + ttl))
    after none = refl
    after (some r) = refl

-- a record of a delivery, or a confirmation, with its times
pub data Write : Type 0 where
  sending : Sent → ℕ → Write
  confirming : Ack → ℕ → ℕ → Write

abbrev pub in_memory : List Write → MemoryStateStore → MemoryStateStore
in_memory [] s = s
in_memory (sending new now ∷ ws) s = in_memory ws (record_sent new now s).1
in_memory (confirming new ttl now ∷ ws) s = in_memory ws (acknowledge new ttl now s).1

abbrev pub in_sqlite : List Write → SqliteStateStore → SqliteStateStore
in_sqlite [] s = s
in_sqlite (sending new now ∷ ws) s = in_sqlite ws (sqlite_record_sent new now s).1
in_sqlite (confirming new ttl now ∷ ws) s = in_sqlite ws (sqlite_acknowledge new ttl now s).1

-- The two stores give the same answers about repeats and confirmations, at every time.
pub record Agrees (m : MemoryStateStore) (s : SqliteStateStore) : Type 0 where
  pub repeats :
      (scope dedup_key : String)
      → (already_sent scope dedup_key m).0 ≡ (sqlite_already_sent scope dedup_key s).0
  pub confirmations :
      (ack_key fingerprint : String) (now : ℕ)
      → (is_acknowledged ack_key fingerprint now m).0
        ≡ (sqlite_is_acknowledged ack_key fingerprint now s).0

merge :
    {A : Type 0} (b : Bool) (x : A) {y z : A} → y ≡ z → (if b then x else y) ≡ (if b then x else z)
merge true x e = refl
merge false x e = e

module _ (m : MemoryStateStore) (db : Database) (h : Agrees m (opened db)) where
  sending-Agrees :
      (new : Sent) (now : ℕ) → Agrees (record_sent new now m).1 (opened (put_sent new now db))
  unfolding already_sent record_sent is_acknowledged sqlite_already_sent sqlite_is_acknowledged
      put_sent
  sending-Agrees new now = record {
    repeats = λ scope dedup_key.
        already_sent-after new now scope dedup_key m
        ∙ ap return (
            merge (str_eq new.scope scope) (str_eq new.dedup_key dedup_key)
              (return-injective (h.repeats scope dedup_key))
            ∙ sym (sent_in-put_sent new now scope dedup_key db));
    confirmations = h.confirmations;
  }

  confirming-Agrees :
      (new : Ack) (ttl now : ℕ)
      → Agrees (acknowledge new ttl now m).1 (opened (put_ack new ttl now db))
  unfolding already_sent acknowledge is_acknowledged sqlite_already_sent sqlite_is_acknowledged
      put_ack
  confirming-Agrees new ttl now = record {
    repeats = h.repeats;
    confirmations = λ ack_key fingerprint later.
        is_acknowledged-after new ttl now ack_key fingerprint later m
        ∙ ap return (
            merge (str_eq new.ack_key ack_key)
              (str_eq new.fingerprint fingerprint && ltb later (now + ttl))
              (return-injective (h.confirmations ack_key fingerprint later))
            ∙ sym (acked_in-put_ack new ttl now ack_key fingerprint later db));
  }

writes-Agrees :
    (ws : List Write) (m : MemoryStateStore) (db : Database)
    → Agrees m (opened db)
    → Agrees (in_memory ws m) (in_sqlite ws (opened db))
unfolding sqlite_record_sent sqlite_acknowledge
writes-Agrees [] m db h = h
writes-Agrees (sending new now ∷ ws) m db h =
    writes-Agrees ws (record_sent new now m).1 (put_sent new now db) (sending-Agrees m db h new now)
writes-Agrees (confirming new ttl now ∷ ws) m db h =
    writes-Agrees ws (acknowledge new ttl now m).1 (put_ack new ttl now db)
      (confirming-Agrees m db h new ttl now)

-- After any deliveries and confirmations, recorded in both stores from empty ones and in the same
-- order, the in-process store and the SQLite store agree on what repeats and on what is confirmed.
pub memory-Agrees_sqlite :
    (ws : List Write) → Agrees (in_memory ws cleared) (in_sqlite ws (opened empty_database))
unfolding already_sent is_acknowledged sqlite_already_sent sqlite_is_acknowledged
memory-Agrees_sqlite ws =
    writes-Agrees ws cleared empty_database (record {
      repeats = λ scope dedup_key. refl;
      confirmations = λ ack_key fingerprint now. refl;
    })
