-- ===== src/Notify/Acks/Confirming.antt =====
-- A press of a Confirm button, through to the answers that the store gives afterwards.
use telecloud_subscription_r.Base.{
  ℕ, suc, ◌+◌, ◌*◌, String, ◌≡◌, refl, ◌∙◌, ap, true, false, ◌&&◌, some, List, [], ◌∷◌, ltb, str_eq,
  eq_refl, return,
}
use telecloud_subscription_r.Base.Text.{split, starts_with}
use telecloud_subscription_r.Config.{Settings}
use telecloud_subscription_r.Notify.Acks.{
  digest_prefix, unpack, Listener, clock_reading, in_store, ttl_seconds, confirm, record_single,
  record_found, record_press,
}
use telecloud_subscription_r.Store.Database.{Database, fingerprint_in, put_ack}
use telecloud_subscription_r.Store.Database.Acknowledgements.{acked_in-put_ack}
use telecloud_subscription_r.Store.Sqlite.{
  sqlite, SqliteStateStore, find_fingerprint, acknowledge, is_acknowledged,
}
use telecloud_subscription_r.Store.Sqlite.Laws.{opened}

module _ (settings : Settings) (db : Database) (clock : ℕ → ℕ) (offset : ℕ)
    (answers : List (String × String)) where
  abbrev pub listening : ℕ → Database → Listener SqliteStateStore
  listening n d = record {
    store = opened d;
    clock = clock;
    ticks = n;
    offset = offset;
    answers = answers;
  }

  pub single_lem :
      (key by fp cid status rung : String) (n : ℕ)
      → record_single sqlite settings key (some (cid, status, rung)) by fp (listening n db) ≡ (
        return true,
        listening (suc n) (
            put_ack
              (record {
                ack_key = key;
                component_id = cid;
                status = status;
                rung = rung;
                fingerprint = fp;
                acked_by = by;
              })
              (settings.ack_ttl_days * 86400)
              (clock n)
              db),
      )
  unfolding record_single confirm in_store clock_reading ttl_seconds acknowledge
  single_lem key by fp cid status rung n = refl

  pub press_lem :
      (key by fp cid status rung : String) (n : ℕ)
      → starts_with key digest_prefix ≡ false
      → split b'|' key ≡ cid ∷ status ∷ rung ∷ []
      → fingerprint_in key db ≡ some fp
      → record_press sqlite settings key by (listening n db)
        ≡ record_single sqlite settings key (some (cid, status, rung)) by fp (listening n db)
  unfolding record_press in_store record_found unpack find_fingerprint
  press_lem key by fp cid status rung n ours parts found = rw (found, ours, parts) refl

  -- A press on the button of a situation that was sent, and whose key has three parts, confirms it
  -- with the fingerprint it was last sent with: until the time to live has passed since the press,
  -- the situation counts as acknowledged with exactly those facts, whoever asks.
  pub record_press-is_acknowledged :
      (key by fp cid status rung : String) (n : ℕ)
      → starts_with key digest_prefix ≡ false
      → split b'|' key ≡ cid ∷ status ∷ rung ∷ []
      → fingerprint_in key db ≡ some fp
      → (s : SqliteStateStore) × ((record_press sqlite settings key by (listening n db)).0
          ≡ return true)
        × ((record_press sqlite settings key by (listening n db)).1.store ≡ s)
        × ((facts : String) (later : ℕ)
            → (is_acknowledged key facts later s).0
              ≡ return (str_eq fp facts && ltb later (clock n + settings.ack_ttl_days * 86400)))
  unfolding is_acknowledged
  record_press-is_acknowledged key by fp cid status rung n ours parts found =
      let same =
        press_lem key by fp cid status rung n ours parts found
        ∙ single_lem key by fp cid status rung n in
      (
        opened (
            put_ack
              (record {
                ack_key = key;
                component_id = cid;
                status = status;
                rung = rung;
                fingerprint = fp;
                acked_by = by;
              })
              (settings.ack_ttl_days * 86400) (clock n) db),
        ap (λ o. o.0) same,
        ap (λ o. o.1.store) same,
        λ facts later. ap return (
            acked_in-put_ack
              (record {
                ack_key = key;
                component_id = cid;
                status = status;
                rung = rung;
                fingerprint = fp;
                acked_by = by;
              })
              (settings.ack_ttl_days * 86400) (clock n) key facts later db
            ∙ rw (eq_refl key) refl),
      )
