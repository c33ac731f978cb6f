-- ===== src/Store/Database/Deliveries.antt =====
-- What the table of deliveries answers after a delivery is recorded, or old ones are pruned.
use telecloud_subscription_r.Base.{
  ℕ, ◌≤◌, ◌<◌, String, ◌≡◌, refl, Bool, true, false, not, Option, none, some, List, [], ◌∷◌, keep,
  arith, str_eq, eq_iff, ltb, is_empty, if◌then◌else◌, Bool-cases, inl, inr,
}
use telecloud_subscription_r.Store.Database.{
  Database, SentRow, sent_key, is_sent, sent_in, put_sent, sent_row, replace_sent, newest, shown,
  fingerprint_in, pruned,
}
use telecloud_subscription_r.Store.Protocol.{Sent}
use telecloud_subscription_r.Store.Table.{
  select, upsert, select-upsert, select-keep, row_if, HasUniqueKeys, upserted,
}

-- The record of a scope is the last one made for it, and no other scope's record is touched.
pub sent_in-put_sent :
    (new : Sent) (now : ℕ) (scope dedup_key : String) (db : Database)
    → sent_in scope dedup_key (put_sent new now db) ≡ (
        if str_eq new.scope scope
        then str_eq new.dedup_key dedup_key
        else sent_in scope dedup_key db)
unfolding sent_in put_sent is_sent replace_sent
sent_in-put_sent new now scope dedup_key db =
    rw
      (select-upsert sent_key new.scope scope (sent_row new now) (replace_sent new now)
        db.sent_notifications refl (λ r. refl))
      (elim (Bool-cases (str_eq new.scope scope)) [
        | inr other ↦ rw other refl
        | inl same ↦ rw same (after (select sent_key new.scope db.sent_notifications))
      ])
  where
    after :
        (o : Option SentRow)
        → is_sent dedup_key (some (upserted sent_key (sent_row new now) (replace_sent new now) o))
          ≡ str_eq new.dedup_key dedup_key
    after none = refl
    after (some r) = refl

module _ (ack_key : String) (new : Sent) (now : ℕ) where
  -- Every delivery that is on record for this situation was sent before `now`.
  abbrev pub SentBefore : List SentRow → Type 0
  SentBefore [] = Unit
  SentBefore (r ∷ rs) = (str_eq r.sent.ack_key ack_key ≡ true → r.sent_at < now) × SentBefore rs

  abbrev about : SentRow → Bool
  about r = str_eq r.sent.ack_key ack_key

  newest-late :
      (r : SentRow) (rs : List SentRow)
      → SentBefore rs
      → now ≤ r.sent_at
      → newest (some r) (keep about rs) ≡ some r
  unfolding newest
  newest-late r [] h l = refl
  newest-late r (q ∷ rs) h l = elim (Bool-cases (about q)) [
    | inr other ↦ rw other (newest-late r rs h.1 l)
    | inl same ↦ rw same (
        let before = h.0 same in
        let earlier : ltb r.sent_at q.sent_at ≡ false = ground arith in
        rw (earlier, newest) (newest-late r rs h.1 l))
  ]

  abbrev Earlier : Option SentRow → Type 0
  Earlier none = Unit
  Earlier (some b) = b.sent_at < now

  -- A row of this moment wins over earlier ones before and after it.
  newest-wins :
      (best : Option SentRow) (r : SentRow) (rs : List SentRow)
      → r.sent_at ≡ now
      → Earlier best
      → SentBefore rs
      → newest best (r ∷ keep about rs) ≡ some r
  unfolding newest
  newest-wins none r rs at e h = newest-late r rs h (omega arith)
  newest-wins (some b) r rs at e h =
      let newer : ltb b.sent_at r.sent_at ≡ true = ground arith in
      rw (newer, newest) (newest-late r rs h (omega arith))

  -- An earlier row leaves an earlier one as the best so far.
  newest-loses :
      (best : Option SentRow) (r : SentRow)
      → r.sent_at < now
      → Earlier best
      → (best' : Option SentRow) × Earlier best'
        × ((l : List SentRow) → newest best (r ∷ l) ≡ newest best' l)
  unfolding newest
  newest-loses none r h e = (some r, h, λ l. refl)
  newest-loses (some b) r h e = elim (Bool-cases (ltb b.sent_at r.sent_at)) [
    | inl newer ↦ (some r, h, λ l. rw (newer, newest) refl)
    | inr older ↦ (some b, e, λ l. rw (older, newest) refl)
  ]

  newest-upsert :
      (best : Option SentRow) (rs : List SentRow)
      → new.ack_key ≡ ack_key
      → Earlier best
      → SentBefore rs
      → (r : SentRow) × (newest best
            (keep about (upsert sent_key new.scope (sent_row new now) (replace_sent new now) rs))
          ≡ some r)
        × (r.sent.fingerprint ≡ new.fingerprint)
  unfolding upsert replace_sent
  newest-upsert best [] k e h =
      let mine : about (sent_row new now) ≡ true = (eq_iff new.ack_key ack_key).1 k in
      (sent_row new now, rw mine (newest-wins best (sent_row new now) [] refl e tt), refl)
  newest-upsert best (r ∷ rs) k e h = elim (Bool-cases (str_eq (sent_key r) new.scope)) [
    | inl same ↦
        let mine : about (replace_sent new now r) ≡ true = (eq_iff new.ack_key ack_key).1 k in
        (
          replace_sent new now r,
          rw same (rw mine (newest-wins best (replace_sent new now r) rs refl e h.1)),
          refl,
        )
    | inr other ↦ rw other (elim (Bool-cases (about r)) [
      | inr apart ↦ rw apart (newest-upsert best rs k e h.1)
      | inl mine ↦
          let (best', e', step) = newest-loses best r (h.0 mine) e in
          rw (mine, step) (newest-upsert best' rs k e' h.1)
    ])
  ]

-- The fingerprint found for a situation is that of the delivery recorded last, if the earlier ones
-- were sent before it.
pub fingerprint_in-put_sent :
    (new : Sent) (now : ℕ) (db : Database)
    → is_empty new.fingerprint ≡ false
    → SentBefore new.ack_key new now db.sent_notifications
    → fingerprint_in new.ack_key (put_sent new now db) ≡ some new.fingerprint
unfolding fingerprint_in put_sent shown
fingerprint_in-put_sent new now db f h =
    let (r, found, same) = newest-upsert new.ack_key new now none db.sent_notifications refl tt h in
    rw (found, same, f) refl

select-pruned :
    (cutoff now : ℕ) (scope : String) (db : Database)
    → HasUniqueKeys sent_key db.sent_notifications
    → select sent_key scope (pruned cutoff now db).sent_notifications
      ≡ row_if sent_key
          (λ r. not (ltb r.sent_at cutoff))
          (select sent_key scope db.sent_notifications)
unfolding pruned
select-pruned cutoff now scope db u =
    select-keep sent_key (λ r. not (ltb r.sent_at cutoff)) scope db.sent_notifications u
