-- ===== src/Notify/Router/Once.antt =====
-- Where messages repeat by time, a message that went out does not go out again.
use telecloud_subscription_r.Base.{
  String, ℕ, suc, ◌≡◌, refl, sym, subst, ◌∙◌, ap, Bool, true, false, ◌&&◌, Option, none, some, List,
  Result, return, return-injective, and_then-return, not, raise, pure, resume, ◌>>◌, eq_refl,
  if◌then◌else◌,
}
use telecloud_subscription_r.Config.{Settings}
use telecloud_subscription_r.Models.{
  DeliveryResult, NotificationEvent, failure, dedup_key, digest_key, members,
}
use telecloud_subscription_r.Notify.Plan.{scope}
use telecloud_subscription_r.Notify.Router.{
  World, Notifier, time, on_store, admit, admitted, unless_repeated, suppressed, record_members,
  record_delivery, settle, send_to, transmit, or_failure, preview, held_quiet, release, released,
  deliver, delivery_of, is_components,
}
use telecloud_subscription_r.Platform.{Platform, DateTime}
use telecloud_subscription_r.Store.Database.{Database, sent_in, put_sent, put_members}
use telecloud_subscription_r.Store.Database.Deliveries.{sent_in-put_sent}
use telecloud_subscription_r.Store.Sqlite.{
  sqlite, SqliteStateStore, already_sent, record_sent, record_digest_members,
}
use telecloud_subscription_r.Store.Sqlite.Laws.{opened}

module _ (p : Platform) (settings : Settings) (notifiers : String → Option Notifier)
    (render : NotificationEvent → Result String) (environ : String → Option String)
    (event : NotificationEvent) where
  -- The store works, and has the delivery of the message on record.
  abbrev pub IsRecorded : SqliteStateStore → Type 0
  IsRecorded s =
      (db : Database) × (s ≡ opened db) × (sent_in (scope event) (dedup_key p event) db ≡ true)

  -- Recording a digest's members leaves the records of deliveries alone.
  members-IsRecorded :
      (key : String) (ms : List (String × String)) (now : ℕ) (s : SqliteStateStore)
      → IsRecorded s
      → IsRecorded (record_digest_members key ms now s).1
  unfolding record_digest_members put_members sent_in
  members-IsRecorded key ms now s (db, e, h) =
      subst (λ s'. IsRecorded (record_digest_members key ms now s').1) (sym e)
        ((put_members key ms now db).1, refl, h)

  record_members-IsRecorded :
      (b : Bool) (w : World SqliteStateStore)
      → IsRecorded w.store
      → IsRecorded (record_members p sqlite settings b event w).1.store
  unfolding record_members time on_store
  record_members-IsRecorded true w h =
      members-IsRecorded (digest_key event) (members p event) (w.clock w.ticks) w.store h
  record_members-IsRecorded false w h = h

  opened-IsRecorded :
      (w : World SqliteStateStore) (db : Database)
      → IsRecorded
          (record_delivery p sqlite settings event event (record w { store = opened db })).1.store
  unfolding record_delivery time on_store record_sent
  opened-IsRecorded w db =
      let db' = put_sent (delivery_of p sqlite settings event event) (w.clock w.ticks) db in
      record_members-IsRecorded (event.digest && is_components event.ack_mode)
        (record w { store = opened db'; ticks = suc w.ticks })
        (
          db',
          refl,
          sent_in-put_sent (delivery_of p sqlite settings event event) (w.clock w.ticks)
                (scope event) (dedup_key p event) db
              ∙ rw (eq_refl (scope event)) (eq_refl (dedup_key p event)),
        )

  record_delivery-IsRecorded :
      (w : World SqliteStateStore) {db : Database}
      → w.store ≡ opened db
      → IsRecorded (record_delivery p sqlite settings event event w).1.store
  record_delivery-IsRecorded w {db} e =
      subst
        (λ s.
          IsRecorded
            (record_delivery p sqlite settings event event (record w { store = s })).1.store)
        (sym e) (opened-IsRecorded w db)

  state-resume :
      {A B : Type 0} (b : B) (r : Result A) (w : World SqliteStateStore)
      → (resume (λ _. pure b) r w).1 ≡ w
  state-resume b (return a) w = refl
  state-resume b (raise e) w = refl

  settled-IsRecorded :
      (ok : Bool) (result : DeliveryResult) {d : DeliveryResult} (w : World SqliteStateStore)
      {db : Database}
      → ok ≡ result.ok
      → w.store ≡ opened db
      → ((if ok
            then (record_delivery p sqlite settings event event >> pure result)
            else pure result)
          w).0
        ≡ return d
      → d.ok ≡ true
      → IsRecorded
          ((if ok
              then (record_delivery p sqlite settings event event >> pure result)
              else pure result)
            w).1.store
  settled-IsRecorded true result w ok e h good =
      let (r, w') = record_delivery p sqlite settings event event w in
      subst (λ u. IsRecorded u.store) (sym (state-resume result r w'))
        (record_delivery-IsRecorded w e)
  settled-IsRecorded false result w ok e h good = let same = return-injective h in cc

  -- An answer that says the message went out has been recorded.
  settle-IsRecorded :
      (result : DeliveryResult) {d : DeliveryResult} (w : World SqliteStateStore) {db : Database}
      → w.store ≡ opened db
      → (settle p sqlite settings event event result w).0 ≡ return d
      → d.ok ≡ true
      → IsRecorded (settle p sqlite settings event event result w).1.store
  unfolding settle
  settle-IsRecorded result w e h good = settled-IsRecorded result.ok result w refl e h good

  transmit-IsRecorded :
      (notifier : Option Notifier) {d : DeliveryResult} (w : World SqliteStateStore) {db : Database}
      → w.store ≡ opened db
      → (transmit p sqlite settings notifier event event w).0 ≡ return d
      → d.ok ≡ true
      → IsRecorded (transmit p sqlite settings notifier event event w).1.store
  unfolding transmit send_to failure
  transmit-IsRecorded none w e h good = let same = return-injective h in cc
  transmit-IsRecorded (some notifier) w e h good =
      settle-IsRecorded (or_failure event (send_to notifier event w).0) (send_to notifier event w).1
        e h good

  suppressed-absurd :
      (reason : String) {d : DeliveryResult}
      → return (suppressed event reason) ≡ return d
      → d.is_suppressed ≡ false
      → ⊥
  unfolding suppressed
  suppressed-absurd reason h sent = let same = return-injective h in cc

  preview-absurd :
      (w : World SqliteStateStore) {d : DeliveryResult}
      → (preview p sqlite settings render event w).0 ≡ return d
      → d.is_suppressed ≡ false
      → ⊥
  unfolding preview
  preview-absurd w h sent =
      let (subject, a, done) =
        and_then-return (render event) (λ subject. return (suppressed event "dry_run")) h in
      suppressed-absurd "dry_run" done sent

  -- Only a message that was handed over and accepted is answered by an unsuppressed success.
  chosen-IsRecorded :
      (held dry disabled : Bool) (w : World SqliteStateStore) {d : DeliveryResult} {db : Database}
      → w.store ≡ opened db
      → ((if held
            then pure (suppressed event "quiet_hours")
            else if dry
            then preview p sqlite settings render event
            else if disabled
            then pure (suppressed event "notify_disabled")
            else transmit p sqlite settings (notifiers event.target.channel) event event)
          w).0
        ≡ return d
      → d.ok ≡ true
      → d.is_suppressed ≡ false
      → IsRecorded
          ((if held
              then pure (suppressed event "quiet_hours")
              else if dry
              then preview p sqlite settings render event
              else if disabled
              then pure (suppressed event "notify_disabled")
              else transmit p sqlite settings (notifiers event.target.channel) event event)
            w).1.store
  chosen-IsRecorded true dry disabled w e h good sent =
      absurd (suppressed-absurd "quiet_hours" h sent)
  chosen-IsRecorded false true disabled w e h good sent = absurd (preview-absurd w h sent)
  chosen-IsRecorded false false true w e h good sent =
      absurd (suppressed-absurd "notify_disabled" h sent)
  chosen-IsRecorded false false false w e h good sent =
      transmit-IsRecorded (notifiers event.target.channel) w e h good

  release-IsRecorded :
      (now : DateTime) (w : World SqliteStateStore) {d : DeliveryResult} {db : Database}
      → w.store ≡ opened db
      → (release p sqlite settings notifiers render environ now event event w).0 ≡ return d
      → d.ok ≡ true
      → d.is_suppressed ≡ false
      → IsRecorded (release p sqlite settings notifiers render environ now event event w).1.store
  unfolding release
  release-IsRecorded now w e h good sent =
      chosen-IsRecorded (held_quiet p sqlite settings event now) settings.dry_run
        (not settings.notify_enabled) w e h good sent

  -- what the record decides
  repeated-IsRecorded :
      (again : Bool) (now : DateTime) (w : World SqliteStateStore) {d : DeliveryResult}
      {db : Database}
      → w.store ≡ opened db
      → (released p sqlite settings notifiers render environ now event
          (unless_repeated p sqlite event again)
          w).0
        ≡ return d
      → d.ok ≡ true
      → d.is_suppressed ≡ false
      → IsRecorded
          (released p sqlite settings notifiers render environ now event
            (unless_repeated p sqlite event again)
            w).1.store
  unfolding released unless_repeated
  repeated-IsRecorded true now w e h good sent = absurd (suppressed-absurd "dedup" h sent)
  repeated-IsRecorded false now w e h good sent = release-IsRecorded now w e h good sent

  module _ (by_time : settings.require_acknowledgement ≡ false) where
    -- the record is looked up, and the delivery goes on with what it says
    deliver_lem :
        (now : DateTime) (w : World SqliteStateStore) (db : Database)
        → w.store ≡ opened db
        → deliver p sqlite settings notifiers render environ now event w
          ≡ released p sqlite settings notifiers render environ now event
              (unless_repeated p sqlite event (sent_in (scope event) (dedup_key p event) db))
              w
    unfolding deliver admit admitted on_store already_sent
    deliver_lem now w db e = rw by_time (rw e refl)

    deliver-IsRecorded :
        (now : DateTime) (w : World SqliteStateStore) {d : DeliveryResult} {db : Database}
        → w.store ≡ opened db
        → (deliver p sqlite settings notifiers render environ now event w).0 ≡ return d
        → d.ok ≡ true
        → d.is_suppressed ≡ false
        → IsRecorded (deliver p sqlite settings notifiers render environ now event w).1.store
    deliver-IsRecorded now w {db = db} e h good sent =
        let again = sent_in (scope event) (dedup_key p event) db in
        let same = deliver_lem now w db e in
        subst (λ o. IsRecorded o.1.store) (sym same)
          (repeated-IsRecorded again now w e (sym (ap (λ o. o.0) same) ∙ h) good sent)

    -- Where messages repeat by time (`REQUIRE_ACKNOWLEDGEMENT` is off), a message that was delivered
    -- through a working SQLite store, accepted by its notifier and not suppressed, is answered
    -- "dedup" by every delivery that finds the store as that delivery left it, whatever the time;
    -- that delivery changes nothing and sends nothing.
    pub deliver_once :
        (now later : DateTime) (w w' : World SqliteStateStore) {d : DeliveryResult} {db : Database}
        → w.store ≡ opened db
        → (deliver p sqlite settings notifiers render environ now event w).0 ≡ return d
        → d.ok ≡ true
        → d.is_suppressed ≡ false
        → w'.store ≡ (deliver p sqlite settings notifiers render environ now event w).1.store
        → deliver p sqlite settings notifiers render environ later event w'
          ≡ (return (suppressed event "dedup"), w')
    unfolding released unless_repeated
    deliver_once now later w w' e h good sent kept =
        let (db', opened', found) = deliver-IsRecorded now w e h good sent in
        deliver_lem later w' db' (kept ∙ opened') ∙ rw found refl
