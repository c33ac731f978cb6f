-- ===== src/Notify/Router/Recording.antt =====
-- What the record of one delivery leaves of the others.
use telecloud_subscription_r.Base.{
  ℕ, suc, String, ◌≡◌, refl, sym, subst, ◌∙◌, Bool, true, false, List, ◌&&◌, str_eq, Result, return,
  raise, resume, pure, ◌>>◌, if◌then◌else◌,
}
use telecloud_subscription_r.Config.{Settings}
use telecloud_subscription_r.Models.{DeliveryResult, NotificationEvent, digest_key, members}
use telecloud_subscription_r.Notify.Plan.{scope}
use telecloud_subscription_r.Notify.Router.{
  World, time, on_store, record_delivery, record_members, delivery_of, is_components,
}
use telecloud_subscription_r.Platform.{Platform}
use telecloud_subscription_r.Store.Database.{Database, sent_in, put_sent, put_members}
use telecloud_subscription_r.Store.Database.Deliveries.{sent_in-put_sent}
use telecloud_subscription_r.Store.Sqlite.{
  sqlite, SqliteStateStore, record_sent, record_digest_members,
}
use telecloud_subscription_r.Store.Sqlite.Laws.{opened}

module _ (p : Platform) (settings : Settings) (clock : ℕ → ℕ) where
  abbrev world_at : ℕ → Database → List NotificationEvent → World SqliteStateStore
  world_at n db outbox = record { store = opened db; clock = clock; ticks = n; outbox = outbox }

  -- what recording a delivery leaves
  abbrev pub IsKept :
      NotificationEvent → Database → List NotificationEvent → World SqliteStateStore → Type 0
  IsKept e db outbox w' =
      (db' : Database) × (n' : ℕ) × (w' ≡ world_at n' db' outbox)
      × ((sc key : String) → str_eq (scope e) sc ≡ false → sent_in sc key db' ≡ sent_in sc key db)

  members-IsKept :
      (b : Bool) (e event : NotificationEvent) (n : ℕ) (db : Database)
      (outbox : List NotificationEvent)
      → IsKept e db outbox (record_members p sqlite settings b event (world_at n db outbox)).1
  unfolding record_members time on_store record_digest_members put_members sent_in
  members-IsKept true e event n db outbox = (
    (put_members (digest_key event) (members p event) (clock n) db).1,
    suc n,
    refl,
    λ sc key other. refl,
  )
  members-IsKept false e event n db outbox = (db, n, refl, λ sc key other. refl)

  record-IsKept :
      (e event : NotificationEvent) (n : ℕ) (db : Database) (outbox : List NotificationEvent)
      → IsKept e db outbox (record_delivery p sqlite settings e event (world_at n db outbox)).1
  unfolding record_delivery time on_store record_sent
  record-IsKept e event n db outbox =
      let sent_row = delivery_of p sqlite settings e event in
      let db1 = put_sent sent_row (clock n) db in
      let (db', n', same, kept) =
        members-IsKept (event.digest && is_components event.ack_mode) e event (suc n) db1 outbox in
      (
        db',
        n',
        same,
        λ sc key other.
            kept sc key other ∙ (sent_in-put_sent sent_row (clock n) sc key db ∙ rw other refl),
      )

  pub settled-IsKept :
      (ok : Bool) (e event : NotificationEvent) (result : DeliveryResult) (n : ℕ) (db : Database)
      (outbox : List NotificationEvent)
      → IsKept e db outbox
          ((if ok then (record_delivery p sqlite settings e event >> pure result) else pure result)
            (world_at n db outbox)).1
  settled-IsKept false e event result n db outbox = (db, n, refl, λ sc key other. refl)
  settled-IsKept true e event result n db outbox =
      let (r, w') = record_delivery p sqlite settings e event (world_at n db outbox) in
      subst (IsKept e db outbox) (sym (state_after result r w')) (record-IsKept e event n db outbox)
    where
      state_after :
          {A B : Type 0} (b : B) (r : Result A) (w : World SqliteStateStore)
          → (resume (λ _. pure b) r w).1 ≡ w
      state_after b (return a) w = refl
      state_after b (raise x) w = refl
