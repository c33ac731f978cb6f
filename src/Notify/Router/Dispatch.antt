-- ===== src/Notify/Router/Dispatch.antt =====
-- What a cycle of deliveries reports: an answer for every planned message, or the store's failure.
use telecloud_subscription_r.Base.{
  String, ◌≡◌, Option, none, some, List, [], ◌∷◌, Result, return, raise, Error, if◌then◌else◌,
}
use telecloud_subscription_r.Config.{Settings}
use telecloud_subscription_r.Models.{DeliveryResult, NotificationEvent}
use telecloud_subscription_r.Notify.Router.{World, Notifier, deliver, is_store_error, or_failure}
use telecloud_subscription_r.Platform.{Platform, DateTime}
use telecloud_subscription_r.Store.Protocol.{StateStore}

abbrev pub Outcome : Type 0
Outcome = NotificationEvent × Result DeliveryResult

-- what is reported for one message: its notifier's answer, or a failure with the error's text
abbrev pub reported : Outcome → DeliveryResult
reported (e, r) = or_failure e r

-- the first `StateStoreError` among the outcomes
abbrev pub surfaced : List Outcome → Option Error
surfaced [] = none
surfaced ((e, return d) ∷ rest) = surfaced rest
surfaced ((e, raise x) ∷ rest) =
    let later = surfaced rest in if is_store_error x then some x else later

abbrev pub report : Option Error → List DeliveryResult → Result (List DeliveryResult)
report none ds = return ds
report (some x) ds = raise x

module _ (p : Platform) (S : StateStore) (settings : Settings)
    (notifiers : String → Option Notifier) (render : NotificationEvent → Result String)
    (environ : String → Option String) where
  -- each of the messages was delivered once, in order, with its outcome, from the world that the
  -- deliveries before it left; the last of them left `w'`
  pub IsDelivered :
      DateTime → List NotificationEvent → List Outcome → World S.State → World S.State → Type 0
  IsDelivered now [] [] w w' = w' ≡ w
  IsDelivered now (e ∷ es) ((about, r) ∷ outcomes) w w' =
      (about ≡ e)
      × (between : World S.State) × (deliver p S settings notifiers render environ now e w
          ≡ (r, between))
      × IsDelivered now es outcomes between w'
  IsDelivered now [] (o ∷ outcomes) w w' = ⊥
  IsDelivered now (e ∷ es) [] w w' = ⊥
