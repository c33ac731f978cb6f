-- ===== src/Notify/Router/Steps.antt =====
-- The deliveries of one cycle as `asyncio.gather` runs them: each goes on by itself from one await to
-- the next, in any order. The requests to the state store are steps, as its lock makes them, and so is
-- the sending; what is recorded after it is one step.
use telecloud_subscription_r.Base.{
  String, ◌≡◌, refl, Bool, true, false, inl, inr, ◌⊎◌, Option, none, some, List, ◌∷◌, ◌++◌, not,
  Result, return, raise, resume, pure, sym, if◌then◌else◌,
}
use telecloud_subscription_r.Config.{Settings}
use telecloud_subscription_r.Models.{DeliveryResult, NotificationEvent}
use telecloud_subscription_r.Notify.Router.{
  World, Notifier, admit, settle, send_to, transmit, or_failure, preview, held_quiet, suppressed,
  release, released, deliver,
}
use telecloud_subscription_r.Platform.{Platform, DateTime}
use telecloud_subscription_r.Store.Protocol.{StateStore}

-- Where a delivery has come to: it is still to be admitted, to be sent, to be recorded, or it is
-- over. Each keeps the message as it was planned.
pub data Task : Type 0 where
  planned : NotificationEvent → Task
  let_through : NotificationEvent → NotificationEvent → Task
  answered : NotificationEvent → NotificationEvent → DeliveryResult → Task
  finished : NotificationEvent → Result DeliveryResult → Task

abbrev pub planned_event : Task → NotificationEvent
planned_event (planned e) = e
planned_event (let_through e event) = e
planned_event (answered e event result) = e
planned_event (finished e r) = e

-- what the first step comes to
unfoldable pub after_admit : NotificationEvent → Result (String ⊎ NotificationEvent) → Task
unfolding suppressed
after_admit e (return (inl reason)) = finished e (return (suppressed e reason))
after_admit e (return (inr event)) = let_through e event
after_admit e (raise x) = finished e (raise x)

module _ (p : Platform) (S : StateStore) (settings : Settings)
    (notifiers : String → Option Notifier) (render : NotificationEvent → Result String)
    (environ : String → Option String) (now : DateTime) where
  open S use {State}

  -- a message on its way to its notifier
  unfoldable pub hand_over :
      Option Notifier → NotificationEvent → NotificationEvent → World State → Task × World State
  unfolding transmit send_to or_failure
  hand_over none e event w = (finished e (transmit p S settings none e event w).0, w)
  hand_over (some notifier) e event w =
      let (answer, w') = send_to notifier event w in
      (answered e event (or_failure event answer), w')

  -- what holds the message, before it is on its way
  unfoldable pub release_step :
      Bool → Bool → Bool → NotificationEvent → NotificationEvent → World State → Task × World State
  unfolding suppressed preview hand_over
  release_step held dry disabled e event w =
      if held
      then (finished e (return (suppressed event "quiet_hours")), w)
      else if dry
      then (finished e (preview p S settings render event w).0, w)
      else if disabled
      then (finished e (return (suppressed event "notify_disabled")), w)
      else hand_over (notifiers event.target.channel) e event w

  -- one step of a delivery
  unfoldable pub advance : Task → World State → Task × World State
  unfolding after_admit admit held_quiet release_step settle
  advance (planned e) w = let (r, w') = admit p S settings e w in (after_admit e r, w')
  advance (let_through e event) w =
      release_step (held_quiet p S settings event now) settings.dry_run
        (not settings.notify_enabled) e event w
  advance (answered e event result) w =
      let (r, w') = settle p S settings e event result w in (finished e r, w')
  advance (finished e r) w = (finished e r, w)

  -- one delivery of several goes one step further
  pub data Step : List Task × World State → List Task × World State → Type 0 where
    one_of :
        (before : List Task) (t : Task) (after : List Task) (w : World State)
        → Step (before ++ t ∷ after, w) (before ++ (advance t w).0 ∷ after, (advance t w).1)

  pub data Steps : List Task × World State → List Task × World State → Type 0 where
    no_more : {c : List Task × World State} → Steps c c
    go_on : {c c' c'' : List Task × World State} → Step c c' → Steps c' c'' → Steps c c''

  abbrev advance_pair : Task × World State → Task × World State
  advance_pair (t, w) = advance t w

  sent_alone :
      (notifier : Option Notifier) (e event : NotificationEvent) (w : World State)
      → advance_pair (hand_over notifier e event w) ≡ (
        finished e (transmit p S settings notifier e event w).0,
        (transmit p S settings notifier e event w).1,
      )
  unfolding advance hand_over transmit send_to
  sent_alone none e event w = refl
  sent_alone (some notifier) e event w = refl

  chosen_alone :
      (held dry disabled : Bool) (e event : NotificationEvent) (w : World State)
      (o : Result DeliveryResult × World State)
      → (if held
            then pure (suppressed event "quiet_hours")
            else if dry
            then preview p S settings render event
            else if disabled
            then pure (suppressed event "notify_disabled")
            else transmit p S settings (notifiers event.target.channel) e event)
          w
        ≡ o
      → advance_pair (release_step held dry disabled e event w) ≡ (finished e o.0, o.1)
  unfolding advance release_step preview
  chosen_alone true dry disabled e event w o same = rw (sym same) refl
  chosen_alone false true disabled e event w o same = rw (sym same) refl
  chosen_alone false false true e event w o same = rw (sym same) refl
  chosen_alone false false false e event w o same =
      rw (sym same) (sent_alone (notifiers event.target.channel) e event w)

  released_alone :
      (e event : NotificationEvent) (w : World State)
      → advance_pair (advance (let_through e event) w) ≡ (
        finished e (release p S settings notifiers render environ now e event w).0,
        (release p S settings notifiers render environ now e event w).1,
      )
  unfolding advance release
  released_alone e event w =
      chosen_alone (held_quiet p S settings event now) settings.dry_run
        (not settings.notify_enabled) e event w
        (release p S settings notifiers render environ now e event w) refl

  admitted_alone :
      (e : NotificationEvent) (r : Result (String ⊎ NotificationEvent)) (w : World State)
      (o : Result DeliveryResult × World State)
      → resume (released p S settings notifiers render environ now e) r w ≡ o
      → advance_pair (advance (after_admit e r) w) ≡ (finished e o.0, o.1)
  unfolding advance after_admit released
  admitted_alone e (return (inl reason)) w o same = rw (sym same) refl
  admitted_alone e (return (inr event)) w o same = rw (sym same) (released_alone e event w)
  admitted_alone e (raise x) w o same = rw (sym same) refl

  -- A delivery that is let run alone is over after three steps, with the outcome of `_deliver` and
  -- everything left as `_deliver` leaves it.
  pub advance-deliver :
      (e : NotificationEvent) (w : World State)
      → advance_pair (advance_pair (advance (planned e) w)) ≡ (
        finished e (deliver p S settings notifiers render environ now e w).0,
        (deliver p S settings notifiers render environ now e w).1,
      )
  unfolding advance deliver
  advance-deliver e w =
      let (r, w') = admit p S settings e w in
      admitted_alone e r w' (resume (released p S settings notifiers render environ now e) r w')
        refl
