-- ===== src/Notify/Router/Silence.antt =====
-- A run that is told not to notify hands no message to a notifier.
use telecloud_subscription_r.Base.{
  String, ℕ, ◌≡◌, refl, ◌∙◌, Bool, true, false, Option, none, some, List, [], ◌∷◌, Exec, Result,
  return, raise, pure, ◌>>=◌, resume, Bool-cases, inl, inr, ◌⊎◌, if◌then◌else◌,
}
use telecloud_subscription_r.Config.{Settings}
use telecloud_subscription_r.Models.{
  AckMode, ack_components, ack_digest, ack_none, Evaluation, NotificationEvent, ack_key,
  fingerprint, evaluations, digest_key, digest_fingerprint, dedup_key,
}
use telecloud_subscription_r.Notify.Plan.{plan, scope}
use telecloud_subscription_r.Notify.Router.{
  World, Notifier, time, on_store, surviving, shrunk, applied, admitted, unless_confirmed,
  unless_repeated, apply_acknowledgements, admit, preview, held_quiet, release, released, deliver,
  gather, carry_out, dispatch,
}
use telecloud_subscription_r.Platform.{Platform, DateTime}
use telecloud_subscription_r.Store.Protocol.{StateStore}

module _ {S A : Type 0} where
  -- the action hands no message over
  abbrev pub SendsNothing : Exec (World S) A → Type 0
  SendsNothing m = (w : World S) → (m w).1.outbox ≡ w.outbox

  pub SendsNothing-pure : (a : A) → SendsNothing (pure a)
  SendsNothing-pure a w = refl

module _ {S A B : Type 0} where
  SendsNothing-resume :
      (f : A → Exec (World S) B)
      → ((a : A) → SendsNothing (f a))
      → (r : Result A) (w : World S) → (resume f r w).1.outbox ≡ w.outbox
  SendsNothing-resume f h (return a) w = h a w
  SendsNothing-resume f h (raise e) w = refl

  pub SendsNothing-bind :
      (m : Exec (World S) A) (f : A → Exec (World S) B)
      → SendsNothing m
      → ((a : A) → SendsNothing (f a))
      → SendsNothing (m >>= f)
  SendsNothing-bind m f hm hf w = let (r, w') = m w in SendsNothing-resume f hf r w' ∙ hm w

module _ (p : Platform) (S : StateStore) where
  on_store-SendsNothing : {A : Type 0} (m : Exec S.State A) → SendsNothing (on_store p S m)
  unfolding on_store
  on_store-SendsNothing m w = refl

  surviving-SendsNothing : (now : ℕ) (es : List Evaluation) → SendsNothing (surviving p S now es)
  unfolding surviving
  surviving-SendsNothing now [] = λ w. refl
  surviving-SendsNothing now (e ∷ es) = rest (surviving p S now es) (surviving-SendsNothing now es)
    where
      rest :
          (later : Exec (World S.State) (List Evaluation))
          → SendsNothing later
          → SendsNothing (
              on_store p S (S.is_acknowledged (ack_key e) (fingerprint p e.component) now)
              >>= λ acked. later >>= λ es'. pure (if acked then es' else e ∷ es'))
      rest later h =
          SendsNothing-bind
            (on_store p S (S.is_acknowledged (ack_key e) (fingerprint p e.component) now))
            (λ acked. later >>= λ es'. pure (if acked then es' else e ∷ es'))
            (on_store-SendsNothing (S.is_acknowledged (ack_key e) (fingerprint p e.component) now))
            (λ acked.
              SendsNothing-bind later (λ es'. pure (if acked then es' else e ∷ es')) h
                (λ es' w. refl))

  shrunk-SendsNothing :
      (event : NotificationEvent) (now : ℕ)
      → SendsNothing (surviving p S now (evaluations event) >>= λ es. pure (shrunk p S event es))
  shrunk-SendsNothing event now =
      SendsNothing-bind (surviving p S now (evaluations event)) (λ es. pure (shrunk p S event es))
        (surviving-SendsNothing now (evaluations event)) (λ es w. refl)

  applied-SendsNothing :
      (digest : Bool) (mode : AckMode) (event : NotificationEvent) (now : ℕ)
      → SendsNothing (applied p S digest mode event now)
  unfolding applied
  applied-SendsNothing true ack_none event now = λ w. refl
  applied-SendsNothing true ack_digest event now =
      SendsNothing-bind
        (on_store p S (S.is_acknowledged (digest_key event) (digest_fingerprint p event) now))
        (λ acked. pure (if acked then none else some event))
        (on_store-SendsNothing
          (S.is_acknowledged (digest_key event) (digest_fingerprint p event) now))
        (λ acked w. refl)
  applied-SendsNothing true ack_components event now = shrunk-SendsNothing event now
  applied-SendsNothing false ack_none event now = shrunk-SendsNothing event now
  applied-SendsNothing false ack_digest event now = shrunk-SendsNothing event now
  applied-SendsNothing false ack_components event now = shrunk-SendsNothing event now

  time-SendsNothing : SendsNothing {S = S.State} time
  unfolding time
  time-SendsNothing w = refl

  apply-SendsNothing : (event : NotificationEvent) → SendsNothing (apply_acknowledgements p S event)
  unfolding apply_acknowledgements
  apply-SendsNothing event =
      SendsNothing-bind time (applied p S event.digest event.ack_mode event) time-SendsNothing
        (applied-SendsNothing event.digest event.ack_mode event)

  admitted-SendsNothing :
      (required : Bool) (event : NotificationEvent) → SendsNothing (admitted p S required event)
  unfolding admitted
  admitted-SendsNothing true event =
      SendsNothing-bind (apply_acknowledgements p S event)
        (λ left. pure (unless_confirmed p S left)) (apply-SendsNothing event) (λ left w. refl)
  admitted-SendsNothing false event =
      SendsNothing-bind (on_store p S (S.already_sent (scope event) (dedup_key p event)))
        (λ again. pure (unless_repeated p S event again))
        (on_store-SendsNothing (S.already_sent (scope event) (dedup_key p event))) (λ again w. refl)

  module _ (settings : Settings) where
    -- Whether a message is to be held is found out without sending one.
    admit-SendsNothing : (event : NotificationEvent) → SendsNothing (admit p S settings event)
    unfolding admit
    admit-SendsNothing event = admitted-SendsNothing settings.require_acknowledgement event

    module _ (notifiers : String → Option Notifier) (render : NotificationEvent → Result String)
        (environ : String → Option String)
        (silent : (settings.dry_run ≡ true) ⊎ (settings.notify_enabled ≡ false)) where
      release-SendsNothing :
          (now : DateTime) (original event : NotificationEvent)
          → SendsNothing (release p S settings notifiers render environ now original event)
      unfolding release preview
      release-SendsNothing now original event w =
          elim (Bool-cases (held_quiet p S settings event now)) [
            | inl held ↦ rw held refl
            | inr free ↦ rw free (elim (Bool-cases settings.dry_run) [
              | inl dry ↦ rw dry refl
              | inr wet ↦ elim silent [ inl dry ↦ cc | inr off ↦ rw (wet, off) refl ]
            ])
          ]

      deliver-SendsNothing :
          (now : DateTime) (event : NotificationEvent)
          → SendsNothing (deliver p S settings notifiers render environ now event)
      unfolding deliver released
      deliver-SendsNothing now event =
          SendsNothing-bind (admit p S settings event)
            (released p S settings notifiers render environ now event) (admit-SendsNothing event)
            (elim [ inl reason ↦ λ w. refl | inr left ↦ release-SendsNothing now event left ])

      gather_silent :
          (now : DateTime) (events : List NotificationEvent) (w : World S.State)
          → (gather p S settings notifiers render environ now events w).1.outbox ≡ w.outbox
      unfolding gather
      gather_silent now [] w = refl
      gather_silent now (e ∷ es) w =
          gather_silent now es (deliver p S settings notifiers render environ now e w).1
          ∙ deliver-SendsNothing now e w

      carry_out_silent :
          (now : DateTime) (planned : Result (List NotificationEvent)) (w : World S.State)
          → (carry_out p S settings notifiers render environ now planned w).1.outbox ≡ w.outbox
      unfolding carry_out
      carry_out_silent now (raise x) w = refl
      carry_out_silent now (return events) w = gather_silent now events w

      -- In a dry run, or while notifying is switched off, a whole cycle of deliveries hands no
      -- message to any notifier, whatever the store answers.
      pub dispatch_silent :
          (es : List Evaluation) (now : DateTime) (w : World S.State)
          → (dispatch p S settings notifiers render environ es now w).1.outbox ≡ w.outbox
      unfolding dispatch
      dispatch_silent es now w = carry_out_silent now (plan p settings environ es) w
