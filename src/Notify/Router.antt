-- ===== src/Notify/Router.antt =====
-- src/tele_scraper/notify/router.py: `_apply_acknowledgements`, `_deliver` and `dispatch`, over any
-- state store. The deliveries that `asyncio.gather` runs are taken one after another, in the order
-- of the plan; log lines and metrics are left out.
use Prim.Native.String.{◌++◌ as concat}
use telecloud_subscription_r.Base.{
  message, ℕ, suc, ◌+◌, String, Bool, true, false, not, ◌&&◌, Option, none, some, List, [], ◌∷◌,
  ◌++◌, length, ◌==◌, Exec, Result, return, raise, and_then, Error, value_error, key_error,
  overflow_error, state_store_error, config_error, scrape_error, auth_error, parse_error,
  channel_error, other_error, pure, ◌>>=◌, ◌>>◌, ◌⊎◌, inl, inr, if◌then◌else◌,
}
use telecloud_subscription_r.Config.{Route, QuietHours, Settings}
use telecloud_subscription_r.Domain.Rules.{in_quiet_hours}
use telecloud_subscription_r.Models.{
  AckMode, ack_components, ack_digest, ack_none, DeliveryResult, Evaluation, NotificationEvent,
  evaluations, ack_key, value, rung_key, digest_key, digest_fingerprint, dedup_key, event_ack_key,
  event_ack_fingerprint, members, fingerprint, event_is_critical, failure,
}
use telecloud_subscription_r.Notify.Plan.{plan, route_for, scope}
use telecloud_subscription_r.Platform.{Platform, DateTime}
use telecloud_subscription_r.Store.Protocol.{StateStore, Sent}
pub mod Silence
pub mod Holds
pub mod Dispatch
pub mod Confirmed
pub mod Once
pub mod Steps
pub mod Apart
pub mod Recording
pub mod Interleaved

unfoldable pub is_store_error : Error → Bool
is_store_error (state_store_error m) = true
is_store_error _ = false

unfoldable pub suppressed : NotificationEvent → String → DeliveryResult
suppressed event reason = record {
  channel = event.target.channel;
  recipient = event.recipient;
  ok = true;
  error = some reason;
  retry_after = none;
  is_suppressed = true;
}

-- What a delivery works on: the store, the readings of the clock to come, the one that is next,
-- and the messages that were handed to a notifier, oldest first.
pub record World (S : Type 0) : Type 0 where
  pub store : S
  pub clock : ℕ → ℕ
  pub ticks : ℕ
  pub outbox : List NotificationEvent

-- A notifier answers a message, and may raise; its answer may depend on the messages before it.
abbrev pub Notifier : Type 0
Notifier = List NotificationEvent → NotificationEvent → Result DeliveryResult

abbrev pub put_store : {S A : Type 0} → World S → Result A × S → Result A × World S
put_store w (r, s) = (r, record w { store = s })

-- `time.time()`
unfoldable pub time : {S : Type 0} → Exec (World S) ℕ
time w = (return (w.clock w.ticks), record w { ticks = suc w.ticks })

is_components : AckMode → Bool
is_components ack_components = true
is_components _ = false

-- hand a message to a notifier
unfoldable pub send_to : {S : Type 0} → Notifier → NotificationEvent → Exec (World S) DeliveryResult
send_to notifier event w = (notifier w.outbox event, record w { outbox = w.outbox ++ event ∷ [] })

-- `except Exception as exc: return DeliveryResult.failure(event, str(exc))`
unfoldable pub or_failure : NotificationEvent → Result DeliveryResult → DeliveryResult
unfolding failure
or_failure event (return r) = r
or_failure event (raise e) = failure event (message e) none

module _ (p : Platform) (S : StateStore) where
  open S use {State, already_sent, record_sent, record_digest_members, is_acknowledged}

  unfoldable pub on_store : {A : Type 0} → Exec State A → Exec (World State) A
  on_store m w = put_store w (m w.store)

  -- `[e for e in evaluations if not await is_acknowledged(…)]`
  unfoldable pub surviving : ℕ → List Evaluation → Exec (World State) (List Evaluation)
  unfolding on_store
  surviving now [] = pure []
  surviving now (e ∷ es) =
      on_store (is_acknowledged (ack_key e) (fingerprint p e.component) now) >>= λ acked.
      surviving now es >>= λ rest. pure (if acked then rest else e ∷ rest)

  -- the message with what is left of its evaluations
  unfoldable pub shrunk : NotificationEvent → List Evaluation → Option NotificationEvent
  shrunk event [] = none
  shrunk event (e ∷ es) =
      if length (e ∷ es) == length (evaluations event)
      then some event
      else some (record event { evaluation = e; others = es })

  -- the branches of `_apply_acknowledgements`, after the clock is read
  unfoldable pub applied :
      Bool → AckMode → NotificationEvent → ℕ → Exec (World State) (Option NotificationEvent)
  unfolding surviving shrunk
  applied true ack_none event now = pure (some event)
  applied true ack_digest event now =
      on_store (is_acknowledged (digest_key event) (digest_fingerprint p event) now) >>= λ acked.
      pure (if acked then none else some event)
  applied _ _ event now = surviving now (evaluations event) >>= λ es. pure (shrunk event es)

  unfoldable pub apply_acknowledgements :
      NotificationEvent → Exec (World State) (Option NotificationEvent)
  unfolding applied time
  apply_acknowledgements event = time >>= applied event.digest event.ack_mode event

  -- nothing left is a message that everyone has confirmed
  unfoldable pub unless_confirmed : Option NotificationEvent → String ⊎ NotificationEvent
  unless_confirmed none = inl "acknowledged"
  unless_confirmed (some event) = inr event

  unfoldable pub unless_repeated : NotificationEvent → Bool → String ⊎ NotificationEvent
  unless_repeated event true = inl "dedup"
  unless_repeated event false = inr event

  -- the first test of `_deliver`, with and without required acknowledgements: the reason to hold
  -- the message, or the message to go on with
  unfoldable pub admitted :
      Bool → NotificationEvent → Exec (World State) (String ⊎ NotificationEvent)
  unfolding apply_acknowledgements unless_confirmed unless_repeated
  admitted true event = apply_acknowledgements event >>= λ left. pure (unless_confirmed left)
  admitted false event = on_store (already_sent (scope event) (dedup_key p event)) >>= λ again.
      pure (unless_repeated event again)

  module _ (settings : Settings) where
    unfoldable pub admit : NotificationEvent → Exec (World State) (String ⊎ NotificationEvent)
    unfolding admitted
    admit event = admitted settings.require_acknowledgement event

    quiet_now : Option Route → DateTime → Bool
    unfolding in_quiet_hours
    quiet_now none now = false
    quiet_now (some r) now = elim r.quiet_hours [
      | none ↦ false
      | some q ↦ in_quiet_hours p now q.start q.end q.tz
    ]

    -- whether quiet hours hold the message
    unfoldable pub held_quiet : NotificationEvent → DateTime → Bool
    unfolding quiet_now
    held_quiet event now =
        not (event_is_critical event) && quiet_now (route_for event.recipient settings.routes) now

    -- What a digest listed, so that a confirmation can be expanded.
    record_members : Bool → NotificationEvent → Exec (World State) (Unit {0})
    unfolding time on_store
    record_members true event = time >>= λ later.
        on_store (record_digest_members (digest_key event) (members p event) later)
    record_members false event = pure tt

    -- The record that is kept of a delivery: the scope and the component of the message as it was
    -- planned, and the rest of it as it was sent.
    abbrev pub delivery_of : NotificationEvent → NotificationEvent → Sent
    delivery_of original event = record {
      scope = scope original;
      dedup_key = dedup_key p event;
      recipient = event.recipient;
      channel = event.target.channel;
      component_id = original.evaluation.component.component_id;
      status = value event.evaluation.status;
      rung = rung_key event.evaluation;
      ack_key = event_ack_key p event;
      fingerprint = event_ack_fingerprint p event;
    }

    unfoldable pub record_delivery :
        NotificationEvent → NotificationEvent → Exec (World State) (Unit {0})
    unfolding time on_store is_components record_members
    record_delivery original event = time >>= λ now.
        on_store (record_sent (delivery_of original event) now)
        >> record_members (event.digest && is_components event.ack_mode) event

    -- after the notifier has answered
    settle :
        NotificationEvent → NotificationEvent → DeliveryResult → Exec (World State) DeliveryResult
    unfolding record_delivery
    settle original event result =
        if result.ok then (record_delivery original event >> pure result) else pure result

    -- the attempt, and what is kept of it
    unfoldable pub transmit :
        Option Notifier → NotificationEvent → NotificationEvent → Exec (World State) DeliveryResult
    unfolding settle send_to or_failure failure
    transmit none original event w =
        pure
          (failure event
            (concat "channel " (concat (p.repr event.target.channel) " is not configured")) none)
          w
    transmit (some notifier) original event w =
        let (answer, w') = send_to notifier event w in
        settle original event (or_failure event answer) w'

    -- the previews that a dry run renders; a renderer may raise
    unfoldable pub preview :
        (NotificationEvent → Result String) → NotificationEvent → Exec (World State) DeliveryResult
    unfolding suppressed
    preview render event w =
        (and_then (render event) (λ subject. return (suppressed event "dry_run")), w)

    module _ (notifiers : String → Option Notifier) (render : NotificationEvent → Result String)
        (environ : String → Option String) where
      -- the rest of `_deliver`, with what is left of the message
      unfoldable pub release :
          DateTime → NotificationEvent → NotificationEvent → Exec (World State) DeliveryResult
      unfolding held_quiet suppressed preview transmit
      release now original event =
          if held_quiet event now
          then pure (suppressed event "quiet_hours")
          else if settings.dry_run
          then preview render event
          else if not settings.notify_enabled
          then pure (suppressed event "notify_disabled")
          else transmit (notifiers event.target.channel) original event

      -- a held message, or one that goes on
      unfoldable pub released :
          DateTime
          → NotificationEvent
          → String ⊎ NotificationEvent
          → Exec (World State) DeliveryResult
      unfolding release
      released now original (inl reason) = pure (suppressed original reason)
      released now original (inr event) = release now original event

      -- `_deliver`
      unfoldable pub deliver : DateTime → NotificationEvent → Exec (World State) DeliveryResult
      unfolding admit released
      deliver now event = admit event >>= released now event

      -- `asyncio.gather(…, return_exceptions=True)`
      unfoldable pub gather :
          DateTime
          → List NotificationEvent
          → World State
          → List (NotificationEvent × Result DeliveryResult) × World State
      unfolding deliver
      gather now [] w = ([], w)
      gather now (e ∷ es) w =
          let (outcome, w') = deliver now e w in
          let (outcomes, w'') = gather now es w' in ((e, outcome) ∷ outcomes, w'')

      -- the loop over the outcomes
      unfoldable pub collect :
          List (NotificationEvent × Result DeliveryResult) → Result (List DeliveryResult)
      unfolding is_store_error failure
      collect [] = return []
      collect ((e, return d) ∷ rest) = and_then (collect rest) (λ ds. return (d ∷ ds))
      collect ((e, raise x) ∷ rest) =
          let others = and_then (collect rest) (λ ds. return (failure e (message x) none ∷ ds)) in
          if is_store_error x then raise x else others

      -- the plan carried out; a plan that raises delivers nothing
      unfoldable pub carry_out :
          DateTime → Result (List NotificationEvent) → Exec (World State) (List DeliveryResult)
      unfolding gather collect
      carry_out now (raise x) w = (raise x, w)
      carry_out now (return events) w =
          let (outcomes, w') = gather now events w in (collect outcomes, w')

      unfoldable pub dispatch :
          List Evaluation → DateTime → Exec (World State) (List DeliveryResult)
      unfolding plan carry_out
      dispatch es now w = carry_out now (plan p settings environ es) w
