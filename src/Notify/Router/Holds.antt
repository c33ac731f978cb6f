-- ===== src/Notify/Router/Holds.antt =====
-- What is left of a message after the acknowledgements, and that a critical message is not held.
use telecloud_subscription_r.Base.{
  String, ℕ, suc, ◌≡◌, refl, sym, subst, ◌∙◌, ap, Bool, true, false, Option, none, some, length,
  ◌==◌, List, [], ◌∷◌, any, In, here, there, return, pure, resume-return, ◌>>=◌, inr, arith,
  if◌then◌else◌, return-injective,
}
use telecloud_subscription_r.Config.{Settings}
use telecloud_subscription_r.Models.{
  AckMode, ack_components, ack_digest, ack_none, Evaluation, NotificationEvent, ack_key,
  fingerprint, evaluations, critical_status, is_critical, event_is_critical, digest_key,
  digest_fingerprint, dedup_key,
}
use telecloud_subscription_r.Notify.Plan.{plan, scope}
use telecloud_subscription_r.Notify.Plan.Sound.{plan-Planned}
use telecloud_subscription_r.Notify.Router.{
  World, time, on_store, surviving, shrunk, applied, unless_confirmed, unless_repeated, admitted,
  apply_acknowledgements, admit, held_quiet,
}
use telecloud_subscription_r.Platform.{Platform, DateTime}
use telecloud_subscription_r.Store.Protocol.{StateStore}

some-injective : {A : Type 0} {a b : A} → some a ≡ some b → a ≡ b
some-injective h = cc

-- `left` goes where `event` goes, and lists nothing that `event` does not list.
pub record IsPart (left event : NotificationEvent) : Type 0 where
  pub recipient : left.recipient ≡ event.recipient
  pub target : left.target ≡ event.target
  pub locale : left.locale ≡ event.locale
  pub digest : left.digest ≡ event.digest
  pub ack_mode : left.ack_mode ≡ event.ack_mode
  pub listed : (v : Evaluation) → In v (evaluations left) → In v (evaluations event)

IsPart-refl : (event : NotificationEvent) → IsPart event event
IsPart-refl event = record {
  recipient = refl;
  target = refl;
  locale = refl;
  digest = refl;
  ack_mode = refl;
  listed = λ v i. i;
}

module _ (p : Platform) (S : StateStore) where
  kept-In :
      {v e : Evaluation} {es rest : List Evaluation} (acked : Bool)
      → (In v rest → In v es)
      → In v (if acked then rest else e ∷ rest)
      → In v (e ∷ es)
  kept-In true later j = there (later j)
  kept-In false later here = here
  kept-In false later (there j) = there (later j)

  surviving-In :
      (now : ℕ) (es : List Evaluation) (w : World S.State) {left : List Evaluation}
      → (surviving p S now es w).0 ≡ return left
      → (v : Evaluation) → In v left
      → In v es
  unfolding surviving
  surviving-In now [] w h v i = subst (In v) (sym (return-injective h)) i
  surviving-In now (e ∷ es) w {left} h v i =
      let (r, w') =
        on_store p S (S.is_acknowledged (ack_key e) (fingerprint p e.component) now) w in
      let (acked, a, more) =
        resume-return
          (λ acked. surviving p S now es >>= λ rest. pure (if acked then rest else e ∷ rest)) r w'
          h in
      let (rest, b, done) =
        resume-return (λ rest. pure (if acked then rest else e ∷ rest)) (surviving p S now es w').0
          (surviving p S now es w').1 more in
      kept-In acked (surviving-In now es w' b v) (subst (In v) (sym (return-injective done)) i)

  shrunk-IsPart :
      (event : NotificationEvent) (es : List Evaluation) {left : NotificationEvent}
      → ((v : Evaluation) → In v es → In v (evaluations event))
      → shrunk p S event es ≡ some left
      → IsPart left event
  unfolding shrunk
  shrunk-IsPart event [] sub h = cc
  shrunk-IsPart event (e ∷ es) {left} sub h = go (length (e ∷ es) == length (evaluations event)) h
    where
      same : some event ≡ some left → IsPart left event
      same h = subst (λ l. IsPart l event) (some-injective h) (IsPart-refl event)

      fewer : some (record event { evaluation = e; others = es }) ≡ some left → IsPart left event
      fewer h =
          subst (λ l. IsPart l event) (some-injective h)
            (record {
              recipient = refl;
              target = refl;
              locale = refl;
              digest = refl;
              ack_mode = refl;
              listed = sub;
            })

      go :
          (b : Bool)
          → (if b then some event else some (record event { evaluation = e; others = es }))
            ≡ some left
          → IsPart left event
      go true = same
      go false = fewer

  -- the shared tail of the branches that look at single situations
  parts-IsPart :
      (event : NotificationEvent) (now : ℕ) (w : World S.State) {left : NotificationEvent}
      → ((surviving p S now (evaluations event) >>= λ es. pure (shrunk p S event es)) w).0
        ≡ return (some left)
      → IsPart left event
  parts-IsPart event now w h =
      let (es, a, done) =
        resume-return (λ es. pure (shrunk p S event es)) (surviving p S now (evaluations event) w).0
          (surviving p S now (evaluations event) w).1 h in
      shrunk-IsPart event es (surviving-In now (evaluations event) w a) (return-injective done)

  whole-IsPart :
      (acked : Bool) {event left : NotificationEvent}
      → (if acked then none else some event) ≡ some left
      → IsPart left event
  whole-IsPart true h = cc
  whole-IsPart false {event} h = subst (λ l. IsPart l event) (some-injective h) (IsPart-refl event)

  applied-IsPart :
      (digest : Bool) (mode : AckMode) (event : NotificationEvent) (now : ℕ) (w : World S.State)
      {left : NotificationEvent}
      → (applied p S digest mode event now w).0 ≡ return (some left)
      → IsPart left event
  unfolding applied
  applied-IsPart true ack_none event now w h = whole-IsPart false (return-injective h)
  applied-IsPart true ack_digest event now w h =
      let (r, w') =
        on_store p S (S.is_acknowledged (digest_key event) (digest_fingerprint p event) now) w in
      let (acked, a, done) =
        resume-return (λ acked. pure (if acked then none else some event)) r w' h in
      whole-IsPart acked (return-injective done)
  applied-IsPart true ack_components event now w h = parts-IsPart event now w h
  applied-IsPart false ack_none event now w h = parts-IsPart event now w h
  applied-IsPart false ack_digest event now w h = parts-IsPart event now w h
  applied-IsPart false ack_components event now w h = parts-IsPart event now w h

  apply-IsPart :
      (event : NotificationEvent) (w : World S.State) {left : NotificationEvent}
      → (apply_acknowledgements p S event w).0 ≡ return (some left)
      → IsPart left event
  unfolding apply_acknowledgements time
  apply-IsPart event w h =
      applied-IsPart event.digest event.ack_mode event (w.clock w.ticks)
        (record w { ticks = suc w.ticks }) h

  confirmed-inr :
      (o : Option NotificationEvent) {left : NotificationEvent}
      → unless_confirmed p S o ≡ inr left
      → o ≡ some left
  unfolding unless_confirmed
  confirmed-inr none h = cc
  confirmed-inr (some event) h = cc

  repeated-inr :
      (event : NotificationEvent) (again : Bool) {left : NotificationEvent}
      → unless_repeated p S event again ≡ inr left
      → event ≡ left
  unfolding unless_repeated
  repeated-inr event true h = cc
  repeated-inr event false h = cc

  admitted-IsPart :
      (required : Bool) (event : NotificationEvent) (w : World S.State) {left : NotificationEvent}
      → (admitted p S required event w).0 ≡ return (inr left)
      → IsPart left event
  unfolding admitted
  admitted-IsPart true event w h =
      let (o, a, done) =
        resume-return (λ o. pure (unless_confirmed p S o)) (apply_acknowledgements p S event w).0
          (apply_acknowledgements p S event w).1 h in
      let whole = confirmed-inr o (return-injective done) in
      apply-IsPart event w (a ∙ ap return whole)
  admitted-IsPart false event w h =
      let (r, w') = on_store p S (S.already_sent (scope event) (dedup_key p event)) w in
      let (again, a, done) =
        resume-return (λ again. pure (unless_repeated p S event again)) r w' h in
      subst (λ l. IsPart l event) (repeated-inr event again (return-injective done))
        (IsPart-refl event)

  critical-any :
      {v : Evaluation} {es : List Evaluation}
      → In v es
      → critical_status v.status ≡ true
      → any is_critical es ≡ true
  unfolding is_critical
  critical-any here h = rw h refl
  critical-any (there {x = e} i) h = let rest = critical-any i h in ground arith

  module _ (settings : Settings) where
    -- A message that is let through by the acknowledgements or the records of deliveries keeps its
    -- recipient, its address, its locale and its kind, and lists only what the message listed.
    pub admit-IsPart :
        (event : NotificationEvent) (w : World S.State) {left : NotificationEvent}
        → (admit p S settings event w).0 ≡ return (inr left)
        → IsPart left event
    unfolding admit
    admit-IsPart event w h = admitted-IsPart settings.require_acknowledgement event w h

    -- A planned message about a critical status is never held by quiet hours, also when a part of
    -- what it listed has been confirmed since.
    pub held_quiet-critical :
        (environ : String → Option String) (es : List Evaluation) (now : DateTime)
        (w : World S.State) {events : List NotificationEvent} {event left : NotificationEvent}
        → plan p settings environ es ≡ return events
        → In event events
        → critical_status event.evaluation.status ≡ true
        → (admit p S settings event w).0 ≡ return (inr left)
        → held_quiet p S settings left now ≡ false
    unfolding held_quiet event_is_critical
    held_quiet-critical environ es now w {event = event} {left = left} planned i critical h =
        let (r, ts, m, resolved, at, asks) = plan-Planned p settings es environ planned i in
        let part = admit-IsPart event w h in
        let (evaluated, passes, same) =
          asks.listed left.evaluation (part.listed left.evaluation here) in
        let hot =
          critical-any {v = left.evaluation} {es = evaluations left} here
            (ap critical_status same ∙ critical) in
        rw hot refl
