-- ===== src/Notify/Router/Confirmed.antt =====
-- Which part of a message is still to be sent, over a store with a working connection.
use telecloud_subscription_r.Base.{
  String, ℕ, suc, ◌≡◌, ◌↔◌, refl, subst, ◌∙◌, ap, Bool, true, false, not, some, List, [], ◌∷◌, keep,
  length, ◌==◌, In, not-In-nil, In-keep, keep-In, length-keep-eq, return, Bool-cases, inl, inr, ◌⊎◌,
  arith, if◌then◌else◌,
}
use telecloud_subscription_r.Config.{Settings}
use telecloud_subscription_r.Models.{
  AckMode, ack_components, ack_digest, ack_none, Evaluation, NotificationEvent, ack_key,
  fingerprint, evaluations,
}
use telecloud_subscription_r.Notify.Router.{
  World, time, on_store, surviving, shrunk, applied, apply_acknowledgements, unless_confirmed,
  admitted, admit,
}
use telecloud_subscription_r.Platform.{Platform}
use telecloud_subscription_r.Store.Database.{Database, acked_in}
use telecloud_subscription_r.Store.Sqlite.{sqlite, SqliteStateStore, is_acknowledged}
use telecloud_subscription_r.Store.Sqlite.Laws.{opened}

module _ (p : Platform) (db : Database) (clock : ℕ → ℕ) (outbox : List NotificationEvent) where
  abbrev pub at_tick : ℕ → World SqliteStateStore
  at_tick n = record { store = opened db; clock = clock; ticks = n; outbox = outbox }

  -- somebody confirmed the situation, with these facts, and the confirmation still holds
  abbrev pub confirmed : ℕ → Evaluation → Bool
  confirmed now v = acked_in (ack_key v) (fingerprint p v.component) now db

  abbrev pub outstanding : ℕ → List Evaluation → List Evaluation
  outstanding now es = keep (λ v. not (confirmed now v)) es

  surviving-outstanding :
      (now n : ℕ) (es : List Evaluation)
      → surviving p sqlite now es (at_tick n) ≡ (return (outstanding now es), at_tick n)
  unfolding surviving on_store is_acknowledged
  surviving-outstanding now n [] = refl
  surviving-outstanding now n (e ∷ es) = elim (Bool-cases (confirmed now e)) [
    | inl done ↦ rw (done, surviving-outstanding now n es) refl
    | inr open_ ↦ rw (open_, surviving-outstanding now n es) refl
  ]

  -- Confirmations are looked up one situation at a time.
  abbrev pub IsSingly : NotificationEvent → Type 0
  IsSingly event = (event.digest ≡ false) ⊎ (event.ack_mode ≡ ack_components)

  applied-outstanding :
      (digest : Bool) (mode : AckMode) (event : NotificationEvent) (now n : ℕ)
      → (digest ≡ false) ⊎ (mode ≡ ack_components)
      → applied p sqlite digest mode event now (at_tick n)
        ≡ (return (shrunk p sqlite event (outstanding now (evaluations event))), at_tick n)
  unfolding applied
  applied-outstanding true ack_none event now n (inl h) = cc
  applied-outstanding true ack_none event now n (inr h) = cc
  applied-outstanding true ack_digest event now n (inl h) = cc
  applied-outstanding true ack_digest event now n (inr h) = cc
  applied-outstanding true ack_components event now n h =
      rw (surviving-outstanding now n (evaluations event)) refl
  applied-outstanding false ack_none event now n h =
      rw (surviving-outstanding now n (evaluations event)) refl
  applied-outstanding false ack_digest event now n h =
      rw (surviving-outstanding now n (evaluations event)) refl
  applied-outstanding false ack_components event now n h =
      rw (surviving-outstanding now n (evaluations event)) refl

  pub admitted-outstanding :
      (event : NotificationEvent) (n : ℕ)
      → IsSingly event
      → admitted p sqlite true event (at_tick n) ≡ (
        return (
            unless_confirmed p sqlite
              (shrunk p sqlite event (outstanding (clock n) (evaluations event)))),
        at_tick (suc n),
      )
  unfolding admitted apply_acknowledgements time
  admitted-outstanding event n h =
      rw (applied-outstanding event.digest event.ack_mode event (clock n) (suc n) h) refl

  -- What is left of a message is what is outstanding, or nothing and everything is confirmed.
  abbrev pub IsLeft : ℕ → NotificationEvent → String ⊎ NotificationEvent → Type 0
  IsLeft now event (inl reason) =
      (reason ≡ "acknowledged")
      × ((v : Evaluation) → In v (evaluations event) → confirmed now v ≡ true)
  IsLeft now event (inr left) =
      (v : Evaluation)
      → In v (evaluations left) ↔ (In v (evaluations event) × (confirmed now v ≡ false))

  not-true : (b : Bool) → not b ≡ true → b ≡ false
  not-true b h = ground arith

  outstanding-In :
      (now : ℕ) (es : List Evaluation) (v : Evaluation)
      → In v (outstanding now es) ↔ (In v es × (confirmed now v ≡ false))
  outstanding-In now es v = (
    λ i.
        let (m, t) = In-keep (λ e. not (confirmed now e)) es i in (m, not-true (confirmed now v) t),
    λ h. keep-In (λ e. not (confirmed now e)) h.0 (rw h.1 refl),
  )

  outstanding-nil :
      (now : ℕ) (es : List Evaluation)
      → outstanding now es ≡ []
      → (v : Evaluation) → In v es
      → confirmed now v ≡ true
  outstanding-nil now es e v i = elim (Bool-cases (confirmed now v)) [
    | inl done ↦ done
    | inr open_ ↦ absurd (not-In-nil (subst (In v) e ((outstanding-In now es v).1 (i, open_))))
  ]

  -- Nothing was dropped, or what is listed is what is outstanding.
  length-IsLeft :
      (now : ℕ) (event : NotificationEvent) (b : Bool) (x : Evaluation) (xs : List Evaluation)
      → outstanding now (evaluations event) ≡ x ∷ xs
      → (length (x ∷ xs) == length (evaluations event)) ≡ b
      → IsLeft now event (
          unless_confirmed p sqlite
            (if b then some event else some (record event { evaluation = x; others = xs })))
  unfolding unless_confirmed
  length-IsLeft now event true x xs e l = λ v. (
    λ i. (i, not-true (confirmed now v) (length-keep-eq (λ u. not (confirmed now u)) same i)),
    λ h. h.0,
  )
    where
      same : length (outstanding now (evaluations event)) ≡ length (evaluations event)
      same = ap length e ∙ ground arith
  length-IsLeft now event false x xs e l = λ v.
      subst (λ left. In v left ↔ (In v (evaluations event) × (confirmed now v ≡ false))) e
        (outstanding-In now (evaluations event) v)

  shrunk-IsLeft :
      (now : ℕ) (event : NotificationEvent) (es : List Evaluation)
      → outstanding now (evaluations event) ≡ es
      → IsLeft now event (unless_confirmed p sqlite (shrunk p sqlite event es))
  unfolding shrunk unless_confirmed
  shrunk-IsLeft now event [] e = (refl, outstanding-nil now (evaluations event) e)
  shrunk-IsLeft now event (x ∷ xs) e =
      length-IsLeft now event (length (x ∷ xs) == length (evaluations event)) x xs e refl

  -- Where confirmations stop a message (`REQUIRE_ACKNOWLEDGEMENT` is on), through a working SQLite
  -- store, and of a message whose confirmations are looked up one situation at a time (a detailed
  -- message, or a digest with `summary_ack` "components"; not the modes "digest" and "none"), what is
  -- let through lists exactly the situations that nobody has confirmed with these facts, or whose
  -- confirmation has run out; it is held as "acknowledged" only if there is none. Finding this out
  -- changes nothing in the store.
  pub admit-outstanding :
      (settings : Settings) (event : NotificationEvent) (n : ℕ)
      → settings.require_acknowledgement ≡ true
      → IsSingly event
      → (left : String ⊎ NotificationEvent) × (admit p sqlite settings event (at_tick n)
          ≡ (return left, at_tick (suc n)))
        × IsLeft (clock n) event left
  unfolding admit
  admit-outstanding settings event n required h = (
    unless_confirmed p sqlite (shrunk p sqlite event (outstanding (clock n) (evaluations event))),
    rw required (admitted-outstanding event n h),
    shrunk-IsLeft (clock n) event (outstanding (clock n) (evaluations event)) refl,
  )
