-- ===== src/Domain/Status/Progress.antt =====
-- As time passes a status only gets worse, and the rung of a warning only tighter.
use telecloud_subscription_r.Base.{
  ℕ, ◌≤◌, ◌≡◌, refl, false, Option, none, some, List, arith, Bool-cases, inl, inr, String, ◌≢◌,
}
use telecloud_subscription_r.Base.Int.{ℤ, pos, ◌≤ℤ◌, leb_ℤ, sub_ℕ, sub_ℕ-antitone}
use telecloud_subscription_r.Domain.Rules.{select_rung}
use telecloud_subscription_r.Domain.Rules.Ladder.{select_rung-antitone}
use telecloud_subscription_r.Domain.Status.{reports_suspended, result, warned, timed, dated, ladder}
use telecloud_subscription_r.Models.{
  Component, Evaluation, active, expiring_soon, expired, suspended, unknown,
}
use telecloud_subscription_r.Platform.{Platform, DateTime, utc, naive}

-- A warning is followed by an expiry, or by a warning at the same or a tighter rung.
abbrev pub Tightens : Option ℤ → Evaluation → Type 0
Tightens before after = elim after.status as (λ _. Type 0) [
  | expired ↦ Unit
  | expiring_soon ↦
      (wide : ℤ) × (tight : ℤ) × (before ≡ some wide) × (after.rung ≡ some tight) × (tight ≤ℤ wide)
  | _ ↦ ⊥
]

-- What an evaluation may be followed by when the same component is evaluated later.
abbrev pub Worsens : Evaluation → Evaluation → Type 0
Worsens before after = elim before.status as (λ _. Type 0) [
  | active ↦ (after.status ≢ suspended) × (after.status ≢ unknown)
  | expiring_soon ↦ Tightens before.rung after
  | expired ↦ after.status ≡ expired
  | suspended ↦ after.status ≡ suspended
  | unknown ↦ after.status ≡ unknown
]

module _ (p : Platform) (c : Component) (n m : ℕ) (thresholds : List ℤ) where
  warned-Worsens :
      (before after : ℤ) (o o' : Option ℤ)
      → ((wide : ℤ) → o ≡ some wide → (tight : ℤ) × (o' ≡ some tight) × (tight ≤ℤ wide))
      → Worsens (warned p c n thresholds before o) (warned p c m thresholds after o')
  unfolding warned result
  warned-Worsens before after none none h = ((λ e. cc), (λ e. cc))
  warned-Worsens before after none (some t) h = ((λ e. cc), (λ e. cc))
  warned-Worsens before after (some w) none h = let (t, e, _) = h w refl in cc e
  warned-Worsens before after (some w) (some t) h =
      let (t', e, tighter) = h w refl in (w, t', refl, e, tighter)

  warned-expired :
      (before after : ℤ) (o : Option ℤ)
      → Worsens
          (warned p c n thresholds before o)
          (result p c m thresholds expired "expiry has passed" (some after) none)
  unfolding warned result
  warned-expired before after none = ((λ e. cc), (λ e. cc))
  warned-expired before after (some w) = tt

  timed-Worsens :
      (before after : ℤ)
      → after ≤ℤ before
      → Worsens (timed p c n thresholds before) (timed p c m thresholds after)
  unfolding timed
  timed-Worsens before after shrinks = elim (Bool-cases (leb_ℤ after (pos 0))) [
    | inl over ↦ rw over (elim (Bool-cases (leb_ℤ before (pos 0))) [
      | inl was ↦ rw was (unfold result in refl)
      | inr not_yet ↦ rw not_yet (warned-expired before after (select_rung before thresholds))
    ])
    | inr open_ ↦
        let was : leb_ℤ before (pos 0) ≡ false = ground arith in
        rw (open_, was)
          (warned-Worsens before after (select_rung before thresholds)
            (select_rung after thresholds)
            (λ wide e. select_rung-antitone before after thresholds shrinks e))
  ]

  dated-Worsens :
      (error : Option String) (expiry : Option DateTime)
      → n ≤ m
      → Worsens (dated p c n thresholds error expiry) (dated p c m thresholds error expiry)
  unfolding dated result
  dated-Worsens (some error) expiry h = refl
  dated-Worsens none none h = refl
  dated-Worsens none (some (naive t)) h = refl
  dated-Worsens none (some (utc t)) h =
      timed-Worsens (sub_ℕ t n) (sub_ℕ t m) (sub_ℕ-antitone t n m h)

  -- Evaluated later, with the same ladder and vocabulary, a component is never better off.
  pub ladder-Worsens :
      (tokens : List String)
      → n ≤ m
      → Worsens (ladder p c n thresholds tokens) (ladder p c m thresholds tokens)
  unfolding ladder result
  ladder-Worsens tokens h = elim (Bool-cases (reports_suspended p tokens c.portal_status)) [
    | inl off ↦ rw off refl
    | inr on ↦ rw on (dated-Worsens c.parse_error c.expires_at h)
  ]
