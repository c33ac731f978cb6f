-- ===== src/Domain/Status/Evidence.antt =====
-- No component is healthy without evidence, and each status has its reason.
use telecloud_subscription_r.Base.{
  ℕ, ◌≤◌, ◌<◌, ◌≡◌, refl, true, Option, none, some, List, arith, Bool-cases, inl, inr, ◌⊎◌, String,
  ◌≢◌, In,
}
use telecloud_subscription_r.Base.Int.{ℤ, pos, ◌≤ℤ◌, leb_ℤ, sub_ℕ}
use telecloud_subscription_r.Domain.Rules.{select_rung}
use telecloud_subscription_r.Domain.Rules.Ladder.{select_rung-none, select_rung-tightest}
use telecloud_subscription_r.Domain.Status.{reports_suspended, result, warned, timed, dated, ladder}
use telecloud_subscription_r.Models.{
  Component, Evaluation, active, expiring_soon, expired, suspended, unknown,
}
use telecloud_subscription_r.Platform.{Platform, DateTime, utc, naive}

module _ (p : Platform) where
  -- What must be known of a component for each status at instant `n`.
  abbrev pub Justified : Component → ℕ → List ℤ → List String → Evaluation → Type 0
  Justified c n thresholds tokens e = elim e.status as (λ _. Type 0) [
    | active ↦
        (t : ℕ) × (c.expires_at ≡ some (utc t))
        × (c.parse_error ≡ none)
        × (n < t)
        × (e.rung ≡ none)
        × ((w : ℤ) → In w thresholds → ¬ (sub_ℕ t n ≤ℤ w))
    | expiring_soon ↦
        (t : ℕ) × (rung : ℤ) × (c.expires_at ≡ some (utc t))
        × (c.parse_error ≡ none)
        × (n < t)
        × (e.rung ≡ some rung)
        × In rung thresholds
        × (sub_ℕ t n ≤ℤ rung)
        × ((w : ℤ) → In w thresholds → sub_ℕ t n ≤ℤ w → rung ≤ℤ w)
    | expired ↦
        (t : ℕ) × (c.expires_at ≡ some (utc t)) × (c.parse_error ≡ none) × (t ≤ n) × (e.rung ≡ none)
    | suspended ↦ (reports_suspended p tokens c.portal_status ≡ true) × (e.rung ≡ none)
    | unknown ↦ ((c.parse_error ≢ none) ⊎ ((t : ℕ) → c.expires_at ≢ some (utc t))) × (e.rung ≡ none)
  ]

  -- An evaluation that is ACTIVE has the evidence for it.
  pub Justified-active :
      (c : Component) (n : ℕ) (thresholds : List ℤ) (tokens : List String) (e : Evaluation)
      → e.status ≡ active
      → Justified c n thresholds tokens e
      → (t : ℕ) × (c.expires_at ≡ some (utc t)) × (c.parse_error ≡ none) × (n < t)
  Justified-active c n thresholds tokens e h j =
      let (t, known, clean, later, rung, tight) = rw h at j in (t, known, clean, later)

  module _ (c : Component) (n : ℕ) (thresholds : List ℤ) (tokens : List String) where
    warned-Justified :
        (t : ℕ) (o : Option ℤ)
        → c.expires_at ≡ some (utc t)
        → c.parse_error ≡ none
        → n < t
        → select_rung (sub_ℕ t n) thresholds ≡ o
        → Justified c n thresholds tokens (warned p c n thresholds (sub_ℕ t n) o)
    unfolding warned result
    warned-Justified t none known clean later e =
        (t, known, clean, later, refl, λ w i. select_rung-none (sub_ℕ t n) thresholds e i)
    warned-Justified t (some rung) known clean later e =
        let (member, crossed, least) = select_rung-tightest (sub_ℕ t n) thresholds e in
        (t, rung, known, clean, later, refl, member, crossed, least)

    timed-Justified :
        (t : ℕ)
        → c.expires_at ≡ some (utc t)
        → c.parse_error ≡ none
        → Justified c n thresholds tokens (timed p c n thresholds (sub_ℕ t n))
    unfolding timed result
    timed-Justified t known clean = elim (Bool-cases (leb_ℤ (sub_ℕ t n) (pos 0))) [
      | inl over ↦ rw over (t, known, clean, ground arith, refl)
      | inr open_ ↦
          rw open_ (
            warned-Justified t (select_rung (sub_ℕ t n) thresholds) known clean (ground arith) refl)
    ]

    dated-Justified :
        (error : Option String) (expiry : Option DateTime)
        → c.parse_error ≡ error
        → c.expires_at ≡ expiry
        → Justified c n thresholds tokens (dated p c n thresholds error expiry)
    unfolding dated result
    dated-Justified (some error) expiry e x = (inl (λ clean. cc), refl)
    dated-Justified none none e x = (inr (λ t known. cc), refl)
    dated-Justified none (some (naive t)) e x = (inr (λ t known. cc), refl)
    dated-Justified none (some (utc t)) e x = timed-Justified t x e

    -- Whatever status the ladder gives, the component carries the evidence for it.
    pub ladder-Justified : Justified c n thresholds tokens (ladder p c n thresholds tokens)
    unfolding ladder result
    ladder-Justified = elim (Bool-cases (reports_suspended p tokens c.portal_status)) [
      | inl off ↦ rw off (off, refl)
      | inr on ↦ rw on (dated-Justified c.parse_error c.expires_at refl refl)
    ]
