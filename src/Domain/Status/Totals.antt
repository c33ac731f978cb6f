-- ===== src/Domain/Status/Totals.antt =====
-- Evaluating a listing: when it raises nothing, and what it keeps of the components.
use telecloud_subscription_r.Base.{
  ℕ, ◌≡◌, refl, Option, none, some, List, [], ◌∷◌, map, All, Bool-cases, inl, inr, return, String,
}
use telecloud_subscription_r.Base.Int.{ℤ, leb_ℤ, pos, sub_ℕ}
use telecloud_subscription_r.Domain.Rules.{select_rung}
use telecloud_subscription_r.Domain.Status.{
  resolve_from, resolve_expiry, reports_suspended, result, warned, timed, dated, ladder,
  derive_status, evaluate_all,
}
use telecloud_subscription_r.Models.{Component, Evaluation}
use telecloud_subscription_r.Platform.{Platform, DateTime, utc, naive}

-- the parser leaves `validity_period` unset
abbrev pub HasNoPeriod : Component → Type 0
HasNoPeriod c = c.validity_period ≡ none

resolve_from-none :
    (c : Component) (x a : Option DateTime) (v : Option ℤ)
    → v ≡ none
    → resolve_from c x a v ≡ return c
unfolding resolve_from
resolve_from-none c (some x) a v h = refl
resolve_from-none c none none v h = refl
resolve_from-none c none (some a) none h = refl
resolve_from-none c none (some a) (some v) h = cc

resolve_expiry_none : (c : Component) → HasNoPeriod c → resolve_expiry c ≡ return c
unfolding resolve_expiry
resolve_expiry_none c h = resolve_from-none c c.expires_at c.activated_at c.validity_period h

module _ (p : Platform) (tokens : List String) where
  module _ (c : Component) (n : ℕ) (thresholds : List ℤ) where
    component-warned : (d : ℤ) (o : Option ℤ) → (warned p c n thresholds d o).component ≡ c
    unfolding warned result
    component-warned d none = refl
    component-warned d (some w) = refl

    component-timed : (d : ℤ) → (timed p c n thresholds d).component ≡ c
    unfolding timed result
    component-timed d = elim (Bool-cases (leb_ℤ d (pos 0))) [
      | inl over ↦ rw over refl
      | inr open_ ↦ rw open_ (component-warned d (select_rung d thresholds))
    ]

    component-dated :
        (error : Option String) (expiry : Option DateTime)
        → (dated p c n thresholds error expiry).component ≡ c
    unfolding dated result
    component-dated (some error) expiry = refl
    component-dated none none = refl
    component-dated none (some (naive t)) = refl
    component-dated none (some (utc t)) = component-timed (sub_ℕ t n)

    pub component-ladder : (ladder p c n thresholds tokens).component ≡ c
    unfolding ladder result
    component-ladder = elim (Bool-cases (reports_suspended p tokens c.portal_status)) [
      | inl off ↦ rw off refl
      | inr on ↦ rw on (component-dated c.parse_error c.expires_at)
    ]

  module _ (n : ℕ) (t : ℤ) (ts : List ℤ) where
    derive_status_none :
        (c : Component)
        → HasNoPeriod c
        → derive_status p c (utc n) (t ∷ ts) tokens ≡ return (ladder p c n (t ∷ ts) tokens)
    unfolding derive_status
    derive_status_none c h = rw (resolve_expiry_none c h) refl

    -- With an aware instant, a ladder that is not empty and components as the parser makes them,
    -- a listing is evaluated without an exception: one evaluation for each component, in order,
    -- and each of the unchanged component.
    pub evaluate_all_total :
        (cs : List Component)
        → All HasNoPeriod cs
        → (es : List Evaluation) × (evaluate_all p cs (utc n) (t ∷ ts) tokens ≡ return es)
          × (map (λ e. e.component) es ≡ cs)
    unfolding evaluate_all
    evaluate_all_total [] h = ([], refl, refl)
    evaluate_all_total (c ∷ cs) h =
        let (es, done, same) = evaluate_all_total cs h.1 in
        (
          ladder p c n (t ∷ ts) tokens ∷ es,
          rw (derive_status_none c h.0, done) refl,
          rw (component-ladder c n (t ∷ ts), same) refl,
        )
