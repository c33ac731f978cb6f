-- ===== src/Domain/Status/Batch.antt =====
-- `resolve_expiry`, `derive_status` and `evaluate_all` as a whole: when they raise, and what they
-- keep of their components.
use telecloud_subscription_r.Base.{
  ℕ, ◌≤◌, ◌≡◌, refl, true, Option, none, some, List, [], ◌∷◌, inl, inr, ◌⊎◌, return,
  and_then-return, return-injective, String,
}
use telecloud_subscription_r.Base.Int.{ℤ}
use telecloud_subscription_r.Domain.Status.{resolve_from, resolve_expiry, add_delta, derive_status}
use telecloud_subscription_r.Domain.Status.Evidence.{Justified, ladder-Justified}
use telecloud_subscription_r.Domain.Status.Progress.{Worsens, ladder-Worsens}
use telecloud_subscription_r.Models.{Component, Evaluation}
use telecloud_subscription_r.Platform.{Platform, DateTime, utc}

-- `resolve_expiry` has filled in `r` from `c`: it is `c` itself, or the sum of activation and
-- validity stands in the place of a missing expiry, with the flag.
abbrev pub Resolved : Component → Component → Type 0
Resolved c r =
    (r ≡ c)
    ⊎ ((start : DateTime) × (period : ℤ) × (t : DateTime) × (c.expires_at ≡ none)
        × (c.activated_at ≡ some start)
        × (c.validity_period ≡ some period)
        × (add_delta start period ≡ return t)
        × (r ≡ record c { expires_at = some t; expires_at_derived = true }))

module _ (c : Component) where
  resolve_from-Resolved :
      (x a : Option DateTime) (v : Option ℤ) {r : Component}
      → c.expires_at ≡ x
      → c.activated_at ≡ a
      → c.validity_period ≡ v
      → resolve_from c x a v ≡ return r
      → Resolved c r
  unfolding resolve_from
  resolve_from-Resolved (some x) a v ex ea ev h = inl (cc)
  resolve_from-Resolved none none v ex ea ev h = inl (cc)
  resolve_from-Resolved none (some a) none ex ea ev h = inl (cc)
  resolve_from-Resolved none (some a) (some v) ex ea ev h =
      let (t, sum, done) = and_then-return (add_delta a v) _ h in
      inr (a, v, t, ex, ea, ev, sum, cc (return-injective done))

  pub resolve_expiry-Resolved : {r : Component} → resolve_expiry c ≡ return r → Resolved c r
  unfolding resolve_expiry
  resolve_expiry-Resolved h =
      resolve_from-Resolved c.expires_at c.activated_at c.validity_period refl refl refl h

module _ (p : Platform) (tokens : List String) where
  -- An evaluation that was derived is the ladder's verdict on the resolved component: the status
  -- is justified by what that component carries.
  pub derive_status-Justified :
      (c : Component) (n : ℕ) (thresholds : List ℤ) {e : Evaluation}
      → derive_status p c (utc n) thresholds tokens ≡ return e
      → (r : Component) × Resolved c r × Justified p r n thresholds tokens e
  unfolding derive_status
  derive_status-Justified c n [] h = cc
  derive_status-Justified c n (t ∷ ts) h =
      let (r, found, done) = and_then-return (resolve_expiry c) _ h in
      (
        r,
        resolve_expiry-Resolved c found,
        rw (← return-injective done) (ladder-Justified p r n (t ∷ ts) tokens),
      )

  -- Derived again later, the same component is never better off.
  pub derive_status-Worsens :
      (c : Component) (n m : ℕ) (thresholds : List ℤ) {e e' : Evaluation}
      → n ≤ m
      → derive_status p c (utc n) thresholds tokens ≡ return e
      → derive_status p c (utc m) thresholds tokens ≡ return e'
      → Worsens e e'
  unfolding derive_status
  derive_status-Worsens c n m [] later h h' = cc
  derive_status-Worsens c n m (t ∷ ts) later h h' =
      let (r, found, done) = and_then-return (resolve_expiry c) _ h in
      let (r', found', done') = and_then-return (resolve_expiry c) _ h' in
      let same : r' ≡ r = cc (found, found') in
      rw (← return-injective done, ← return-injective done', same)
        (ladder-Worsens p r n m (t ∷ ts) tokens later)
