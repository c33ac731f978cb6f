-- ===== src/Scraper/Listing/Reading.antt =====
-- What becomes of the entries of a listing: when an entry reads as healthy, and what can go wrong.
use telecloud_subscription_r.Base.{
  ℕ, suc, ◌<◌, ◌≡◌, refl, ap, String, false, Option, none, some, List, [], ◌∷◌, is_empty, length,
  All, Bool-cases, inl, inr, return, and_then-return, caught-return, return-injective,
}
use telecloud_subscription_r.Base.Int.{ℤ}
use telecloud_subscription_r.Domain.Status.{derive_status}
use telecloud_subscription_r.Domain.Status.Batch.{Resolved, derive_status-Justified}
use telecloud_subscription_r.Domain.Status.Evidence.{Justified-active}
use telecloud_subscription_r.Domain.Status.Totals.{HasNoPeriod}
use telecloud_subscription_r.Models.{Component, Evaluation, active}
use telecloud_subscription_r.Platform.{Platform, DateTime, utc}
use telecloud_subscription_r.Scraper.Json.{Json, Object, get, is_blank, to_str}
use telecloud_subscription_r.Scraper.Listing.{
  error_of, read_expiry, read_activation, field, unidentified, identified, parse_component,
  parse_from, parse_components,
}
use telecloud_subscription_r.Scraper.Stamp.{parse_timestamp}

Resolved-none : {c r : Component} → HasNoPeriod c → Resolved c r → r ≡ c
Resolved-none h (inl same) = same
Resolved-none h (inr (start, period, t, missing, begun, valid, sum, made)) = cc (h, valid)

error_of-none : (errors : List String) → error_of errors ≡ none → errors ≡ []
unfolding error_of
error_of-none [] h = refl
error_of-none (e ∷ es) h = cc

module _ (p : Platform) (shown : Json → String) (unusable : String → String) where
  read_expiry-some :
      (raw : Json) {o : Option DateTime × List String} {t : DateTime}
      → read_expiry p shown unusable raw ≡ return o
      → o.0 ≡ some t
      → parse_timestamp p unusable (to_str shown raw) ≡ return t
  unfolding read_expiry
  read_expiry-some raw {o = o} {t = t} h k = elim (Bool-cases (is_blank raw)) [
    | inl blank ↦
        let missing : return (none, "'expirationTime' is missing" ∷ []) ≡ return o =
          rw blank at h in
        let same : none ≡ some t = rw (← return-injective missing) at k in cc
    | inr there ↦
        elim (caught-return _ _ (parse_timestamp p unusable (to_str shown raw)) (rw there at h)) [
          | inl (u, read, kept) ↦ let same : some u ≡ some t = rw (← kept) at k in cc
          | inr (m, failed, handled) ↦ let same : none ≡ some t = rw (← handled) at k in cc
        ]
  ]

  identified_case :
      (item : Object) (index : ℕ) {c : Component}
      → is_empty (field p shown unusable "id" item) ≡ false
      → parse_component p shown unusable item index ≡ return c
      → (expiry : Option DateTime × List String) × (activation : Option DateTime) × (read_expiry p
            shown unusable
            (get "expirationTime" item)
          ≡ return expiry)
        × (identified p shown unusable item expiry activation ≡ c)
  unfolding parse_component
  identified_case item index named h =
      let (expiry, read, then_) =
        and_then-return (read_expiry p shown unusable (get "expirationTime" item)) _
          (rw named at h) in
      let (activation, begun, done) =
        and_then-return (read_activation p shown unusable (get "purchaseTime" item)) _ then_ in
      (expiry, activation, read, return-injective done)

  parse_component-HasNoPeriod :
      (item : Object) (index : ℕ) {c : Component}
      → parse_component p shown unusable item index ≡ return c
      → HasNoPeriod c
  unfolding parse_component identified unidentified
  parse_component-HasNoPeriod item index {c = c} h =
      elim (Bool-cases (is_empty (field p shown unusable "id" item))) [
        | inl nameless ↦ rw (← return-injective (rw nameless at h)) refl
        | inr named ↦
            let (expiry, activation, read, made) = identified_case item index named h in
            rw (← made) refl
      ]

  -- An entry of the listing whose component is ACTIVE at an instant has an id, and its
  -- `expirationTime` is a timestamp that the parser can read, later than that instant.
  pub parse_component-active :
      (item : Object) (index n : ℕ) (thresholds : List ℤ) (tokens : List String) {c : Component}
      (e : Evaluation)
      → parse_component p shown unusable item index ≡ return c
      → derive_status p c (utc n) thresholds tokens ≡ return e
      → e.status ≡ active
      → (is_empty (field p shown unusable "id" item) ≡ false)
        × (t : ℕ) × (parse_timestamp p unusable (to_str shown (get "expirationTime" item))
            ≡ return (utc t))
        × (n < t)
  unfolding parse_component identified unidentified
  parse_component-active item index n thresholds tokens {c = c} e parsed derived healthy =
      let (r, resolved, j) = derive_status-Justified p tokens c n thresholds derived in
      let same = Resolved-none (parse_component-HasNoPeriod item index parsed) resolved in
      let (t, known, clean, later) = Justified-active p r n thresholds tokens e healthy j in
      elim (Bool-cases (is_empty (field p shown unusable "id" item))) [
        | inl nameless ↦
            let made = return-injective (rw nameless at parsed) in
            let flagged : Option.some "entry has no 'id'; cannot be tracked across runs" ≡ none =
              rw (← made) at (rw same at clean) in
            cc
        | inr named ↦
            let (expiry, activation, read, made) = identified_case item index named parsed in
            let known' : expiry.0 ≡ some (utc t) = rw (← made) at (rw same at known) in
            (named, t, read_expiry-some (get "expirationTime" item) read known', later)
      ]

  parse_from-HasNoPeriod :
      (index : ℕ) (items : List Object) {cs : List Component}
      → parse_from p shown unusable index items ≡ return cs
      → All HasNoPeriod cs × (length cs ≡ length items)
  unfolding parse_from
  parse_from-HasNoPeriod index [] h = rw (← return-injective h) (tt, refl)
  parse_from-HasNoPeriod index (item ∷ items) h =
      let (c, parsed, then_) = and_then-return (parse_component p shown unusable item index) _ h in
      let (cs, more, done) =
        and_then-return (parse_from p shown unusable (suc index) items) _ then_ in
      let (plain, long) = parse_from-HasNoPeriod (suc index) items more in
      rw (← return-injective done)
        ((parse_component-HasNoPeriod item index parsed, plain), ap suc long)

  pub parse_components-HasNoPeriod :
      (items : List Object) {cs : List Component}
      → parse_components p shown unusable items ≡ return cs
      → All HasNoPeriod cs × (length cs ≡ length items)
  unfolding parse_components
  parse_components-HasNoPeriod items h = parse_from-HasNoPeriod 0 items h
