-- ===== src/Observability/Redaction/Clean.antt =====
-- What the redaction of an event leaves of the registered secrets.
use telecloud_subscription_r.Base.{
  ℕ, zero, suc, ◌-◌, ◌≡◌, refl, sym, String, Bool, true, false, Bool-cases, inl, inr, List, [], ◌∷◌,
  In, ◌||◌,
}
use telecloud_subscription_r.Observability.Redaction.{
  redacted, scrub_text, scrub_value, scrub_entries, scrub_values, redact_processor, is_secret_key,
  Value, Entries, Values,
}
use telecloud_subscription_r.Platform.{Platform}
use telecloud_subscription_r.Observability.Redaction.Texts.{
  IsPlain, contains-mark, contains-empty, contains-cons, contains-later, contains-first,
  replace_from-found, replace_from-other, starts_with-replace_from,
}
use telecloud_subscription_r.Base.Text.{
  prepend, starts_with, contains, replace_from, replace, text_length,
}

module _ (old : String) where
  -- What occurs after a replacement has occurred before.
  contains-replace_from :
      (t u : String) (skip : ℕ)
      → IsPlain u
      → contains u (replace_from old redacted skip t) ≡ true
      → contains u t ≡ true
  unfolding replace_from
  contains-replace_from String.[] u skip plain h = h
  contains-replace_from (String.◌∷◌ c t) u (suc skip) plain h =
      contains-later u t c (contains-replace_from t u skip plain h)
  contains-replace_from (String.◌∷◌ c t) u zero plain h =
      elim (Bool-cases (starts_with (String.◌∷◌ c t) old)) [
        | inl found ↦ contains-later u t c (
            contains-replace_from t u (text_length old - 1) plain
              (contains-mark _ u plain (rw (replace_from-found old redacted t c found) at h)))
        | inr other ↦
            elim (contains-cons u _ c (rw (replace_from-other old redacted t c other) at h)) [
              | inl first ↦ contains-first u t c (
                  starts_with-replace_from old (String.◌∷◌ c t) u plain.0
                    (rw (sym (replace_from-other old redacted t c other)) at first))
              | inr later ↦ contains-later u t c (contains-replace_from t u 0 plain later)
            ]
      ]

  -- The replaced text does not occur afterwards.
  absent-replace_from :
      (t : String) (skip : ℕ)
      → IsPlain old
      → contains old (replace_from old redacted skip t) ≡ true
      → ⊥
  unfolding replace_from
  absent-replace_from String.[] skip plain h =
      let there : contains old "" ≡ true = h in cc (there, contains-empty old plain.1)
  absent-replace_from (String.◌∷◌ c t) (suc skip) plain h = absent-replace_from t skip plain h
  absent-replace_from (String.◌∷◌ c t) zero plain h =
      elim (Bool-cases (starts_with (String.◌∷◌ c t) old)) [
        | inl found ↦
            absent-replace_from t (text_length old - 1) plain
              (contains-mark _ old plain (rw (replace_from-found old redacted t c found) at h))
        | inr other ↦
            elim (contains-cons old _ c (rw (replace_from-other old redacted t c other) at h)) [
              | inl first ↦
                  let start =
                    starts_with-replace_from old (String.◌∷◌ c t) old plain.0
                      (rw (sym (replace_from-other old redacted t c other)) at first) in
                  cc
              | inr later ↦ absent-replace_from t 0 plain later
            ]
      ]

-- A plain text that does not occur does not occur after the secrets are taken out either.
module _ (u : String) (plain : IsPlain u) where
  contains-scrub_text :
      (secrets : List String) (t : String)
      → contains u (scrub_text secrets t) ≡ true
      → contains u t ≡ true
  unfolding scrub_text replace
  contains-scrub_text [] t h = h
  contains-scrub_text (secret ∷ secrets) t h = elim (Bool-cases (contains secret t)) [
    | inl there ↦
        contains-replace_from secret t u 0 plain (contains-scrub_text secrets _ (rw there at h))
    | inr absent ↦ contains-scrub_text secrets t (rw absent at h)
  ]

  -- A registered secret does not occur after the secrets are taken out.
  pub absent-scrub_text :
      (secrets : List String) (t : String)
      → In u secrets
      → contains u (scrub_text secrets t) ≡ true
      → ⊥
  unfolding scrub_text replace
  absent-scrub_text [] t registered h = elim registered [ ]
  absent-scrub_text (u ∷ secrets) t In.here h = elim (Bool-cases (contains u t)) [
    | inl there ↦ absent-replace_from u t 0 plain (contains-scrub_text secrets _ (rw there at h))
    | inr absent ↦ let before = contains-scrub_text secrets t (rw absent at h) in cc
  ]
  absent-scrub_text (secret ∷ secrets) t (In.there later) h = absent-scrub_text secrets _ later h

  unmarked : contains u redacted ≡ true → ⊥
  unfolding prepend
  unmarked h = let marked = contains-mark "" u plain h in cc (marked, contains-empty u plain.1)

-- whether a text that stands in a log event, at any depth, contains `u`
module _ (u : String) where
  unfoldable mutual
    pub shows_value : Value → Bool
    shows_value (Value.text s) = contains u s
    shows_value (Value.dictionary es) = shows es
    shows_value (Value.sequence vs) = shows_values vs
    shows_value Value.other = false

    pub shows : Entries → Bool
    shows Entries.no_entries = false
    shows (Entries.entry key v es) = shows_value v || shows es

    pub shows_values : Values → Bool
    shows_values Values.no_values = false
    shows_values (Values.value v vs) = shows_value v || shows_values vs

module _ (secrets : List String) (u : String) (registered : In u secrets) (plain : IsPlain u) where
  mutual
    unfolding shows_value scrub_value

    scrubbed_value : (v : Value) → shows_value u (scrub_value secrets v) ≡ false
    scrubbed_value (Value.text s) = elim (Bool-cases (contains u (scrub_text secrets s))) [
      | inl there ↦ elim (absent-scrub_text u plain secrets s registered there) [ ]
      | inr absent ↦ absent
    ]
    scrubbed_value (Value.dictionary es) = scrubbed_entries es
    scrubbed_value (Value.sequence vs) = scrubbed_values vs
    scrubbed_value Value.other = refl

    scrubbed_entries : (es : Entries) → shows u (scrub_entries secrets es) ≡ false
    scrubbed_entries Entries.no_entries = refl
    scrubbed_entries (Entries.entry key v es) = rw (scrubbed_value v) (scrubbed_entries es)

    scrubbed_values : (vs : Values) → shows_values u (scrub_values secrets vs) ≡ false
    scrubbed_values Values.no_values = refl
    scrubbed_values (Values.value v vs) = rw (scrubbed_value v) (scrubbed_values vs)

  -- No text of a log event that went through the redaction, at whatever depth of dictionaries and
  -- lists, contains a registered secret, if the secret has no asterisk and does not stand in the
  -- word of the mark itself; whichever the other secrets are, and whatever their order.
  pub shows-redact_processor :
      (p : Platform) (event : Entries) → shows u (redact_processor secrets p event) ≡ false
  unfolding shows_value redact_processor
  shows-redact_processor p Entries.no_entries = refl
  shows-redact_processor p (Entries.entry key v es) = elim (Bool-cases (is_secret_key p key)) [
    | inl looks ↦ elim (Bool-cases (contains u redacted)) [
      | inl there ↦ elim (unmarked u plain there) [ ]
      | inr absent ↦ rw (looks, absent) (shows-redact_processor p es)
    ]
    | inr other ↦ rw (other, scrubbed_value v) (shows-redact_processor p es)
  ]
