-- ===== src/Observability/Redaction/Texts.antt =====
-- Replacing a text by the mark of redaction: what cannot occur afterwards.
use Prim.Native.Char.{Char, code}
use telecloud_subscription_r.Base.{
  ◌-◌, ◌≡◌, refl, String, Bool, true, false, ◌||◌, arith, ◌==◌, Bool-cases, inl, inr, ◌⊎◌,
  if◌then◌else◌,
}
use telecloud_subscription_r.Observability.Redaction.{redacted}
use telecloud_subscription_r.Base.Text.{
  remove_prefix, starts_with, contains, prepend, replace_from, text_length,
}

-- whether an asterisk stands in a text
unfoldable pub has_star : String → Bool
has_star String.[] = false
has_star (String.◌∷◌ c s) = (code c == b'*') || has_star s

-- A text that starts a text after `w` and an asterisk, and has none itself, starts `w`.
starts_with-star :
    (w x u : String)
    → has_star u ≡ false
    → starts_with (prepend w (String.◌∷◌ "*" x)) u ≡ true
    → starts_with w u ≡ true
unfolding has_star starts_with prepend remove_prefix
starts_with-star w x String.[] plain h = refl
starts_with-star String.[] x (String.◌∷◌ c u) plain h = ground arith
starts_with-star (String.◌∷◌ d w) x (String.◌∷◌ c u) plain h =
    elim (Bool-cases (code c == code d)) [
      | inl same ↦ rw same (starts_with-star w x u (ground arith) (rw same at h))
      | inr apart ↦ cc (rw apart at h)
    ]

starts_with-cons :
    (d c : Char) (s u : String)
    → starts_with (String.◌∷◌ d s) (String.◌∷◌ c u)
      ≡ (if code c == code d then starts_with s u else false)
unfolding starts_with remove_prefix
starts_with-cons d c s u = elim (Bool-cases (code c == code d)) [
  | inl same ↦ rw same refl
  | inr apart ↦ rw apart refl
]

pub contains-cons :
    (u s : String) (c : Char)
    → contains u (String.◌∷◌ c s) ≡ true
    → (starts_with (String.◌∷◌ c s) u ≡ true) ⊎ (contains u s ≡ true)
unfolding contains
contains-cons u s c h = elim (Bool-cases (starts_with (String.◌∷◌ c s) u)) [
  | inl first ↦ inl first
  | inr later ↦ inr (rw later at h)
]

pub contains-first :
    (u s : String) (c : Char)
    → starts_with (String.◌∷◌ c s) u ≡ true
    → contains u (String.◌∷◌ c s) ≡ true
unfolding contains
contains-first u s c h = rw h refl

pub contains-later :
    (u s : String) (c : Char) → contains u s ≡ true → contains u (String.◌∷◌ c s) ≡ true
unfolding contains
contains-later u s c h = elim (Bool-cases (starts_with (String.◌∷◌ c s) u)) [
  | inl first ↦ rw first refl
  | inr later ↦ rw later h
]

contains-nil : (u : String) → starts_with "" u ≡ true → contains u "" ≡ true
unfolding contains starts_with remove_prefix
contains-nil String.[] h = refl
contains-nil (String.◌∷◌ c u) h = cc

absent-later :
    (u s : String) (c : Char) → contains u (String.◌∷◌ c s) ≡ false → contains u s ≡ false
absent-later u s c h = elim (Bool-cases (contains u s)) [
  | inl there ↦ cc (contains-later u s c there)
  | inr absent ↦ absent
]

-- A text without an asterisk that does not occur in `w`, but in a text that starts with `w` and
-- an asterisk, occurs after them.
contains-star :
    (w x u : String)
    → has_star u ≡ false
    → contains u w ≡ false
    → contains u (prepend w (String.◌∷◌ "*" x)) ≡ true
    → contains u x ≡ true
unfolding prepend
contains-star String.[] x u plain absent h = elim (contains-cons u x "*" h) [
  | inl first ↦ cc (absent, contains-nil u (starts_with-star "" x u plain first))
  | inr later ↦ later
]
contains-star (String.◌∷◌ d w) x u plain absent h =
    elim (contains-cons u (prepend w (String.◌∷◌ "*" x)) d h) [
      | inl first ↦
          cc (absent, contains-first u w d (starts_with-star (String.◌∷◌ d w) x u plain first))
      | inr later ↦ contains-star w x u plain (absent-later u w d absent) later
    ]

module _ (old new : String) where
  pub replace_from-found :
      (t : String) (c : Char)
      → starts_with (String.◌∷◌ c t) old ≡ true
      → replace_from old new 0 (String.◌∷◌ c t)
        ≡ prepend new (replace_from old new (text_length old - 1) t)
  unfolding replace_from
  replace_from-found t c h = rw (h, replace_from) refl

  pub replace_from-other :
      (t : String) (c : Char)
      → starts_with (String.◌∷◌ c t) old ≡ false
      → replace_from old new 0 (String.◌∷◌ c t) ≡ String.◌∷◌ c (replace_from old new 0 t)
  unfolding replace_from
  replace_from-other t c h = rw (h, replace_from) refl

module _ (old : String) where
  -- A text without an asterisk that starts the replaced text starts the text itself.
  pub starts_with-replace_from :
      (t u : String)
      → has_star u ≡ false
      → starts_with (replace_from old redacted 0 t) u ≡ true
      → starts_with t u ≡ true
  unfolding has_star replace_from prepend
  starts_with-replace_from t String.[] plain h = refl
  starts_with-replace_from String.[] (String.◌∷◌ d u) plain h = h
  starts_with-replace_from (String.◌∷◌ c t) (String.◌∷◌ d u) plain h =
      elim (Bool-cases (starts_with (String.◌∷◌ c t) old)) [
        | inl found ↦
            let star : starts_with
                  (prepend "" (
                    String.◌∷◌ "*" (
                      prepend "**REDACTED***" (replace_from old redacted (text_length old - 1) t))))
                  (String.◌∷◌ d u)
                ≡ true =
              rw (replace_from-found old redacted t c found) at h in
            let none_left : starts_with "" (String.◌∷◌ d u) ≡ true =
              starts_with-star "" _ (String.◌∷◌ d u) plain star in
            cc
        | inr other ↦
            let kept =
              rw (starts_with-cons c d (replace_from old redacted 0 t) u) at
                (rw (replace_from-other old redacted t c other) at h) in
            rw (starts_with-cons c d t u) (elim (Bool-cases (code d == code c)) [
              | inl same ↦ rw same (starts_with-replace_from t u (ground arith) (rw same at kept))
              | inr apart ↦ cc (rw apart at kept)
            ])
      ]

-- what may be replaced, or looked for afterwards: no asterisk, and not a part of the mark
abbrev pub IsPlain : String → Type 0
IsPlain u = (has_star u ≡ false) × (contains u "REDACTED" ≡ false)

pub contains-empty : (u : String) → contains u "REDACTED" ≡ false → contains u "" ≡ false
unfolding contains starts_with remove_prefix
contains-empty String.[] absent = absent
contains-empty (String.◌∷◌ c u) absent = refl

-- one asterisk of the mark
contains-one_star :
    (x u : String) → IsPlain u → contains u (String.◌∷◌ "*" x) ≡ true → contains u x ≡ true
unfolding prepend
contains-one_star x u (plain, absent) h = contains-star "" x u plain (contains-empty u absent) h

pub contains-mark :
    (x u : String) → IsPlain u → contains u (prepend redacted x) ≡ true → contains u x ≡ true
unfolding prepend
contains-mark x u plain h = contains-one_star _ u plain (
    contains-one_star _ u plain (
      contains-star "REDACTED" _ u plain.0 plain.1 (
        contains-one_star _ u plain (contains-one_star _ u plain (contains-one_star _ u plain h)))))
