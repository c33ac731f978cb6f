-- ===== src/Domain/Rules/Durations.antt =====
-- Parsed durations are positive, and a parsed ladder is non-empty, positive and strictly falling.
use telecloud_subscription_r.Base.{
  ℕ, ◌+◌, ◌*◌, ◌<◌, ◌≡◌, Option, none, some, List, [], ◌∷◌, arith, Bool-cases, inl, inr, return,
  and_then-return, return-injective, not_leb→lt, String, leb, ◌≢◌,
}
use telecloud_subscription_r.Base.Int.{ℤ, leb_ℤ, pos, pos_part, neg_part}
use telecloud_subscription_r.Domain.Rules.{
  insert_rung, ladder_of, timedelta, unit_seconds, duration_of, ladder_from, tokens_of,
  match_duration, parse_duration, parse_all, parse_thresholds,
}
use telecloud_subscription_r.Base.Text.{strip}
use telecloud_subscription_r.Platform.{Platform}

infix 50 ◌<ℤ◌
abbrev pub ◌<ℤ◌ : ℤ → ℤ → Type 0
a <ℤ b = pos_part a + neg_part b < pos_part b + neg_part a

-- Every duration is wider than the next one.
abbrev pub Below : ℤ → List ℤ → Type 0
Below t [] = Unit
Below t (u ∷ us) = u <ℤ t

abbrev pub IsFalling : List ℤ → Type 0
IsFalling [] = Unit
IsFalling (t ∷ ts) = Below t ts × IsFalling ts

abbrev pub IsPositive : List ℤ → Type 0
IsPositive [] = Unit
IsPositive (t ∷ ts) = (pos 0 <ℤ t) × IsPositive ts

Below-insert_rung : (b d : ℤ) (ts : List ℤ) → d <ℤ b → Below b ts → Below b (insert_rung d ts)
unfolding insert_rung
Below-insert_rung b d [] h k = h
Below-insert_rung b d (t ∷ ts) h k = ground arith

insert_rung-IsFalling : (d : ℤ) (ts : List ℤ) → IsFalling ts → IsFalling (insert_rung d ts)
unfolding insert_rung
insert_rung-IsFalling d [] f = (tt, tt)
insert_rung-IsFalling d (t ∷ ts) f = elim (Bool-cases (leb_ℤ d t)) [
  | inr wider ↦ rw wider (ground arith, f)
  | inl fits ↦ rw fits (elim (Bool-cases (leb_ℤ t d)) [
    | inl same ↦ rw same f
    | inr narrower ↦
        rw narrower (Below-insert_rung t d ts (ground arith) f.0, insert_rung-IsFalling d ts f.1)
  ])
]

insert_rung-IsPositive :
    (d : ℤ) (ts : List ℤ) → pos 0 <ℤ d → IsPositive ts → IsPositive (insert_rung d ts)
unfolding insert_rung
insert_rung-IsPositive d [] h f = (h, tt)
insert_rung-IsPositive d (t ∷ ts) h f = ground (arith, insert_rung-IsPositive d ts)

insert_rung-ne-nil : (d : ℤ) (ts : List ℤ) → insert_rung d ts ≢ []
unfolding insert_rung
insert_rung-ne-nil d [] = λ e. cc
insert_rung-ne-nil d (t ∷ ts) = ground arith

ladder_of-IsFalling : (ds : List ℤ) → IsFalling (ladder_of ds)
unfolding ladder_of
ladder_of-IsFalling [] = tt
ladder_of-IsFalling (d ∷ ds) = insert_rung-IsFalling d (ladder_of ds) (ladder_of-IsFalling ds)

ladder_of-IsPositive : (ds : List ℤ) → IsPositive ds → IsPositive (ladder_of ds)
unfolding ladder_of
ladder_of-IsPositive [] f = tt
ladder_of-IsPositive (d ∷ ds) f =
    insert_rung-IsPositive d (ladder_of ds) f.0 (ladder_of-IsPositive ds f.1)

unit_seconds_pos : (c : ℕ) {seconds : ℕ} → unit_seconds c ≡ return seconds → 0 < seconds
unfolding unit_seconds
unit_seconds_pos c h = ground arith

timedelta_pos :
    (n seconds : ℕ) {d : ℤ} → 0 < n → 0 < seconds → timedelta (n * seconds) ≡ return d → pos 0 <ℤ d
unfolding timedelta
timedelta_pos n seconds hn hs h = grind arith

duration_of_pos : (m : Option (ℕ × ℕ)) {d : ℤ} → duration_of m ≡ return d → pos 0 <ℤ d
unfolding duration_of
duration_of_pos none h = cc
duration_of_pos (some (n, unit)) h = elim (Bool-cases (leb n 0)) [
  | inl nothing ↦ let bad = rw nothing at h in cc bad
  | inr more ↦
      let (seconds, known, fits) = and_then-return (unit_seconds unit) _ (rw more at h) in
      timedelta_pos n seconds (not_leb→lt n 0 more) (unit_seconds_pos unit known) fits
]

module _ (p : Platform) where
  -- A duration that was read is longer than nothing.
  pub parse_duration_pos : (token : String) {d : ℤ} → parse_duration p token ≡ return d → pos 0 <ℤ d
  unfolding parse_duration
  parse_duration_pos token h = duration_of_pos (match_duration p none (strip p.is_space token)) h

  parse_all-IsPositive :
      (tokens : List String) {ds : List ℤ} → parse_all p tokens ≡ return ds → IsPositive ds
  unfolding parse_all
  parse_all-IsPositive [] h = rw (← return-injective h) tt
  parse_all-IsPositive (t ∷ ts) h =
      let (d, first, rest) = and_then-return (parse_duration p t) _ h in
      let (ds, others, done) = and_then-return (parse_all p ts) _ rest in
      rw (← return-injective done) (parse_duration_pos t first, parse_all-IsPositive ts others)

  parse_all-ladder-ne-nil :
      (t : String) (tokens : List String) {ds : List ℤ}
      → parse_all p (t ∷ tokens) ≡ return ds
      → ladder_of ds ≢ []
  unfolding parse_all ladder_of
  parse_all-ladder-ne-nil t tokens h =
      let (d, first, rest) = and_then-return (parse_duration p t) _ h in
      let (ds, others, done) = and_then-return (parse_all p tokens) _ rest in
      rw (← return-injective done) (insert_rung-ne-nil d (ladder_of ds))

  ladder_from_lem :
      (tokens : List String) {ts : List ℤ}
      → ladder_from p tokens ≡ return ts
      → IsFalling ts × IsPositive ts × (ts ≢ [])
  unfolding ladder_from
  ladder_from_lem [] h = cc
  ladder_from_lem (t ∷ tokens) h =
      let (ds, read, done) = and_then-return (parse_all p (t ∷ tokens)) _ h in
      rw (← return-injective done) (
        ladder_of-IsFalling ds,
        ladder_of-IsPositive ds (parse_all-IsPositive (t ∷ tokens) read),
        parse_all-ladder-ne-nil t tokens read,
      )

  -- A warning ladder that was read is non-empty, each duration is longer than nothing, and each is
  -- strictly wider than the next one.
  pub parse_thresholds_ladder :
      (raw : String) {ts : List ℤ}
      → parse_thresholds p raw ≡ return ts
      → IsFalling ts × IsPositive ts × (ts ≢ [])
  unfolding parse_thresholds
  parse_thresholds_ladder raw h = ladder_from_lem (tokens_of p raw) h
