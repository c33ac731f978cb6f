-- ===== src/Domain/Rules.antt =====
-- src/tele_scraper/domain/rules.py: durations, warning ladders, quiet hours, component patterns.
use Prim.Native.Char.{Char, code}
pub mod Ladder
pub mod Durations
pub mod QuietHours
use telecloud_subscription_r.Base.{
  ℕ, ◌+◌, ◌*◌, ◌/◌, String, Bool, true, false, not, ◌&&◌, ◌||◌, Option, none, some, List, [], ◌∷◌,
  map, keep, any, ltb, leb, ◌==◌, is_empty, Result, return, raise, and_then, value_error, key_error,
  overflow_error, if◌then◌else◌,
}
use telecloud_subscription_r.Base.Int.{ℤ, pos, leb_ℤ}
use telecloud_subscription_r.Base.Text.{split, strip}
use telecloud_subscription_r.Platform.{Platform, DateTime}

abbrev microseconds : ℕ
microseconds = 1000000

-- `timedelta(seconds=n)`: at most 999999999 days
timedelta : ℕ → Result ℤ
timedelta seconds =
    if ltb 999999999 (seconds / 86400)
    then raise (overflow_error "timedelta")
    else return (pos (seconds * microseconds))

-- `_UNIT_SECONDS[unit.lower()]` for a character that `[smhdw]` matches when case is ignored. The
-- long s, U+017F, matches `s` and is no key of the table.
unit_seconds : ℕ → Result ℕ
unit_seconds c =
    if c == b's' || c == b'S'
    then return 1
    else if c == b'm' || c == b'M'
    then return 60
    else if c == b'h' || c == b'H'
    then return 3600
    else if c == b'd' || c == b'D'
    then return 86400
    else if c == b'w' || c == b'W'
    then return 604800
    else raise (key_error "unit")

abbrev is_unit : ℕ → Bool
is_unit c =
    c == b's'
    || c == b'S'
    || c == b'm'
    || c == b'M'
    || c == b'h'
    || c == b'H'
    || c == b'd'
    || c == b'D'
    || c == b'w'
    || c == b'W'
    || c == 0x17f

-- What follows the digits: a unit, and the end of the text.
last_unit : Option ℕ → Char → String → Option (ℕ × ℕ)
last_unit (some n) c String.[] = if is_unit (code c) then some (n, code c) else none
last_unit _ c s = none

-- A duration put into a ladder that is widest first and holds each duration once.
insert_rung : ℤ → List ℤ → List ℤ
insert_rung d [] = d ∷ []
insert_rung d (t ∷ ts) =
    let rest = insert_rung d ts in
    if leb_ℤ d t then (if leb_ℤ t d then t ∷ ts else t ∷ rest) else d ∷ t ∷ ts

-- `tuple(sorted(set(durations), reverse=True))`
unfoldable pub ladder_of : List ℤ → List ℤ
unfolding insert_rung
ladder_of [] = []
ladder_of (d ∷ ds) = insert_rung d (ladder_of ds)

-- `min` of a non-empty list
minimum : ℤ → List ℤ → ℤ
minimum m [] = m
minimum m (t ∷ ts) = minimum (if leb_ℤ m t then m else t) ts

-- `min(crossed) if crossed else None`
least : List ℤ → Option ℤ
least [] = none
least (t ∷ ts) = some (minimum t ts)

unfoldable pub select_rung : ℤ → List ℤ → Option ℤ
unfolding least minimum
select_rung remaining thresholds = least (keep (λ t. leb_ℤ remaining t) thresholds)

-- The duration of a matched token.
duration_of : Option (ℕ × ℕ) → Result ℤ
unfolding unit_seconds timedelta
duration_of none = raise (value_error "invalid duration")
duration_of (some (n, unit)) =
    if leb n 0
    then raise (value_error "must be greater than zero")
    else and_then (unit_seconds unit) (λ seconds. timedelta (n * seconds))

module _ (p : Platform) where
  open p use {is_space, digit_value, fnmatchcase, local_time}

  -- `^(\d+)([smhdw])$`: the number and the code of the unit
  unfoldable pub match_duration : Option ℕ → String → Option (ℕ × ℕ)
  unfolding last_unit
  match_duration read String.[] = none
  match_duration read (String.◌∷◌ c s) = elim (digit_value c) [
    | some d ↦ match_duration (some ((elim read [ none ↦ 0 | some n ↦ n * 10 ]) + d)) s
    | none ↦ last_unit read c s
  ]

  unfoldable pub parse_duration : String → Result ℤ
  unfolding match_duration duration_of strip
  parse_duration token = duration_of (match_duration none (strip is_space token))

  -- The durations of all tokens, or the exception of the first bad one.
  unfoldable pub parse_all : List String → Result (List ℤ)
  parse_all [] = return []
  parse_all (token ∷ tokens) =
      and_then (parse_duration token) (λ d. and_then (parse_all tokens) (λ ds. return (d ∷ ds)))

  abbrev tokens_of : String → List String
  tokens_of raw = keep (λ t. not (is_empty t)) (map (strip is_space) (split b',' raw))

  -- The ladder of the tokens that are not blank.
  ladder_from : List String → Result (List ℤ)
  ladder_from [] = raise (value_error "warning threshold ladder must contain at least one duration")
  ladder_from (token ∷ tokens) = and_then (parse_all (token ∷ tokens)) (λ ds. return (ladder_of ds))

  unfoldable pub parse_thresholds : String → Result (List ℤ)
  unfolding ladder_from parse_all parse_duration ladder_of strip split
  parse_thresholds raw = ladder_from (tokens_of raw)

  unfoldable pub in_quiet_hours : DateTime → ℕ → ℕ → String → Bool
  in_quiet_hours now start end tz =
      let local = local_time now tz in
      if start == end
      then false
      else if ltb start end
      then leb start local && ltb local end
      else leb start local || ltb local end

  unfoldable pub matches_component : List String → String → String → Bool
  matches_component patterns component_id name =
      any (λ pattern. fnmatchcase component_id pattern || fnmatchcase name pattern) patterns
