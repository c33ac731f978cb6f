-- ===== src/Scraper/Stamp.antt =====
-- src/tele_scraper/scraper/parser.py, `parse_timestamp`: a timestamp of the portal, as an instant.
-- The pattern `_GO_TIME` is read by hand; its digits are the ASCII ones.
use Prim.Native.Char.{Char, code}
use Prim.Native.Nat.{◌^◌}
use Prim.Native.String.{◌++◌}
use telecloud_subscription_r.Base.{
  ℕ, zero, suc, ◌+◌, ◌-◌, ◌*◌, ◌/◌, ◌%◌, String, Bool, true, false, not, ◌&&◌, ◌||◌, Option, none,
  some, leb, ◌==◌, is_empty, Result, raise, value_error, if◌then◌else◌,
}
use telecloud_subscription_r.Base.Int.{ℤ, pos, sub_ℕ}
use telecloud_subscription_r.Base.Text.{strip, lstrip}
use telecloud_subscription_r.Domain.Status.{add_delta}
use telecloud_subscription_r.Platform.{Platform, DateTime, utc}

-- what the pattern matched: the fraction in microseconds, the offset in hours and minutes
pub record Stamp : Type 0 where
  pub year : ℕ
  pub month : ℕ
  pub day : ℕ
  pub hour : ℕ
  pub minute : ℕ
  pub second : ℕ
  pub micros : ℕ
  pub ahead : Bool
  pub offset_hours : ℕ
  pub offset_minutes : ℕ

-- A reader takes something off the front of a text, or does not match.
abbrev pub Reader : Type 0 → Type 0
Reader A = String → Option (A × String)

infixl 5 ◌then_read◌
abbrev pub ◌then_read◌ : {A B : Type 0} → Option (A × String) → (A → Reader B) → Option (B × String)
none then_read f = none
(some (a, s)) then_read f = f a s

abbrev is_digit : Char → Bool
is_digit c = leb 48 (code c) && leb (code c) 57

-- `\d{count}`, after digits of the value `n`
unfoldable pub number : ℕ → ℕ → Reader ℕ
number zero n s = some (n, s)
number (suc count) n String.[] = none
number (suc count) n (String.◌∷◌ c s) =
    let rest = number count (n * 10 + (code c - 48)) s in if is_digit c then rest else none

-- one of two characters, and whether it is the first
one_of : ℕ → ℕ → Reader Bool
one_of a b String.[] = none
one_of a b (String.◌∷◌ c s) =
    if code c == a then some (true, s) else if code c == b then some (false, s) else none

-- The digits after a decimal point, of which the first ones count: `left` more of them.
decimals : ℕ → ℕ → String → ℕ × String
decimals left n String.[] = (n * 10 ^ left, "")
decimals zero n (String.◌∷◌ c s) =
    let rest = decimals zero n s in if is_digit c then rest else (n, String.◌∷◌ c s)
decimals (suc left) n (String.◌∷◌ c s) =
    let rest = decimals left (n * 10 + (code c - 48)) s in
    if is_digit c then rest else (n * 10 ^ suc left, String.◌∷◌ c s)

-- `(\.\d+)?`, in microseconds
fraction : Reader ℕ
unfolding decimals
fraction String.[] = some (0, "")
fraction (String.◌∷◌ c String.[]) = some (0, String.◌∷◌ c "")
fraction (String.◌∷◌ c (String.◌∷◌ d s)) =
    if code c == b'.' && is_digit d
    then some (decimals 6 0 (String.◌∷◌ d s))
    else some (0, String.◌∷◌ c (String.◌∷◌ d s))

-- `:?`
skip_colon : String → String
skip_colon String.[] = ""
skip_colon (String.◌∷◌ c s) = if code c == b':' then s else String.◌∷◌ c s

-- `[+-]\d{2}:?\d{2}|Z`
zone : Reader (Bool × ℕ × ℕ)
unfolding number one_of skip_colon
zone String.[] = none
zone (String.◌∷◌ c s) =
    if code c == b'Z'
    then some ((true, 0, 0), s)
    else one_of b'+' b'-' (String.◌∷◌ c s) then_read λ ahead s. number 2 0 s then_read λ hours s.
        number 2 0 (skip_colon s) then_read λ minutes s. some ((ahead, hours, minutes), s)

module _ (p : Platform) where
  open p use {is_space, repr}

  -- `\S*$`
  is_word : String → Bool
  is_word String.[] = true
  is_word (String.◌∷◌ c s) = not (is_space c) && is_word s

  -- `(?:\s+\S+)?$`
  ends : String → Bool
  unfolding lstrip is_word
  ends String.[] = true
  ends (String.◌∷◌ c s) =
      is_space c && not (is_empty (lstrip is_space s)) && is_word (lstrip is_space s)

  -- `_GO_TIME`
  unfoldable pub go_time : Reader Stamp
  unfolding number one_of fraction zone ends lstrip
  go_time s = number 4 0 s then_read λ year s. one_of b'-' b'-' s then_read λ _ s.
      number 2 0 s then_read λ month s. one_of b'-' b'-' s then_read λ _ s.
      number 2 0 s then_read λ day s. one_of b' ' b'T' s then_read λ _ s.
      number 2 0 s then_read λ hour s. one_of b':' b':' s then_read λ _ s.
      number 2 0 s then_read λ minute s. one_of b':' b':' s then_read λ _ s.
      number 2 0 s then_read λ second s. fraction s then_read λ micros s.
      zone (lstrip is_space s) then_read λ offset s.
      if ends s
      then some (
        record {
          year = year;
          month = month;
          day = day;
          hour = hour;
          minute = minute;
          second = second;
          micros = micros;
          ahead = offset.0;
          offset_hours = offset.1;
          offset_minutes = offset.2;
        },
        s,
      )
      else none

unfoldable pub is_leap : ℕ → Bool
is_leap y = y % 4 == 0 && (not (y % 100 == 0) || y % 400 == 0)

-- the days of the months, from January; 0 for a month that there is not
unfoldable pub days_in_month : Bool → ℕ → ℕ
days_in_month leap m =
    if m == 2
    then if leap then 29 else 28
    else if m == 4 || m == 6 || m == 9 || m == 11
    then 30
    else if leb 1 m && leb m 12
    then 31
    else 0

unfoldable pub days_before_month : Bool → ℕ → ℕ
unfolding days_in_month
days_before_month leap zero = 0
days_before_month leap (suc m) = days_before_month leap m + days_in_month leap m

-- the days of the years 1 to `y`
unfoldable pub days_through_year : ℕ → ℕ
days_through_year y = y * 365 + y / 4 - y / 100 + y / 400

-- whether `strptime` accepts the fields, and `timezone` the offset
unfoldable pub is_valid : Stamp → Bool
unfolding is_leap days_in_month
is_valid s =
    leb 1 s.year
    && leb 1 s.month
    && leb s.month 12
    && leb 1 s.day
    && leb s.day (days_in_month (is_leap s.year) s.month)
    && leb s.hour 23
    && leb s.minute 59
    && leb s.second 59
    && leb s.offset_hours 23
    && leb s.offset_minutes 59

-- the wall-clock reading, in microseconds since the first one that `datetime` has
unfoldable pub local : Stamp → ℕ
unfolding is_leap days_through_year days_before_month
local s =
    (((days_through_year (s.year - 1) + days_before_month (is_leap s.year) s.month + s.day - 1) * 24
            + s.hour)
          * 60
        + s.minute)
      * 60000000
    + s.second * 1000000
    + s.micros

-- what leads from the reading to UTC
unfoldable pub towards_utc : Stamp → ℤ
towards_utc s =
    let offset = (s.offset_hours * 60 + s.offset_minutes) * 60000000 in
    if s.ahead then sub_ℕ 0 offset else pos offset

-- `unusable raw` is the message of the `ValueError` that `strptime` raises.
module _ (p : Platform) (unusable : String → String) where
  open p use {is_space, repr}

  unfoldable pub timestamp_of : String → Option (Stamp × String) → Result DateTime
  unfolding is_valid local towards_utc
  timestamp_of raw none = raise (value_error ("unrecognised timestamp " ++ repr raw))
  timestamp_of raw (some (s, rest)) =
      if is_valid s
      then add_delta (utc (local s)) (towards_utc s)
      else raise (value_error (unusable raw))

  unfoldable pub parse_timestamp : String → Result DateTime
  unfolding strip go_time timestamp_of
  parse_timestamp raw = timestamp_of raw (go_time p (strip is_space raw))
