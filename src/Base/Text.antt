-- ===== src/Base/Text.antt =====
-- Texts as Python reads them: truth, stripping, splitting, joining, prefixes and decimal numbers.
use Prim.Native.Char.{Char, code}
use Prim.Native.Nat.{ℕ, zero, suc, ◌-◌, ◌/◌, ◌%◌}
use Prim.Native.String.{String, ◌++◌}
use mathlib.Core.Bool.{Bool, true, false, ◌&&◌, ◌||◌}
use mathlib.Core.Option.{Option, none, some}
use mathlib.Core.List.{List, [], ◌∷◌}
use telecloud_subscription_r.Base.Int.{ℤ, pos, negsuc}
use telecloud_subscription_r.Base.Tests.{◌==◌, ltb, if◌then◌else◌}
pub mod Laws

-- whether the separator `|` stands in a text
unfoldable pub has_bar : String → Bool
has_bar String.[] = false
has_bar (String.◌∷◌ c s) = (code c == b'|') || has_bar s

-- `not s`
abbrev pub is_empty : String → Bool
is_empty String.[] = true
is_empty (String.◌∷◌ c s) = false

-- `a or b`
abbrev pub or_text : String → String → String
or_text a b = if is_empty a then b else a

-- a character in front of the first of some pieces
abbrev pub push : Char → List String → List String
push c [] = String.◌∷◌ c "" ∷ []
push c (p ∷ ps) = String.◌∷◌ c p ∷ ps

-- `s.split(sep)` at one character
unfoldable pub split : ℕ → String → List String
split sep String.[] = "" ∷ []
split sep (String.◌∷◌ c s) =
    let rest = split sep s in if code c == sep then "" ∷ rest else push c rest

-- `sep.join(parts)`
unfoldable pub join : String → List String → String
join sep [] = ""
join sep (p ∷ []) = p
join sep (p ∷ q ∷ ps) = p ++ (sep ++ join sep (q ∷ ps))

-- `s[len(prefix):]` if `s.startswith(prefix)`
unfoldable pub remove_prefix : String → String → Option String
remove_prefix String.[] s = some s
remove_prefix (String.◌∷◌ c p) String.[] = none
remove_prefix (String.◌∷◌ c p) (String.◌∷◌ d s) =
    let rest = remove_prefix p s in if code c == code d then rest else none

abbrev pub is_some {ℓ} : {A : Type ℓ} → Option A → Bool
is_some none = false
is_some (some a) = true

unfoldable pub starts_with : String → String → Bool
unfolding remove_prefix
starts_with s prefix = is_some (remove_prefix prefix s)

-- `s[:n]`
unfoldable pub take : ℕ → String → String
take zero s = ""
take (suc n) String.[] = ""
take (suc n) (String.◌∷◌ c s) = String.◌∷◌ c (take n s)

-- `needle in s`
unfoldable pub contains : String → String → Bool
unfolding starts_with
contains needle String.[] = is_empty needle
contains needle (String.◌∷◌ c s) = starts_with (String.◌∷◌ c s) needle || contains needle s

-- `len(s)`
unfoldable pub text_length : String → ℕ
text_length String.[] = 0
text_length (String.◌∷◌ c s) = suc (text_length s)

-- `s + t`, by clauses on `s`
unfoldable pub prepend : String → String → String
prepend String.[] t = t
prepend (String.◌∷◌ c s) t = String.◌∷◌ c (prepend s t)

-- The occurrences of a text that is not empty replaced, from the left; the first `skip` characters
-- belong to the last one found.
unfoldable pub replace_from : String → String → ℕ → String → String
unfolding starts_with prepend text_length
replace_from old new skip String.[] = ""
replace_from old new (suc skip) (String.◌∷◌ c s) = replace_from old new skip s
replace_from old new zero (String.◌∷◌ c s) = elim (starts_with (String.◌∷◌ c s) old) [
  | true ↦ prepend new (replace_from old new (text_length old - 1) s)
  | false ↦ String.◌∷◌ c (replace_from old new zero s)
]

-- `s.replace(old, new)`
unfoldable pub replace : String → String → String → String
unfolding replace_from
replace old new s = replace_from old new 0 s

module _ (is_space : Char → Bool) where
  unfoldable pub lstrip : String → String
  lstrip String.[] = ""
  lstrip (String.◌∷◌ c s) = let rest = lstrip s in if is_space c then rest else String.◌∷◌ c s

  unfoldable pub rstrip : String → String
  rstrip String.[] = ""
  rstrip (String.◌∷◌ c s) =
      let rest = rstrip s in if is_space c && is_empty rest then "" else String.◌∷◌ c rest

  -- `s.strip()`
  unfoldable pub strip : String → String
  unfolding lstrip rstrip
  strip s = lstrip (rstrip s)

  abbrev flush : String → List String → List String
  flush w ws = if is_empty w then ws else w ∷ ws

  -- the word that a text begins with, and the words after it
  gather : String → String × List String
  gather String.[] = ("", [])
  gather (String.◌∷◌ c s) =
      let (w, ws) = gather s in if is_space c then ("", flush w ws) else (String.◌∷◌ c w, ws)

  -- `s.split()`
  unfoldable pub words : String → List String
  unfolding gather
  words s = let (w, ws) = gather s in flush w ws

digit : ℕ → Char
digit zero = "0"
digit (suc zero) = "1"
digit (suc (suc zero)) = "2"
digit (suc (suc (suc zero))) = "3"
digit (suc (suc (suc (suc zero)))) = "4"
digit (suc (suc (suc (suc (suc zero))))) = "5"
digit (suc (suc (suc (suc (suc (suc zero)))))) = "6"
digit (suc (suc (suc (suc (suc (suc (suc zero))))))) = "7"
digit (suc (suc (suc (suc (suc (suc (suc (suc zero)))))))) = "8"
digit _ = "9"

-- the digits of `n` in front of `acc`
digits_from : ℕ → ℕ → String → String
digits_from zero n acc = acc
digits_from (suc fuel) n acc =
    let more = digits_from fuel (n / 10) (String.◌∷◌ (digit (n % 10)) acc) in
    if ltb n 10 then String.◌∷◌ (digit n) acc else more

-- `str(n)`; a number has at most as many digits as its value and one
unfoldable pub show_ℕ : ℕ → String
unfolding digits_from digit
show_ℕ n = digits_from (suc n) n ""

unfoldable pub show_ℤ : ℤ → String
unfolding show_ℕ
show_ℤ (pos n) = show_ℕ n
show_ℤ (negsuc n) = "-" ++ show_ℕ (suc n)
