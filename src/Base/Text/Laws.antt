-- ===== src/Base/Text/Laws.antt =====
-- Splitting undoes joining where no piece holds the separator, a prefix comes off again, and a
-- printed number holds no separator.
use Prim.Native.Char.{code}
use Prim.Native.Nat.{ℕ, zero, suc, ◌/◌, ◌%◌}
use Prim.Native.String.{String, ◌++◌}
use mathlib.Core.Path.{◌≡◌, refl}
use mathlib.Core.Bool.{false, ◌||◌}
use mathlib.Core.Option.{some}
use mathlib.Core.List.{[], ◌∷◌}
use native.Mathlib.Omega.{arith}
use telecloud_subscription_r.Base.Int.{ℤ, pos, negsuc}
use text.Mathlib.TextLemmas.{nil-append, cons-append}
use telecloud_subscription_r.Base.Tests.{◌==◌}
use telecloud_subscription_r.Base.Text.{
  has_bar, split, remove_prefix, digit, digits_from, show_ℕ, show_ℤ,
}

pub has_bar-append : (s t : String) → has_bar (s ++ t) ≡ (has_bar s || has_bar t)
unfolding has_bar
has_bar-append String.[] t = rw nil-append
has_bar-append (String.◌∷◌ c s) t = rw cons-append (ground (arith, has_bar-append s t))

-- A text without the separator is one piece.
pub split_whole : (s : String) → has_bar s ≡ false → split b'|' s ≡ s ∷ []
unfolding has_bar split
split_whole String.[] h = refl
split_whole (String.◌∷◌ c s) h = ground (arith, split_whole s)

-- A piece without the separator comes off whole.
pub split-append :
    (s t : String) → has_bar s ≡ false → split b'|' (s ++ ("|" ++ t)) ≡ s ∷ split b'|' t
unfolding has_bar split
split-append String.[] t h = rw (nil-append, cons-append, nil-append)
split-append (String.◌∷◌ c s) t h = rw cons-append (ground (arith, split-append s t))

pub remove_prefix-append : (p s : String) → remove_prefix p (p ++ s) ≡ some s
unfolding remove_prefix
remove_prefix-append String.[] s = rw nil-append
remove_prefix-append (String.◌∷◌ c p) s = rw cons-append (ground (arith, remove_prefix-append p s))

digit_no_bar : (n : ℕ) → (code (digit n) == b'|') ≡ false
unfolding digit
digit_no_bar zero = refl
digit_no_bar (suc zero) = refl
digit_no_bar (suc (suc zero)) = refl
digit_no_bar (suc (suc (suc zero))) = refl
digit_no_bar (suc (suc (suc (suc zero)))) = refl
digit_no_bar (suc (suc (suc (suc (suc zero))))) = refl
digit_no_bar (suc (suc (suc (suc (suc (suc zero)))))) = refl
digit_no_bar (suc (suc (suc (suc (suc (suc (suc zero))))))) = refl
digit_no_bar (suc (suc (suc (suc (suc (suc (suc (suc zero)))))))) = refl
digit_no_bar (suc (suc (suc (suc (suc (suc (suc (suc (suc n))))))))) = refl

digits_from_no_bar :
    (fuel n : ℕ) (acc : String) → has_bar acc ≡ false → has_bar (digits_from fuel n acc) ≡ false
unfolding digits_from has_bar
digits_from_no_bar zero n acc h = h
digits_from_no_bar (suc fuel) n acc h = ground (
  arith,
  digit_no_bar n,
  digit_no_bar (n % 10),
  digits_from_no_bar fuel (n / 10) (String.◌∷◌ (digit (n % 10)) acc),
)

pub show_ℤ_no_bar : (n : ℤ) → has_bar (show_ℤ n) ≡ false
unfolding show_ℤ show_ℕ has_bar
show_ℤ_no_bar (pos n) = digits_from_no_bar (suc n) n "" refl
show_ℤ_no_bar (negsuc n) =
    rw has_bar-append (ground (arith, digits_from_no_bar (suc (suc n)) (suc n) "" refl))
