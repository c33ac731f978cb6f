-- ===== src/Base/Outcome.antt =====
-- Exceptions as values, and methods that change a state and may raise. What was written before a
-- raise stays written, so an action hands the state back beside the error too.
use Prim.Native.String.{String}
use mathlib.Core.Path.{◌≡◌, refl}
use mathlib.Core.Logic.{◌⊎◌, inl, inr}
use mathlib.Core.Bool.{Bool, true, false}
use telecloud_subscription_r.Base.Tests.{if◌then◌else◌}

-- The exception classes that the modelled code raises or handles, each with its message: Python's
-- own, then those of src/tele_scraper/errors.py.
pub data Error : Type 0 where
  value_error key_error overflow_error other_error : String → Error
  config_error scrape_error auth_error parse_error state_store_error channel_error : String → Error

-- `str(exc)`
abbrev pub message : Error → String
message (value_error m) = m
message (key_error m) = m
message (overflow_error m) = m
message (other_error m) = m
message (config_error m) = m
message (scrape_error m) = m
message (auth_error m) = m
message (parse_error m) = m
message (state_store_error m) = m
message (channel_error m) = m

pub data Result {ℓ} (A : Type ℓ) : Type ℓ where
  return : A → Result A
  raise : Error → Result A

abbrev pub and_then {ℓ κ} : {A : Type ℓ} {B : Type κ} → Result A → (A → Result B) → Result B
and_then (return a) f = f a
and_then (raise e) f = raise e

-- `try: …` with `except ValueError as exc`: what follows a result, and what a `ValueError`
abbrev pub caught {ℓ κ} : {A : Type ℓ} {B : Type κ} → (A → B) → (String → B) → Result A → Result B
caught keep handle (return a) = return (keep a)
caught keep handle (raise (value_error m)) = return (handle m)
caught keep handle (raise e) = raise e

-- What came out of a `try` was returned or handled.
pub caught-return {ℓ κ} :
    {A : Type ℓ} {B : Type κ} (keep : A → B) (handle : String → B) (r : Result A) {b : B}
    → caught keep handle r ≡ return b
    → ((a : A) × (r ≡ return a) × (keep a ≡ b))
      ⊎ ((m : String) × (r ≡ raise (value_error m)) × (handle m ≡ b))
caught-return keep handle (return a) h = inl (a, refl, cc)
caught-return keep handle (raise (value_error m)) h = inr (m, refl, cc)
caught-return keep handle (raise (key_error m)) h = cc
caught-return keep handle (raise (overflow_error m)) h = cc
caught-return keep handle (raise (other_error m)) h = cc
caught-return keep handle (raise (config_error m)) h = cc
caught-return keep handle (raise (scrape_error m)) h = cc
caught-return keep handle (raise (auth_error m)) h = cc
caught-return keep handle (raise (parse_error m)) h = cc
caught-return keep handle (raise (state_store_error m)) h = cc
caught-return keep handle (raise (channel_error m)) h = cc

-- A chain that returned has returned at its first step.
pub and_then-return {ℓ κ} :
    {A : Type ℓ} {B : Type κ} (m : Result A) (f : A → Result B) {b : B}
    → and_then m f ≡ return b
    → (a : A) × (m ≡ return a) × (f a ≡ return b)
and_then-return (return a) f h = (a, refl, h)
and_then-return (raise e) f h = cc

pub return-injective {ℓ} : {A : Type ℓ} {a b : A} → return a ≡ return b → a ≡ b
return-injective h = cc

pub return-if {ℓ} :
    {A : Type ℓ} (b : Bool) (x y : A)
    → return (if b then x else y) ≡ (if b then return x else return y)
return-if true x y = refl
return-if false x y = refl

abbrev pub Exec : Type 0 → Type 0 → Type 0
Exec S A = S → Result A × S

module _ {S A : Type 0} where
  abbrev pub pure : A → Exec S A
  pure a s = (return a, s)

  abbrev pub throw : Error → Exec S A
  throw e s = (raise e, s)

module _ {S A B : Type 0} where
  -- what follows an action, on its result and the state that it left
  abbrev pub resume : (A → Exec S B) → Result A → S → Result B × S
  resume f (return a) s = f a s
  resume f (raise e) s = (raise e, s)

  infixl 5 ◌>>=◌ ◌>>◌
  abbrev pub ◌>>=◌ : Exec S A → (A → Exec S B) → Exec S B
  ◌>>=◌ m f s = let (r, s') = m s in resume f r s'

  abbrev pub ◌>>◌ : Exec S A → Exec S B → Exec S B
  m >> n = m >>= λ _. n

  -- An action that returned has returned at its first step.
  pub resume-return :
      (f : A → Exec S B) (r : Result A) (s : S) {b : B}
      → (resume f r s).0 ≡ return b
      → (a : A) × (r ≡ return a) × ((f a s).0 ≡ return b)
  resume-return f (return a) s h = (a, refl, h)
  resume-return f (raise e) s h = cc
