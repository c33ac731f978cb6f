-- ===== src/Base/Lists.antt =====
-- Lists with Boolean tests and native lengths, and predicates over their members.
use Prim.Native.Nat.{ℕ, suc, ◌+◌, ◌≤◌}
use mathlib.Core.Path.{◌≡◌, refl}
use mathlib.Core.Logic.{◌⊎◌, inl, inr}
use mathlib.Core.Bool.{Bool, true, false, ◌||◌}
use mathlib.Core.List.{List, [], ◌∷◌, ◌++◌, map}
use native.Mathlib.Omega.{arith}
use telecloud_subscription_r.Base.Tests.{if◌then◌else◌}

module _ {ℓ} {A : Type ℓ} where
  abbrev pub length : List A → ℕ
  length [] = 0
  length (x ∷ xs) = suc (length xs)

  -- `[x for x in xs if test x]`
  abbrev pub keep : (A → Bool) → List A → List A
  keep test [] = []
  keep test (x ∷ xs) = let rest = keep test xs in if test x then x ∷ rest else rest

  abbrev pub any : (A → Bool) → List A → Bool
  any test [] = false
  any test (x ∷ xs) = test x || any test xs

  abbrev pub All {κ} : (A → Type κ) → List A → Type κ
  All P [] = Unit
  All P (x ∷ xs) = P x × All P xs

  -- membership with its position
  pub data In (a : A) : List A → Type ℓ where
    here : {xs : List A} → In a (a ∷ xs)
    there : {x : A} {xs : List A} → In a xs → In a (x ∷ xs)

  pub length-append : (xs ys : List A) → length (xs ++ ys) ≡ length xs + length ys
  length-append [] ys = omega arith
  length-append (x ∷ xs) ys = omega (arith, length-append xs ys)

  pub All-append {κ} : (P : A → Type κ) (xs ys : List A) → All P xs → All P ys → All P (xs ++ ys)
  All-append P [] ys h k = k
  All-append P (x ∷ xs) ys h k = (h.0, All-append P xs ys h.1 k)

  pub All-In {κ} : (P : A → Type κ) {a : A} (xs : List A) → All P xs → In a xs → P a
  All-In P [] h m = elim m [ ]
  All-In P (x ∷ xs) h here = h.0
  All-In P (x ∷ xs) h (there m) = All-In P xs h.1 m

  pub In-append_left : {a : A} {xs : List A} (ys : List A) → In a xs → In a (xs ++ ys)
  In-append_left ys here = here
  In-append_left ys (there m) = there (In-append_left ys m)

  pub In-append_right : {a : A} (xs : List A) {ys : List A} → In a ys → In a (xs ++ ys)
  In-append_right [] m = m
  In-append_right (x ∷ xs) m = there (In-append_right xs m)

  pub length-keep-le : (test : A → Bool) (xs : List A) → length (keep test xs) ≤ length xs
  length-keep-le test [] = omega arith
  length-keep-le test (x ∷ xs) = ground (arith, length-keep-le test xs)

  -- A filter that drops nothing by number has passed every member.
  pub length-keep-eq :
      (test : A → Bool) {a : A} {xs : List A}
      → length (keep test xs) ≡ length xs
      → In a xs
      → test a ≡ true
  length-keep-eq test e (here {xs = xs}) = ground (arith, length-keep-le test xs)
  length-keep-eq test e (there {x = x} {xs = xs} m) =
      length-keep-eq test (ground (arith, length-keep-le test xs)) m

module _ {ℓ} {A : Type ℓ} where
  -- A member of two lists in a row is a member of one of them.
  pub In-append : {a : A} (xs ys : List A) → In a (xs ++ ys) → In a xs ⊎ In a ys
  In-append [] ys m = inr m
  In-append (x ∷ xs) ys here = inl here
  In-append (x ∷ xs) ys (there m) = later (In-append xs ys m)
    where
      later : {a : A} → In a xs ⊎ In a ys → In a (x ∷ xs) ⊎ In a ys
      later (inl i) = inl (there i)
      later (inr i) = inr i

  pub not-In-nil : {a : A} → In a [] → ⊥
  not-In-nil m = elim m [ ]

  -- A member of a filtered list is a member of the list and passes the test.
  pub In-keep :
      (test : A → Bool) {a : A} (xs : List A) → In a (keep test xs) → In a xs × (test a ≡ true)
  In-keep test [] m = elim m [ ]
  In-keep test (x ∷ xs) m = pick (test x) refl m (In-keep test xs)
    where
      pick :
          {a : A} (b : Bool)
          → test x ≡ b
          → In a (if b then x ∷ keep test xs else keep test xs)
          → (In a (keep test xs) → In a xs × (test a ≡ true))
          → In a (x ∷ xs) × (test a ≡ true)
      pick true e here later = (here, e)
      pick true e (there k) later = (there (later k).0, (later k).1)
      pick false e k later = (there (later k).0, (later k).1)

  pub keep-In :
      (test : A → Bool) {a : A} {xs : List A} → In a xs → test a ≡ true → In a (keep test xs)
  keep-In test here e = rw e here
  keep-In test (there {x = x} m) e = later (test x) (keep-In test m e)
    where
      later : {a : A} {r : List A} (b : Bool) → In a r → In a (if b then x ∷ r else r)
      later true k = there k
      later false k = k

pub In-map {ℓ κ} :
    {A : Type ℓ} {B : Type κ} (f : A → B) {a : A} {xs : List A} → In a xs → In (f a) (map f xs)
In-map f here = here
In-map f (there m) = there (In-map f m)

-- A member of a mapped list is the image of a member.
pub map-In {ℓ κ} :
    {A : Type ℓ} {B : Type κ} (f : A → B) {b : B} (xs : List A)
    → In b (map f xs)
    → (a : A) × In a xs × (b ≡ f a)
map-In f [] m = elim m [ ]
map-In f (x ∷ xs) here = (x, here, refl)
map-In f (x ∷ xs) (there m) = let (a, i, e) = map-In f xs m in (a, there i, e)
