-- ===== src/Scraper/Json.antt =====
-- What `json.loads` gives: a JSON document whose numbers are integers and whose objects hold each
-- key once; and the tests that the parser makes on it.
use telecloud_subscription_r.Base.{
  ℕ, suc, String, Bool, true, false, not, Option, none, some, List, [], ◌∷◌, is_empty, str_eq,
  if◌then◌else◌,
}
use telecloud_subscription_r.Base.Int.{ℤ, pos, negsuc}
use telecloud_subscription_r.Base.Text.{show_ℤ}

mutual
  pub data Json : Type 0 where
    null : Json
    bool : Bool → Json
    integer : ℤ → Json
    text : String → Json
    array : Elements → Json
    object : Object → Json

  pub data Elements : Type 0 where
    no_elements : Elements
    element : Json → Elements → Elements

  pub data Object : Type 0 where
    no_entries : Object
    entry : String → Json → Object → Object

-- `item.get(key)`, where a missing key is `None`, as a null is
unfoldable pub get : String → Object → Json
get key no_entries = null
get key (entry k v rest) = let later = get key rest in if str_eq k key then v else later

unfoldable pub count : Elements → ℕ
count no_elements = 0
count (element v rest) = suc (count rest)

-- `[i for i in items if isinstance(i, dict)]`
unfoldable pub objects : Elements → List Object
objects no_elements = []
objects (element (object o) rest) = o ∷ objects rest
objects (element _ rest) = objects rest

-- `bool(value)`
unfoldable pub truthy : Json → Bool
truthy null = false
truthy (bool b) = b
truthy (integer (pos ℕ.zero)) = false
truthy (integer (pos (ℕ.suc n))) = true
truthy (integer (negsuc n)) = true
truthy (text s) = not (is_empty s)
truthy (array no_elements) = false
truthy (array (element v vs)) = true
truthy (object no_entries) = false
truthy (object (entry k v o)) = true

-- `value in (0, "0")`, where `False` equals zero
unfoldable pub is_zero : Json → Bool
is_zero (bool b) = not b
is_zero (integer (pos ℕ.zero)) = true
is_zero (text s) = str_eq s "0"
is_zero _ = false

-- `value in (None, "")`
unfoldable pub is_blank : Json → Bool
is_blank null = true
is_blank (text s) = is_empty s
is_blank _ = false

-- `isinstance(value, int)`, with its value; a Boolean is an integer of Python
unfoldable pub as_integer : Json → Option ℤ
as_integer (bool true) = some (pos 1)
as_integer (bool false) = some (pos 0)
as_integer (integer n) = some n
as_integer _ = none

-- `str(value)`; `shown` is that of an array or an object
unfoldable pub to_str : (Json → String) → Json → String
to_str shown null = "None"
to_str shown (bool true) = "True"
to_str shown (bool false) = "False"
to_str shown (integer n) = show_ℤ n
to_str shown (text s) = s
to_str shown (array vs) = shown (array vs)
to_str shown (object o) = shown (object o)

-- `str(value or "")`
unfoldable pub str_or_empty : (Json → String) → Json → String
unfolding truthy to_str
str_or_empty shown v = if truthy v then to_str shown v else ""
