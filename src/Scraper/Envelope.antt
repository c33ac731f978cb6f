-- ===== src/Scraper/Envelope.antt =====
-- src/tele_scraper/scraper/parser.py, `parse_envelope` and `parse_login_token`: the envelope that
-- every response of the portal comes in.
use Prim.Native.String.{◌++◌}
use telecloud_subscription_r.Base.{
  ℕ, String, Option, some, List, is_empty, Result, return, raise, parse_error, if◌then◌else◌,
}
use telecloud_subscription_r.Base.Int.{ℤ, pos}
use telecloud_subscription_r.Scraper.Json.{
  Json, null, bool, integer, text, array, object, no_elements, Object, get, count, objects,
  as_integer, is_zero,
}

-- one page of the listing
pub record Page : Type 0 where
  pub items : List Object
  pub total : ℕ

-- `type(value).__name__`
unfoldable pub type_name : Json → String
type_name null = "NoneType"
type_name (bool b) = "bool"
type_name (integer n) = "int"
type_name (text s) = "str"
type_name (array vs) = "list"
type_name (object o) = "dict"

-- the reported total if it is one, else the number of items
unfoldable pub total_of : Option ℤ → ℕ → ℕ
total_of (some (pos n)) seen = n
total_of _ seen = seen

-- the end of `parse_envelope`, on the `items` of the data
unfoldable pub page_of : Json → Object → Result Page
unfolding total_of as_integer count objects type_name
page_of null fields =
    return
      (record { items = objects no_elements; total = total_of (as_integer (get "total" fields)) 0 })
page_of (array vs) fields =
    return
      (record { items = objects vs; total = total_of (as_integer (get "total" fields)) (count vs) })
page_of v fields = raise (parse_error ("expected 'data.items' to be a list, got " ++ type_name v))

unfoldable pub page_of_data : Json → Result Page
unfolding page_of get type_name
page_of_data (object fields) = page_of (get "items" fields) fields
page_of_data v = raise (parse_error ("expected 'data' to be an object, got " ++ type_name v))

-- The token of a login's data, which has to be a text that is not empty.
unfoldable pub token_of : Json → Result String
token_of (text s) =
    if is_empty s then raise (parse_error "login succeeded but returned no token") else return s
token_of v = raise (parse_error "login succeeded but returned no token")

unfoldable pub token_of_data : Json → Result String
unfolding token_of get
token_of_data (object fields) = token_of (get "token" fields)
token_of_data v = raise (parse_error "login response carried no 'data' object")

-- `repr_of` is `repr` of what `json.loads` gives.
module _ (repr_of : Json → String) where
  -- what an error says of a response that reports failure
  reported : Object → String
  unfolding get
  reported payload =
      "status="
      ++ (repr_of (get "status" payload) ++ (" resMsg=" ++ repr_of (get "resMsg" payload)))

  unfoldable pub parse_envelope : Json → Result Page
  unfolding reported get is_zero page_of_data type_name
  parse_envelope (object payload) =
      if is_zero (get "status" payload)
      then page_of_data (get "data" payload)
      else raise (parse_error ("portal reported failure: " ++ reported payload))
  parse_envelope v =
      raise (parse_error ("expected a JSON object at the top level, got " ++ type_name v))

  unfoldable pub parse_login_token : Json → Result String
  unfolding reported get is_zero token_of_data type_name
  parse_login_token (object payload) =
      if is_zero (get "status" payload)
      then token_of_data (get "data" payload)
      else raise (parse_error ("login rejected: " ++ reported payload))
  parse_login_token v =
      raise (parse_error ("login response was not a JSON object, got " ++ type_name v))
