-- ===== src/Scraper/Listing.antt =====
-- src/tele_scraper/scraper/parser.py, `parse_component` and `parse_components`: the entries of a
-- listing, as components.
use Prim.Native.String.{◌++◌}
pub mod Reading
use telecloud_subscription_r.Base.{
  ℕ, suc, String, Bool, true, false, not, ◌&&◌, ◌||◌, Option, none, some, List, [], ◌∷◌, is_empty,
  Result, return, and_then, caught, if◌then◌else◌,
}
use telecloud_subscription_r.Base.Text.{strip, show_ℕ, join}
use telecloud_subscription_r.Models.{Component, purchased}
use telecloud_subscription_r.Platform.{Platform, DateTime}
use telecloud_subscription_r.Scraper.Json.{Json, null, Object, get, is_blank, to_str, str_or_empty}
use telecloud_subscription_r.Scraper.Stamp.{parse_timestamp}

-- the errors of an entry, joined
unfoldable pub error_of : List String → Option String
unfolding join
error_of [] = none
error_of (e ∷ es) = some (join "; " (e ∷ es))

-- `shown` is `str` of an array or an object, `unusable` the message of `strptime`.
module _ (p : Platform) (shown : Json → String) (unusable : String → String) where
  open p use {is_space}

  -- the expiry, or the error that there is none
  unfoldable pub read_expiry : Json → Result (Option DateTime × List String)
  unfolding parse_timestamp is_blank to_str
  read_expiry raw =
      if is_blank raw
      then return (none, "'expirationTime' is missing" ∷ [])
      else caught (λ t. (some t, [])) (λ m. (none, ("'expirationTime' unreadable: " ++ m) ∷ []))
          (parse_timestamp p unusable (to_str shown raw))

  -- the activation; one that cannot be read is not fatal
  unfoldable pub read_activation : Json → Result (Option DateTime)
  unfolding parse_timestamp is_blank to_str
  read_activation raw =
      if is_blank raw
      then return none
      else caught some (λ m. none) (parse_timestamp p unusable (to_str shown raw))

  -- `str(item.get(key) or "").strip()`
  unfoldable pub field : String → Object → String
  unfolding get str_or_empty strip
  field key item = strip is_space (str_or_empty shown (get key item))

  -- the reported status, verbatim
  status_field : Json → Option String
  unfolding to_str strip
  status_field null = none
  status_field v = some (strip is_space (to_str shown v))

  unfoldable pub label_of : String → String → String
  label_of name service_type =
      if not (is_empty service_type) && not (is_empty name)
      then name ++ (" (" ++ (service_type ++ ")"))
      else name

  -- an entry without an id
  unfoldable pub unidentified : Object → ℕ → Component
  unfolding field status_field get show_ℕ
  unidentified item index = record {
    component_id = "unidentified-item-" ++ show_ℕ index;
    name = field "name" item;
    kind = purchased;
    portal_status = status_field (get "status" item);
    activated_at = none;
    validity_period = none;
    expires_at = none;
    expires_at_derived = false;
    parse_error = some "entry has no 'id'; cannot be tracked across runs";
  }

  -- an entry with an id, on its two instants and the errors
  unfoldable pub identified : Object → Option DateTime × List String → Option DateTime → Component
  unfolding field status_field get label_of error_of
  identified item expiry activation = record {
    component_id = field "id" item;
    name = label_of (field "name" item) (field "serviceType" item);
    kind = purchased;
    portal_status = status_field (get "status" item);
    activated_at = activation;
    validity_period = none;
    expires_at = expiry.0;
    expires_at_derived = false;
    parse_error = error_of expiry.1;
  }

  unfoldable pub parse_component : Object → ℕ → Result Component
  unfolding field unidentified identified read_expiry read_activation get
  parse_component item index =
      if is_empty (field "id" item)
      then return (unidentified item index)
      else and_then (read_expiry (get "expirationTime" item)) (λ expiry.
        and_then (read_activation (get "purchaseTime" item))
          (λ activation. return (identified item expiry activation)))

  -- the entries from a position on
  unfoldable pub parse_from : ℕ → List Object → Result (List Component)
  unfolding parse_component
  parse_from index [] = return []
  parse_from index (item ∷ items) =
      and_then (parse_component item index)
        (λ c. and_then (parse_from (suc index) items) (λ cs. return (c ∷ cs)))

  unfoldable pub parse_components : List Object → Result (List Component)
  unfolding parse_from
  parse_components items = parse_from 0 items
