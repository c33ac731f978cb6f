-- ===== src/Scraper/Account.antt =====
-- src/tele_scraper/scraper/parser.py: the lifetimes of the portal's own credentials, as components.
use Prim.Native.String.{◌++◌ as concat}
use telecloud_subscription_r.Base.{
  ℕ, suc, ◌+◌, ◌*◌, String, Bool, false, Option, none, some, List, [], ◌∷◌, ◌++◌, is_empty, ltb,
  if◌then◌else◌,
}
use telecloud_subscription_r.Base.Int.{ℤ, pos}
use telecloud_subscription_r.Domain.Status.{last_instant}
use telecloud_subscription_r.Models.{Component, credential}
use telecloud_subscription_r.Platform.{DateTime, utc}
use telecloud_subscription_r.Scraper.Json.{Json, object, get, as_integer, str_or_empty}

pub record AccountInfo : Type 0 where
  pub username : String
  pub password_expires_at : Option DateTime
  pub account_expires_at : Option DateTime

abbrev pub no_account : AccountInfo
no_account = record { username = ""; password_expires_at = none; account_expires_at = none }

-- the epoch, in microseconds since the first reading that `datetime` has
abbrev pub epoch : ℕ
epoch = 719162 * 86400000000

-- `datetime.fromtimestamp(value / 1000, tz=UTC)`, or `None` when that is out of range. The quotient
-- is a float of Python, which names the exact microsecond up to the year 2242; here it always does.
after_epoch : ℕ → Option DateTime
after_epoch millis =
    if ltb last_instant (epoch + millis * 1000) then none else some (utc (epoch + millis * 1000))

unfoldable pub epoch_millis : Option ℤ → Option DateTime
unfolding after_epoch
epoch_millis (some (pos (suc n))) = after_epoch (suc n)
epoch_millis _ = none

module _ (shown : Json → String) where
  unfoldable pub account_of_data : Json → AccountInfo
  unfolding epoch_millis get str_or_empty as_integer
  account_of_data (object fields) = record {
    username = str_or_empty shown (get "username" fields);
    password_expires_at = epoch_millis (as_integer (get "passwordExpiryDate" fields));
    account_expires_at = epoch_millis (as_integer (get "expiredDate" fields));
  }
  account_of_data v = no_account

  unfoldable pub parse_account : Json → AccountInfo
  unfolding account_of_data get
  parse_account (object payload) = account_of_data (get "data" payload)
  parse_account v = no_account

abbrev pub password_component_id : String
password_component_id = "__account_password__"

abbrev pub account_component_id : String
account_component_id = "__account_expiry__"

-- the component of a credential, if its expiry is known
unfoldable pub watched : String → String → Option DateTime → List Component
watched component_id name none = []
watched component_id name (some t) =
    record {
      component_id = component_id;
      name = name;
      kind = credential;
      portal_status = none;
      activated_at = none;
      validity_period = none;
      expires_at = some t;
      expires_at_derived = false;
      parse_error = none;
    }
    ∷ []

-- ` (username)`, if there is one
unfoldable pub who : AccountInfo → String
who info = if is_empty info.username then "" else concat " (" (concat info.username ")")

unfoldable pub account_components : AccountInfo → Bool → List Component
unfolding watched who
account_components info include_account =
    watched password_component_id (concat "Portal password" (who info)) info.password_expires_at
    ++ (if include_account
        then watched account_component_id (concat "Portal account" (who info))
            info.account_expires_at
        else [])
