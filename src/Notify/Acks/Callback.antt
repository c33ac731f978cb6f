-- ===== src/Notify/Acks/Callback.antt =====
-- A Confirm button carries its key to the listener, and nothing else gets through the check.
use Prim.Native.String.{◌++◌ as concat}
use telecloud_subscription_r.Base.{
  String, ◌≡◌, refl, subst, ◌∙◌, Bool, true, false, Option, none, some, [], ◌∷◌, is_empty, leb,
  if◌then◌else◌,
}
use telecloud_subscription_r.Base.Int.{ℤ}
use telecloud_subscription_r.Base.Text.{has_bar, split, remove_prefix, starts_with, show_ℤ}
use telecloud_subscription_r.Base.Text.Laws.{
  has_bar-append, split_whole, split-append, remove_prefix-append, show_ℤ_no_bar,
}
use telecloud_subscription_r.Models.{
  Status, active, expiring_soon, expired, suspended, unknown, value, Evaluation, NotificationEvent,
  ack_key, digest_key, rung_key, whole_seconds,
}
use telecloud_subscription_r.Notify.Acks.{
  ack_prefix, digest_prefix, ack_callback_data, is_digest_shape, is_component_shape, is_ack_key,
  checked, parse_ack_key, utf8_length,
}

some-injective : {A : Type 0} {a b : A} → some a ≡ some b → a ≡ b
some-injective h = cc

value_no_bar : (s : Status) → has_bar (value s) ≡ false
unfolding value has_bar
value_no_bar active = refl
value_no_bar expiring_soon = refl
value_no_bar expired = refl
value_no_bar suspended = refl
value_no_bar unknown = refl

value_not_empty : (s : Status) → is_empty (value s) ≡ false
unfolding value
value_not_empty active = refl
value_not_empty expiring_soon = refl
value_not_empty expired = refl
value_not_empty suspended = refl
value_not_empty unknown = refl

rung_key_no_bar : (e : Evaluation) → has_bar (rung_key e) ≡ false
unfolding rung_key has_bar
rung_key_no_bar e = go e.rung
  where
    go :
        (o : Option ℤ)
        → has_bar (elim o as (λ _. String) [
          | none ↦ "-"
          | some rung ↦ concat (show_ℤ (whole_seconds rung)) "s"
        ])
          ≡ false
    go none = refl
    go (some rung) =
        has_bar-append (show_ℤ (whole_seconds rung)) "s"
        ∙ rw (show_ℤ_no_bar (whole_seconds rung)) refl

-- The key of a situation has three parts: the component, the status and the rung.
pub split-ack_key :
    (e : Evaluation)
    → has_bar e.component.component_id ≡ false
    → split b'|' (ack_key e) ≡ e.component.component_id ∷ value e.status ∷ rung_key e ∷ []
unfolding ack_key
split-ack_key e h =
    rw
      (
        split-append e.component.component_id (concat (value e.status) (concat "|" (rung_key e))) h,
        split-append (value e.status) (rung_key e) (value_no_bar e.status),
        split_whole (rung_key e) (rung_key_no_bar e),
      )
      refl

ack_key-is_ack_key :
    (e : Evaluation)
    → is_empty e.component.component_id ≡ false
    → has_bar e.component.component_id ≡ false
    → starts_with (ack_key e) digest_prefix ≡ false
    → is_ack_key (ack_key e) ≡ true
unfolding is_ack_key is_component_shape
ack_key-is_ack_key e named plain ours =
    rw (ours, split-ack_key e plain, named, value_not_empty e.status) refl

payload-parse :
    (key : String) (b : Bool) {payload : String}
    → is_ack_key key ≡ true
    → (if b then some (concat ack_prefix key) else none) ≡ some payload
    → parse_ack_key payload ≡ some key
unfolding parse_ack_key checked
payload-parse key true fits h =
    let sent : concat ack_prefix key ≡ _ = some-injective h in
    subst (λ t. parse_ack_key t ≡ some key) sent
      (rw (remove_prefix-append ack_prefix key, fits) refl)
payload-parse key false fits h = cc

-- The button that is offered for a situation is understood when it is pressed: its payload parses
-- back to the situation's key, if the component's id is not empty, holds no separator and does not
-- make the key look like a digest's.
pub parse_ack_key-ack_callback_data :
    (e : Evaluation) (payload : String)
    → is_empty e.component.component_id ≡ false
    → has_bar e.component.component_id ≡ false
    → starts_with (ack_key e) digest_prefix ≡ false
    → ack_callback_data (ack_key e) ≡ some payload
    → parse_ack_key payload ≡ some (ack_key e)
unfolding ack_callback_data
parse_ack_key-ack_callback_data e payload named plain ours h =
    payload-parse (ack_key e) (leb (utf8_length (concat ack_prefix (ack_key e))) 64)
      (ack_key-is_ack_key e named plain ours) h

-- Every digest gets a button, and its payload parses back to the digest's key.
pub parse_ack_key-digest :
    (event : NotificationEvent)
    → (payload : String) × (ack_callback_data (digest_key event) ≡ some payload)
      × (parse_ack_key payload ≡ some (digest_key event))
unfolding digest_key value ack_callback_data utf8_length parse_ack_key checked is_ack_key
    is_digest_shape starts_with remove_prefix split
parse_ack_key-digest event = go event.evaluation.status
  where
    go :
        (s : Status)
        → (payload : String) × (ack_callback_data (concat "__digest__|" (value s)) ≡ some payload)
          × (parse_ack_key payload ≡ some (concat "__digest__|" (value s)))
    go active = ("ack:__digest__|ACTIVE", refl, refl)
    go expiring_soon = ("ack:__digest__|EXPIRING_SOON", refl, refl)
    go expired = ("ack:__digest__|EXPIRED", refl, refl)
    go suspended = ("ack:__digest__|SUSPENDED", refl, refl)
    go unknown = ("ack:__digest__|UNKNOWN", refl, refl)
