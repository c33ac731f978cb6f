-- ===== src/Models.antt =====
-- src/tele_scraper/models.py: statuses, components, evaluations, events, results and reports.
use Prim.Native.Nat.{Ordering}
use Prim.Native.String.{◌++◌, compare}
use telecloud_subscription_r.Base.{
  ℕ, ◌+◌, ◌/◌, String, Bool, true, false, not, ◌&&◌, Option, none, some, List, [], ◌∷◌, map, any,
  or_text, if◌then◌else◌,
}
use telecloud_subscription_r.Base.Int.{ℤ, pos, negsuc}
use telecloud_subscription_r.Base.Text.{join, show_ℤ}
use telecloud_subscription_r.Platform.{Platform, DateTime}

pub data Status : Type 0 where
  active expiring_soon expired suspended unknown : Status

-- the value of the `StrEnum` member
unfoldable pub value : Status → String
value active = "ACTIVE"
value expiring_soon = "EXPIRING_SOON"
value expired = "EXPIRED"
value suspended = "SUSPENDED"
value unknown = "UNKNOWN"

abbrev pub status_eq : Status → Status → Bool
status_eq active active = true
status_eq expiring_soon expiring_soon = true
status_eq expired expired = true
status_eq suspended suspended = true
status_eq unknown unknown = true
status_eq _ _ = false

-- membership in `CRITICAL_STATUSES`
abbrev pub critical_status : Status → Bool
critical_status expired = true
critical_status unknown = true
critical_status _ = false

-- membership in `NOTIFIABLE_STATUSES`
abbrev pub notifiable_status : Status → Bool
notifiable_status active = false
notifiable_status _ = true

pub data Kind : Type 0 where
  purchased credential : Kind

pub record Component : Type 0 where
  pub component_id : String
  pub name : String
  pub kind : Kind
  pub portal_status : Option String
  pub activated_at : Option DateTime
  pub validity_period : Option ℤ
  pub expires_at : Option DateTime
  pub expires_at_derived : Bool
  pub parse_error : Option String

unfoldable pub label : Component → String
label c = or_text c.name c.component_id

pub record Evaluation : Type 0 where
  pub component : Component
  pub status : Status
  pub evaluated_at : DateTime
  pub rung : Option ℤ
  pub remaining : Option ℤ
  pub reason : String

unfoldable pub is_critical : Evaluation → Bool
is_critical e = critical_status e.status

-- `int(delta.total_seconds())` of microseconds: the fraction is cut off, towards zero
abbrev pub whole_seconds : ℤ → ℤ
whole_seconds (pos n) = pos (n / 1000000)
whole_seconds (negsuc n) = elim ((n + 1) / 1000000) as (λ _. ℤ) [
  | ℕ.zero ↦ pos 0
  | ℕ.suc k ↦ negsuc k
]

unfoldable pub rung_key : Evaluation → String
rung_key e = elim e.rung [ none ↦ "-" | some rung ↦ show_ℤ (whole_seconds rung) ++ "s" ]

-- `f"{component_id}|{status}|{rung_key}"`
unfoldable pub ack_key : Evaluation → String
ack_key e = e.component.component_id ++ ("|" ++ (value e.status ++ ("|" ++ rung_key e)))

pub record ChannelTarget : Type 0 where
  pub channel : String
  pub address : String

-- `ack_mode`: what a confirmation of a digest is recorded for
pub data AckMode : Type 0 where
  ack_components ack_digest ack_none : AckMode

-- A non-empty tuple of evaluations is its first one and the others.
pub record NotificationEvent : Type 0 where
  pub evaluation : Evaluation
  pub others : List Evaluation
  pub recipient : String
  pub target : ChannelTarget
  pub locale : String
  pub digest : Bool
  pub ack_mode : AckMode

abbrev pub evaluations : NotificationEvent → List Evaluation
evaluations event = event.evaluation ∷ event.others

-- Critical if anything in the message is.
unfoldable pub event_is_critical : NotificationEvent → Bool
event_is_critical event = any is_critical (evaluations event)

unfoldable pub digest_key : NotificationEvent → String
digest_key event = "__digest__|" ++ value event.evaluation.status

pub record DeliveryResult : Type 0 where
  pub channel : String
  pub recipient : String
  pub ok : Bool
  pub error : Option String
  pub retry_after : Option ℕ
  pub is_suppressed : Bool

unfoldable pub success : NotificationEvent → DeliveryResult
success event = record {
  channel = event.target.channel;
  recipient = event.recipient;
  ok = true;
  error = none;
  retry_after = none;
  is_suppressed = false;
}

unfoldable pub failure : NotificationEvent → String → Option ℕ → DeliveryResult
failure event error retry_after = record {
  channel = event.target.channel;
  recipient = event.recipient;
  ok = false;
  error = some error;
  retry_after = retry_after;
  is_suppressed = false;
}

pub record RunReport : Type 0 where
  pub run_id : String
  pub started_at : DateTime
  pub finished_at : DateTime
  pub evaluations_made : List Evaluation
  pub results : List DeliveryResult
  pub scrape_failed : Bool

unfoldable pub has_unknown : RunReport → Bool
has_unknown r = any (λ e. status_eq e.status unknown) r.evaluations_made

unfoldable pub delivery_failed : RunReport → Bool
delivery_failed r = any (λ d. not d.ok && not d.is_suppressed) r.results

unfoldable pub exit_code : RunReport → ℕ
exit_code r =
    if r.scrape_failed then 1 else if has_unknown r then 2 else if delivery_failed r then 3 else 0

-- `counts[status]`, after the loop over the evaluations
unfoldable pub count_of : Status → List Evaluation → ℕ
count_of s [] = 0
count_of s (e ∷ es) = count_of s es + (if status_eq e.status s then 1 else 0)

abbrev pub str_leb : String → String → Bool
str_leb s t = elim (compare s t) [ Ordering.gt ↦ false | _ ↦ true ]

-- `sorted(texts)`, by code points
insert_text : String → List String → List String
insert_text s [] = s ∷ []
insert_text s (t ∷ ts) = if str_leb s t then s ∷ t ∷ ts else t ∷ insert_text s ts

unfoldable pub sorted : List String → List String
unfolding insert_text
sorted [] = []
sorted (s ∷ ss) = insert_text s (sorted ss)

module _ (p : Platform) where
  open p use {isoformat, sha256_16}

  -- Digest of the facts that an acknowledgement was made against.
  unfoldable pub fingerprint : Component → String
  fingerprint c = sha256_16 (
      (elim c.expires_at [ none ↦ "-" | some t ↦ isoformat t ])
      ++ ("|" ++ (elim c.portal_status [ none ↦ "-" | some s ↦ or_text s "-" ])))

  unfoldable pub digest_fingerprint : NotificationEvent → String
  digest_fingerprint event = sha256_16 (
      join "|"
        (sorted (map (λ e. ack_key e ++ ("@" ++ fingerprint e.component)) (evaluations event))))

  unfoldable pub event_ack_key : NotificationEvent → String
  event_ack_key event = if event.digest then digest_key event else ack_key event.evaluation

  unfoldable pub event_ack_fingerprint : NotificationEvent → String
  event_ack_fingerprint event =
      if event.digest then digest_fingerprint event else fingerprint event.evaluation.component

  -- `(ack_key, fingerprint)` of every situation in the message
  unfoldable pub members : NotificationEvent → List (String × String)
  members event = map (λ e. (ack_key e, fingerprint e.component)) (evaluations event)

  unfoldable pub dedup_key : NotificationEvent → String
  dedup_key event =
      let e = event.evaluation in
      join "|" (
        if event.digest
        then event.recipient
          ∷ event.target.channel
          ∷ event.target.address
          ∷ digest_key event
          ∷ digest_fingerprint event
          ∷ []
        else event.recipient
          ∷ event.target.channel
          ∷ event.target.address
          ∷ e.component.component_id
          ∷ value e.status
          ∷ rung_key e
          ∷ [])
