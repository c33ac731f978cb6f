-- ===== src/Notify/Sending.antt =====
-- src/tele_scraper/notify/base.py: what the channels share. Durations for a reader, the limit on a
-- body, and the request that posts a message, with its attempts.
use Prim.Native.String.{◌++◌ as concat}
use telecloud_subscription_r.Base.{
  ℕ, suc, ◌-◌, ◌/◌, ◌%◌, String, not, ◌||◌, Option, List, [], ◌∷◌, ◌++◌, leb, ◌==◌, Error,
  if◌then◌else◌,
}
use telecloud_subscription_r.Base.Int.{ℤ, pos, negsuc}
use telecloud_subscription_r.Base.Text.{text_length, take, join, show_ℕ}

-- a number with its unit, in the plural unless it is one
counted : ℕ → String → String
unfolding show_ℕ
counted n unit = concat (show_ℕ n) (concat " " (concat unit (if n == 1 then "" else "s")))

-- the parts of a duration of that many seconds
duration_parts : ℕ → List String
unfolding counted
duration_parts seconds =
    let days = seconds / 86400 in
    let hours = seconds % 86400 / 3600 in
    let minutes = seconds % 86400 % 3600 / 60 in
    (if days == 0 then [] else counted days "day" ∷ [])
    ++ ((if hours == 0 then [] else counted hours "hour" ∷ [])
        ++ (if minutes == 0 || not (days == 0) then [] else counted minutes "minute" ∷ []))

joined_parts : List String → String
unfolding join
joined_parts [] = "less than a minute"
joined_parts (part ∷ parts) = join ", " (part ∷ parts)

unfoldable pub humanize : ℤ → String
unfolding joined_parts duration_parts
humanize (pos n) = joined_parts (duration_parts (n / 1000000))
humanize (negsuc n) = concat (joined_parts (duration_parts (suc n / 1000000))) " ago"

abbrev pub truncated_suffix : String
truncated_suffix = "\n[truncated]"

unfoldable pub truncate : String → ℕ → String
unfolding text_length take
truncate body limit =
    if leb (text_length body) limit
    then body
    else concat (take (limit - text_length truncated_suffix) body) truncated_suffix

-- `RenderedMessage`
pub record Rendered : Type 0 where
  pub subject : String
  pub body : String

-- What the channels post: to a webhook, or to a chat with an optional button.
pub data Payload : Type 0 where
  slack_payload : String → Payload
  discord_payload : String → Payload
  telegram_payload : String → String → Option String → Payload

-- A response with its code and its `retry-after`; a fault of the kinds that are retried; or another
-- exception.
pub data Reply : Type 0 where
  replied : ℕ → Option String → Reply
  transport_fault : String → Reply
  other_fault : Error → Reply

-- what an attempt comes to
pub data Posted : Type 0 where
  accepted : ℕ → Option String → Posted
  transient : String → Posted
  failed : Error → Posted

-- An attempt is told how many there were before it, and counts itself.
abbrev pub Attempt : Type 0
Attempt = ℕ → Posted × ℕ

-- what posting takes from others
pub record Web : Type 0 where
  -- tenacity's `AsyncRetrying`, with a number of attempts
  pub retrying : ℕ → Attempt → Attempt
  -- the server at an address, on a payload and after so many attempts
  pub server : String → Payload → ℕ → Reply
  -- `float` of a text, if it is a number
  pub float : String → Option ℕ

module _ (web : Web) where
  open web use {retrying, server}

  unfoldable pub attempt_outcome : Reply → Posted
  unfolding show_ℕ
  attempt_outcome (replied code retry_after) =
      if leb 500 code
      then transient (concat "upstream " (show_ℕ code))
      else accepted code retry_after
  attempt_outcome (transport_fault m) = transient m
  attempt_outcome (other_fault e) = failed e

  unfoldable pub post_once : String → Payload → Attempt
  unfolding attempt_outcome
  post_once url payload before = (attempt_outcome (server url payload before), suc before)

  -- `post_json`, with three attempts
  unfoldable pub post_json : String → Payload → Posted
  unfolding post_once
  post_json url payload = (retrying 3 (post_once url payload) 0).0
