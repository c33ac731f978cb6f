-- ===== src/Notify/Acks/Polling.antt =====
-- `poll_once` and `run_forever` of src/tele_scraper/notify/acks.py: from the answer of Telegram to the
-- updates, and the loop of polls with its back-off. What Telegram answers to a poll, when a stop was
-- requested, and how an array or an object is shown as a text are parameters.
use telecloud_subscription_r.Base.{
  ℕ, zero, suc, ◌*◌, String, Bool, true, false, Option, none, some, List, [], ◌∷◌, leb, ltb, Exec,
  Result, return, raise, and_then, value_error, other_error, if◌then◌else◌,
}
use telecloud_subscription_r.Base.Int.{ℤ, pos}
use telecloud_subscription_r.Config.{Settings}
use telecloud_subscription_r.Notify.Acks.{Update, Query, Listener, poll_once}
use telecloud_subscription_r.Scraper.Json.{
  Json, Elements, Object, get, truthy, as_integer, str_or_empty,
}
use telecloud_subscription_r.Store.Protocol.{StateStore}

-- a response of the HTTP client, its body where it is JSON
pub record Response : Type 0 where
  pub status_code : ℕ
  pub json : Option Json

-- the listener, how often it polled, the pause after the next failure, and the pauses so far, latest
-- first
pub record Loop (S : Type 0) : Type 0 where
  pub listener : Listener S
  pub polls : ℕ
  pub backoff : ℕ
  pub pauses : List ℕ

-- `min(backoff * 2, 60.0)`
unfoldable pub next_backoff : ℕ → ℕ
next_backoff b = if ltb (b * 2) 60 then b * 2 else 60

-- what follows a poll: its back-off and its pause
unfoldable pub settle : {S : Type 0} → Result ℕ → Listener S → Loop S → Loop S
unfolding next_backoff
settle (return n) l c = record { listener = l; polls = suc c.polls; backoff = 1; pauses = c.pauses }
settle (raise e) l c = record {
  listener = l;
  polls = suc c.polls;
  backoff = next_backoff c.backoff;
  pauses = c.backoff ∷ c.pauses;
}

as_text : Json → Option String
as_text (Json.text s) = some s
as_text _ = none

module _ (shown : Json → String) where
  -- `sender`
  read_sender : Json → Option (String × String)
  unfolding str_or_empty get
  read_sender (Json.object o) =
      some (str_or_empty shown (get "username" o), str_or_empty shown (get "id" o))
  read_sender _ = none

  -- `query`
  read_query : Json → Option Query
  unfolding as_text read_sender get
  read_query (Json.object o) = some (record {
    data_ = as_text (get "data" o);
    callback_id = as_text (get "id" o);
    sender = read_sender (get "from" o);
  })
  read_query _ = none

  -- `update_id`; a negative one leaves the offset as it is, as a missing one does
  read_update_id : Option ℤ → Option ℕ
  read_update_id (some (pos n)) = some n
  read_update_id _ = none

  unfoldable pub read_update : Json → Option Update
  unfolding read_query read_update_id as_integer get
  read_update (Json.object o) = some (record {
    update_id = read_update_id (as_integer (get "update_id" o));
    query = read_query (get "callback_query" o);
  })
  read_update _ = none

  unfoldable pub read_elements : Elements → List (Option Update)
  unfolding read_update
  read_elements Elements.no_elements = []
  read_elements (Elements.element v rest) = read_update v ∷ read_elements rest

  -- the keys of an object, or the letters of a text: none of them is a dictionary
  keys_of : Object → List (Option Update)
  keys_of Object.no_entries = []
  keys_of (Object.entry k v rest) = none ∷ keys_of rest

  letters_of : String → List (Option Update)
  letters_of String.[] = []
  letters_of (String.◌∷◌ c s) = none ∷ letters_of s

  -- `payload.get("result") or []`, as the loop goes through it
  unfoldable pub read_result : Json → Result (List (Option Update))
  unfolding read_elements keys_of letters_of
  read_result Json.null = return []
  read_result (Json.bool false) = return []
  read_result (Json.bool true) = raise (other_error "'bool' object is not iterable")
  read_result (Json.integer (pos ℕ.zero)) = return []
  read_result (Json.integer n) = raise (other_error "'int' object is not iterable")
  read_result (Json.text s) = return (letters_of s)
  read_result (Json.array vs) = return (read_elements vs)
  read_result (Json.object o) = return (keys_of o)

  unfoldable pub read_payload : Option Json → Result (List (Option Update))
  unfolding read_result truthy get
  read_payload none = raise (value_error "not JSON")
  read_payload (some (Json.object o)) =
      if truthy (get "ok" o)
      then read_result (get "result" o)
      else raise (value_error "getUpdates reported failure")
  read_payload (some _) = raise (other_error "object has no attribute 'get'")

  -- `poll_once` up to the loop
  unfoldable pub read_response : Response → Result (List (Option Update))
  unfolding read_payload
  read_response r =
      if leb 400 r.status_code
      then raise (other_error "getUpdates returned")
      else read_payload r.json

  module _ (S : StateStore) (settings : Settings) where
    open S use {State}

    -- `poll_once`, on what the request gave
    unfoldable pub poll : Result Response → Exec (Listener State) ℕ
    unfolding read_response poll_once
    poll answered = poll_once S settings (and_then answered read_response)

    module _ (telegram : ℕ → ℕ → Result Response) (stop_requested : ℕ → Bool) where
      -- one round of the loop: what Telegram answers to this poll, with this offset
      unfoldable pub round : Loop State → Loop State
      unfolding poll settle
      round c = let (r, l) = poll (telegram c.polls c.listener.offset) c.listener in settle r l c

      -- the loop, for at most so many rounds; `none` if it has not ended by then
      unfoldable pub poll_rounds : ℕ → Loop State → Option (Loop State)
      unfolding round
      poll_rounds zero c = none
      poll_rounds (suc fuel) c =
          let rest = poll_rounds fuel (round c) in if stop_requested c.polls then some c else rest

      -- `run_forever`
      unfoldable pub run_forever : ℕ → Listener State → Option (Loop State)
      unfolding poll_rounds
      run_forever fuel l =
          poll_rounds fuel (record { listener = l; polls = 0; backoff = 1; pauses = [] })
