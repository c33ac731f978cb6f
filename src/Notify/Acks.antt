-- ===== src/Notify/Acks.antt =====
-- src/tele_scraper/notify/acks.py and `ack_callback_data` of notify/telegram.py: what a press of a
-- Confirm button carries, how it is checked, and what it records. An update is what the checks on its
-- types leave of it; Notify.Acks.Polling makes these checks on the responses of Telegram and has the
-- loop of polls. Log lines and metrics are left out.
use Prim.Native.Char.{Char, code}
use Prim.Native.String.{◌++◌ as concat}
use telecloud_subscription_r.Base.{
  ℕ, suc, ◌+◌, ◌*◌, String, Bool, true, false, not, ◌&&◌, Option, none, some, List, [], ◌∷◌, ◌++◌,
  length, ltb, leb, is_empty, or_text, Exec, Result, return, raise, value_error, pure, throw, ◌>>=◌,
  ◌>>◌, if◌then◌else◌,
}
use telecloud_subscription_r.Base.Text.{split, remove_prefix, starts_with}
use telecloud_subscription_r.Config.{Settings}
use telecloud_subscription_r.Store.Protocol.{StateStore, Ack}
pub mod Callback
pub mod Confirming
pub mod Keeping
pub mod Polling
pub mod Listening
pub mod Chats
pub mod Silenced

abbrev pub ack_prefix : String
ack_prefix = "ack:"

abbrev pub digest_prefix : String
digest_prefix = "__digest__"

-- `len(text.encode())`, the length in UTF-8
utf8_length : String → ℕ
utf8_length String.[] = 0
utf8_length (String.◌∷◌ c s) =
    let rest = utf8_length s in
    if ltb (code c) 0x80
    then 1 + rest
    else if ltb (code c) 0x800
    then 2 + rest
    else if ltb (code c) 0x10000
    then 3 + rest
    else 4 + rest

unfoldable pub ack_callback_data : String → Option String
unfolding utf8_length
ack_callback_data ack_key =
    let payload = concat ack_prefix ack_key in
    if leb (utf8_length payload) 64 then some payload else none

-- the two shapes of a key, on its parts
unfoldable pub is_digest_shape : List String → Bool
is_digest_shape (a ∷ b ∷ []) = not (is_empty b)
is_digest_shape _ = false

unfoldable pub is_component_shape : List String → Bool
is_component_shape (a ∷ b ∷ c ∷ []) = not (is_empty a) && not (is_empty b)
is_component_shape _ = false

unfoldable pub is_ack_key : String → Bool
unfolding is_digest_shape is_component_shape starts_with split
is_ack_key ack_key =
    if starts_with ack_key digest_prefix
    then is_digest_shape (split b'|' ack_key)
    else is_component_shape (split b'|' ack_key)

checked : Option String → Option String
unfolding is_ack_key
checked none = none
checked (some ack_key) = if is_ack_key ack_key then some ack_key else none

unfoldable pub parse_ack_key : String → Option String
unfolding checked remove_prefix
parse_ack_key callback_data = checked (remove_prefix ack_prefix callback_data)

-- `component_id, status, rung = ack_key.split("|")`
unfoldable pub unpack : List String → Option (String × String × String)
unpack (component_id ∷ status ∷ rung ∷ []) = some (component_id, status, rung)
unpack _ = none

last_part : String → List String → String
last_part s [] = s
last_part s (t ∷ ts) = last_part t ts

-- `callback_query`: a text or none where the key is missing or of another type; the sender's
-- user name and id are empty where they are missing
pub record Query : Type 0 where
  pub data_ : Option String
  pub callback_id : Option String
  pub sender : Option (String × String)

pub record Update : Type 0 where
  pub update_id : Option ℕ
  pub query : Option Query

-- `acked_by`
acked_by : Option (String × String) → String
acked_by none = "unknown"
acked_by (some (username, user_id)) = or_text username (or_text user_id "unknown")

-- What the listener works on: the store, the clock with the readings to come, the offset of the
-- next update, and the answers that were given to presses, oldest first.
pub record Listener (S : Type 0) : Type 0 where
  pub store : S
  pub clock : ℕ → ℕ
  pub ticks : ℕ
  pub offset : ℕ
  pub answers : List (String × String)

-- `time.time()`
unfoldable pub clock_reading : {S : Type 0} → Exec (Listener S) ℕ
clock_reading l = (return (l.clock l.ticks), record l { ticks = suc l.ticks })

-- `_answer`, whose HTTP errors are suppressed
unfoldable pub answer : {S : Type 0} → String → String → Exec (Listener S) (Unit {0})
answer callback_id text l =
    (return tt, record l { answers = l.answers ++ (callback_id, text) ∷ [] })

unfoldable pub next_offset : ℕ → Option ℕ → ℕ
next_offset offset none = offset
next_offset offset (some n) = if ltb offset (n + 1) then n + 1 else offset

module _ (S : StateStore) (settings : Settings) where
  open S use {State, find_fingerprint, find_digest_members, acknowledge}

  unfoldable pub in_store : {A : Type 0} → Exec State A → Exec (Listener State) A
  in_store m l = let (r, s) = m l.store in (r, record l { store = s })

  unfoldable pub ttl_seconds : ℕ
  ttl_seconds = settings.ack_ttl_days * 86400

  unfoldable pub confirm :
      String → String × String × String → String → String → ℕ → Exec (Listener State) (Unit {0})
  unfolding in_store ttl_seconds
  confirm ack_key (component_id, status, rung) fingerprint by now = in_store (
      acknowledge
        (record {
          ack_key = ack_key;
          component_id = component_id;
          status = status;
          rung = rung;
          fingerprint = fingerprint;
          acked_by = by;
        })
        ttl_seconds now)

  -- a member of a digest; a key that has not three parts is a `ValueError`
  confirm_member :
      String
      → Option (String × String × String)
      → String
      → String
      → ℕ
      → Exec (Listener State) (Unit {0})
  unfolding confirm
  confirm_member member_key none member_fp by now =
      throw (value_error "wrong number of values to unpack")
  confirm_member member_key (some parts) member_fp by now =
      confirm member_key parts member_fp by now

  -- the loop over the members of a digest
  unfoldable pub confirm_all :
      List (String × String) → String → ℕ → Exec (Listener State) (Unit {0})
  unfolding confirm_member unpack split
  confirm_all [] by now = pure tt
  confirm_all ((member_key, member_fp) ∷ members) by now =
      confirm_member member_key (unpack (split b'|' member_key)) member_fp by now
      >> confirm_all members by now

  -- `_record_digest`, with the members it found and the time it read
  confirm_digest :
      String → String → String → List (String × String) → ℕ → Exec (Listener State) Bool
  unfolding confirm confirm_all last_part split
  confirm_digest ack_key by fingerprint [] now =
      confirm ack_key (ack_key, last_part "" (split b'|' ack_key), "-") fingerprint by now
      >> pure true
  confirm_digest ack_key by fingerprint (m ∷ ms) now = confirm_all (m ∷ ms) by now >> pure true

  unfoldable pub record_digest : String → String → String → Exec (Listener State) Bool
  unfolding confirm_digest in_store clock_reading
  record_digest ack_key by fingerprint = in_store (find_digest_members ack_key) >>= λ members.
      clock_reading >>= λ now. confirm_digest ack_key by fingerprint members now

  -- `_record` of a key that is not a digest's, on its parts
  unfoldable pub record_single :
      String → Option (String × String × String) → String → String → Exec (Listener State) Bool
  unfolding confirm clock_reading
  record_single ack_key none by fingerprint = throw (value_error "wrong number of values to unpack")
  record_single ack_key (some parts) by fingerprint =
      clock_reading >>= λ now. confirm ack_key parts fingerprint by now >> pure true

  -- the branches of `_record` on the fingerprint
  record_found : String → String → Option String → Exec (Listener State) Bool
  unfolding record_digest record_single unpack split starts_with
  record_found ack_key by none = pure false
  record_found ack_key by (some fingerprint) =
      if starts_with ack_key digest_prefix
      then record_digest ack_key by fingerprint
      else record_single ack_key (unpack (split b'|' ack_key)) by fingerprint

  -- `_record`
  unfoldable pub record_press : String → String → Exec (Listener State) Bool
  unfolding record_found in_store
  record_press ack_key by = in_store (find_fingerprint ack_key) >>= record_found ack_key by

  -- what is answered to a press
  reply : Bool → String
  reply true = "Confirmed — this alert will stop repeating."
  reply false = "Could not confirm; it may have already changed."

  handle_press :
      Option String → String → Option (String × String) → Exec (Listener State) (Unit {0})
  unfolding record_press answer acked_by reply
  handle_press none callback_id sender = answer callback_id "Unrecognised button."
  handle_press (some ack_key) callback_id sender =
      record_press ack_key (acked_by sender) >>= λ done. answer callback_id (reply done)

  handle_query :
      Option String → Option String → Option (String × String) → Exec (Listener State) (Unit {0})
  unfolding handle_press parse_ack_key
  handle_query (some d) (some callback_id) sender =
      handle_press (parse_ack_key d) callback_id sender
  handle_query _ _ sender = pure tt

  -- `_handle`
  unfoldable pub handle : Update → Exec (Listener State) (Unit {0})
  unfolding handle_query
  handle u = elim u.query [ none ↦ pure tt | some q ↦ handle_query q.data_ q.callback_id q.sender ]

  -- the loop of `poll_once` over the updates; `none` is one that is not a dictionary
  unfoldable pub handle_all : List (Option Update) → Exec (Listener State) (Unit {0})
  unfolding handle next_offset
  handle_all [] = pure tt
  handle_all (none ∷ us) = handle_all us
  handle_all (some u ∷ us) =
      (λ l. (return tt, record l { offset = next_offset l.offset u.update_id }))
      >> handle u
      >> handle_all us

  -- `poll_once`, on the updates that Telegram answered, or the exception of the request
  unfoldable pub poll_once : Result (List (Option Update)) → Exec (Listener State) ℕ
  unfolding handle_all
  poll_once (raise e) = throw e
  poll_once (return updates) = handle_all updates >> pure (length updates)
