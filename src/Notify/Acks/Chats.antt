-- ===== src/Notify/Acks/Chats.antt =====
-- `discover_chats` of src/tele_scraper/notify/acks.py, on the response of the HTTP client. How an
-- array or an object is shown as a text is a parameter.
use telecloud_subscription_r.Base.{
  String, none, some, List, [], ◌∷◌, is_empty, str_eq, Result, return, raise, and_then, value_error,
  other_error, if◌then◌else◌,
}
use telecloud_subscription_r.Notify.Acks.Polling.{Response}
use telecloud_subscription_r.Scraper.Json.{
  Json, Elements, Object, get, truthy, to_str, str_or_empty,
}

pub record Chat : Type 0 where
  pub chat_id : String
  pub kind : String
  pub title : String

-- the keys of an update that may lead to a chat
abbrev chat_keys : List String
chat_keys = "message" ∷ "channel_post" ∷ "my_chat_member" ∷ "callback_query" ∷ []

-- `seen[chat_id] = …`: a chat that was seen keeps its place and takes the new values
unfoldable pub put_chat : Chat → List Chat → List Chat
put_chat c [] = c ∷ []
put_chat c (d ∷ seen) =
    let rest = put_chat c seen in if str_eq d.chat_id c.chat_id then c ∷ seen else d ∷ rest

-- `x or y`
either_of : Json → Json → Json
unfolding truthy
either_of x y = if truthy x then x else y

-- `(node.get("message") or {}).get("chat")`
nested_chat : Json → Result Json
unfolding get truthy
nested_chat (Json.object m) = return (get "chat" m)
nested_chat v =
    if truthy v then raise (other_error "object has no attribute 'get'") else return Json.null

-- `chat`
chat_of : Object → Result Json
unfolding nested_chat get truthy
chat_of node =
    if truthy (get "chat" node) then return (get "chat" node) else nested_chat (get "message" node)

module _ (shown : Json → String) where
  -- `str(chat.get(key, ""))`; a null that is there shows as `None`
  str_get : String → Object → String
  unfolding to_str
  str_get key Object.no_entries = ""
  str_get key (Object.entry k v rest) =
      let later = str_get key rest in if str_eq k key then to_str shown v else later

  add_chat : Json → List Chat → List Chat
  unfolding put_chat either_of str_get str_or_empty get
  add_chat (Json.object chat) seen =
      if is_empty (str_get "id" chat)
      then seen
      else put_chat
          (record {
            chat_id = str_get "id" chat;
            kind = str_get "type" chat;
            title = str_or_empty shown (
                either_of (get "title" chat)
                  (either_of (get "username" chat) (get "first_name" chat)));
          })
          seen
  add_chat _ seen = seen

  add_node : Json → List Chat → Result (List Chat)
  unfolding add_chat chat_of
  add_node (Json.object node) seen = and_then (chat_of node) (λ chat. return (add_chat chat seen))
  add_node _ seen = return seen

  -- the loop over the keys of one update
  add_nodes : List String → Object → List Chat → Result (List Chat)
  unfolding add_node get
  add_nodes [] update seen = return seen
  add_nodes (key ∷ keys) update seen =
      and_then (add_node (get key update) seen) (add_nodes keys update)

  -- the loop over the updates
  add_updates : Elements → List Chat → Result (List Chat)
  unfolding add_nodes
  add_updates Elements.no_elements seen = return seen
  add_updates (Elements.element (Json.object update) rest) seen =
      and_then (add_nodes chat_keys update seen) (add_updates rest)
  add_updates (Elements.element _ rest) seen = raise (other_error "object has no attribute 'get'")

  -- the loop over `payload.get("result") or []`
  add_result : Json → Result (List Chat)
  unfolding add_updates truthy
  add_result (Json.array us) = add_updates us []
  add_result v = if truthy v then raise (other_error "not a list of updates") else return []

  unfoldable pub discover_chats : Response → Result (List Chat)
  unfolding add_result truthy get
  discover_chats r = elim r.json [
    | none ↦ raise (value_error "not JSON")
    | some payload ↦ elim payload [
      | Json.object o ↦
          if truthy (get "ok" o)
          then add_result (get "result" o)
          else raise (value_error "getUpdates failed")
      | _ ↦ raise (other_error "object has no attribute 'get'")
    ]
  ]
