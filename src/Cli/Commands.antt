-- ===== src/Cli/Commands.antt =====
-- `_telegram_chats` and `_capture` of src/tele_scraper/__main__.py: their exit codes, and the file that
-- the latter writes. What the file system answers and how it takes a path apart are parameters.
use telecloud_subscription_r.Base.{
  ℕ, String, Bool, true, false, Option, none, some, List, [], ◌∷◌, is_empty, str_eq, Error, Result,
  return, raise, value_error, config_error, scrape_error, auth_error, parse_error,
  state_store_error, channel_error, if◌then◌else◌,
}
use telecloud_subscription_r.Cli.{exit_config_error}
use telecloud_subscription_r.Config.{Settings}
use telecloud_subscription_r.Notify.Acks.Chats.{Chat, discover_chats}
use telecloud_subscription_r.Notify.Acks.Polling.{Response}
use telecloud_subscription_r.Scraper.Json.{Json}

-- the exit code after `discover_chats`
chats_exit : Result (List Chat) → Result ℕ
chats_exit (return []) = return 1
chats_exit (return (c ∷ cs)) = return 0
chats_exit (raise (value_error m)) = return 1
chats_exit (raise e) = raise e

-- `_telegram_chats`, on the response to `getUpdates`; `none` is an `HTTPError` of the request
unfoldable pub telegram_chats : (Json → String) → Settings → Option Response → Result ℕ
unfolding discover_chats chats_exit
telegram_chats shown settings response =
    if is_empty settings.telegram_bot_token
    then return exit_config_error
    else elim response [ none ↦ return 1 | some r ↦ chats_exit (discover_chats shown r) ]

-- `TeleScraperError` and the classes below it
unfoldable pub is_tele_scraper_error : Error → Bool
is_tele_scraper_error (config_error m) = true
is_tele_scraper_error (scrape_error m) = true
is_tele_scraper_error (auth_error m) = true
is_tele_scraper_error (parse_error m) = true
is_tele_scraper_error (state_store_error m) = true
is_tele_scraper_error (channel_error m) = true
is_tele_scraper_error _ = false

-- the suffix that goes with a verdict
unfoldable pub suffix_of : String → String
suffix_of verdict =
    if str_eq verdict "json"
    then ".json"
    else if str_eq verdict "html"
    then ".html"
    else if str_eq verdict "login_page"
    then ".html"
    else ".txt"

-- the file system: whether a path has a suffix, the path with a suffix, and whether the text can be
-- written there
pub record Files : Type 0 where
  pub has_suffix : String → Bool
  pub with_suffix : String → String → String
  pub can_write : String → String → Bool

module _ (files : Files) where
  open files use {has_suffix, with_suffix, can_write}

  -- the path that is written
  capture_path : String → String → String
  unfolding suffix_of
  capture_path destination verdict =
      if has_suffix destination then destination else with_suffix destination (suffix_of verdict)

  -- `_capture`, on the outcome of the request: its exit code, and the file that it wrote
  unfoldable pub capture_command :
      String → Result (String × String × String) → Result ℕ × Option (String × String)
  unfolding capture_path is_tele_scraper_error
  capture_command destination (raise e) =
      (if is_tele_scraper_error e then return 1 else raise e, none)
  capture_command destination (return (body, content_type, verdict)) =
      let path = capture_path destination verdict in
      if can_write path body then (return 0, some (path, body)) else (return 1, none)
