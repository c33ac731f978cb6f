-- ===== src/Cli/Main.antt =====
-- `main` of src/tele_scraper/__main__.py: the settings, the choice of a command, and the exit code.
-- The service behind `_run` is an argument. Log lines are left out.
use telecloud_subscription_r.Base.{
  ℕ, String, Bool, true, false, not, Option, List, is_empty, Result, return, raise, and_then,
  config_error, if◌then◌else◌,
}
use telecloud_subscription_r.Cli.{
  exit_config_error, main_exit, test_notify_exit, acknowledge_by_hand,
}
use telecloud_subscription_r.Cli.Commands.{Files, telegram_chats, capture_command}
use telecloud_subscription_r.Config.{Settings}
use telecloud_subscription_r.Config.Loading.{Environ}
use telecloud_subscription_r.Config.Startup.{Fields, Outside, derive, load_settings}
use telecloud_subscription_r.Models.{DeliveryResult}
use telecloud_subscription_r.Notify.Acks.Polling.{Response}
use telecloud_subscription_r.Notify.Router.{World}
use telecloud_subscription_r.Platform.{Platform}
use telecloud_subscription_r.Scraper.Client.{Exchange, Session, Web}
use telecloud_subscription_r.Scraper.Client.Capture.{capture}
use telecloud_subscription_r.Scraper.Json.{Json}
use telecloud_subscription_r.Store.Protocol.{StateStore}

-- what `_parse_args` gives; an option without its text, or with an empty one, is empty
pub record Args : Type 0 where
  pub once : Bool
  pub dry_run : Bool
  pub capture : String
  pub url : Option String
  pub ack : String
  pub by : String
  pub test_notify : Bool
  pub telegram_chats : Bool
  pub check_config : Bool

pub data Command : Type 0 where
  check_config_command telegram_chats_command test_notify_command : Command
  acknowledge_command : String → String → Command
  capture_page : String → Option String → Command
  run_command : Bool → Command

-- the order in which `main` asks for the options
unfoldable pub command : Args → Command
command args =
    if args.check_config
    then check_config_command
    else if args.telegram_chats
    then telegram_chats_command
    else if args.test_notify
    then test_notify_command
    else if not (is_empty args.ack)
    then acknowledge_command args.ack args.by
    else if not (is_empty args.capture)
    then capture_page args.capture args.url
    else run_command args.once

-- `settings.model_copy(update={"dry_run": True})`
unfoldable pub with_dry_run : Bool → Fields → Fields
with_dry_run true f = record f { plain = record (f.plain) { dry_run = true } }
with_dry_run false f = f

-- What the commands meet: the state store, whether opening it fails, and the world around it; the
-- response to `getUpdates`; the results of the test messages; the file system, the portal and what it
-- answers to a single page; and `_run`.
pub record Runtime : Type 1 where
  pub store : StateStore
  pub opening : Result (Unit {0})
  pub world : World store.State
  pub shown : Json → String
  pub updates : Option Response
  pub test_results : Settings → Result (List DeliveryResult)
  pub files : Files
  pub web : Web
  pub serve : String → Session → Exchange × String
  pub session : Session
  pub run : Settings → Bool → Result ℕ

module _ (p : Platform) (outside : Outside) (r : Runtime) where
  -- `--check-config` reads the routing table and the ladders, and ends
  unfoldable pub check_config : Fields → Environ → Result ℕ
  unfolding derive
  check_config f environ = and_then (derive p outside environ f) (λ _. return 0)

  -- the commands; only what the service raises is caught
  unfoldable pub carry_out : Command → Fields → Environ → Result ℕ
  unfolding check_config main_exit derive telegram_chats test_notify_exit acknowledge_by_hand
      capture_command capture
  carry_out check_config_command f environ = check_config f environ
  carry_out telegram_chats_command f environ = telegram_chats r.shown f.plain r.updates
  carry_out test_notify_command f environ =
      test_notify_exit f.plain (and_then (derive p outside environ f) r.test_results)
  carry_out (acknowledge_command component_id by) f environ =
      and_then r.opening (λ _. (acknowledge_by_hand p r.store f.plain component_id by r.world).0)
  carry_out (capture_page destination url) f environ =
      (capture_command r.files destination (capture p f.plain r.web r.serve url r.session).0).0
  carry_out (run_command once) f environ =
      main_exit (and_then (derive p outside environ f) (λ s. r.run s once))

  -- what follows the loading of the settings
  unfoldable pub start : Args → Result Fields → Environ → Result ℕ
  unfolding carry_out command with_dry_run
  start args (return f) environ = carry_out (command args) (with_dry_run args.dry_run f) environ
  start args (raise (config_error m)) environ = return exit_config_error
  start args (raise e) environ = raise e

  -- `main`, on the lines of `.env`
  unfoldable pub main : Args → List String → Environ → Result ℕ
  unfolding start load_settings
  main args lines environ =
      let (loaded, environ') = load_settings p outside (is_empty args.capture) lines environ in
      start args loaded environ'
