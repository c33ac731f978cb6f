-- ===== src/Cli.antt =====
-- src/tele_scraper/__main__.py: confirming by hand, the exit code of the test messages, and how an
-- exception of the service ends the process. Cli.Commands has the commands that ask Telegram and the
-- portal, Cli.Main the choice of a command. The wiring of the service is left out.
pub mod ByHand
pub mod Commands
pub mod Main
pub mod Starting
use telecloud_subscription_r.Base.{
  ℕ, ◌*◌, String, not, List, [], ◌∷◌, any, Exec, Result, return, raise, and_then, state_store_error,
  config_error, scrape_error, auth_error, parse_error, channel_error, pure, ◌>>=◌, ◌>>◌,
  if◌then◌else◌,
}
use telecloud_subscription_r.Config.{Settings}
use telecloud_subscription_r.Models.{DeliveryResult}
use telecloud_subscription_r.Notify.Router.{World, on_store, time}
use telecloud_subscription_r.Platform.{Platform}
use telecloud_subscription_r.Store.Protocol.{StateStore, Outstanding}

abbrev pub exit_config_error : ℕ
exit_config_error = 4

-- `try: … finally: …`; an exception of the second part takes the place of the first one's outcome
unfoldable pub finally_do : {A S : Type 0} → Exec S A → Exec S (Unit {0}) → Exec S A
finally_do m last s =
    let (r, s') = m s in let (done, s'') = last s' in (and_then done (λ _. r), s'')

module _ (p : Platform) (S : StateStore) (settings : Settings) where
  open S use {State, find_acknowledgeable, acknowledge, close}

  -- the loop over the outstanding situations
  unfoldable pub confirm_rows : String → String → List Outstanding → Exec (World State) (Unit {0})
  unfolding on_store time
  confirm_rows component_id acked_by [] = pure tt
  confirm_rows component_id acked_by (row ∷ rows) = time >>= λ now.
      on_store p S (
        acknowledge
          (record {
            ack_key = row.ack_key;
            component_id = component_id;
            status = row.status;
            rung = row.rung;
            fingerprint = row.fingerprint;
            acked_by = acked_by;
          })
          (settings.ack_ttl_days * 86400) now)
      >> confirm_rows component_id acked_by rows

  unfoldable pub confirm_found : String → String → List Outstanding → Exec (World State) ℕ
  unfolding confirm_rows
  confirm_found component_id acked_by [] = pure 1
  confirm_found component_id acked_by (row ∷ rows) =
      confirm_rows component_id acked_by (row ∷ rows) >> pure 0

  -- the part of `_acknowledge` under `try`
  unfoldable pub confirm_outstanding : String → String → Exec (World State) ℕ
  unfolding confirm_found on_store
  confirm_outstanding component_id acked_by =
      on_store p S (find_acknowledgeable component_id) >>= confirm_found component_id acked_by

  -- `_acknowledge`, on a store that is open; its exit code
  unfoldable pub acknowledge_by_hand : String → String → Exec (World State) ℕ
  unfolding confirm_outstanding on_store finally_do
  acknowledge_by_hand component_id acked_by =
      finally_do (confirm_outstanding component_id acked_by) (on_store p S close)

-- the exit code of `_test_notify`, on the results of the test messages
unfoldable pub test_notify_exit : Settings → Result (List DeliveryResult) → Result ℕ
test_notify_exit settings results =
    if not settings.notify_enabled
    then return exit_config_error
    else and_then results (λ rs. return (if any (λ r. not r.ok) rs then 3 else 0))

-- the end of `main`: the exit code of a service that returned or raised
unfoldable pub main_exit : Result ℕ → Result ℕ
main_exit (return code) = return code
main_exit (raise (state_store_error m)) = return exit_config_error
main_exit (raise (config_error m)) = return 1
main_exit (raise (scrape_error m)) = return 1
main_exit (raise (auth_error m)) = return 1
main_exit (raise (parse_error m)) = return 1
main_exit (raise (channel_error m)) = return 1
main_exit (raise e) = raise e
