-- ===== src/Cli/Starting.antt =====
-- From the options and the settings to the service that runs, and to the exit code.
use telecloud_subscription_r.Base.{
  ◌≡◌, ℕ, Result, return, raise, value_error, key_error, overflow_error, other_error, config_error,
  scrape_error, auth_error, parse_error, state_store_error, channel_error,
}
use telecloud_subscription_r.Cli.{exit_config_error}
use telecloud_subscription_r.Config.Startup.{Fields}
use telecloud_subscription_r.Platform.{Platform}

-- the exit code for what loading the settings came to
unfoldable pub checked : Result Fields → Result ℕ
checked (return f) = return 0
checked (raise (config_error m)) = return exit_config_error
checked (raise e) = raise e

-- what `main` must come to after a run: a run that returns gives its exit code, the store's failure
-- gives 4, any other exception of the program's own gives 1, and the rest is raised on
pub IsExit : Result ℕ → Result ℕ → Type 0
IsExit (return code) out = out ≡ return code
IsExit (raise (state_store_error m)) out = out ≡ return 4
IsExit (raise (config_error m)) out = out ≡ return 1
IsExit (raise (scrape_error m)) out = out ≡ return 1
IsExit (raise (auth_error m)) out = out ≡ return 1
IsExit (raise (parse_error m)) out = out ≡ return 1
IsExit (raise (channel_error m)) out = out ≡ return 1
IsExit (raise (value_error m)) out = out ≡ raise (value_error m)
IsExit (raise (key_error m)) out = out ≡ raise (key_error m)
IsExit (raise (overflow_error m)) out = out ≡ raise (overflow_error m)
IsExit (raise (other_error m)) out = out ≡ raise (other_error m)
