-- ===== src/Tests/Loading.antt =====
-- The theorem on `.env` at a sample.
use telecloud_subscription_r.Base.{
  ◌≡◌, refl, String, none, some, List, [], ◌∷◌, str_eq, if◌then◌else◌,
}
use telecloud_subscription_r.Config.Loading.{Environ, export_dotenv_extras}
use telecloud_subscription_r.Config.Precedence.{export_dotenv_extras-keeps}
use telecloud_subscription_r.Tests.Samples.{ascii}

abbrev cluster : Environ
cluster name = if str_eq name "OPS_HOOK" then some "https://cluster" else none

abbrev dotenv_lines : List String
dotenv_lines = "# local" ∷ "export OPS_HOOK='https://local' # mine" ∷ "DEV_HOOK = https://dev" ∷ []

dev_hook_read : export_dotenv_extras ascii dotenv_lines cluster "DEV_HOOK" ≡ some "https://dev"
unfolding export_dotenv_extras
dev_hook_read = refl

hook_set : cluster "OPS_HOOK" ≡ some "https://cluster"
hook_set = refl

export_dotenv_extras-keeps_example :
    export_dotenv_extras ascii dotenv_lines cluster "OPS_HOOK" ≡ some "https://cluster"
export_dotenv_extras-keeps_example =
    export_dotenv_extras-keeps ascii dotenv_lines cluster "OPS_HOOK" hook_set
