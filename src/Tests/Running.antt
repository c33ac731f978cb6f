-- ===== src/Tests/Running.antt =====
-- The theorem on missing components at a sample.
use telecloud_subscription_r.Base.{ℕ, ◌≡◌, refl, false, List, [], ◌∷◌, ◌++◌, keep, In, here, return}
use telecloud_subscription_r.Models.{Component}
use telecloud_subscription_r.Runner.{add_missing, missing_component, present, is_trackable}
use telecloud_subscription_r.Runner.Missing.{knowing, absence_acked, add_missing-reports}
use telecloud_subscription_r.Store.Database.{Database, acked_in}
use telecloud_subscription_r.Store.Protocol.{Known}
use telecloud_subscription_r.Store.Sqlite.{sqlite}
use telecloud_subscription_r.Tests.Samples.{ascii, machine}

abbrev gone_row : Known
gone_row = record { component_id = "vm-9"; name = "Gone"; last_seen = 10 }

abbrev one_known : Database
one_known = record {
  digest_members = [];
  known_components = gone_row ∷ [];
  acknowledgements = [];
  sent_notifications = [];
}

absence_open : (t : ℕ) → absence_acked ascii one_known (λ n. 1000) [] gone_row t ≡ false
unfolding acked_in
absence_open t = refl

row_gone : present (keep is_trackable (machine ∷ [])) "vm-9" ≡ false
unfolding is_trackable
row_gone = refl

add_missing-reports_example :
    (missing : List Component) × ((add_missing ascii sqlite
        (machine ∷ [])
        (knowing ascii one_known (λ n. 1000) [] 0 (gone_row ∷ []))).0
      ≡ return ((machine ∷ []) ++ missing))
    × In (missing_component "vm-9" "Gone") missing
add_missing-reports_example =
    add_missing-reports ascii one_known (λ n. 1000) [] (machine ∷ []) 0 gone_row here row_gone
      absence_open
