-- ===== src/Tests/Evaluating.antt =====
-- The theorems on statuses, ladders, durations and quiet hours at samples.
use telecloud_subscription_r.Base.{◌≡◌, ◌≢◌, refl, some, List, [], ◌∷◌, map, return, arith, ltb}
use telecloud_subscription_r.Base.Int.{pos}
use telecloud_subscription_r.Domain.Rules.{select_rung, parse_thresholds, in_quiet_hours}
use telecloud_subscription_r.Domain.Rules.Durations.{parse_thresholds_ladder, IsFalling, IsPositive}
use telecloud_subscription_r.Domain.Rules.QuietHours.{in_quiet_hours-arc, after}
use telecloud_subscription_r.Domain.Status.{derive_status, evaluate_all}
use telecloud_subscription_r.Domain.Status.Batch.{
  derive_status-Justified, derive_status-Worsens, Resolved,
}
use telecloud_subscription_r.Domain.Status.Evidence.{Justified}
use telecloud_subscription_r.Domain.Status.Progress.{Worsens}
use telecloud_subscription_r.Domain.Status.Totals.{evaluate_all_total}
use telecloud_subscription_r.Models.{Component, Evaluation}
use telecloud_subscription_r.Platform.{utc}
use telecloud_subscription_r.Tests.Samples.{ascii, machine, warnings, machine_soon, machine_over}

soon_derived : derive_status ascii machine (utc 18000000000) warnings [] ≡ return machine_soon
unfolding derive_status
soon_derived = refl

over_derived : derive_status ascii machine (utc 36000000000) warnings [] ≡ return machine_over
unfolding derive_status
over_derived = refl

derive_status-Justified_example :
    (r : Component) × Resolved machine r × Justified ascii r 18000000000 warnings [] machine_soon
derive_status-Justified_example =
    derive_status-Justified ascii [] machine 18000000000 warnings soon_derived

derive_status-Worsens_example : Worsens machine_soon machine_over
derive_status-Worsens_example =
    derive_status-Worsens ascii [] machine 18000000000 36000000000 warnings (omega arith)
      soon_derived over_derived

evaluate_all_total_example :
    (es : List Evaluation) × (evaluate_all ascii (machine ∷ []) (utc 18000000000) warnings []
      ≡ return es)
    × (map (λ e. e.component) es ≡ machine ∷ [])
evaluate_all_total_example =
    evaluate_all_total ascii [] 18000000000 (pos 21600000000) (pos 7200000000 ∷ []) (machine ∷ [])
      (refl, tt)

rung_selected : select_rung (pos 18000000000) warnings ≡ some (pos 21600000000)
unfolding select_rung
rung_selected = refl

days_parsed : parse_thresholds ascii "6h, 2h,6h" ≡ return warnings
unfolding parse_thresholds
days_parsed = refl

parse_thresholds_ladder_example : IsFalling warnings × IsPositive warnings × (warnings ≢ [])
parse_thresholds_ladder_example = parse_thresholds_ladder ascii "6h, 2h,6h" days_parsed

-- ten in the evening to six in the morning, at two
in_quiet_hours-arc_example :
    in_quiet_hours ascii (utc 7200000000) 79200000000 21600000000 "UTC"
    ≡ ltb (after 79200000000 7200000000) (after 79200000000 21600000000)
in_quiet_hours-arc_example =
    in_quiet_hours-arc ascii (utc 7200000000) 79200000000 21600000000 "UTC" (omega arith)
      (omega arith) (omega arith)
