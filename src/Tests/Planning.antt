-- ===== src/Tests/Planning.antt =====
-- The theorems on the plan at samples.
use telecloud_subscription_r.Base.{◌≡◌, refl, true, [], ◌∷◌, here, return}
use telecloud_subscription_r.Config.{targets}
use telecloud_subscription_r.Notify.Plan.{plan, matches}
use telecloud_subscription_r.Notify.Plan.Complete.{Delivers, plan-Delivers}
use telecloud_subscription_r.Notify.Plan.Sound.{Planned, plan-Planned}
use telecloud_subscription_r.Tests.Samples.{
  ascii, confirming, repeating, no_environment, machine_over, machine_message, ops, ops_route,
}

pub machine_planned :
    plan ascii repeating no_environment (machine_over ∷ []) ≡ return (machine_message ∷ [])
unfolding plan
machine_planned = refl

pub confirming_planned :
    plan ascii confirming no_environment (machine_over ∷ []) ≡ return (machine_message ∷ [])
unfolding plan
confirming_planned = refl

targets-ops : targets ascii no_environment ops_route ≡ return (ops ∷ [])
unfolding targets
targets-ops = refl

machine_matches : matches ascii ops_route machine_over ≡ true
unfolding matches
machine_matches = refl

plan-Delivers_example :
    Delivers ascii repeating no_environment
      (machine_over ∷ [])
      ops_route
      ops
      machine_over
      (machine_message ∷ [])
plan-Delivers_example =
    plan-Delivers ascii repeating no_environment (machine_over ∷ []) here here machine_matches
      targets-ops here machine_planned

plan-Planned_example :
    Planned ascii repeating (machine_over ∷ []) no_environment repeating.routes machine_message
plan-Planned_example =
    plan-Planned ascii repeating (machine_over ∷ []) no_environment machine_planned here
