-- ===== src/Notify/Plan.antt =====
-- src/tele_scraper/notify/router.py: `_matching`, `plan`, `_route_for` and `_scope`.
use telecloud_subscription_r.Base.{
  ℕ, String, Bool, true, false, ◌&&◌, Option, none, some, List, [], ◌∷◌, ◌++◌, any, map, keep,
  str_eq, or_text, Result, return, raise, and_then, if◌then◌else◌,
}
use telecloud_subscription_r.Base.Text.{join}
use telecloud_subscription_r.Config.{Route, Mode, detailed, summary, Settings, targets}
use telecloud_subscription_r.Domain.Rules.{matches_component}
use telecloud_subscription_r.Models.{
  ChannelTarget, Evaluation, NotificationEvent, status_eq, notifiable_status, digest_key,
}
use telecloud_subscription_r.Platform.{Platform}
pub mod Sound
pub mod Complete

-- a non-empty group: its first evaluation and the others
abbrev pub Group : Type 0
Group = Evaluation × List Evaluation

-- `by_status.setdefault(e.status, []).append(e)`: the groups in the order of their first members
add_to_group : Evaluation → List Group → List Group
add_to_group e [] = (e, []) ∷ []
add_to_group e ((f, fs) ∷ gs) =
    let rest = add_to_group e gs in
    if status_eq f.status e.status then (f, fs ++ e ∷ []) ∷ gs else (f, fs) ∷ rest

group_from : List Group → List Evaluation → List Group
unfolding add_to_group
group_from gs [] = gs
group_from gs (e ∷ es) = group_from (add_to_group e gs) es

groups : Mode → List Evaluation → List Group
unfolding group_from
groups detailed matched = map (λ e. (e, [])) matched
groups summary matched = group_from [] matched

unfoldable pub is_summary : Mode → Bool
is_summary detailed = false
is_summary summary = true

module _ (p : Platform) where
  unfoldable pub matches : Route → Evaluation → Bool
  unfolding matches_component
  matches r e =
      notifiable_status e.status
      && (any (status_eq e.status) r.statuses
          && matches_component p r.components e.component.component_id e.component.name)

  -- `_matching`
  unfoldable pub matching : Route → List Evaluation → List Evaluation
  unfolding matches
  matching r es = keep (matches r) es

  module _ (settings : Settings) where
    event : Route → ChannelTarget → Group → NotificationEvent
    unfolding is_summary
    event r t (e, es) = record {
      evaluation = e;
      others = es;
      recipient = r.recipient;
      target = t;
      locale = or_text r.locale settings.default_locale;
      digest = is_summary r.mode;
      ack_mode = r.summary_ack;
    }

    -- the two inner loops: every group to every target
    events_for : Route → List ChannelTarget → List Group → List NotificationEvent
    unfolding event
    events_for r ts [] = []
    events_for r ts (g ∷ gs) = map (λ t. event r t g) ts ++ events_for r ts gs

    module _ (environ : String → Option String) where
      -- one pass of the outer loop; a route that nothing matches does not resolve its targets
      route_events : Route → List Evaluation → Result (List NotificationEvent)
      unfolding events_for groups targets
      route_events r [] = return []
      route_events r (e ∷ es) =
          and_then (targets p environ r) (λ ts. return (events_for r ts (groups r.mode (e ∷ es))))

      plan_from : List Route → List Evaluation → Result (List NotificationEvent)
      unfolding route_events matching
      plan_from [] es = return []
      plan_from (r ∷ rs) es =
          and_then (route_events r (matching r es))
            (λ first. and_then (plan_from rs es) (λ rest. return (first ++ rest)))

      unfoldable pub plan : List Evaluation → Result (List NotificationEvent)
      unfolding plan_from
      plan es = plan_from settings.routes es

-- `_route_for`: the first route of a recipient
unfoldable pub route_for : String → List Route → Option Route
route_for recipient [] = none
route_for recipient (r ∷ rs) =
    let rest = route_for recipient rs in if str_eq r.recipient recipient then some r else rest

-- `_scope`
unfoldable pub scope : NotificationEvent → String
unfolding digest_key join
scope e = join "|" (
    e.recipient
    ∷ e.target.channel
    ∷ e.target.address
    ∷ (if e.digest then digest_key e else e.evaluation.component.component_id)
    ∷ [])
