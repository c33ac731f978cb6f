-- ===== src/Notify/Plan/Complete.antt =====
-- Nothing that a route asks for is left out of the plan.
use telecloud_subscription_r.Base.{
  String, ◌≡◌, refl, subst, true, Option, List, [], ◌∷◌, ◌++◌, map, In, here, there, In-append_left,
  In-append_right, In-map, keep-In, not-In-nil, Bool-cases, inl, inr, return, and_then-return,
  return-injective,
}
use telecloud_subscription_r.Config.{Route, Mode, detailed, summary, Settings, targets}
use telecloud_subscription_r.Models.{
  ChannelTarget, Evaluation, NotificationEvent, status_eq, evaluations,
}
use telecloud_subscription_r.Notify.Plan.{
  Group, add_to_group, group_from, groups, matches, matching, event, events_for, route_events,
  plan_from, plan,
}
use telecloud_subscription_r.Platform.{Platform}

-- an evaluation stands in one of the groups
abbrev Covers : Evaluation → List Group → Type 0
Covers v gs = (g : Group) × In g gs × In v (g.0 ∷ g.1)

Covers-there : {v : Evaluation} (g : Group) {gs : List Group} → Covers v gs → Covers v (g ∷ gs)
Covers-there g (h, i, m) = (h, there i, m)

add_to_group-keeps :
    {v : Evaluation} (e : Evaluation) (gs : List Group) → Covers v gs → Covers v (add_to_group e gs)
unfolding add_to_group
add_to_group-keeps e [] (g, i, m) = absurd (not-In-nil i)
add_to_group-keeps {v} e ((f, fs) ∷ gs) c = elim (Bool-cases (status_eq f.status e.status)) [
  | inl same ↦ rw same (grown c)
  | inr other ↦ rw other (later c (λ d. add_to_group-keeps e gs d))
]
  where
    grown : Covers v ((f, fs) ∷ gs) → Covers v ((f, fs ++ e ∷ []) ∷ gs)
    grown (g, here, m) = ((f, fs ++ e ∷ []), here, In-append_left (e ∷ []) m)
    grown (g, there i, m) = (g, there i, m)

    later :
        Covers v ((f, fs) ∷ gs)
        → (Covers v gs → Covers v (add_to_group e gs))
        → Covers v ((f, fs) ∷ add_to_group e gs)
    later (g, here, m) rest = ((f, fs), here, m)
    later (g, there i, m) rest = Covers-there (f, fs) (rest (g, i, m))

add_to_group-adds : (e : Evaluation) (gs : List Group) → Covers e (add_to_group e gs)
unfolding add_to_group
add_to_group-adds e [] = ((e, []), here, here)
add_to_group-adds e ((f, fs) ∷ gs) = elim (Bool-cases (status_eq f.status e.status)) [
  | inl same ↦ rw same ((f, fs ++ e ∷ []), here, In-append_right (f ∷ fs) here)
  | inr other ↦ rw other (Covers-there (f, fs) (add_to_group-adds e gs))
]

group_from-keeps :
    {v : Evaluation} (gs : List Group) (es : List Evaluation)
    → Covers v gs
    → Covers v (group_from gs es)
unfolding group_from
group_from-keeps gs [] c = c
group_from-keeps gs (e ∷ es) c = group_from-keeps (add_to_group e gs) es (add_to_group-keeps e gs c)

group_from-Covers :
    {v : Evaluation} (gs : List Group) {es : List Evaluation}
    → In v es
    → Covers v (group_from gs es)
unfolding group_from
group_from-Covers {v} gs (here {xs = es}) =
    group_from-keeps (add_to_group v gs) es (add_to_group-adds v gs)
group_from-Covers gs (there {x = e} i) = group_from-Covers (add_to_group e gs) i

groups-Covers :
    {v : Evaluation} (mode : Mode) {es : List Evaluation} → In v es → Covers v (groups mode es)
unfolding groups
groups-Covers {v} detailed i = ((v, []), In-map (λ e. (e, [])) i, here)
groups-Covers summary i = group_from-Covers [] i

module _ (p : Platform) (settings : Settings) where
  events_for-In :
      (r : Route) {t : ChannelTarget} {ts : List ChannelTarget} {g : Group} {gs : List Group}
      → In t ts
      → In g gs
      → In (event p settings r t g) (events_for p settings r ts gs)
  unfolding events_for
  events_for-In r {ts = ts} {g = g} m (here {xs = gs}) =
      In-append_left (events_for p settings r ts gs) (In-map (λ t. event p settings r t g) m)
  events_for-In r {ts = ts} m (there {x = h} i) =
      In-append_right (map (λ t. event p settings r t h) ts) (events_for-In r m i)

  module _ (environ : String → Option String) (es : List Evaluation) where
    -- a planned delivery for `v` from `r` at `t`
    abbrev pub Delivers : Route → ChannelTarget → Evaluation → List NotificationEvent → Type 0
    Delivers r t v events =
        (e : NotificationEvent) × In e events
        × (e.recipient ≡ r.recipient)
        × (e.target ≡ t)
        × In v (evaluations e)

    route_events-Delivers :
        (r : Route) (matched : List Evaluation) {found : List NotificationEvent} {t : ChannelTarget}
        {ts : List ChannelTarget} {v : Evaluation}
        → In v matched
        → targets p environ r ≡ return ts
        → In t ts
        → route_events p settings environ r matched ≡ return found
        → Delivers r t v found
    unfolding route_events event
    route_events-Delivers r [] i resolved m h = absurd (not-In-nil i)
    route_events-Delivers r (x ∷ xs) {t = t} {ts = ts} i resolved m h =
        let (ts', again, done) = and_then-return (targets p environ r) _ h in
        let same : ts ≡ ts' = cc in
        let (g, j, k) = groups-Covers r.mode i in
        (
          event p settings r t g,
          subst (In _) (return-injective done) (events_for-In r (subst (In t) same m) j),
          refl,
          refl,
          k,
        )

    plan_from-Delivers :
        {r : Route} {rs : List Route} {events : List NotificationEvent} {t : ChannelTarget}
        {ts : List ChannelTarget} {v : Evaluation}
        → In r rs
        → In v es
        → matches p r v ≡ true
        → targets p environ r ≡ return ts
        → In t ts
        → plan_from p settings environ rs es ≡ return events
        → Delivers r t v events
    unfolding plan_from matching
    plan_from-Delivers {r = r} (here {xs = rs}) i passes resolved m h =
        let (first, a, more) =
          and_then-return (route_events p settings environ r (matching p r es)) _ h in
        let (rest, b, done) = and_then-return (plan_from p settings environ rs es) _ more in
        let (e, j, who, where_, lists) =
          route_events-Delivers r (matching p r es) (keep-In (matches p r) i passes) resolved m a in
        (e, subst (In e) (return-injective done) (In-append_left rest j), who, where_, lists)
    plan_from-Delivers (there {x = q} {xs = rs} k) i passes resolved m h =
        let (first, a, more) =
          and_then-return (route_events p settings environ q (matching p q es)) _ h in
        let (rest, b, done) = and_then-return (plan_from p settings environ rs es) _ more in
        let (e, j, who, where_, lists) = plan_from-Delivers k i passes resolved m b in
        (e, subst (In e) (return-injective done) (In-append_right first j), who, where_, lists)

    -- An evaluation that a route matches is listed in a planned delivery to the route's recipient
    -- at each of its targets.
    pub plan-Delivers :
        {events : List NotificationEvent} {r : Route} {t : ChannelTarget} {ts : List ChannelTarget}
        {v : Evaluation}
        → In r settings.routes
        → In v es
        → matches p r v ≡ true
        → targets p environ r ≡ return ts
        → In t ts
        → plan p settings environ es ≡ return events
        → Delivers r t v events
    unfolding plan
    plan-Delivers k i passes resolved m h = plan_from-Delivers k i passes resolved m h
