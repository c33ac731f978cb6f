-- ===== src/Notify/Plan/Sound.antt =====
-- Every planned delivery is one that a route asks for.
use telecloud_subscription_r.Base.{
  String, ◌≡◌, refl, sym, subst, true, Option, List, [], ◌∷◌, ◌++◌, map, All, In, here, there,
  In-append, In-keep, map-In, not-In-nil, Bool-cases, inl, inr, ◌⊎◌, arith, return, and_then-return,
  return-injective,
}
use telecloud_subscription_r.Config.{Route, Mode, detailed, summary, Settings, targets}
use telecloud_subscription_r.Models.{
  ChannelTarget, Evaluation, NotificationEvent, Status, status_eq, evaluations,
}
use telecloud_subscription_r.Notify.Plan.{
  Group, add_to_group, group_from, groups, is_summary, matches, matching, event, events_for,
  route_events, plan_from, plan,
}
use telecloud_subscription_r.Platform.{Platform}

status_eq→eq : (s t : Status) → status_eq s t ≡ true → s ≡ t
status_eq→eq s t h = ground arith

module _ (matched : List Evaluation) where
  abbrev members : Group → List Evaluation
  members g = g.0 ∷ g.1

  -- A group holds matched evaluations of one status.
  abbrev IsGroup : Group → Type 0
  IsGroup g = (v : Evaluation) → In v (members g) → In v matched × (v.status ≡ g.0.status)

  IsGroup-snoc :
      (f : Evaluation) (fs : List Evaluation) (e : Evaluation)
      → In e matched
      → status_eq f.status e.status ≡ true
      → IsGroup (f, fs)
      → IsGroup (f, fs ++ e ∷ [])
  IsGroup-snoc f fs e m same g v i = go (In-append (f ∷ fs) (e ∷ []) i)
    where
      go : {v : Evaluation} → In v (f ∷ fs) ⊎ In v (e ∷ []) → In v matched × (v.status ≡ f.status)
      go {v = v} (inl j) = g v j
      go (inr here) = (m, sym (status_eq→eq f.status e.status same))
      go (inr (there j)) = absurd (not-In-nil j)

  IsGroup-single : (e : Evaluation) → In e matched → IsGroup (e, [])
  IsGroup-single e m v here = (m, refl)
  IsGroup-single e m v (there j) = absurd (not-In-nil j)

  add_to_group-IsGroup :
      (e : Evaluation) (gs : List Group)
      → In e matched
      → All IsGroup gs
      → All IsGroup (add_to_group e gs)
  unfolding add_to_group
  add_to_group-IsGroup e [] m h = (IsGroup-single e m, tt)
  add_to_group-IsGroup e ((f, fs) ∷ gs) m h = elim (Bool-cases (status_eq f.status e.status)) [
    | inl same ↦ rw same (IsGroup-snoc f fs e m same h.0, h.1)
    | inr other ↦ rw other (h.0, add_to_group-IsGroup e gs m h.1)
  ]

  group_from-IsGroup :
      (gs : List Group) (es : List Evaluation)
      → ((v : Evaluation) → In v es → In v matched)
      → All IsGroup gs
      → All IsGroup (group_from gs es)
  unfolding group_from
  group_from-IsGroup gs [] sub h = h
  group_from-IsGroup gs (e ∷ es) sub h =
      group_from-IsGroup (add_to_group e gs) es (λ v i. sub v (there i))
        (add_to_group-IsGroup e gs (sub e here) h)

  singles-IsGroup :
      (es : List Evaluation)
      → ((v : Evaluation) → In v es → In v matched)
      → All IsGroup (map (λ e. (e, [])) es)
  singles-IsGroup [] sub = tt
  singles-IsGroup (e ∷ es) sub =
      (IsGroup-single e (sub e here), singles-IsGroup es (λ v i. sub v (there i)))

  groups-IsGroup : (mode : Mode) → All IsGroup (groups mode matched)
  unfolding groups
  groups-IsGroup detailed = singles-IsGroup matched (λ v i. i)
  groups-IsGroup summary = group_from-IsGroup [] matched (λ v i. i) tt

module _ (p : Platform) (settings : Settings) (es : List Evaluation) where
  -- `r` asks for the delivery `e`: it goes to the recipient of `r`, it is a digest if `r` wants
  -- summaries, and it lists evaluations of `es` that `r` matches, all of one status.
  pub record Asks (r : Route) (e : NotificationEvent) : Type 0 where
    pub recipient : e.recipient ≡ r.recipient
    pub digest : e.digest ≡ is_summary r.mode
    pub ack_mode : e.ack_mode ≡ r.summary_ack
    pub listed :
        (v : Evaluation)
        → In v (evaluations e)
        → In v es × (matches p r v ≡ true) × (v.status ≡ e.evaluation.status)

  event-Asks :
      (r : Route) (t : ChannelTarget) (g : Group)
      → IsGroup (matching p r es) g
      → Asks r (event p settings r t g)
  unfolding event matching
  event-Asks r t g h = record {
    recipient = refl;
    digest = refl;
    ack_mode = refl;
    listed = λ v i.
        let (m, same) = h v i in
        let (source, passes) = In-keep (matches p r) es m in (source, passes, same);
  }

  events_for-Asks :
      (r : Route) (ts : List ChannelTarget) (gs : List Group)
      → All (IsGroup (matching p r es)) gs
      → {e : NotificationEvent} → In e (events_for p settings r ts gs)
      → Asks r e × In e.target ts
  unfolding events_for
  events_for-Asks r ts [] h i = absurd (not-In-nil i)
  events_for-Asks r ts (g ∷ gs) h {e} i =
      go (In-append (map (λ t. event p settings r t g) ts) (events_for p settings r ts gs) i)
        (λ j. events_for-Asks r ts gs h.1 j)
    where
      go :
          In e (map (λ t. event p settings r t g) ts) ⊎ In e (events_for p settings r ts gs)
          → (In e (events_for p settings r ts gs) → Asks r e × In e.target ts)
          → Asks r e × In e.target ts
      go (inl j) rest =
          let (t, m, same) = map-In (λ t. event p settings r t g) ts j in
          subst (λ x. Asks r x × In x.target ts) (sym same)
            (event-Asks r t g h.0, unfold event in m)
      go (inr j) rest = rest j

  module _ (environ : String → Option String) where
    -- what a planned delivery has behind it
    abbrev pub Planned : List Route → NotificationEvent → Type 0
    Planned rs e =
        (r : Route) × (ts : List ChannelTarget) × In r rs
        × (targets p environ r ≡ return ts)
        × In e.target ts
        × Asks r e

    route_events-Asks :
        (r : Route) (matched : List Evaluation) {found : List NotificationEvent}
        {e : NotificationEvent}
        → All (IsGroup (matching p r es)) (groups r.mode matched)
        → route_events p settings environ r matched ≡ return found
        → In e found
        → (ts : List ChannelTarget) × (targets p environ r ≡ return ts) × In e.target ts × Asks r e
    unfolding route_events
    route_events-Asks r [] g h i = absurd (not-In-nil (subst (In _) (sym (return-injective h)) i))
    route_events-Asks r (m ∷ ms) g h i =
        let (ts, resolved, done) = and_then-return (targets p environ r) _ h in
        let (asks, at) =
          events_for-Asks r ts (groups r.mode (m ∷ ms)) g
            (subst (In _) (sym (return-injective done)) i) in
        (ts, resolved, at, asks)

    plan_from-Planned :
        (rs : List Route) {events : List NotificationEvent} {e : NotificationEvent}
        → plan_from p settings environ rs es ≡ return events
        → In e events
        → Planned rs e
    unfolding plan_from
    plan_from-Planned [] h i = absurd (not-In-nil (subst (In _) (sym (return-injective h)) i))
    plan_from-Planned (r ∷ rs) {e = e} h i =
        let (first, a, more) =
          and_then-return (route_events p settings environ r (matching p r es)) _ h in
        let (rest, b, done) = and_then-return (plan_from p settings environ rs es) _ more in
        go (In-append first rest (subst (In e) (sym (return-injective done)) i)) a
          (λ j. plan_from-Planned rs b j)
      where
        go :
            {first rest : List NotificationEvent}
            → In e first ⊎ In e rest
            → route_events p settings environ r (matching p r es) ≡ return first
            → (In e rest → Planned rs e)
            → Planned (r ∷ rs) e
        go (inl j) a later =
            let (ts, resolved, at, asks) =
              route_events-Asks r (matching p r es) (groups-IsGroup (matching p r es) r.mode) a j in
            (r, ts, here, resolved, at, asks)
        go (inr j) a later =
            let (q, ts, m, resolved, at, asks) = later j in (q, ts, there m, resolved, at, asks)

    -- Every planned delivery is asked for by a route of the table: it goes to that route's
    -- recipient at one of its targets, it is a digest exactly if the route wants summaries, and
    -- what it lists was evaluated, is matched by the route and has one status.
    pub plan-Planned :
        {events : List NotificationEvent} {e : NotificationEvent}
        → plan p settings environ es ≡ return events
        → In e events
        → Planned settings.routes e
    unfolding plan
    plan-Planned h i = plan_from-Planned settings.routes h i
