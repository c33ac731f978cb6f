-- ===== src/Notify/Router/Interleaved.antt =====
-- Every interleaving of the deliveries of a cycle, where messages repeat by time and the store works.
use telecloud_subscription_r.Base.{
  ℕ, String, ◌≡◌, refl, sym, ap, subst, ◌∙◌, Bool, true, false, inl, inr, ◌⊎◌, Option, none, some,
  List, [], ◌∷◌, ◌++◌, map, All, All-append, not, str_eq, Result, return,
}
use telecloud_subscription_r.Config.{Settings}
use telecloud_subscription_r.Models.{DeliveryResult, NotificationEvent, dedup_key}
use telecloud_subscription_r.Notify.Plan.{scope}
use telecloud_subscription_r.Notify.Router.{
  World, Notifier, on_store, admit, admitted, unless_repeated, settle, send_to, transmit,
  held_quiet,
}
use telecloud_subscription_r.Notify.Router.Apart.{
  IsOther, IsApart, All-before, All-after, All-both, IsApart-append, IsAside, events,
  IsApart-before, IsApart-after, events-replaced, events-planned, append_assoc,
}
use telecloud_subscription_r.Notify.Router.Recording.{settled-IsKept}
use telecloud_subscription_r.Notify.Router.Steps.{
  Task, planned, let_through, answered, finished, planned_event, after_admit, hand_over,
  release_step, advance, one_of, Steps, no_more, go_on,
}
use telecloud_subscription_r.Platform.{Platform, DateTime}
use telecloud_subscription_r.Store.Database.{Database, sent_in}
use telecloud_subscription_r.Store.Sqlite.{sqlite, SqliteStateStore, already_sent}
use telecloud_subscription_r.Store.Sqlite.Laws.{opened}

module _ (p : Platform) (settings : Settings) (notifiers : String → Option Notifier)
    (render : NotificationEvent → Result String) (environ : String → Option String) (now : DateTime)
    (clock : ℕ → ℕ) (db0 : Database) (outbox0 : List NotificationEvent) where
  abbrev pub world : ℕ → Database → List NotificationEvent → World SqliteStateStore
  world n db sent = record { store = opened db; clock = clock; ticks = n; outbox = outbox0 ++ sent }

  -- no delivery of this message was on record at the start
  abbrev pub IsNew : NotificationEvent → Type 0
  IsNew e = sent_in (scope e) (dedup_key p e) db0 ≡ false

  IsTask : Database → List NotificationEvent → Task → Type 0
  IsTask db sent (planned e) =
      (sent_in (scope e) (dedup_key p e) db ≡ sent_in (scope e) (dedup_key p e) db0)
      × All (IsOther e) sent
  IsTask db sent (let_through e event) = (event ≡ e) × IsNew e × All (IsOther e) sent
  IsTask db sent (answered e event result) = Unit
  IsTask db sent (finished e r) = Unit

  -- what a delivery of `e` changes: what is recorded of its own scope, and the messages sent
  abbrev IsMove :
      NotificationEvent
      → Database
      → List NotificationEvent
      → Database
      → List NotificationEvent
      → Type 0
  IsMove e db sent db' sent' =
      ((sc key : String) → str_eq (scope e) sc ≡ false → sent_in sc key db' ≡ sent_in sc key db)
      × ((sent' ≡ sent) ⊎ (sent' ≡ sent ++ e ∷ []))

  others_sent :
      (e u : NotificationEvent) (sent sent' : List NotificationEvent)
      → IsOther e u
      → (sent' ≡ sent) ⊎ (sent' ≡ sent ++ e ∷ [])
      → All (IsOther u) sent
      → All (IsOther u) sent'
  others_sent e u sent sent' apart (inl same) h = rw same h
  others_sent e u sent sent' apart (inr more) h =
      rw more (All-append (IsOther u) sent (e ∷ []) h ((apart.1, apart.0), tt))

  IsTask-kept :
      (e : NotificationEvent) (db db' : Database) (sent sent' : List NotificationEvent)
      → IsMove e db sent db' sent'
      → (u : Task) → IsAside e u
      → IsTask db sent u
      → IsTask db' sent' u
  unfolding IsTask IsAside
  IsTask-kept e db db' sent sent' moved (planned u) aside h = (
    moved.0 (scope u) (dedup_key p u) aside.0 ∙ h.0,
    others_sent e u sent sent' aside moved.1 h.1,
  )
  IsTask-kept e db db' sent sent' moved (let_through u event) aside h =
      (h.0, h.1, others_sent e u sent sent' aside moved.1 h.2)
  IsTask-kept e db db' sent sent' moved (answered u event result) aside h = tt
  IsTask-kept e db db' sent sent' moved (finished u r) aside h = tt

  -- where one step of a delivery leads
  abbrev IsAdvanced :
      Task → Database → List NotificationEvent → Task × World SqliteStateStore → Type 0
  IsAdvanced t db sent (t', w') =
      (db' : Database) × (sent' : List NotificationEvent) × (n' : ℕ) × (w' ≡ world n' db' sent')
      × IsMove (planned_event t) db sent db' sent'
      × IsTask db' sent' t'
      × (planned_event t' ≡ planned_event t)
      × IsApart sent'
      × All IsNew sent'

  still :
      (e : NotificationEvent) (db : Database) (sent : List NotificationEvent)
      → IsMove e db sent db sent
  still e db sent = (λ sc key other. refl, inl refl)

  looked_up :
      (e : NotificationEvent) (again : Bool) (n : ℕ) (db : Database) (sent : List NotificationEvent)
      → again ≡ sent_in (scope e) (dedup_key p e) db0
      → All (IsOther e) sent
      → IsApart sent
      → All IsNew sent
      → IsAdvanced
          (planned e)
          db
          sent
          (after_admit e (return (unless_repeated p sqlite e again)), world n db sent)
  unfolding after_admit unless_repeated IsTask
  looked_up e true n db sent same others apart new =
      (db, sent, n, refl, still e db sent, tt, refl, apart, new)
  looked_up e false n db sent same others apart new =
      (db, sent, n, refl, still e db sent, (refl, sym same, others), refl, apart, new)

  -- a delivery that is over, and changed nothing
  over :
      (t : Task) (r : Result DeliveryResult) (n : ℕ) (db : Database) (sent : List NotificationEvent)
      → IsApart sent
      → All IsNew sent
      → IsAdvanced t db sent (finished (planned_event t) r, world n db sent)
  unfolding IsTask
  over t r n db sent apart new =
      (db, sent, n, refl, still (planned_event t) db sent, tt, refl, apart, new)

  handed_over :
      (notifier : Option Notifier) (e : NotificationEvent) (n : ℕ) (db : Database)
      (sent : List NotificationEvent)
      → IsNew e
      → All (IsOther e) sent
      → IsApart sent
      → All IsNew sent
      → IsAdvanced
          (let_through e e)
          db
          sent
          (hand_over p sqlite settings notifiers render environ now notifier e e (world n db sent))
  unfolding hand_over send_to IsTask
  handed_over none e n db sent fresh others apart new =
      over (let_through e e) (transmit p sqlite settings none e e (world n db sent)).0 n db sent
        apart new
  handed_over (some notifier) e n db sent fresh others apart new = (
    db,
    sent ++ e ∷ [],
    n,
    ap (λ es. record { store = opened db; clock = clock; ticks = n; outbox = es })
        (append_assoc outbox0 sent (e ∷ [])),
    (λ sc key other. refl, inr refl),
    tt,
    refl,
    IsApart-append sent e apart others,
    All-append IsNew sent (e ∷ []) new (fresh, tt),
  )

  let_go :
      (held dry disabled : Bool) (e : NotificationEvent) (n : ℕ) (db : Database)
      (sent : List NotificationEvent)
      → IsNew e
      → All (IsOther e) sent
      → IsApart sent
      → All IsNew sent
      → IsAdvanced (let_through e e) db sent (
          release_step p sqlite settings notifiers render environ now held dry disabled e e
            (world n db sent))
  unfolding release_step
  let_go true dry disabled e n db sent fresh others apart new =
      over (let_through e e) _ n db sent apart new
  let_go false true disabled e n db sent fresh others apart new =
      over (let_through e e) _ n db sent apart new
  let_go false false true e n db sent fresh others apart new =
      over (let_through e e) _ n db sent apart new
  let_go false false false e n db sent fresh others apart new =
      handed_over (notifiers e.target.channel) e n db sent fresh others apart new

  module _ (by_time : settings.require_acknowledgement ≡ false) where
    admit_lem :
        (e : NotificationEvent) (n : ℕ) (db : Database) (sent : List NotificationEvent)
        → admit p sqlite settings e (world n db sent) ≡ (
          return (unless_repeated p sqlite e (sent_in (scope e) (dedup_key p e) db)),
          world n db sent,
        )
    unfolding admit admitted on_store already_sent
    admit_lem e n db sent = rw by_time refl

    advanced :
        (t : Task) (n : ℕ) (db : Database) (sent : List NotificationEvent)
        → IsTask db sent t
        → IsApart sent
        → All IsNew sent
        → IsAdvanced t db sent
            (advance p sqlite settings notifiers render environ now t (world n db sent))
    unfolding advance settle IsTask
    advanced (planned e) n db sent (same, others) apart new =
        let answer = sent_in (scope e) (dedup_key p e) db in
        subst (λ o. IsAdvanced (planned e) db sent (after_admit e o.0, o.1))
          (sym (admit_lem e n db sent)) (looked_up e answer n db sent same others apart new)
    advanced (let_through e event) n db sent (same, fresh, others) apart new =
        subst
          (λ v. IsAdvanced (let_through e v) db sent (
            advance p sqlite settings notifiers render environ now (let_through e v)
              (world n db sent)))
          (sym same)
          (let_go (held_quiet p sqlite settings e now) settings.dry_run
            (not settings.notify_enabled) e n db sent fresh others apart new)
    advanced (answered e event result) n db sent h apart new =
        let (db', n', same, kept) =
          settled-IsKept p settings clock result.ok e event result n db (outbox0 ++ sent) in
        (db', sent, n', same, (kept, inl refl), tt, refl, apart, new)
    advanced (finished e r) n db sent h apart new = over (finished e r) r n db sent apart new

    IsCourse : List Task × World SqliteStateStore → Type 0
    IsCourse (ts, w) =
        (db : Database) × (sent : List NotificationEvent) × (n : ℕ) × (w ≡ world n db sent)
        × IsApart (events ts)
        × All (IsTask db sent) ts
        × IsApart sent
        × All IsNew sent

    stepped :
        (before : List Task) (t : Task) (after : List Task) (w : World SqliteStateStore)
        → IsCourse (before ++ t ∷ after, w)
        → IsCourse (
          before ++ (advance p sqlite settings notifiers render environ now t w).0 ∷ after,
          (advance p sqlite settings notifiers render environ now t w).1,
        )
    unfolding IsCourse
    stepped before t after w (db, sent, n, same, distinct, tasks, apart, new) =
        let here = All-after (IsTask db sent) before (t ∷ after) tasks in
        let (t', w') = advance p sqlite settings notifiers render environ now t (world n db sent) in
        let (db', sent', n', same', moved, task, planned_same, apart', new') =
          advanced t n db sent here.0 apart new in
        let keep_all = IsTask-kept (planned_event t) db db' sent sent' moved in
        rw same (
          db',
          sent',
          n',
          same',
          subst IsApart (sym (events-replaced before t t' after planned_same)) distinct,
          All-append (IsTask db' sent') before (t' ∷ after)
              (All-both (IsAside (planned_event t)) (IsTask db sent) (IsTask db' sent') before
                keep_all (IsApart-before before t after distinct)
                (All-before (IsTask db sent) before (t ∷ after) tasks))
              (
                task,
                All-both (IsAside (planned_event t)) (IsTask db sent) (IsTask db' sent') after
                    keep_all (IsApart-after before t after distinct) here.1,
              ),
          apart',
          new',
        )

    steps-IsCourse :
        {c c' : List Task × World SqliteStateStore}
        → Steps p sqlite settings notifiers render environ now c c'
        → IsCourse c
        → IsCourse c'
    steps-IsCourse no_more h = h
    steps-IsCourse (go_on (one_of before t after w) rest) h =
        steps-IsCourse rest (stepped before t after w h)

    planned-IsTask : (es : List NotificationEvent) → All (IsTask db0 []) (map planned es)
    unfolding IsTask
    planned-IsTask [] = tt
    planned-IsTask (e ∷ es) = ((refl, tt), planned-IsTask es)

    planned-IsCourse :
        (n : ℕ) (es : List NotificationEvent)
        → IsApart es
        → IsCourse (map planned es, world n db0 [])
    unfolding IsCourse
    planned-IsCourse n es distinct = (
      db0,
      [],
      n,
      refl,
      subst IsApart (sym (events-planned es)) distinct,
      planned-IsTask es,
      tt,
      tt,
    )

    -- Where messages repeat by time (`REQUIRE_ACKNOWLEDGEMENT` is off) and the SQLite store works, let the deliveries of a cycle, whose
    -- messages have pairwise different scopes, go on in any order, one step of one of them at a time.
    -- At every moment the messages handed over so far have pairwise different scopes, so that none is
    -- sent twice, and none of them was on record as delivered when the cycle began.
    pub interleaved-IsApart :
        (n : ℕ) (es : List NotificationEvent) (ts : List Task) (w : World SqliteStateStore)
        → IsApart es
        → Steps p sqlite settings notifiers render environ now
            (map planned es, world n db0 [])
            (ts, w)
        → (sent : List NotificationEvent) × (w.outbox ≡ outbox0 ++ sent)
          × IsApart sent
          × All IsNew sent
    unfolding IsCourse
    interleaved-IsApart n es ts w distinct steps =
        let (db, sent, n', same, distinct', tasks, apart, new) =
          steps-IsCourse steps (planned-IsCourse n es distinct) in
        (sent, ap (λ v. v.outbox) same, apart, new)
