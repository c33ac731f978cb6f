-- ===== src/Runner/Loud.antt =====
-- A cycle that could not establish anything is never reported as a good one.
use Prim.Native.String.{◌++◌ as concat}
use telecloud_subscription_r.Base.{
  suc, map, keep, String, ◌≡◌, ◌↔◌, resume-return, refl, sym, subst, ◌∙◌, ap, Bool, true, false,
  Option, List, [], ◌∷◌, ◌++◌, any, arith, Result, return, raise, and_then, and_then-return,
  return-injective, pure, ◌>>=◌, if◌then◌else◌, Bool-cases, inl, inr,
}
use telecloud_subscription_r.Base.Int.{ℤ}
use telecloud_subscription_r.Config.{Settings}
use telecloud_subscription_r.Domain.Status.{derive_status, evaluate_all, resolve_expiry, ladder}
use telecloud_subscription_r.Models.{
  Component, label, Evaluation, NotificationEvent, RunReport, unknown, status_eq, has_unknown,
  delivery_failed, exit_code,
}
use telecloud_subscription_r.Notify.Router.{World, Notifier, dispatch, on_store, time}
use telecloud_subscription_r.Platform.{Platform, DateTime, utc, naive}
use telecloud_subscription_r.Runner.{
  Scraped, listed, unreachable, unparsed, scrape_failed, scraped_components, empty_result_component,
  synthetic, add_missing, remembered, find_missing, present, is_trackable, evaluated,
  listed_components, reported, run_once, evaluate_credentials, empty_result_id,
}
use telecloud_subscription_r.Store.Protocol.{StateStore}

-- An exit code of zero says that the portal was read, that every status was established, and that
-- no delivery failed.
pub exit_code-zero :
    (r : RunReport)
    → (exit_code r ≡ 0)
      ↔ ((r.scrape_failed ≡ false) × (has_unknown r ≡ false) × (delivery_failed r ≡ false))
unfolding exit_code
exit_code-zero r = ground arith

any-append :
    (es cs : List Evaluation)
    → any (λ e. status_eq e.status unknown) es ≡ true
    → any (λ e. status_eq e.status unknown) (es ++ cs) ≡ true
any-append [] cs h = cc
any-append (e ∷ es) cs h = elim (Bool-cases (status_eq e.status unknown)) [
  | inl same ↦ rw same refl
  | inr other ↦ rw other (any-append es cs (rw other at h))
]

module _ (p : Platform) where
  derive_unknown :
      (i n m : String) (now : DateTime) (thresholds : List ℤ) (tokens : List String)
      {e : Evaluation}
      → derive_status p (synthetic i n m) now thresholds tokens ≡ return e
      → e.status ≡ unknown
  unfolding derive_status resolve_expiry ladder
  derive_unknown i n m (naive t) thresholds tokens h = cc
  derive_unknown i n m (utc t) [] tokens h = cc
  derive_unknown i n m (utc t) (d ∷ ds) tokens h = ap (λ e. e.status) (sym (return-injective h))

  unknown_first :
      (i n m : String) (cs : List Component) (now : DateTime) (thresholds : List ℤ)
      (tokens : List String) {es : List Evaluation}
      → evaluate_all p (synthetic i n m ∷ cs) now thresholds tokens ≡ return es
      → any (λ e. status_eq e.status unknown) es ≡ true
  unfolding evaluate_all
  unknown_first i n m cs now thresholds tokens h =
      let (e, a, more) =
        and_then-return (derive_status p (synthetic i n m) now thresholds tokens)
          (λ e. and_then (evaluate_all p cs now thresholds tokens) (λ es. return (e ∷ es))) h in
      let (es', b, done) =
        and_then-return (evaluate_all p cs now thresholds tokens) (λ es. return (e ∷ es)) more in
      subst (λ l. any (λ e. status_eq e.status unknown) l ≡ true) (return-injective done)
        (rw (derive_unknown i n m now thresholds tokens a) refl)

  module _ (S : StateStore) where
    remembered-appends :
        (components missing : List Component) (w : World S.State) {out : List Component}
        → (remembered p S components missing w).0 ≡ return out
        → components ++ missing ≡ out
    unfolding remembered time
    remembered-appends components missing w h =
        let (r, w') =
          on_store p S
            (S.record_seen (map (λ c. (c.component_id, label c)) (keep is_trackable components))
              (w.clock w.ticks))
            (record w { ticks = suc w.ticks }) in
        let (u, a, done) = resume-return (λ _. pure (components ++ missing)) r w' h in
        return-injective done

    -- Looking for missing components takes none away.
    add_missing-appends :
        (components : List Component) (w : World S.State) {out : List Component}
        → (add_missing p S components w).0 ≡ return out
        → (missing : List Component) × (components ++ missing ≡ out)
    unfolding add_missing
    add_missing-appends components w h =
        let trackable = keep is_trackable components in
        let (r, w') = on_store p S S.list_known w in
        let (known, a, more) =
          resume-return
            (λ known. find_missing p S (present trackable) known >>= remembered p S components) r w'
            h in
        let (missing, b, done) =
          resume-return (remembered p S components)
            (find_missing p S (present trackable) known w').0
            (find_missing p S (present trackable) known w').1 more in
        (
          missing,
          remembered-appends components missing (find_missing p S (present trackable) known w').1
              done,
        )

    led :
        (detect : Bool) (c : Component) (w : World S.State) {out : List Component}
        → ((if detect then add_missing p S (c ∷ []) else pure (c ∷ [])) w).0 ≡ return out
        → (missing : List Component) × (c ∷ missing ≡ out)
    led true c w h = add_missing-appends (c ∷ []) w h
    led false c w h = ([], return-injective h)

    module _ (settings : Settings) (notifiers : String → Option Notifier)
        (render : NotificationEvent → Result String) (environ : String → Option String) where
      -- The listing was empty or could not be read.
      abbrev pub IsEmptyHanded : Scraped → Type 0
      IsEmptyHanded (listed []) = Unit
      IsEmptyHanded (listed (c ∷ cs)) = ⊥
      IsEmptyHanded unreachable = ⊥
      IsEmptyHanded (unparsed m) = Unit

      -- A placeholder leads the components that are gone on with.
      listed_components-led :
          (scraped : Scraped) (w : World S.State) {out : List Component}
          → IsEmptyHanded scraped
          → (listed_components p S settings scraped w).0 ≡ return out
          → (m : String) × (missing : List Component) × (empty_result_component m ∷ missing ≡ out)
      unfolding listed_components scraped_components scrape_failed
      listed_components-led (listed []) w hand h =
          let m : String = "portal returned zero components; cannot confirm anything" in
          let (missing, e) =
            led settings.detect_missing_components (empty_result_component m) w h in
          (m, missing, e)
      listed_components-led (unparsed text) w hand h =
          let m : String = concat "parser failed: " text in
          let (missing, e) =
            led settings.detect_missing_components (empty_result_component m) w h in
          (m, missing, e)
      listed_components-led (listed (c ∷ cs)) w hand h = absurd hand
      listed_components-led unreachable w hand h = absurd hand

      evaluated-unknown :
          (m : String) (missing : List Component) (account : Option (List Component))
          (now : DateTime) {es : List Evaluation}
          → evaluated p S settings (empty_result_component m ∷ missing) account now ≡ return es
          → any (λ e. status_eq e.status unknown) es ≡ true
      unfolding evaluated empty_result_component
      evaluated-unknown m missing account now h =
          let components = empty_result_component m ∷ missing in
          let (es, a, more) =
            and_then-return
              (evaluate_all p components now settings.thresholds settings.suspended_tokens)
              (λ es.
                and_then (evaluate_credentials p S settings account now) (λ cs. return (es ++ cs)))
              h in
          let (cs, b, done) =
            and_then-return (evaluate_credentials p S settings account now)
              (λ cs. return (es ++ cs)) more in
          subst (λ l. any (λ e. status_eq e.status unknown) l ≡ true) (return-injective done)
            (any-append es cs (
              unknown_first empty_result_id "scrape returned no components" m missing now
                settings.thresholds settings.suspended_tokens a))

      reported-has_unknown :
          (run_id : String) (started now finished : DateTime) (failed : Bool) (es : List Evaluation)
          (w : World S.State) {r : RunReport}
          → any (λ e. status_eq e.status unknown) es ≡ true
          → (reported p S settings notifiers render environ run_id started now finished failed
              (return es)
              w).0
            ≡ return r
          → (r.scrape_failed ≡ failed) × (has_unknown r ≡ true)
      unfolding reported has_unknown
      reported-has_unknown run_id started now finished failed es w u h =
          let (results, a, done) =
            resume-return
              (λ results. pure (record {
                run_id = run_id;
                started_at = started;
                finished_at = finished;
                evaluations_made = es;
                results = results;
                scrape_failed = failed;
              }))
              (dispatch p S settings notifiers render environ es now w).0
              (dispatch p S settings notifiers render environ es now w).1 h in
          let same = return-injective done in
          (
            sym (ap (λ r. r.scrape_failed) same),
            subst (λ r. any (λ e. status_eq e.status unknown) r.evaluations_made ≡ true) same u,
          )

      reported-evaluated :
          (run_id : String) (started now finished : DateTime) (failed : Bool)
          (o : Result (List Evaluation)) (w : World S.State) {r : RunReport}
          → (reported p S settings notifiers render environ run_id started now finished failed o
              w).0
            ≡ return r
          → (es : List Evaluation) × (o ≡ return es)
      unfolding reported
      reported-evaluated run_id started now finished failed (raise e) w h = cc
      reported-evaluated run_id started now finished failed (return es) w h = (es, refl)

      exits_two : (r : RunReport) → r.scrape_failed ≡ false → has_unknown r ≡ true → exit_code r ≡ 2
      unfolding exit_code has_unknown
      exits_two r f u = rw (f, u) refl

      readable : (scraped : Scraped) → IsEmptyHanded scraped → scrape_failed scraped ≡ false
      unfolding scrape_failed
      readable (listed cs) hand = refl
      readable (unparsed m) hand = refl
      readable unreachable hand = absurd hand

      -- A cycle that reached the portal and found no components, or could not parse what it found,
      -- ends with exit code 2 if it makes a report at all, whatever was delivered.
      pub run_once-loud :
          (run_id : String) (started now finished : DateTime) (scraped : Scraped)
          (account : Option (List Component)) (w : World S.State) {r : RunReport}
          → IsEmptyHanded scraped
          → (run_once p S settings notifiers render environ run_id started now finished scraped
              account w).0
            ≡ return r
          → exit_code r ≡ 2
      unfolding run_once
      run_once-loud run_id started now finished scraped account w {r} hand h =
          let (components, a, more) =
            resume-return
              (λ components.
                reported p S settings notifiers render environ run_id started now finished
                  (scrape_failed scraped) (evaluated p S settings components account now))
              (listed_components p S settings scraped w).0
              (listed_components p S settings scraped w).1 h in
          let (m, missing, e) = listed_components-led scraped w hand a in
          let w' = (listed_components p S settings scraped w).1 in
          let (es, b) =
            reported-evaluated run_id started now finished (scrape_failed scraped)
              (evaluated p S settings components account now) w' more in
          let again =
            subst
              (λ o.
                (reported p S settings notifiers render environ run_id started now finished
                  (scrape_failed scraped) o w').0
                ≡ return r)
              b more in
          let u =
            evaluated-unknown m missing account now
              (ap (λ cs. evaluated p S settings cs account now) e ∙ b) in
          let (f, k) =
            reported-has_unknown run_id started now finished (scrape_failed scraped) es w' u
              again in
          exits_two r (f ∙ readable scraped hand) k
