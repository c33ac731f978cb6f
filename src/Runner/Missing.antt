-- ===== src/Runner/Missing.antt =====
-- A component that the portal stops listing is reported until its absence is acknowledged.
use telecloud_subscription_r.Base.{
  ℕ, suc, String, ◌≡◌, refl, Bool, false, List, [], ◌∷◌, ◌++◌, map, keep, In, here, there,
  not-In-nil, return, pure, ◌>>◌, Bool-cases, inl, inr,
}
use telecloud_subscription_r.Models.{Component, NotificationEvent, fingerprint, label}
use telecloud_subscription_r.Notify.Router.{World, on_store, time}
use telecloud_subscription_r.Platform.{Platform}
use telecloud_subscription_r.Runner.{
  absent, find_missing, remembered, add_missing, missing_component, missing_key, present,
  is_trackable,
}
use telecloud_subscription_r.Store.Database.{Database, acked_in, known_key}
use telecloud_subscription_r.Store.Protocol.{Known}
use telecloud_subscription_r.Store.Sqlite.{
  sqlite, SqliteStateStore, is_acknowledged, forget, list_known, record_seen,
}
use telecloud_subscription_r.Store.Sqlite.Laws.{opened}
use telecloud_subscription_r.Store.Table.{delete}

module _ (p : Platform) (db : Database) (clock : ℕ → ℕ) (outbox : List NotificationEvent) where
  -- a store whose listing is `known`
  abbrev pub knowing : ℕ → List Known → World SqliteStateStore
  knowing n known = record {
    store = opened (record db { known_components = known });
    clock = clock;
    ticks = n;
    outbox = outbox;
  }

  abbrev pub absence_acked : Known → ℕ → Bool
  absence_acked row t =
      acked_in (missing_key row.component_id)
        (fingerprint p (missing_component row.component_id row.name)) t db

  -- What a pass over `rows` gives: it returns, and lists the rows of which nobody acknowledged the
  -- absence.
  record IsReporting (is_present : String → Bool) (rows : List Known) (n : ℕ) (known : List Known)
      : Type 0 where
    missing : List Component
    ticks : ℕ
    left : List Known
    ran :
        find_missing p sqlite is_present rows (knowing n known)
        ≡ (return missing, knowing ticks left)
    lists :
        (row : Known)
        → In row rows
        → is_present row.component_id ≡ false
        → ((t : ℕ) → absence_acked row t ≡ false)
        → In (missing_component row.component_id row.name) missing

  -- the row at hand is not to be listed, and the others are
  skipped :
      (is_present : String → Bool) (row : Known) (rows : List Known) (missing : List Component)
      → (is_present row.component_id ≡ false → ((t : ℕ) → absence_acked row t ≡ false) → ⊥)
      → ((q : Known)
          → In q rows
          → is_present q.component_id ≡ false
          → ((t : ℕ) → absence_acked q t ≡ false)
          → In (missing_component q.component_id q.name) missing)
      → (q : Known) → In q (row ∷ rows)
      → is_present q.component_id ≡ false
      → ((t : ℕ) → absence_acked q t ≡ false)
      → In (missing_component q.component_id q.name) missing
  skipped is_present row rows missing settled rest q here gone open_ = absurd (settled gone open_)
  skipped is_present row rows missing settled rest q (there i) gone open_ = rest q i gone open_

  -- the row at hand is listed before the others
  listed_first :
      (is_present : String → Bool) (row : Known) (rows : List Known) (missing : List Component)
      → ((q : Known)
          → In q rows
          → is_present q.component_id ≡ false
          → ((t : ℕ) → absence_acked q t ≡ false)
          → In (missing_component q.component_id q.name) missing)
      → (q : Known) → In q (row ∷ rows)
      → is_present q.component_id ≡ false
      → ((t : ℕ) → absence_acked q t ≡ false)
      → In
          (missing_component q.component_id q.name)
          (missing_component row.component_id row.name ∷ missing)
  listed_first is_present row rows missing rest q here gone open_ = here
  listed_first is_present row rows missing rest q (there i) gone open_ = there (rest q i gone open_)

  find_missing-IsReporting :
      (is_present : String → Bool) (rows : List Known) (n : ℕ) (known : List Known)
      → IsReporting is_present rows n known
  unfolding find_missing absent on_store time is_acknowledged forget acked_in
  find_missing-IsReporting is_present [] n known = record {
    missing = [];
    ticks = n;
    left = known;
    ran = refl;
    lists = λ row i gone open_. absurd (not-In-nil i);
  }
  find_missing-IsReporting is_present (row ∷ rows) n known =
      elim (Bool-cases (is_present row.component_id)) [
        | inl there_ ↦
            let later = find_missing-IsReporting is_present rows n known in
            record {
              missing = later.missing;
              ticks = later.ticks;
              left = later.left;
              ran = rw there_ later.ran;
              lists = skipped is_present row rows later.missing (λ gone open_. cc) later.lists;
            }
        | inr gone_ ↦ elim (Bool-cases (absence_acked row (clock n))) [
          | inl acked ↦
              let later =
                find_missing-IsReporting is_present rows (suc n)
                  (delete known_key row.component_id known) in
              record {
                missing = later.missing;
                ticks = later.ticks;
                left = later.left;
                ran = rw gone_ (rw acked later.ran);
                lists =
                    skipped is_present row rows later.missing
                      (λ gone open_. let no = open_ (clock n) in cc) later.lists;
              }
          | inr open_ ↦
              let later = find_missing-IsReporting is_present rows (suc n) known in
              record {
                missing = missing_component row.component_id row.name ∷ later.missing;
                ticks = later.ticks;
                left = later.left;
                ran = rw gone_ (rw open_ (rw later.ran refl));
                lists = listed_first is_present row rows later.missing later.lists;
              }
        ]
      ]

  -- Remembering a listing returns.
  record_seen-returns :
      (seen : List (String × String)) (now n : ℕ) (known : List Known) (out : List Component)
      → ((on_store p sqlite (record_seen seen now) >> pure out) (knowing n known)).0 ≡ return out
  unfolding on_store record_seen
  record_seen-returns [] now n known out = refl
  record_seen-returns (c ∷ cs) now n known out = refl

  -- Over a working store, a component that was known, that can be tracked and is not listed any
  -- more, and whose absence nobody has acknowledged, is among the components that the cycle goes on
  -- with, as one whose status cannot be established; the components that are listed lead them.
  pub add_missing-reports :
      (components : List Component) (n : ℕ) (row : Known)
      → In row db.known_components
      → present (keep is_trackable components) row.component_id ≡ false
      → ((t : ℕ) → absence_acked row t ≡ false)
      → (missing : List Component) × ((add_missing p sqlite components
            (knowing n db.known_components)).0
          ≡ return (components ++ missing))
        × In (missing_component row.component_id row.name) missing
  unfolding add_missing remembered on_store time list_known
  add_missing-reports components n row i gone open_ =
      let done =
        find_missing-IsReporting (present (keep is_trackable components)) db.known_components n
          db.known_components in
      (
        done.missing,
        rw done.ran (
            record_seen-returns
              (map (λ c. (c.component_id, label c)) (keep is_trackable components))
              (clock done.ticks) (suc done.ticks) done.left (components ++ done.missing)),
        done.lists row i gone open_,
      )
