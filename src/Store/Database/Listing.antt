-- ===== src/Store/Database/Listing.antt =====
-- The components that are known: what a listing adds, and what `forget` takes away.
use telecloud_subscription_r.Base.{
  ℕ, String, ◌≡◌, refl, ap, Bool, true, false, Option, none, some, List, [], ◌∷◌, str_eq, eq_iff,
  Option-cases, ◌∙◌, if◌then◌else◌, inl, inr,
}
use telecloud_subscription_r.Store.Database.{known_key, put_seen}
use telecloud_subscription_r.Store.Protocol.{Known}
use telecloud_subscription_r.Store.Table.{select, upsert, select-upsert, upserted, key-select}

-- the row of a listed component
abbrev known_row : String → String → ℕ → Known
known_row cid name now = record { component_id = cid; name = name; last_seen = now }

-- The name under which a component was listed last, if it was.
abbrev pub last_listed : String → List (String × String) → Option String
last_listed cid [] = none
last_listed cid ((c, name) ∷ cs) = elim (last_listed cid cs) as (λ _. Option String) [
  | some later ↦ some later
  | none ↦ if str_eq c cid then some name else none
]

abbrev pub seen_row : String → ℕ → Option String → Option Known → Option Known
seen_row cid now none before = before
seen_row cid now (some name) before = some (known_row cid name now)

renamed : String → ℕ → Known → Known
renamed name now r = record r { name = name; last_seen = now }

upserted-known :
    (c name : String) (now : ℕ) (o : Option Known)
    → ((r : Known) → o ≡ some r → r.component_id ≡ c)
    → upserted known_key (known_row c name now) (renamed name now) o ≡ known_row c name now
unfolding renamed
upserted-known c name now none h = refl
upserted-known c name now (some r) h =
    ap (λ cid. record { component_id = cid; name = name; last_seen = now }) (h r refl)

-- After a listing is recorded each component that it names has its last name there and the time
-- of the listing; every other component is as it was.
pub select-put_seen :
    (cid : String) (now : ℕ) (cs : List (String × String)) (rows : List Known)
    → select known_key cid (put_seen cs now rows)
      ≡ seen_row cid now (last_listed cid cs) (select known_key cid rows)
unfolding put_seen renamed
select-put_seen cid now [] rows = refl
select-put_seen cid now ((c, name) ∷ cs) rows =
    select-put_seen cid now cs (upsert known_key c (known_row c name now) (renamed name now) rows)
    ∙ elim (Option-cases (last_listed cid cs)) [
      | inr (later, e) ↦ rw e refl
      | inl e ↦ rw e (once (str_eq c cid) refl)
    ]
  where
    once :
        (b : Bool)
        → str_eq c cid ≡ b
        → select known_key cid (upsert known_key c (known_row c name now) (renamed name now) rows)
          ≡ seen_row cid now (if b then some name else none) (select known_key cid rows)
    once true e =
        select-upsert known_key c cid (known_row c name now) (renamed name now) rows refl
          (λ r. refl)
        ∙ rw
            (
              e,
              upserted-known c name now (select known_key c rows)
                  (λ r found. key-select known_key c rows found),
              (eq_iff c cid).0 e,
            )
            refl
    once false e =
        select-upsert known_key c cid (known_row c name now) (renamed name now) rows refl
          (λ r. refl)
        ∙ rw e refl
