-- ===== src/Store/Table.antt =====
-- Tables of the state store: rows in order of insertion, with a text as primary key, and the
-- statements that the store runs on them.
use telecloud_subscription_r.Base.{
  String, ◌≡◌, refl, Bool, Option, none, some, List, [], ◌∷◌, arith, str_eq, eq_iff, if◌then◌else◌,
  Bool-cases, inl, inr, keep,
}

module _ {R : Type 0} (key : R → String) where
  -- `SELECT … WHERE key = ?`, `fetchone`
  unfoldable pub select : String → List R → Option R
  select k [] = none
  select k (r ∷ rs) = let rest = select k rs in if str_eq (key r) k then some r else rest

  -- `INSERT … ON CONFLICT(key) DO UPDATE SET …`: `update` makes the new row from the old one
  unfoldable pub upsert : String → R → (R → R) → List R → List R
  upsert k fresh update [] = fresh ∷ []
  upsert k fresh update (r ∷ rs) =
      let rest = upsert k fresh update rs in if str_eq (key r) k then update r ∷ rs else r ∷ rest

  -- `DELETE … WHERE key = ?`
  unfoldable pub delete : String → List R → List R
  delete k [] = []
  delete k (r ∷ rs) = let rest = delete k rs in if str_eq (key r) k then rest else r ∷ rest

  pub key-select : (k : String) (rs : List R) {r : R} → select k rs ≡ some r → key r ≡ k
  unfolding select
  key-select k [] h = cc
  key-select k (q ∷ rs) h = elim (Bool-cases (str_eq (key q) k)) [
    | inl same ↦ let found = rw same at h in cc (found, (eq_iff (key q) k).0 same)
    | inr other ↦ key-select k rs (rw other at h)
  ]

  -- The row that an upsert leaves under its key.
  abbrev pub upserted : R → (R → R) → Option R → R
  upserted fresh update none = fresh
  upserted fresh update (some r) = update r

  pub select-upsert :
      (k j : String) (fresh : R) (update : R → R) (rs : List R)
      → key fresh ≡ k
      → ((r : R) → key (update r) ≡ key r)
      → select j (upsert k fresh update rs)
        ≡ (if str_eq k j then some (upserted fresh update (select k rs)) else select j rs)
  unfolding select upsert
  select-upsert k j fresh update [] hk hu = rw hk refl
  select-upsert k j fresh update (r ∷ rs) hk hu = ground (
    arith,
    eq_iff k j,
    eq_iff (key r) k,
    eq_iff (key r) j,
    hu r,
    select-upsert k j fresh update rs,
  )

  pub select-delete :
      (k j : String) (rs : List R)
      → select j (delete k rs) ≡ (if str_eq k j then none else select j rs)
  unfolding select delete
  select-delete k j [] = ground arith
  select-delete k j (r ∷ rs) =
      ground (arith, eq_iff k j, eq_iff (key r) k, eq_iff (key r) j, select-delete k j rs)

  -- No two rows share their key.
  abbrev pub HasUniqueKeys : List R → Type 0
  HasUniqueKeys [] = Unit
  HasUniqueKeys (r ∷ rs) = (select (key r) rs ≡ none) × HasUniqueKeys rs

  pub upsert-HasUniqueKeys :
      (k : String) (fresh : R) (update : R → R) (rs : List R)
      → key fresh ≡ k
      → ((r : R) → key (update r) ≡ key r)
      → HasUniqueKeys rs
      → HasUniqueKeys (upsert k fresh update rs)
  unfolding upsert
  upsert-HasUniqueKeys k fresh update [] hk hu u = (unfold select in refl, tt)
  upsert-HasUniqueKeys k fresh update (r ∷ rs) hk hu u = elim (Bool-cases (str_eq (key r) k)) [
    | inl same ↦ rw same (rw (hu r) u.0, u.1)
    | inr other ↦ rw other (
      rw (select-upsert k (key r) fresh update rs hk hu)
          (ground (arith, eq_iff (key r) k, eq_iff k (key r))),
      upsert-HasUniqueKeys k fresh update rs hk hu u.1,
    )
  ]

  pub delete-HasUniqueKeys :
      (k : String) (rs : List R) → HasUniqueKeys rs → HasUniqueKeys (delete k rs)
  unfolding delete
  delete-HasUniqueKeys k [] u = tt
  delete-HasUniqueKeys k (r ∷ rs) u = elim (Bool-cases (str_eq (key r) k)) [
    | inl same ↦ rw same (delete-HasUniqueKeys k rs u.1)
    | inr other ↦
        rw other (rw (select-delete k (key r) rs) (ground arith), delete-HasUniqueKeys k rs u.1)
  ]

  abbrev pub row_if : (R → Bool) → Option R → Option R
  row_if test none = none
  row_if test (some r) = if test r then some r else none

  -- `DELETE … WHERE not test`: the row of a key stays if it passes the test.
  pub select-keep :
      (test : R → Bool) (k : String) (rs : List R)
      → HasUniqueKeys rs
      → select k (keep test rs) ≡ row_if test (select k rs)
  unfolding select
  select-keep test k [] u = refl
  select-keep test k (r ∷ rs) u = elim (Bool-cases (str_eq (key r) k)) [
    | inr other ↦ rw other (elim (Bool-cases (test r)) [
      | inl stays ↦ rw (stays, other) (select-keep test k rs u.1)
      | inr goes ↦ rw goes (select-keep test k rs u.1)
    ])
    | inl same ↦ rw same (elim (Bool-cases (test r)) [
      | inl stays ↦ rw (stays, same) refl
      | inr goes ↦ rw (goes, select-keep test k rs u.1, ← (eq_iff (key r) k).0 same, u.0) refl
    ])
  ]

  pub keep-HasUniqueKeys :
      (test : R → Bool) (rs : List R) → HasUniqueKeys rs → HasUniqueKeys (keep test rs)
  keep-HasUniqueKeys test [] u = tt
  keep-HasUniqueKeys test (r ∷ rs) u = elim (Bool-cases (test r)) [
    | inl stays ↦
        rw stays (rw (select-keep test (key r) rs u.1, u.0) refl, keep-HasUniqueKeys test rs u.1)
    | inr goes ↦ rw goes (keep-HasUniqueKeys test rs u.1)
  ]
