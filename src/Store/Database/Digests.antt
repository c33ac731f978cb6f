-- ===== src/Store/Database/Digests.antt =====
-- Membership of digests: what is recorded can be read back, and a repeated key is an error.
use telecloud_subscription_r.Base.{
  ℕ, String, ◌≡◌, refl, Bool, true, false, not, ◌&&◌, ◌||◌, List, [], ◌∷◌, ◌++◌, map, any, keep,
  arith, str_eq, eq_refl, if◌then◌else◌, Bool-cases, inl, inr, return, raise, state_store_error,
}
use mathlib.Core.List.{Perm, append-nil, append_assoc}
use mathlib.Core.List.Perm
use telecloud_subscription_r.Models.{str_leb}
use telecloud_subscription_r.Store.Database.{
  Database, MemberRow, has_member, insert_members, put_members, insert_member, by_ack_key,
  members_in,
}

-- no situation stands twice among the members
abbrev pub distinct_keys : List (String × String) → Bool
distinct_keys [] = true
distinct_keys ((ack, fp) ∷ ms) = not (any (λ m. str_eq ack m.0) ms) && distinct_keys ms

insert_member-perm :
    (m : String × String) (ms : List (String × String)) → Perm (insert_member m ms) (m ∷ ms)
unfolding insert_member
insert_member-perm m [] = Perm.rfl
insert_member-perm m (m' ∷ ms) = elim (Bool-cases (str_leb m.0 m'.0)) [
  | inl first ↦ rw first Perm.rfl
  | inr after ↦ rw after (Perm.trans (Perm.cons m' (insert_member-perm m ms)) (Perm.swap m m' ms))
]

by_ack_key-perm : (ms : List (String × String)) → Perm (by_ack_key ms) ms
unfolding by_ack_key
by_ack_key-perm [] = Perm.rfl
by_ack_key-perm (m ∷ ms) =
    Perm.trans (insert_member-perm m (by_ack_key ms)) (Perm.cons m (by_ack_key-perm ms))

module _ (digest_key : String) (now : ℕ) where
  abbrev row : String × String → MemberRow
  row (ack, fp) = record {
    digest_key = digest_key;
    ack_key = ack;
    fingerprint = fp;
    recorded_at = now;
  }

  abbrev taken : List MemberRow → List (String × String) → Bool
  taken rows ms = any (λ m. has_member digest_key m.0 rows) ms

  has_member-append :
      (ack : String) (rows : List MemberRow) (r : MemberRow)
      → has_member digest_key ack (rows ++ r ∷ []) ≡ (
          has_member digest_key ack rows
          || (str_eq r.digest_key digest_key && str_eq r.ack_key ack))
  unfolding has_member
  has_member-append ack [] r = ground arith
  has_member-append ack (q ∷ rows) r = ground (arith, has_member-append ack rows r)

  -- the keys that are taken once `(ack, fp)` is inserted
  taken-append :
      (ack fp : String) (rows : List MemberRow) (ms : List (String × String))
      → taken (rows ++ row (ack, fp) ∷ []) ms ≡ (taken rows ms || any (λ m. str_eq ack m.0) ms)
  taken-append ack fp rows [] = refl
  taken-append ack fp rows ((a, f) ∷ ms) = ground (
    arith,
    has_member-append a rows (row (ack, fp)),
    eq_refl digest_key,
    taken-append ack fp rows ms,
  )

  insert_taken :
      (ms : List (String × String)) (rows : List MemberRow)
      → taken rows ms ≡ true
      → (insert_members digest_key now ms rows).0
        ≡ raise (state_store_error "digest membership write failed")
  unfolding insert_members
  insert_taken [] rows h = cc
  insert_taken ((ack, fp) ∷ ms) rows h = elim (Bool-cases (has_member digest_key ack rows)) [
    | inl clash ↦ rw clash refl
    | inr free ↦ rw free (
        insert_taken ms (rows ++ row (ack, fp) ∷ [])
          (rw (taken-append ack fp rows ms) (ground arith)))
  ]

  insert_free :
      (ms : List (String × String)) (rows : List MemberRow)
      → taken rows ms ≡ false
      → distinct_keys ms ≡ true
      → insert_members digest_key now ms rows ≡ (return tt, rows ++ map row ms)
  unfolding insert_members
  insert_free [] rows h d = rw append-nil refl
  insert_free ((ack, fp) ∷ ms) rows h d =
      let free : has_member digest_key ack rows ≡ false = ground arith in
      rw
        (
          free,
          insert_free ms (rows ++ row (ack, fp) ∷ [])
              (rw (taken-append ack fp rows ms) (ground arith)) (ground arith),
          append_assoc,
        )
        refl

  insert_repeated :
      (ms : List (String × String)) (rows : List MemberRow)
      → taken rows ms ≡ false
      → distinct_keys ms ≡ false
      → (insert_members digest_key now ms rows).0
        ≡ raise (state_store_error "digest membership write failed")
  unfolding insert_members
  insert_repeated [] rows h d = cc
  insert_repeated ((ack, fp) ∷ ms) rows h d =
      let free : has_member digest_key ack rows ≡ false = ground arith in
      rw free (elim (Bool-cases (any (λ m. str_eq ack m.0) ms)) [
        | inl again ↦
            insert_taken ms (rows ++ row (ack, fp) ∷ [])
              (rw (taken-append ack fp rows ms) (ground arith))
        | inr new ↦
            insert_repeated ms (rows ++ row (ack, fp) ∷ [])
              (rw (taken-append ack fp rows ms) (ground arith)) (ground arith)
      ])

  abbrev others : List MemberRow → List MemberRow
  others rows = keep (λ r. not (str_eq r.digest_key digest_key)) rows

  has_member-others :
      (ack : String) (rows : List MemberRow) → has_member digest_key ack (others rows) ≡ false
  unfolding has_member
  has_member-others ack [] = refl
  has_member-others ack (r ∷ rows) = ground (arith, has_member-others ack rows)

  taken-others :
      (ms : List (String × String)) (rows : List MemberRow) → taken (others rows) ms ≡ false
  taken-others [] rows = refl
  taken-others ((ack, fp) ∷ ms) rows = rw (has_member-others ack rows) (taken-others ms rows)

  -- The write succeeds exactly when no situation stands twice among the members.
  pub put_members_outcome :
      (ms : List (String × String)) (db : Database)
      → (put_members digest_key ms now db).0 ≡ (
          if distinct_keys ms
          then return tt
          else raise (state_store_error "digest membership write failed"))
  unfolding put_members
  put_members_outcome ms db = elim (Bool-cases (distinct_keys ms)) [
    | inl distinct ↦
        rw
          (
            distinct,
            insert_free ms (others db.digest_members) (taken-others ms db.digest_members) distinct,
          )
          refl
    | inr repeated ↦
        rw
          (
            repeated,
            insert_repeated ms (others db.digest_members) (taken-others ms db.digest_members)
                repeated,
          )
          refl
  ]

  abbrev pair : MemberRow → String × String
  pair r = (r.ack_key, r.fingerprint)

  read_back :
      (rows : List MemberRow) (ms : List (String × String))
      → map pair (keep (λ r. str_eq r.digest_key digest_key) (others rows ++ map row ms)) ≡ ms
  read_back [] [] = refl
  read_back [] ((ack, fp) ∷ ms) = rw (eq_refl digest_key, read_back [] ms) refl
  read_back (r ∷ rows) ms = elim (Bool-cases (str_eq r.digest_key digest_key)) [
    | inl same ↦ rw same (read_back rows ms)
    | inr other ↦ rw other (rw other (read_back rows ms))
  ]

  -- What was recorded for a digest is what is found for it, in some order.
  pub members_in-put_members :
      (ms : List (String × String)) (db : Database)
      → distinct_keys ms ≡ true
      → Perm (members_in digest_key (put_members digest_key ms now db).1) ms
  unfolding put_members members_in
  members_in-put_members ms db distinct =
      rw (insert_free ms (others db.digest_members) (taken-others ms db.digest_members) distinct)
        (rw (read_back db.digest_members ms) (by_ack_key-perm ms))
