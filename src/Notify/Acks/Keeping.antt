-- ===== src/Notify/Acks/Keeping.antt =====
-- The offset of the listener through a batch of updates: which updates Telegram will not send again.
use telecloud_subscription_r.Base.{
  ℕ, ◌≤◌, ◌<◌, ◌≡◌, refl, ap, ◌∙◌, String, true, Bool-cases, inl, inr, Option, none, some, List, [],
  ◌∷◌, ◌++◌, All, Exec, Result, return, raise, arith, pure, ◌>>=◌, ◌>>◌, resume,
}
use telecloud_subscription_r.Base.Text.{split, starts_with}
use telecloud_subscription_r.Config.{Settings}
use telecloud_subscription_r.Notify.Acks.{
  Update, Query, Listener, clock_reading, answer, next_offset, in_store, confirm, confirm_member,
  confirm_all, confirm_digest, record_digest, record_single, record_found, record_press,
  handle_press, handle_query, handle, handle_all, parse_ack_key, acked_by, reply, unpack,
  digest_prefix, last_part,
}
use telecloud_subscription_r.Store.Protocol.{StateStore}

-- an update that the offset `n` has passed
abbrev pub IsPassed : ℕ → Option Update → Type 0
IsPassed n none = Unit
IsPassed n (some u) = (k : ℕ) → u.update_id ≡ some k → k < n

module _ {St : Type 0} where
  -- what an action does whose end leaves the offset as it was
  Keeps : {A : Type 0} → Exec (Listener St) A → Type 0
  Keeps m = (l : Listener St) → (m l).1.offset ≡ l.offset

  resume-Keeps :
      {A B : Type 0} (f : A → Exec (Listener St) B) (r : Result A) (l : Listener St)
      → ((a : A) → Keeps (f a))
      → (resume f r l).1.offset ≡ l.offset
  unfolding Keeps
  resume-Keeps f (return a) l k = k a l
  resume-Keeps f (raise e) l k = refl

  bind-Keeps :
      {A B : Type 0} (m : Exec (Listener St) A) (f : A → Exec (Listener St) B)
      → Keeps m
      → ((a : A) → Keeps (f a))
      → Keeps (m >>= f)
  unfolding Keeps
  bind-Keeps m f h k = λ l. resume-Keeps f (m l).0 (m l).1 k ∙ h l

module _ (S : StateStore) (settings : Settings) where
  open S use {State, find_digest_members, find_fingerprint}

  pure-Keeps : {A : Type 0} (a : A) → Keeps {St = State} (pure a)
  unfolding Keeps
  pure-Keeps a = λ l. refl

  in_store-Keeps : {A : Type 0} (m : Exec State A) → Keeps (in_store S settings m)
  unfolding Keeps in_store
  in_store-Keeps m = λ l. refl

  clock_reading-Keeps : Keeps {St = State} clock_reading
  unfolding Keeps clock_reading
  clock_reading-Keeps = λ l. refl

  answer-Keeps : (i t : String) → Keeps {St = State} (answer i t)
  unfolding Keeps answer
  answer-Keeps i t = λ l. refl

  confirm-Keeps :
      (key : String) (parts : String × String × String) (fp by : String) (now : ℕ)
      → Keeps (confirm S settings key parts fp by now)
  unfolding confirm
  confirm-Keeps key (a, b, c) fp by now = in_store-Keeps _

  confirm_member-Keeps :
      (key : String) (parts : Option (String × String × String)) (fp by : String) (now : ℕ)
      → Keeps (confirm_member S settings key parts fp by now)
  unfolding confirm_member Keeps
  confirm_member-Keeps key none fp by now = λ l. refl
  confirm_member-Keeps key (some parts) fp by now = confirm-Keeps key parts fp by now

  confirm_all-Keeps :
      (ms : List (String × String)) (by : String) (now : ℕ)
      → Keeps (confirm_all S settings ms by now)
  unfolding confirm_all Keeps
  confirm_all-Keeps [] by now = λ l. refl
  confirm_all-Keeps ((k, fp) ∷ ms) by now =
      bind-Keeps (confirm_member S settings k (unpack (split b'|' k)) fp by now)
        (λ _. confirm_all S settings ms by now)
        (confirm_member-Keeps k (unpack (split b'|' k)) fp by now)
        (λ _. confirm_all-Keeps ms by now)

  confirm_digest-Keeps :
      (key by fp : String) (ms : List (String × String)) (now : ℕ)
      → Keeps (confirm_digest S settings key by fp ms now)
  unfolding confirm_digest
  confirm_digest-Keeps key by fp [] now =
      bind-Keeps (confirm S settings key (key, last_part "" (split b'|' key), "-") fp by now)
        (λ _. pure true) (confirm-Keeps key (key, last_part "" (split b'|' key), "-") fp by now)
        (λ _. pure-Keeps true)
  confirm_digest-Keeps key by fp (m ∷ ms) now =
      bind-Keeps (confirm_all S settings (m ∷ ms) by now) (λ _. pure true)
        (confirm_all-Keeps (m ∷ ms) by now) (λ _. pure-Keeps true)

  record_digest-Keeps : (key by fp : String) → Keeps (record_digest S settings key by fp)
  unfolding record_digest
  record_digest-Keeps key by fp =
      bind-Keeps (in_store S settings (find_digest_members key))
        (λ ms. clock_reading >>= λ now. confirm_digest S settings key by fp ms now)
        (in_store-Keeps (find_digest_members key))
        (λ ms.
          bind-Keeps clock_reading (confirm_digest S settings key by fp ms) clock_reading-Keeps
            (confirm_digest-Keeps key by fp ms))

  record_single-Keeps :
      (key : String) (parts : Option (String × String × String)) (by fp : String)
      → Keeps (record_single S settings key parts by fp)
  unfolding record_single Keeps
  record_single-Keeps key none by fp = λ l. refl
  record_single-Keeps key (some parts) by fp =
      bind-Keeps clock_reading (λ now. confirm S settings key parts fp by now >> pure true)
        clock_reading-Keeps
        (λ now.
          bind-Keeps (confirm S settings key parts fp by now) (λ _. pure true)
            (confirm-Keeps key parts fp by now) (λ _. pure-Keeps true))

  record_found-Keeps :
      (key by : String) (fp : Option String) → Keeps (record_found S settings key by fp)
  unfolding record_found Keeps
  record_found-Keeps key by none = λ l. refl
  record_found-Keeps key by (some fp) = elim (Bool-cases (starts_with key digest_prefix)) [
    | inl ours ↦ rw ours (record_digest-Keeps key by fp)
    | inr other ↦ rw other (record_single-Keeps key (unpack (split b'|' key)) by fp)
  ]

  record_press-Keeps : (key by : String) → Keeps (record_press S settings key by)
  unfolding record_press
  record_press-Keeps key by =
      bind-Keeps (in_store S settings (find_fingerprint key)) (record_found S settings key by)
        (in_store-Keeps (find_fingerprint key)) (record_found-Keeps key by)

  handle_press-Keeps :
      (key : Option String) (i : String) (sender : Option (String × String))
      → Keeps (handle_press S settings key i sender)
  unfolding handle_press
  handle_press-Keeps none i sender = answer-Keeps i _
  handle_press-Keeps (some key) i sender =
      bind-Keeps (record_press S settings key (acked_by sender))
        (λ done. answer i (reply S settings done)) (record_press-Keeps key (acked_by sender))
        (λ done. answer-Keeps i (reply S settings done))

  handle_query-Keeps :
      (d i : Option String) (sender : Option (String × String))
      → Keeps (handle_query S settings d i sender)
  unfolding handle_query Keeps
  handle_query-Keeps (some d) (some i) sender = handle_press-Keeps (parse_ack_key d) i sender
  handle_query-Keeps (some d) none sender = λ l. refl
  handle_query-Keeps none (some i) sender = λ l. refl
  handle_query-Keeps none none sender = λ l. refl

  handle_found-Keeps : (u : Update) (q : Option Query) → u.query ≡ q → Keeps (handle S settings u)
  unfolding handle Keeps
  handle_found-Keeps u none h = rw h (λ l. refl)
  handle_found-Keeps u (some q) h = rw h (handle_query-Keeps q.data_ q.callback_id q.sender)

  handle-Keeps : (u : Update) → Keeps (handle S settings u)
  handle-Keeps u = handle_found-Keeps u u.query refl

  next_offset-grows : (n : ℕ) (id : Option ℕ) → n ≤ next_offset n id
  unfolding next_offset
  next_offset-grows n none = omega arith
  next_offset-grows n (some k) = ground arith

  next_offset-passes : (n : ℕ) (u : Update) → IsPassed (next_offset n u.update_id) (some u)
  unfolding next_offset
  next_offset-passes n u = λ k named. rw named (ground arith)

  IsPassed-later : {m n : ℕ} (u : Option Update) → m ≤ n → IsPassed m u → IsPassed n u
  IsPassed-later none h p = tt
  IsPassed-later (some u) h p = λ k named. let q = p k named in omega arith

  -- how a batch ended: either nothing of it is left, or the last update that was begun is one whose
  -- handling raised
  unfoldable pub Ended :
      {A : Type 0} → Result A → List (Option Update) → List (Option Update) → Type 0
  Ended (return a) begun rest = rest ≡ []
  Ended (raise e) begun rest =
      (before : List (Option Update)) × (u : Update) × (begun ≡ before ++ some u ∷ [])
      × (l : Listener State) × ((handle S settings u l).0 ≡ raise e)

  Ended-later :
      (u : Option Update) {A : Type 0} (r : Result A) (begun rest : List (Option Update))
      → Ended r begun rest
      → Ended r (u ∷ begun) rest
  unfolding Ended
  Ended-later u (return a) begun rest h = h
  Ended-later u (raise e) begun rest (before, last, split, l, raised) =
      (u ∷ before, last, ap (λ us. u ∷ us) split, l, raised)

  -- a batch splits into the updates that were begun, all of them passed, and those that were not
  abbrev Progress : List (Option Update) → ℕ → Result (Unit {0}) × Listener State → Type 0
  Progress us offset (r, l) =
      (begun rest : List (Option Update)) × (us ≡ begun ++ rest)
      × All (IsPassed l.offset) begun
      × (offset ≤ l.offset)
      × Ended r begun rest

  begin_one :
      (u : Update) (us : List (Option Update)) (n : ℕ) (r : Result (Unit {0})) (l : Listener State)
      → l.offset ≡ next_offset n u.update_id
      → (start : Listener State) → (handle S settings u start).0 ≡ r
      → ((l' : Listener State) → Progress us l'.offset (handle_all S settings us l'))
      → Progress (some u ∷ us) n (resume (λ _. handle_all S settings us) r l)
  unfolding Ended
  begin_one u us n (raise e) l moved start came later = (
    some u ∷ [],
    us,
    refl,
    (rw moved (next_offset-passes n u), tt),
    rw moved (next_offset-grows n u.update_id),
    ([], u, refl, start, came),
  )
  begin_one u us n (return a) l moved start came later =
      let (begun, rest, split, passed, grown, all) = later l in
      let grows = next_offset-grows n u.update_id in
      (
        some u ∷ begun,
        rest,
        ap (λ xs. some u ∷ xs) split,
        (IsPassed-later (some u) grown (rw moved (next_offset-passes n u)), passed),
        omega arith,
        Ended-later (some u) _ begun rest all,
      )

  -- A batch splits into the updates that were begun and those that were not; the offset has not gone back
  -- and has passed every one that was begun. Where it raises, the last one begun raised.
  pub handle_all-Passed :
      (us : List (Option Update)) (l : Listener State)
      → (begun rest : List (Option Update)) × (us ≡ begun ++ rest)
        × All (IsPassed (handle_all S settings us l).1.offset) begun
        × (l.offset ≤ (handle_all S settings us l).1.offset)
        × Ended (handle_all S settings us l).0 begun rest
  unfolding handle_all Keeps Ended
  handle_all-Passed [] l = ([], [], refl, tt, omega arith, refl)
  handle_all-Passed (none ∷ us) l =
      let (begun, rest, split, passed, grown, all) = handle_all-Passed us l in
      (
        none ∷ begun,
        rest,
        ap (λ xs. none ∷ xs) split,
        (tt, passed),
        grown,
        Ended-later none _ begun rest all,
      )
  handle_all-Passed (some u ∷ us) l =
      let l' = record l { offset = next_offset l.offset u.update_id } in
      begin_one u us l.offset (handle S settings u l').0 (handle S settings u l').1
        (handle-Keeps u l') l' refl (handle_all-Passed us)
