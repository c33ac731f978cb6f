-- ===== src/Scraper/Client/Attempts.antt =====
-- How many requests a run sends to the portal, and that it sends none after a refusal.
use telecloud_subscription_r.Base.{
  ℕ, zero, suc, ◌+◌, ◌*◌, ◌≤◌, ◌<◌, ◌≡◌, ◌≢◌, refl, subst, String, Bool, true, false, List, [], ◌∷◌,
  ◌++◌, leb, arith, Bool-cases, inl, inr, Error, Exec, Result, return, raise, value_error,
  parse_error, resume,
}
use native.Mathlib.Nat.{suc-mul, add_comm}
use telecloud_subscription_r.Config.{Settings}
use telecloud_subscription_r.Platform.{Platform}
use telecloud_subscription_r.Scraper.Client.{
  Web, Request, login_request, page_request, Exchange, responded, transport_fault, request_fault,
  Session, Attempted, got, transient, failed, Attempt, is_refusal, Retried, stopped, again, send,
  password_digest, logged_in, login_body, login_response, login_with, has_borrowed_session, login,
  once_response, once, fetched, get, decoded, is_last, collect, pages, fetch_components,
}
use telecloud_subscription_r.Scraper.Envelope.{Page, parse_login_token}
use telecloud_subscription_r.Scraper.Json.{Json, Object}

-- a 401 or a 403
unfoldable pub is_refused : Exchange → Bool
is_refused (responded code text) = is_refusal code
is_refused (transport_fault m) = false
is_refused (request_fault m) = false

-- how many of some requests are logins, and how many ask for a page
abbrev pub logins : List Request → ℕ
logins [] = 0
logins (login_request user digest ∷ rs) = suc (logins rs)
logins (page_request page ∷ rs) = logins rs

abbrev pub fetches : List Request → ℕ
fetches [] = 0
fetches (login_request user digest ∷ rs) = fetches rs
fetches (page_request page ∷ rs) = suc (fetches rs)

module _ (answer : Request → List Request → Exchange) where
  -- no request of a list, the latest first, was refused
  abbrev pub IsAccepted : List Request → Type 0
  IsAccepted [] = Unit
  IsAccepted (r ∷ rs) = (is_refused (answer r rs) ≡ false) × IsAccepted rs

  -- none but the latest one was
  abbrev pub IsQuiet : List Request → Type 0
  IsQuiet [] = Unit
  IsQuiet (r ∷ rs) = IsAccepted rs

  accepted-IsQuiet : (rs : List Request) → IsAccepted rs → IsQuiet rs
  accepted-IsQuiet [] h = tt
  accepted-IsQuiet (r ∷ rs) h = h.1

  -- what an action that sends at most `k` logins and `n` requests for a page leaves
  pub record IsPatient {A : Type 0} (k n : ℕ) (s : Session) (o : Result A × Session) : Type 0 where
    pub quiet : IsQuiet o.1.sent
    pub going : (a : A) → o.0 ≡ return a → IsAccepted o.1.sent
    pub few_logins : logins o.1.sent ≤ logins s.sent + k
    pub few_fetches : fetches o.1.sent ≤ fetches s.sent + n

  -- the same of attempts
  record IsTried (n : ℕ) (s : Session) (o : Attempted × Session) : Type 0 where
    quiet : IsQuiet o.1.sent
    going : ((e : Error) → o.0 ≢ failed e) → IsAccepted o.1.sent
    few_logins : logins o.1.sent ≤ logins s.sent
    few_fetches : fetches o.1.sent ≤ fetches s.sent + n

  idle :
      {A : Type 0} (k n : ℕ) (r : Result A) (s s' : Session)
      → IsAccepted s.sent
      → s'.sent ≡ s.sent
      → IsPatient k n s (r, s')
  idle k n r s s' h same = record {
    quiet = rw same (accepted-IsQuiet s.sent h);
    going = λ a done. rw same h;
    few_logins = rw same (omega arith);
    few_fetches = rw same (omega arith);
  }

  module _ {A B : Type 0} (i k n m : ℕ) (f : A → Exec Session B) where
    resume-IsPatient :
        (s : Session) (r : Result A) (s' : Session)
        → IsPatient i n s (r, s')
        → ((a : A) (s' : Session) → IsAccepted s'.sent → IsPatient k m s' (f a s'))
        → IsPatient (i + k) (n + m) s (resume f r s')
    resume-IsPatient s (return a) s' h next =
        let after = next a s' (h.going a refl) in
        record {
          quiet = after.quiet;
          going = after.going;
          few_logins = omega (arith, h.few_logins, after.few_logins);
          few_fetches = omega (arith, h.few_fetches, after.few_fetches);
        }
    resume-IsPatient s (raise e) s' h next = record {
      quiet = h.quiet;
      going = λ b same. cc;
      few_logins = omega (arith, h.few_logins);
      few_fetches = omega (arith, h.few_fetches);
    }

  module _ (act : Attempt) (tried : (s : Session) → IsAccepted s.sent → IsTried 1 s (act s)) where
    Retried-IsTried :
        {left : ℕ} {s : Session} {o : Attempted × Session}
        → 0 < left
        → IsAccepted s.sent
        → Retried act left s o
        → IsTried left s o
    Retried-IsTried {left = left} {s = s} some_left h (stopped same last) =
        let one = rw same at (tried s h) in
        record {
          quiet = one.quiet;
          going = one.going;
          few_logins = one.few_logins;
          few_fetches = omega (arith, one.few_fetches);
        }
    Retried-IsTried {s = s} some_left h (again {left = left} {m = m} {s' = s'} same more) =
        let one = rw same at (tried s h) in
        let rest = Retried-IsTried (omega arith) (one.going (λ e k. cc)) more in
        record {
          quiet = rest.quiet;
          going = rest.going;
          few_logins = omega (arith, one.few_logins, rest.few_logins);
          few_fetches = omega (arith, one.few_fetches, rest.few_fetches);
        }

module _ (p : Platform) (settings : Settings) (web : Web) where
  open web use {loads, repr_of, retrying, answer}

  once_response-refused :
      (x : Exchange)
      → is_refused x ≡ true
      → (e : Error) × (once_response p settings web x ≡ failed e)
  unfolding once_response is_refused
  once_response-refused (responded code text) h = rw h (_, refl)
  once_response-refused (transport_fault m) h = cc
  once_response-refused (request_fault m) h = cc

  once-IsTried :
      (page : ℕ) (s : Session)
      → IsAccepted answer s.sent
      → IsTried answer 1 s (once p settings web page s)
  unfolding once send
  once-IsTried page s h = record {
    quiet = h;
    going = λ unfailed. elim (Bool-cases (is_refused (answer (page_request page) s.sent))) [
      | inl refused ↦
          let (e, same) = once_response-refused (answer (page_request page) s.sent) refused in
          elim (unfailed e same) [ ]
      | inr accepted ↦ (accepted, h)
    ];
    few_logins = omega arith;
    few_fetches = omega arith;
  }

  login_response-refused :
      (x : Exchange) (s : Session)
      → is_refused x ≡ true
      → (e : Error) × (login_response p settings web x s ≡ (raise e, s))
  unfolding login_response is_refused
  login_response-refused (responded code text) s h = rw h (_, refl)
  login_response-refused (transport_fault m) s h = cc
  login_response-refused (request_fault m) s h = cc

  sent-logged_in :
      (body : Json) (r : Result String) (s : Session)
      → (logged_in p settings web body r s).1.sent ≡ s.sent
  unfolding logged_in
  sent-logged_in body (return token) s = refl
  sent-logged_in body (raise (parse_error m)) s = refl
  sent-logged_in body (raise _) s = refl

  sent-login_body :
      (r : Result Json) (s : Session) → (login_body p settings web r s).1.sent ≡ s.sent
  unfolding login_body
  sent-login_body (return body) s = sent-logged_in body (parse_login_token repr_of body) s
  sent-login_body (raise (value_error m)) s = refl
  sent-login_body (raise _) s = refl

  sent-login_response :
      (x : Exchange) (s : Session) → (login_response p settings web x s).1.sent ≡ s.sent
  unfolding login_response
  sent-login_response (transport_fault m) s = refl
  sent-login_response (request_fault m) s = refl
  sent-login_response (responded code text) s = elim (Bool-cases (is_refusal code)) [
    | inl refused ↦ rw refused refl
    | inr accepted ↦ elim (Bool-cases (leb 400 code)) [
      | inl bad ↦ rw (accepted, bad) refl
      | inr good ↦ rw (accepted, good) (sent-login_body (loads text) s)
    ]
  ]

  login_response-IsPatient :
      (x : Exchange) (user digest : String) (s : Session)
      → x ≡ answer (login_request user digest) s.sent
      → IsAccepted answer s.sent
      → IsPatient answer 1 0 s
          (login_response p settings web x (record s { sent = login_request user digest ∷ s.sent }))
  login_response-IsPatient x user digest s same h =
      let r = login_request user digest in
      let kept = sent-login_response x (record s { sent = r ∷ s.sent }) in
      record {
        quiet = rw kept h;
        going = λ a done. rw kept (elim (Bool-cases (is_refused x)) [
          | inl refused ↦
              let (e, ends) = login_response-refused x (record s { sent = r ∷ s.sent }) refused in
              cc
          | inr accepted ↦ (rw (← same) accepted, h)
        ]);
        few_logins = rw kept (omega arith);
        few_fetches = rw kept (omega arith);
      }

  login_with-IsPatient :
      (digest : Result String) (s : Session)
      → IsAccepted answer s.sent
      → IsPatient answer 1 0 s (login_with p settings web digest s)
  unfolding login_with send
  login_with-IsPatient (raise e) s h = idle answer 1 0 (raise e) s s h refl
  login_with-IsPatient (return digest) s h =
      login_response-IsPatient _ settings.portal_username digest s refl h

  login-IsPatient :
      (s : Session) → IsAccepted answer s.sent → IsPatient answer 1 0 s (login p settings web s)
  unfolding login
  login-IsPatient s h = elim (Bool-cases (has_borrowed_session p settings web)) [
    | inl borrowed ↦ rw borrowed (idle answer 1 0 (return tt) s s h refl)
    | inr own ↦ rw own (login_with-IsPatient (password_digest p settings web) s h)
  ]

  fetched-IsPatient :
      (n : ℕ) (s : Session) (o : Attempted × Session)
      → IsTried answer n s o
      → IsPatient answer 0 n s (fetched p settings web o)
  unfolding fetched
  fetched-IsPatient n s (got text, s') h = record {
    quiet = h.quiet;
    going = λ a same. h.going (λ e k. cc);
    few_logins = omega (arith, h.few_logins);
    few_fetches = h.few_fetches;
  }
  fetched-IsPatient n s (transient m, s') h = record {
    quiet = h.quiet;
    going = λ a same. cc;
    few_logins = omega (arith, h.few_logins);
    few_fetches = h.few_fetches;
  }
  fetched-IsPatient n s (failed e, s') h = record {
    quiet = h.quiet;
    going = λ a same. cc;
    few_logins = omega (arith, h.few_logins);
    few_fetches = h.few_fetches;
  }

  -- `retries` is what tenacity documents of `stop_after_attempt`, `retry_if_exception_type` and
  -- `reraise`.
  module _
      (retries : (n : ℕ) (act : Attempt) (s : Session) → 0 < n → Retried act n s (retrying n act s))
      (positive : 0 < settings.scrape_max_attempts) where
    get-IsPatient :
        (page : ℕ) (s : Session)
        → IsAccepted answer s.sent
        → IsPatient answer 0 settings.scrape_max_attempts s (get p settings web page s)
    unfolding get
    get-IsPatient page s h =
        let tries = retries settings.scrape_max_attempts (once p settings web page) s positive in
        fetched-IsPatient settings.scrape_max_attempts s
          (retrying settings.scrape_max_attempts (once p settings web page) s)
          (Retried-IsTried answer (once p settings web page) (once-IsTried page) positive h tries)

    collect-IsPatient :
        (n : ℕ) (more : List Object → Exec Session (List Object)) (collected : List Object)
        (r : Result Page) (s : Session)
        → ((items : List Object) (s : Session)
            → IsAccepted answer s.sent
            → IsPatient answer 0 n s (more items s))
        → IsAccepted answer s.sent
        → IsPatient answer 0 n s (collect p settings web more collected r s)
    unfolding collect
    collect-IsPatient n more collected (raise e) s next h = idle answer 0 n (raise e) s s h refl
    collect-IsPatient n more collected (return page) s next h =
        elim (Bool-cases (is_last p settings web page (collected ++ page.items))) [
          | inl last ↦ rw last (idle answer 0 n (return (collected ++ page.items)) s s h refl)
          | inr on ↦ rw on (next (collected ++ page.items) s h)
        ]

    pages-IsPatient :
        (left page : ℕ) (collected : List Object) (s : Session)
        → IsAccepted answer s.sent
        → IsPatient answer 0
            (left * settings.scrape_max_attempts)
            s
            (pages p settings web left page collected s)
    unfolding pages
    pages-IsPatient zero page collected s h = idle answer 0 _ (raise _) s s h refl
    pages-IsPatient (suc left) page collected s h =
        rw
          (
            suc-mul left settings.scrape_max_attempts,
            add_comm (left * settings.scrape_max_attempts) settings.scrape_max_attempts,
          )
          (resume-IsPatient answer 0 0 settings.scrape_max_attempts
            (left * settings.scrape_max_attempts)
            (λ text.
              collect p settings web (pages p settings web left (suc page)) collected
                (decoded p settings web page (loads text)))
            s (get p settings web page s).0 (get p settings web page s).1 (get-IsPatient page s h)
            (λ text s' h'.
              collect-IsPatient _ (pages p settings web left (suc page)) collected
                (decoded p settings web page (loads text)) s' (pages-IsPatient left (suc page)) h'))

    -- A run of `fetch_components` that starts with no refusal behind it sends at most one login and
    -- `PORTAL_MAX_PAGES` times `SCRAPE_MAX_ATTEMPTS` requests for a page, sends nothing more after
    -- a response of 401 or 403, and returns only if there was none, if at least one attempt is
    -- allowed and tenacity attempts as documented. A request counts with the redirects that httpx
    -- follows in it, and its response is the last one.
    pub fetch_components-IsPatient :
        (s : Session)
        → IsAccepted answer s.sent
        → IsPatient answer 1
            (settings.portal_max_pages * settings.scrape_max_attempts)
            s
            (fetch_components p settings web s)
    unfolding fetch_components
    fetch_components-IsPatient s h =
        let most = settings.portal_max_pages * settings.scrape_max_attempts in
        let sum : 0 + most ≡ most = omega arith in
        subst (λ n. IsPatient answer 1 n s (fetch_components p settings web s)) sum
          (resume-IsPatient answer 1 0 0 most
            (λ _. pages p settings web settings.portal_max_pages 1 []) s (login p settings web s).0
            (login p settings web s).1 (login-IsPatient s h)
            (λ _ s' h'. pages-IsPatient settings.portal_max_pages 1 [] s' h'))
