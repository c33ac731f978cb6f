-- ===== src/Scraper/Client/Pages.antt =====
-- What a run's listing is made of: consecutive pages that the portal served, up to the last one.
use telecloud_subscription_r.Base.{
  ℕ, zero, suc, ◌≤◌, ◌<◌, ◌≡◌, refl, String, true, false, ◌||◌, List, [], ◌++◌, leb, ◌==◌, arith,
  Bool-cases, inl, inr, ap, Exec, Result, return, raise, return-injective, resume-return,
}
use telecloud_subscription_r.Config.{Settings}
use telecloud_subscription_r.Platform.{Platform}
use telecloud_subscription_r.Scraper.Client.{
  Web, Request, page_request, Exchange, responded, transport_fault, request_fault, Session,
  Attempted, got, transient, failed, Attempt, is_refusal, Retried, stopped, again, login,
  once_response, once, fetched, get, decoded, is_last, collect, pages, fetch_components,
}
use telecloud_subscription_r.Scraper.Envelope.{Page}
use telecloud_subscription_r.Scraper.Json.{Object}

-- Attempts that got a text got it at their last one.
Retried-got :
    {act : Attempt} {left : ℕ} {s : Session} {o : Attempted × Session} {text : String}
    → Retried act left s o
    → o.0 ≡ got text
    → (s' : Session) × ((act s').0 ≡ got text)
Retried-got {s = s} (stopped same last) h = (s, cc (same, h))
Retried-got (again same more) h = Retried-got more h

module _ (p : Platform) (settings : Settings) (web : Web) where
  open web use {loads, retrying, answer}

  -- A page's text came with a response to a request for that page, and with no error code.
  pub record IsServed (page : ℕ) (text : String) : Type 0 where
    pub code : ℕ
    pub older : List Request
    pub answered : answer (page_request page) older ≡ responded code text
    pub fine : code < 400

  -- From page number `page` on, with `collected` before it: that many pages, one after the other,
  -- until one is the last, and the items of all of them in order.
  pub data IsWalk : ℕ → List Object → ℕ → List Object → Type 0 where
    last_page :
        {page : ℕ} {collected : List Object} {text : String} {q : Page}
        → IsServed page text
        → decoded p settings web page (loads text) ≡ return q
        → is_last p settings web q (collected ++ q.items) ≡ true
        → IsWalk page collected 1 (collected ++ q.items)
    next_page :
        {page : ℕ} {collected : List Object} {text : String} {q : Page} {count : ℕ}
        {items : List Object}
        → IsServed page text
        → decoded p settings web page (loads text) ≡ return q
        → is_last p settings web q (collected ++ q.items) ≡ false
        → IsWalk (suc page) (collected ++ q.items) count items
        → IsWalk page collected (suc count) items

  once_response-got :
      (x : Exchange) {text : String}
      → once_response p settings web x ≡ got text
      → (code : ℕ) × (x ≡ responded code text) × (code < 400)
  unfolding once_response
  once_response-got (transport_fault m) h = cc
  once_response-got (request_fault m) h = cc
  once_response-got (responded code body) {text = text} h = elim (Bool-cases (is_refusal code)) [
    | inl refused ↦ cc (rw refused at h)
    | inr accepted ↦ elim (Bool-cases (code == 429 || leb 500 code)) [
      | inl busy ↦ cc (rw (accepted, busy) at h)
      | inr open_ ↦ elim (Bool-cases (leb 400 code)) [
        | inl bad ↦ cc (rw (accepted, open_, bad) at h)
        | inr good ↦
            let same : got body ≡ got text = rw (accepted, open_, good) at h in
            (code, cc, ground arith)
      ]
    ]
  ]

  fetched-got :
      (o : Attempted × Session) {text : String}
      → (fetched p settings web o).0 ≡ return text
      → o.0 ≡ got text
  unfolding fetched
  fetched-got (got t, s) h = ap got (return-injective h)
  fetched-got (transient m, s) h = cc
  fetched-got (failed e, s) h = cc

  module _
      (retries : (n : ℕ) (act : Attempt) (s : Session) → 0 < n → Retried act n s (retrying n act s))
      (positive : 0 < settings.scrape_max_attempts) where
    get-IsServed :
        (page : ℕ) (s : Session) {text : String}
        → (get p settings web page s).0 ≡ return text
        → IsServed page text
    unfolding get once
    get-IsServed page s h =
        let tries = retries settings.scrape_max_attempts (once p settings web page) s positive in
        let (s', gotten) = Retried-got tries (fetched-got _ h) in
        let (code, answered, fine) =
          once_response-got (answer (page_request page) s'.sent) gotten in
        record { code = code; older = s'.sent; answered = answered; fine = fine }

    collect-IsWalk :
        (left page : ℕ) (more : List Object → Exec Session (List Object)) (collected : List Object)
        {text : String} (r : Result Page) (s : Session) {items : List Object}
        → IsServed page text
        → decoded p settings web page (loads text) ≡ r
        → ((c : List Object) (s : Session)
            → (more c s).0 ≡ return items
            → (count : ℕ) × (count ≤ left) × IsWalk (suc page) c count items)
        → (collect p settings web more collected r s).0 ≡ return items
        → (count : ℕ) × (count ≤ suc left) × IsWalk page collected count items
    unfolding collect
    collect-IsWalk left page more collected (raise e) s served read next h = cc
    collect-IsWalk left page more collected (return q) s {items = items} served read next h =
        elim (Bool-cases (is_last p settings web q (collected ++ q.items))) [
          | inl last ↦
              let same : (collected ++ q.items) ≡ items = return-injective (rw last at h) in
              (1, omega arith, rw (← same) (last_page served read last))
          | inr on ↦
              let (count, few, walk) = next (collected ++ q.items) s (rw on at h) in
              (suc count, omega arith, next_page served read on walk)
        ]

    pages-IsWalk :
        (left page : ℕ) (collected : List Object) (s : Session) {items : List Object}
        → (pages p settings web left page collected s).0 ≡ return items
        → (count : ℕ) × (count ≤ left) × IsWalk page collected count items
    unfolding pages
    pages-IsWalk zero page collected s h = cc
    pages-IsWalk (suc left) page collected s h =
        let (text, served, then_) =
          resume-return
            (λ text.
              collect p settings web (pages p settings web left (suc page)) collected
                (decoded p settings web page (loads text)))
            (get p settings web page s).0 (get p settings web page s).1 h in
        collect-IsWalk left page (pages p settings web left (suc page)) collected
          (decoded p settings web page (loads text)) (get p settings web page s).1
          (get-IsServed page s served) refl (λ c s. pages-IsWalk left (suc page) c s) then_

    -- A listing that `fetch_components` returns is the items, in order, of the pages 1, 2, … up to
    -- at most `PORTAL_MAX_PAGES`, each served by the portal without an error code. All but the last
    -- page left items to fetch; the last one was empty or completed the total that it reported.
    pub fetch_components-IsWalk :
        (s : Session) {items : List Object}
        → (fetch_components p settings web s).0 ≡ return items
        → (count : ℕ) × (count ≤ settings.portal_max_pages) × IsWalk 1 [] count items
    unfolding fetch_components
    fetch_components-IsWalk s h =
        let (_, logged, then_) =
          resume-return (λ _. pages p settings web settings.portal_max_pages 1 [])
            (login p settings web s).0 (login p settings web s).1 h in
        pages-IsWalk settings.portal_max_pages 1 [] (login p settings web s).1 then_
