-- ===== src/Notify/Acks/Listening.antt =====
-- The loop of the listener, whatever Telegram and the store answer: how long it runs, how long it
-- pauses, and what becomes of the offset.
use telecloud_subscription_r.Base.{
  ℕ, zero, suc, ◌+◌, ◌≤◌, ◌<◌, ◌≡◌, refl, String, Bool, true, false, Option, some, subst, List, [],
  ◌++◌, All, length, Result, resume, pure, return, raise, and_then, arith,
}
use telecloud_subscription_r.Config.{Settings}
use telecloud_subscription_r.Notify.Acks.{Update, Listener, handle_all, poll_once}
use telecloud_subscription_r.Notify.Acks.Keeping.{IsPassed, Ended, handle_all-Passed}
use telecloud_subscription_r.Notify.Acks.Polling.{
  Loop, Response, read_response, poll, next_backoff, settle, round, poll_rounds, run_forever,
}
use telecloud_subscription_r.Scraper.Json.{Json}
use telecloud_subscription_r.Store.Protocol.{StateStore}

-- a pause between a second and a minute
abbrev pub IsPause : ℕ → Type 0
IsPause b = (1 ≤ b) × (b ≤ 60)

next_backoff-IsPause : (b : ℕ) → IsPause b → IsPause (next_backoff b)
unfolding next_backoff
next_backoff-IsPause b h = (ground arith, ground arith)

module _ {St : Type 0} where
  pure_after : (n : ℕ) (r : Result (Unit {0})) (l : Listener St) → (resume (λ _. pure n) r l).1 ≡ l
  pure_after n (return a) l = refl
  pure_after n (raise e) l = refl

  settled :
      (r : Result ℕ) (l : Listener St) (c : Loop St)
      → IsPause c.backoff
      → All IsPause c.pauses
      → (c.listener.offset ≤ l.offset)
      → IsPause (settle r l c).backoff
        × All IsPause (settle r l c).pauses
        × ((settle r l c).polls ≡ suc c.polls)
        × (c.listener.offset ≤ (settle r l c).listener.offset)
  unfolding settle
  settled (return n) l c now before grown = ((omega arith, omega arith), before, refl, grown)
  settled (raise e) l c now before grown =
      (next_backoff-IsPause c.backoff now, (now, before), refl, grown)

module _ (S : StateStore) (settings : Settings) where
  open S use {State}

  counted_after :
      (n : ℕ) (r : Result (Unit {0})) (l : Listener State) (begun rest : List (Option Update))
      → Ended S settings r begun rest
      → Ended S settings (resume (λ _. pure n) r l).0 begun rest
  unfolding Ended
  counted_after n (return a) l begun rest h = h
  counted_after n (raise e) l begun rest h = h

  -- A poll never lowers the offset, even if it raises on the way. The updates that it received
  -- split into those whose handling was begun and the rest; the offset has passed all that were
  -- begun, so that Telegram does not send them again. If the poll returned, the rest is empty; if
  -- it raised, the last update that was begun is one whose handling raised that exception.
  pub poll_once-Passed :
      (us : List (Option Update)) (l : Listener State)
      → (begun rest : List (Option Update)) × (us ≡ begun ++ rest)
        × All (IsPassed (poll_once S settings (return us) l).1.offset) begun
        × (l.offset ≤ (poll_once S settings (return us) l).1.offset)
        × Ended S settings (poll_once S settings (return us) l).0 begun rest
  unfolding poll_once
  poll_once-Passed us l =
      let (r, l') = handle_all S settings us l in
      let (begun, rest, split, passed, grown, all) = handle_all-Passed S settings us l in
      let same = pure_after (length us) r l' in
      (
        begun,
        rest,
        split,
        rw same passed,
        rw same grown,
        counted_after (length us) r l' begun rest all,
      )

  poll_once-grows :
      (r : Result (List (Option Update))) (l : Listener State)
      → l.offset ≤ (poll_once S settings r l).1.offset
  unfolding poll_once
  poll_once-grows (raise e) l = omega arith
  poll_once-grows (return us) l =
      let (begun, rest, split, passed, grown, all) = poll_once-Passed us l in grown

  module _ (shown : Json → String) (telegram : ℕ → ℕ → Result Response)
      (stop_requested : ℕ → Bool) where
    round-settles :
        (c : Loop State)
        → IsPause c.backoff
        → All IsPause c.pauses
        → IsPause (round shown S settings telegram stop_requested c).backoff
          × All IsPause (round shown S settings telegram stop_requested c).pauses
          × ((round shown S settings telegram stop_requested c).polls ≡ suc c.polls)
          × (c.listener.offset ≤ (round shown S settings telegram stop_requested c).listener.offset)
    unfolding round poll
    round-settles c now before =
        let r = and_then (telegram c.polls c.listener.offset) (read_response shown) in
        settled (poll_once S settings r c.listener).0 (poll_once S settings r c.listener).1 c now
          before (poll_once-grows r c.listener)

    -- what the loop promises of its end
    abbrev IsEnd : Loop State → ℕ → Option (Loop State) → Type 0
    IsEnd c k o =
        (end : Loop State) × (o ≡ some end)
        × (end.polls ≡ c.polls + k)
        × All IsPause end.pauses
        × (c.listener.offset ≤ end.listener.offset)

    poll_rounds-IsEnd :
        (k fuel : ℕ) (c : Loop State)
        → k < fuel
        → ((j : ℕ) → j < k → stop_requested (c.polls + j) ≡ false)
        → stop_requested (c.polls + k) ≡ true
        → IsPause c.backoff
        → All IsPause c.pauses
        → IsEnd c k (poll_rounds shown S settings telegram stop_requested fuel c)
    unfolding poll_rounds
    poll_rounds-IsEnd k zero c enough on off now before =
        let impossible : ⊥ = omega arith in elim impossible [ ]
    poll_rounds-IsEnd zero (suc fuel) c enough on off now before =
        let stop : stop_requested c.polls ≡ true =
          subst (λ n. stop_requested n ≡ true) (omega arith) off in
        rw stop (c, refl, omega arith, before, omega arith)
    poll_rounds-IsEnd (suc k) (suc fuel) c enough on off now before =
        let go : stop_requested c.polls ≡ false =
          subst (λ n. stop_requested n ≡ false) (omega arith) (on 0 (omega arith)) in
        let next = round shown S settings telegram stop_requested c in
        let (soon, since, counted, grown) = round-settles c now before in
        let at : (j : ℕ) → c.polls + suc j ≡ next.polls + j = λ j. omega arith in
        let (end, ends, polled, paused, kept) =
          poll_rounds-IsEnd k fuel next (omega arith)
            (λ j below. subst (λ n. stop_requested n ≡ false) (at j) (on (suc j) (omega arith)))
            (subst (λ n. stop_requested n ≡ true) (at k) off) soon since in
        rw go (end, ends, omega arith, paused, omega arith)

    -- One bad poll never kills the listener: whatever Telegram answers to each poll, and whatever
    -- the store and the handling of the updates raise, if a stop is first requested before poll `k`,
    -- the loop ends there, after exactly `k` polls. No pause in between was shorter than a second
    -- or longer than a minute, and the offset has not gone back.
    pub run_forever-outlives :
        (k fuel : ℕ) (l : Listener State)
        → k < fuel
        → ((j : ℕ) → j < k → stop_requested j ≡ false)
        → stop_requested k ≡ true
        → (end : Loop State) × (run_forever shown S settings telegram stop_requested fuel l
            ≡ some end)
          × (end.polls ≡ k)
          × All IsPause end.pauses
          × (l.offset ≤ end.listener.offset)
    unfolding run_forever
    run_forever-outlives k fuel l enough on off =
        let (end, ends, polled, paused, kept) =
          poll_rounds-IsEnd k fuel (record { listener = l; polls = 0; backoff = 1; pauses = [] })
            enough (λ j below. subst (λ n. stop_requested n ≡ false) (omega arith) (on j below))
            (subst (λ n. stop_requested n ≡ true) (omega arith) off) (omega arith, omega arith)
            tt in
        (end, ends, omega arith, paused, kept)
