-- ===== src/Scheduler/Rounds.antt =====
-- The loop of cycles: that it stops after a stop request, soon and without another cycle.
use telecloud_subscription_r.Base.{
  ℕ, zero, suc, ◌+◌, ◌-◌, ◌≤◌, ◌<◌, ◌≡◌, refl, sym, subst, true, false, some, [], All, arith,
  Bool-cases, inl, inr,
}
use telecloud_subscription_r.Config.{Settings}
use telecloud_subscription_r.Scheduler.{
  seconds, Cycle, Loop, is_set, beat, lasting, run_cycle, delay, reached, ended, rounds,
  sleep_with_heartbeat,
}
use telecloud_subscription_r.Scheduler.Sleep.{min-le_right, sleep_with_heartbeat-IsSlept}

module _ (settings : Settings) where
  abbrev pub timeout : ℕ
  timeout = seconds settings.run_timeout_seconds

  -- A cycle that began before a stop, with its pruning, is over by then and its own bounds.
  run_cycle-le :
      (c : Cycle) (l : Loop) → (run_cycle settings c l).now ≤ l.now + timeout + c.prune_took
  unfolding run_cycle lasting beat
  run_cycle-le c l = omega (arith, min-le_right c.took timeout)

  run_cycle-forward : (c : Cycle) (l : Loop) → l.now ≤ (run_cycle settings c l).now
  unfolding run_cycle beat
  run_cycle-forward c l = omega arith

  module _ (cycles : ℕ → Cycle) (t bound : ℕ)
      (quick : (i : ℕ) → (cycles i).prune_took ≤ bound) where
    abbrev Ahead : ℕ → Type 0
    Ahead s = s < t

    -- how a run that is asked to stop at `t` ends
    pub record IsStopped (l : Loop) (l' : Loop) : Type 0 where
      pub after : is_set (some t) l'.now ≡ true
      pub soon : (l.now ≤ t) → l'.now ≤ t + timeout + bound
      pub starts : All Ahead l.starts → All Ahead l'.starts

    -- A round that does not see the stop at its start begins a cycle, and starts before the stop.
    run_cycle-starts :
        (c : Cycle) (l : Loop)
        → is_set (some t) l.now ≡ false
        → All Ahead l.starts
        → All Ahead (run_cycle settings c l).starts
    unfolding run_cycle is_set beat
    run_cycle-starts c l open_ h = (ground arith, h)

    not_set-lt : (n : ℕ) → is_set (some t) n ≡ false → n < t
    unfolding is_set
    not_set-lt n h = ground arith

    set-le : (n : ℕ) → is_set (some t) n ≡ true → t ≤ n
    unfolding is_set
    set-le n h = ground arith

    cut_short :
        (i : ℕ) (l : Loop)
        → is_set (some t) l.now ≡ false
        → is_set (some t) (run_cycle settings (cycles i) l).now ≡ true
        → IsStopped l (run_cycle settings (cycles i) l)
    cut_short i l open_ set = record {
      after = set;
      soon = λ k. omega (arith, run_cycle-le (cycles i) l, quick i, not_set-lt l.now open_);
      starts = run_cycle-starts (cycles i) l open_;
    }

    -- what the next round starts from, if the stop comes neither before the cycle nor in it
    abbrev rested : ℕ → Loop → Loop
    rested i l =
        sleep_with_heartbeat (some t) (delay settings (cycles i)) (run_cycle settings (cycles i) l)

    rested-IsStopped :
        (i : ℕ) (l l' : Loop)
        → is_set (some t) l.now ≡ false
        → is_set (some t) (run_cycle settings (cycles i) l).now ≡ false
        → IsStopped (rested i l) l'
        → IsStopped l l'
    rested-IsStopped i l l' open_ still later =
        let pruned = run_cycle settings (cycles i) l in
        let (left, slept) =
          sleep_with_heartbeat-IsSlept (some t) (delay settings (cycles i)) pruned in
        record {
          after = later.after;
          soon = λ k. later.soon (slept.prompt t refl (omega (arith, not_set-lt pruned.now still)));
          starts = λ h.
              later.starts
                (subst (All Ahead) (sym slept.starts) (run_cycle-starts (cycles i) l open_ h));
        }

    nearer :
        (i fuel : ℕ) (l : Loop)
        → t - l.now < suc fuel
        → 0 < settings.run_interval_seconds
        → is_set (some t) l.now ≡ false
        → is_set (some t) (run_cycle settings (cycles i) l).now ≡ false
        → t - (rested i l).now < fuel
    unfolding delay
    nearer i fuel l h pos_ open_ still =
        let pruned = run_cycle settings (cycles i) l in
        let (left, slept) =
          sleep_with_heartbeat-IsSlept (some t) (delay settings (cycles i)) pruned in
        elim (Bool-cases (is_set (some t) (rested i l).now)) [
          | inl set ↦ omega (arith, set-le (rested i l).now set, not_set-lt l.now open_, h)
          | inr on ↦
              let all : (rested i l).now ≡ pruned.now + delay settings (cycles i) =
                slept.whole on in
              omega (
                arith,
                all,
                pos_,
                h,
                run_cycle-forward (cycles i) l,
                not_set-lt (rested i l).now on,
              )
        ]

    rounds-IsStopped :
        (fuel i : ℕ) (l : Loop)
        → t - l.now < fuel
        → 0 < settings.run_interval_seconds
        → (l' : Loop) × (reached settings fuel cycles (some t) i l ≡ (true, l')) × IsStopped l l'
    unfolding reached
    rounds-IsStopped zero i l h pos_ = absurd (omega arith)
    rounds-IsStopped (suc fuel) i l h pos_ = elim (Bool-cases (is_set (some t) l.now)) [
      | inl set ↦ (
        l,
        rw (set, reached) refl,
        record { after = set; soon = λ k. omega (arith, k); starts = λ h. h },
      )
      | inr open_ ↦ elim (Bool-cases (is_set (some t) (run_cycle settings (cycles i) l).now)) [
        | inl set ↦ (
          run_cycle settings (cycles i) l,
          rw (open_, set, reached) refl,
          cut_short i l open_ set,
        )
        | inr still ↦
            let (l', ran, later) =
              rounds-IsStopped fuel (suc i) (rested i l) (nearer i fuel l h pos_ open_ still)
                pos_ in
            (l', rw (open_, still, reached) ran, rested-IsStopped i l l' open_ still later)
      ]
    ]

    -- A run that is asked to stop returns: no cycle starts at the stop or after it, and the run is
    -- over at most one cycle's time limit and one pruning after it. Every cycle that pruning takes
    -- `bound` for at most, and an interval that is not zero, are assumed.
    pub run_forever-stops :
        (l : Loop)
        → 0 < settings.run_interval_seconds
        → l.now ≤ t
        → l.starts ≡ []
        → (l' : Loop) × (rounds settings (suc t) cycles (some t) 0 l ≡ some l')
          × (t ≤ l'.now)
          × (l'.now ≤ t + timeout + bound)
          × All (λ s. s < t) l'.starts
    unfolding rounds ended
    run_forever-stops l pos_ early fresh =
        let (l', ran, ended) = rounds-IsStopped (suc t) 0 l (omega arith) pos_ in
        (
          l',
          rw ran refl,
          set-le l'.now ended.after,
          ended.soon early,
          ended.starts (subst (All Ahead) (sym fresh) tt),
        )
