-- ===== src/Scheduler/Sleep.antt =====
-- The sleep between two cycles: that it ends, when, and how it beats.
use telecloud_subscription_r.Base.{
  ℕ, zero, suc, ◌+◌, ◌-◌, ◌*◌, ◌/◌, ◌≤◌, ◌<◌, ◌≡◌, refl, sym, subst, Bool, true, false, not, ◌&&◌,
  Option, none, some, List, [], ◌∷◌, ltb, arith, Bool-cases, inl, inr, ◌⊎◌,
}
use telecloud_subscription_r.Scheduler.{
  tick, Loop, is_set, beat, pass, min, waited, sleep, sleep_with_heartbeat,
}

pub min-le_left : (a b : ℕ) → min a b ≤ a
unfolding min
min-le_left a b = ground arith

pub min-le_right : (a b : ℕ) → min a b ≤ b
unfolding min
min-le_right a b = ground arith

min-pos : (a b : ℕ) → 0 < a → 0 < b → 0 < min a b
unfolding min
min-pos a b h k = ground arith

-- A wait takes no longer than its time, and all of it if no stop is requested meanwhile.
pub waited-le : (stop : Option ℕ) (now chunk : ℕ) → waited stop now chunk ≤ chunk
unfolding waited
waited-le none now chunk = omega arith
waited-le (some t) now chunk = min-le_right (t - now) chunk

waited-full :
    (stop : Option ℕ) (now chunk : ℕ)
    → is_set stop now ≡ false
    → is_set stop (now + waited stop now chunk) ≡ false
    → waited stop now chunk ≡ chunk
unfolding waited is_set min
waited-full none now chunk h k = refl
waited-full (some t) now chunk h k = ground arith

-- A wait stops at a stop request.
waited-before :
    (t now chunk : ℕ) → is_set (some t) now ≡ false → now + waited (some t) now chunk ≤ t
unfolding waited is_set min
waited-before t now chunk h = ground arith

-- The gaps between the heartbeats of a list, the latest first, and before a moment.
abbrev pub IsSteady : ℕ → ℕ → List ℕ → Type 0
IsSteady limit now [] = Unit
IsSteady limit now (b ∷ bs) = (now ≤ b + limit) × IsSteady limit b bs

-- what a sleep of `remaining` from `l` comes to
pub record IsSlept (stop : Option ℕ) (remaining : ℕ) (l : Loop) (o : ℕ × Loop) : Type 0 where
  -- it ends by its test, not for want of fuel
  pub ended : (o.0 ≡ 0) ⊎ (is_set stop o.1.now ≡ true)
  pub forward : l.now ≤ o.1.now
  pub spent : o.1.now + o.0 ≤ l.now + remaining
  pub prompt : (t : ℕ) → stop ≡ some t → l.now ≤ t → o.1.now ≤ t
  pub whole : is_set stop o.1.now ≡ false → o.1.now ≡ l.now + remaining
  pub exits : o.1.last_exit ≡ l.last_exit
  pub starts : o.1.starts ≡ l.starts
  pub stale : o.1.health.stale_after ≡ l.health.stale_after

-- the loop after one wait
abbrev woken : Option ℕ → ℕ → Loop → Loop
woken stop remaining l = beat (pass (waited stop l.now (min tick remaining)) l)

ended_test :
    (stop : Option ℕ) (remaining : ℕ) (l : Loop)
    → (ltb 0 remaining && not (is_set stop l.now)) ≡ false
    → IsSlept stop remaining l (remaining, l)
ended_test stop remaining l h = record {
  ended = elim (Bool-cases (is_set stop l.now)) [
    | inl set ↦ inr set
    | inr open_ ↦ inl (ground arith)
  ];
  forward = omega arith;
  spent = omega arith;
  prompt = λ t e k. k;
  whole = λ open_. ground arith;
  exits = refl;
  starts = refl;
  stale = refl;
}

-- A later moment is not before a stop that an earlier one has reached.
is_set-later : (stop : Option ℕ) (a b : ℕ) → a ≤ b → is_set stop b ≡ false → is_set stop a ≡ false
unfolding is_set
is_set-later none a b h k = refl
is_set-later (some t) a b h k = ground arith

woken-IsSlept :
    (stop : Option ℕ) (remaining : ℕ) (l : Loop) (o : ℕ × Loop)
    → (ltb 0 remaining && not (is_set stop l.now)) ≡ true
    → IsSlept stop (remaining - min tick remaining) (woken stop remaining l) o
    → IsSlept stop remaining l o
unfolding beat
woken-IsSlept stop remaining l o on later =
    let chunk = min tick remaining in
    let w = waited stop l.now chunk in
    let small : w ≤ chunk = waited-le stop l.now chunk in
    let within : chunk ≤ remaining = min-le_right tick remaining in
    let open_ : is_set stop l.now ≡ false = ground arith in
    let onward : l.now + w ≤ o.1.now = later.forward in
    let cost : o.1.now + o.0 ≤ (l.now + w) + (remaining - chunk) = later.spent in
    record {
      ended = later.ended;
      forward = omega (arith, onward);
      spent = omega (arith, cost, small, within);
      prompt = λ t e k. later.prompt t e (
          subst (λ s. l.now + waited s l.now chunk ≤ t) (sym e)
            (waited-before t l.now chunk (subst (λ s. is_set s l.now ≡ false) e open_)));
      whole = λ still.
          let full : w ≡ chunk =
            waited-full stop l.now chunk open_
              (is_set-later stop (l.now + w) o.1.now onward still) in
          let rest : o.1.now ≡ (l.now + w) + (remaining - chunk) = later.whole still in
          omega (arith, rest, full, within);
      exits = later.exits;
      starts = later.starts;
      stale = later.stale;
    }

shorter :
    (fuel remaining : ℕ)
    → remaining ≤ suc fuel * tick
    → remaining - min tick remaining ≤ fuel * tick
unfolding min
shorter fuel remaining h = ground arith

sleep-IsSlept :
    (fuel : ℕ) (stop : Option ℕ) (remaining : ℕ) (l : Loop)
    → remaining ≤ fuel * tick
    → IsSlept stop remaining l (sleep fuel stop remaining l)
unfolding sleep
sleep-IsSlept zero stop remaining l h = ended_test stop remaining l (ground arith)
sleep-IsSlept (suc fuel) stop remaining l h =
    step (ltb 0 remaining && not (is_set stop l.now)) refl (
      sleep-IsSlept fuel stop (remaining - min tick remaining) (woken stop remaining l)
        (shorter fuel remaining h))
  where
    step :
        (b : Bool)
        → (ltb 0 remaining && not (is_set stop l.now)) ≡ b
        → IsSlept stop
            (remaining - min tick remaining)
            (woken stop remaining l)
            (sleep fuel stop (remaining - min tick remaining) (woken stop remaining l))
        → IsSlept stop remaining l (elim b as (λ _. ℕ × Loop) [
          | false ↦ (remaining, l)
          | true ↦ sleep fuel stop (remaining - min tick remaining) (woken stop remaining l)
        ])
    step false e rest = ended_test stop remaining l e
    step true e rest =
        woken-IsSlept stop remaining l
          (sleep fuel stop (remaining - min tick remaining) (woken stop remaining l)) e rest

-- A sleep ends on time: it takes the whole of its duration, or it is cut short by a stop request.
pub sleep_with_heartbeat-IsSlept :
    (stop : Option ℕ) (duration : ℕ) (l : Loop)
    → (left : ℕ) × IsSlept stop duration l (left, sleep_with_heartbeat stop duration l)
unfolding sleep_with_heartbeat
sleep_with_heartbeat-IsSlept stop duration l = (
  (sleep (suc (duration / tick)) stop duration l).0,
  sleep-IsSlept (suc (duration / tick)) stop duration l (omega arith),
)

pub IsSteady-sooner :
    (limit a b : ℕ) (bs : List ℕ) → a ≤ b → IsSteady limit b bs → IsSteady limit a bs
IsSteady-sooner limit a b [] k h = tt
IsSteady-sooner limit a b (c ∷ bs) k h = (omega (arith, k, h.0), h.1)

sleep-IsSteady :
    (limit fuel : ℕ) (stop : Option ℕ) (remaining : ℕ) (l : Loop)
    → tick ≤ limit
    → IsSteady limit (l.now + tick) l.beats
    → IsSteady limit
        ((sleep fuel stop remaining l).1.now + tick)
        (sleep fuel stop remaining l).1.beats
unfolding sleep beat
sleep-IsSteady limit zero stop remaining l k h = h
sleep-IsSteady limit (suc fuel) stop remaining l k h =
    step (ltb 0 remaining && not (is_set stop l.now)) (
      sleep-IsSteady limit fuel stop (remaining - min tick remaining) (woken stop remaining l) k (
        omega (arith, k),
        IsSteady-sooner limit (l.now + waited stop l.now (min tick remaining)) (l.now + tick)
            l.beats
            (omega (arith, waited-le stop l.now (min tick remaining), min-le_left tick remaining))
            h,
      ))
  where
    step :
        (b : Bool)
        → IsSteady limit
            ((sleep fuel stop (remaining - min tick remaining) (woken stop remaining l)).1.now
              + tick)
            (sleep fuel stop (remaining - min tick remaining) (woken stop remaining l)).1.beats
        → IsSteady limit
            ((elim b as (λ _. ℕ × Loop) [
              | false ↦ (remaining, l)
              | true ↦ sleep fuel stop (remaining - min tick remaining) (woken stop remaining l)
            ]).1.now
              + tick)
            (elim b as (λ _. ℕ × Loop) [
              | false ↦ (remaining, l)
              | true ↦ sleep fuel stop (remaining - min tick remaining) (woken stop remaining l)
            ]).1.beats
    step false rest = h
    step true rest = rest

-- If the heartbeats so far are steady and leave room for a tick, they still do after a sleep.
pub sleep_with_heartbeat-IsSteady :
    (limit : ℕ) (stop : Option ℕ) (duration : ℕ) (l : Loop)
    → tick ≤ limit
    → IsSteady limit (l.now + tick) l.beats
    → IsSteady limit
        ((sleep_with_heartbeat stop duration l).now + tick)
        (sleep_with_heartbeat stop duration l).beats
unfolding sleep_with_heartbeat
sleep_with_heartbeat-IsSteady limit stop duration l k h =
    sleep-IsSteady limit (suc (duration / tick)) stop duration l k h
