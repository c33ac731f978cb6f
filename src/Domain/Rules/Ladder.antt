-- ===== src/Domain/Rules/Ladder.antt =====
-- The warning ladder: the rung that is selected is the tightest one crossed, and a parsed ladder
-- is strictly falling.
use telecloud_subscription_r.Base.{
  ◌≡◌, refl, Bool, true, false, none, some, List, [], ◌∷◌, keep, In, In-keep, keep-In, not-In-nil,
  Option-cases, here, there, arith, inl, inr, if◌then◌else◌,
}
use telecloud_subscription_r.Base.Int.{ℤ, ◌≤ℤ◌, leb_ℤ, leb_ℤ→≤ℤ, ≤ℤ→leb_ℤ, ≤ℤ_trans}
use telecloud_subscription_r.Domain.Rules.{minimum, least, select_rung}

minimum-le : (m : ℤ) (ts : List ℤ) → minimum m ts ≤ℤ m
unfolding minimum
minimum-le m [] = omega arith
minimum-le m (t ∷ ts) = ground (arith, minimum-le m ts, minimum-le t ts)

minimum-le_member : (m : ℤ) (ts : List ℤ) {t : ℤ} → In t ts → minimum m ts ≤ℤ t
unfolding minimum
minimum-le_member m [] i = elim i [ ]
minimum-le_member m (t ∷ ts) here = ground (arith, minimum-le m ts, minimum-le t ts)
minimum-le_member m (t ∷ ts) (there i) = minimum-le_member (if leb_ℤ m t then m else t) ts i

minimum-In : (m : ℤ) (ts : List ℤ) → In (minimum m ts) (m ∷ ts)
unfolding minimum
minimum-In m [] = here
minimum-In m (t ∷ ts) = widen (leb_ℤ m t) (minimum-In (if leb_ℤ m t then m else t) ts)
  where
    widen : {x : ℤ} (b : Bool) → In x ((if b then m else t) ∷ ts) → In x (m ∷ t ∷ ts)
    widen true here = here
    widen false here = there here
    widen _ (there i) = there (there i)

least-least :
    (l : List ℤ) {rung : ℤ} → least l ≡ some rung → In rung l × ((t : ℤ) → In t l → rung ≤ℤ t)
unfolding least
least-least [] h = cc
least-least (m ∷ ts) {rung} h =
    let e : minimum m ts ≡ rung = cc in rw (← e) (minimum-In m ts, below)
  where
    below : (t : ℤ) → In t (m ∷ ts) → minimum m ts ≤ℤ t
    below t here = minimum-le m ts
    below t (there i) = minimum-le_member m ts i

-- The rung selected is a threshold that the remaining time has crossed, and the tightest such.
pub select_rung-tightest :
    (remaining : ℤ) (thresholds : List ℤ) {rung : ℤ}
    → select_rung remaining thresholds ≡ some rung
    → In rung thresholds
      × (remaining ≤ℤ rung)
      × ((t : ℤ) → In t thresholds → remaining ≤ℤ t → rung ≤ℤ t)
unfolding select_rung
select_rung-tightest remaining thresholds {rung} h =
    let (member, below) = least-least (keep (λ t. leb_ℤ remaining t) thresholds) h in
    let (source, crossed) = In-keep (λ t. leb_ℤ remaining t) thresholds member in
    (
      source,
      leb_ℤ→≤ℤ remaining rung crossed,
      λ t i c. below t (keep-In (λ t. leb_ℤ remaining t) i (≤ℤ→leb_ℤ remaining t c)),
    )

least-none : (l : List ℤ) → least l ≡ none → l ≡ []
unfolding least
least-none [] h = refl
least-none (m ∷ ts) h = cc

-- No rung is selected exactly when the remaining time is wider than every threshold.
pub select_rung-none :
    (remaining : ℤ) (thresholds : List ℤ)
    → select_rung remaining thresholds ≡ none
    → {t : ℤ} → In t thresholds
    → ¬ (remaining ≤ℤ t)
unfolding select_rung
select_rung-none remaining thresholds h {t} i c =
    let e = least-none (keep (λ t. leb_ℤ remaining t) thresholds) h in
    let m = keep-In (λ t. leb_ℤ remaining t) i (≤ℤ→leb_ℤ remaining t c) in not-In-nil (rw e at m)

pub select_rung-some :
    (remaining : ℤ) (thresholds : List ℤ) {t : ℤ}
    → In t thresholds
    → remaining ≤ℤ t
    → (rung : ℤ) × (select_rung remaining thresholds ≡ some rung)
select_rung-some remaining thresholds i c = elim (Option-cases (select_rung remaining thresholds)) [
  | inl e ↦ absurd (select_rung-none remaining thresholds e i c)
  | inr found ↦ found
]

-- As the remaining time shrinks, the rung selected only tightens, and never goes away.
pub select_rung-antitone :
    (before after : ℤ) (thresholds : List ℤ) {rung : ℤ}
    → after ≤ℤ before
    → select_rung before thresholds ≡ some rung
    → (tighter : ℤ) × (select_rung after thresholds ≡ some tighter) × (tighter ≤ℤ rung)
select_rung-antitone before after thresholds {rung} shrinks h =
    let (member, crossed, _) = select_rung-tightest before thresholds h in
    let c : after ≤ℤ rung = ≤ℤ_trans after before rung shrinks crossed in
    let (tighter, e) = select_rung-some after thresholds member c in
    (tighter, e, (select_rung-tightest after thresholds e).2 rung member c)
