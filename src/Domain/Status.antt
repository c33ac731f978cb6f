-- ===== src/Domain/Status.antt =====
-- src/tele_scraper/domain/status.py: the status of a component at an instant.
use Prim.Native.String.{◌++◌}
pub mod Evidence
pub mod Progress
pub mod Batch
pub mod Totals
use telecloud_subscription_r.Base.{
  ℕ, ◌+◌, String, Bool, true, false, not, ◌&&◌, Option, none, some, List, [], ◌∷◌, any, ltb, str_eq,
  Result, return, raise, and_then, value_error, overflow_error, if◌then◌else◌,
}
use telecloud_subscription_r.Base.Int.{ℤ, pos, negsuc, pos_part, neg_part, sub_ℕ, leb_ℤ}
use telecloud_subscription_r.Base.Text.{strip, words, join}
use telecloud_subscription_r.Domain.Rules.{select_rung}
use telecloud_subscription_r.Models.{
  Component, Evaluation, Status, active, expiring_soon, expired, suspended, unknown,
}
use telecloud_subscription_r.Platform.{Platform, DateTime, utc, naive}

-- `datetime.max`, in microseconds since `datetime.min`
abbrev pub last_instant : ℕ
last_instant = 315537897599999999

-- The instant `n` microseconds after `datetime.min`, if it is one that `datetime` has.
instant : (ℕ → DateTime) → ℤ → Result DateTime
instant make (pos n) =
    if ltb last_instant n then raise (overflow_error "date value out of range") else return (make n)
instant make (negsuc n) = raise (overflow_error "date value out of range")

-- `datetime + timedelta`, which keeps the time zone
unfoldable pub add_delta : DateTime → ℤ → Result DateTime
unfolding instant
add_delta (utc t) d = instant utc (sub_ℕ (t + pos_part d) (neg_part d))
add_delta (naive t) d = instant naive (sub_ℕ (t + pos_part d) (neg_part d))

-- The branch of `resolve_expiry` on what the component carries.
resolve_from : Component → Option DateTime → Option DateTime → Option ℤ → Result Component
unfolding add_delta
resolve_from c none (some start) (some period) =
    and_then (add_delta start period)
      (λ t. return (record c { expires_at = some t; expires_at_derived = true }))
resolve_from c _ _ _ = return c

unfoldable pub resolve_expiry : Component → Result Component
unfolding resolve_from
resolve_expiry c = resolve_from c c.expires_at c.activated_at c.validity_period

is_nil {ℓ} : {A : Type ℓ} → List A → Bool
is_nil [] = true
is_nil (x ∷ xs) = false

module _ (p : Platform) where
  open p use {is_space, lower, repr}

  -- `" ".join(value.strip().lower().split())`
  unfoldable pub normalize_token : String → String
  unfolding join words strip
  normalize_token value = join " " (words is_space (lower (strip is_space value)))

  -- the first test of the ladder: the portal reports a state of the suspended vocabulary
  unfoldable pub reports_suspended : List String → Option String → Bool
  unfolding is_nil
  reports_suspended tokens none = false
  reports_suspended tokens (some status) =
      not (is_nil tokens) && any (λ t. str_eq t (normalize_token status)) tokens

  module _ (resolved : Component) (n : ℕ) (thresholds : List ℤ) where
    result : Status → String → Option ℤ → Option ℤ → Evaluation
    result status reason remaining rung = record {
      component = resolved;
      status = status;
      evaluated_at = utc n;
      rung = rung;
      remaining = remaining;
      reason = reason;
    }

    -- the last two steps: the rung, or none
    warned : ℤ → Option ℤ → Evaluation
    unfolding result
    warned remaining none = result active "valid" (some remaining) none
    warned remaining (some rung) =
        result expiring_soon "inside warning window" (some remaining) (some rung)

    -- steps 3 to 5, with the time that is left
    timed : ℤ → Evaluation
    unfolding warned select_rung
    timed remaining =
        if leb_ℤ remaining (pos 0)
        then result expired "expiry has passed" (some remaining) none
        else warned remaining (select_rung remaining thresholds)

    -- steps 2 to 5, on the parse error and the expiry
    dated : Option String → Option DateTime → Evaluation
    unfolding timed
    dated (some error) _ = result unknown ("parse error: " ++ error) none none
    dated none none = result unknown "expires_at missing and not derivable" none none
    dated none (some (naive e)) = result unknown "expires_at is not timezone-aware" none none
    dated none (some (utc e)) = timed (sub_ℕ e n)

    said : Option String → String
    said none = ""
    said (some status) = "portal reported " ++ repr status

    unfoldable pub ladder : List String → Evaluation
    unfolding dated said reports_suspended
    ladder tokens =
        if reports_suspended tokens resolved.portal_status
        then result suspended (said resolved.portal_status) none none
        else dated resolved.parse_error resolved.expires_at

  unfoldable pub derive_status : Component → DateTime → List ℤ → List String → Result Evaluation
  unfolding resolve_expiry ladder
  derive_status c (naive n) thresholds tokens =
      raise (value_error "derive_status requires a timezone-aware 'now'")
  derive_status c (utc n) [] tokens =
      raise (value_error "derive_status requires a non-empty warning ladder")
  derive_status c (utc n) (t ∷ ts) tokens =
      and_then (resolve_expiry c) (λ resolved. return (ladder resolved n (t ∷ ts) tokens))

  -- The list comprehension: the evaluations in order, or the first exception.
  unfoldable pub evaluate_all :
      List Component → DateTime → List ℤ → List String → Result (List Evaluation)
  unfolding derive_status
  evaluate_all [] now thresholds tokens = return []
  evaluate_all (c ∷ cs) now thresholds tokens =
      and_then (derive_status c now thresholds tokens)
        (λ e. and_then (evaluate_all cs now thresholds tokens) (λ es. return (e ∷ es)))
