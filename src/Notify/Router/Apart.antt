-- ===== src/Notify/Router/Apart.antt =====
-- Messages and deliveries with pairwise different scopes.
use telecloud_subscription_r.Base.{
  ◌≡◌, refl, ap, false, List, [], ◌∷◌, ◌++◌, map, All, All-append, str_eq,
}
use telecloud_subscription_r.Models.{NotificationEvent}
use telecloud_subscription_r.Notify.Plan.{scope}
use telecloud_subscription_r.Notify.Router.Steps.{Task, planned, planned_event}

-- two messages with different scopes
abbrev pub IsOther : NotificationEvent → NotificationEvent → Type 0
IsOther e u = (str_eq (scope e) (scope u) ≡ false) × (str_eq (scope u) (scope e) ≡ false)

-- messages with pairwise different scopes
abbrev pub IsApart : List NotificationEvent → Type 0
IsApart [] = Unit
IsApart (e ∷ es) = All (IsOther e) es × IsApart es

module _ {A : Type 0} where
  pub All-before : (P : A → Type 0) (xs ys : List A) → All P (xs ++ ys) → All P xs
  All-before P [] ys h = tt
  All-before P (x ∷ xs) ys h = (h.0, All-before P xs ys h.1)

  pub All-after : (P : A → Type 0) (xs ys : List A) → All P (xs ++ ys) → All P ys
  All-after P [] ys h = h
  All-after P (x ∷ xs) ys h = All-after P xs ys h.1

  pub All-both :
      (P Q R : A → Type 0) (xs : List A)
      → ((x : A) → P x → Q x → R x)
      → All P xs
      → All Q xs
      → All R xs
  All-both P Q R [] f h k = tt
  All-both P Q R (x ∷ xs) f h k = (f x h.0 k.0, All-both P Q R xs f h.1 k.1)

pub IsApart-append :
    (es : List NotificationEvent) (e : NotificationEvent)
    → IsApart es
    → All (IsOther e) es
    → IsApart (es ++ e ∷ [])
IsApart-append [] e h k = (tt, tt)
IsApart-append (u ∷ es) e h k =
    (All-append (IsOther u) es (e ∷ []) h.0 ((k.0.1, k.0.0), tt), IsApart-append es e h.1 k.1)

-- the other deliveries are about other scopes
unfoldable pub IsAside : NotificationEvent → Task → Type 0
IsAside e t = IsOther e (planned_event t)

abbrev pub events : List Task → List NotificationEvent
events ts = map planned_event ts

events-IsAside :
    (e : NotificationEvent) (ts : List Task) → All (IsOther e) (events ts) → All (IsAside e) ts
unfolding IsAside
events-IsAside e [] h = tt
events-IsAside e (t ∷ ts) h = (h.0, events-IsAside e ts h.1)

pub IsApart-before :
    (before : List Task) (t : Task) (after : List Task)
    → IsApart (events (before ++ t ∷ after))
    → All (IsAside (planned_event t)) before
unfolding IsAside
IsApart-before [] t after h = tt
IsApart-before (b ∷ before) t after h =
    let others = events-IsAside (planned_event b) (before ++ t ∷ after) h.0 in
    let mine = All-after (IsAside (planned_event b)) before (t ∷ after) others in
    ((mine.0.1, mine.0.0), IsApart-before before t after h.1)

pub IsApart-after :
    (before : List Task) (t : Task) (after : List Task)
    → IsApart (events (before ++ t ∷ after))
    → All (IsAside (planned_event t)) after
IsApart-after [] t after h = events-IsAside (planned_event t) after h.0
IsApart-after (b ∷ before) t after h = IsApart-after before t after h.1

pub events-replaced :
    (before : List Task) (t t' : Task) (after : List Task)
    → planned_event t' ≡ planned_event t
    → events (before ++ t' ∷ after) ≡ events (before ++ t ∷ after)
events-replaced [] t t' after same = ap (λ e. e ∷ events after) same
events-replaced (b ∷ before) t t' after same =
    ap (λ es. planned_event b ∷ es) (events-replaced before t t' after same)

pub events-planned : (es : List NotificationEvent) → events (map planned es) ≡ es
events-planned [] = refl
events-planned (e ∷ es) = ap (λ us. e ∷ us) (events-planned es)

pub append_assoc : (xs ys zs : List NotificationEvent) → (xs ++ ys) ++ zs ≡ xs ++ (ys ++ zs)
append_assoc [] ys zs = refl
append_assoc (x ∷ xs) ys zs = ap (λ ws. x ∷ ws) (append_assoc xs ys zs)
