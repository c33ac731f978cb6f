-- ===== src/Notify/Rendering.antt =====
-- src/tele_scraper/notify/base.py, `MessageRenderer`: which template renders a message, and with what.
-- The templates and how an instant is shown in a time zone are parameters.
use Prim.Native.String.{◌++◌ as concat}
use telecloud_subscription_r.Base.{
  ℕ, String, Bool, true, false, ◌≡◌, refl, ap, ◌⊎◌, inl, inr, Bool-cases, Option, none, some, List,
  [], ◌∷◌, ◌++◌, map, length, All, All-In, In, or_text, Result, return, raise, and_then,
  other_error, if◌then◌else◌,
}
use telecloud_subscription_r.Base.Int.{ℤ, pos}
use telecloud_subscription_r.Base.Text.{strip}
use telecloud_subscription_r.Models.{
  Kind, purchased, credential, Evaluation, NotificationEvent, evaluations, is_critical, label,
  value,
}
use telecloud_subscription_r.Notify.Sending.{Rendered, humanize}
use telecloud_subscription_r.Platform.{Platform, DateTime}

-- one of `items`
pub record Item : Type 0 where
  pub component_id : String
  pub name : String
  pub status : String
  pub is_credential : Bool
  pub expires_display : String
  pub remaining_display : String
  pub reason : String

-- what a template is rendered with
pub record Context : Type 0 where
  pub recipient : String
  pub channel : String
  pub evaluation : Evaluation
  pub component_name : String
  pub status : String
  pub is_critical : Bool
  pub expires_display : String
  pub remaining_display : String
  pub rung_display : String
  pub portal_status : String
  pub is_credential : Bool
  pub is_digest : Bool
  pub count : ℕ
  pub items : List Item

-- `component.kind == "credential"`
is_credential_kind : Kind → Bool
is_credential_kind credential = true
is_credential_kind purchased = false

remaining_text : Option ℤ → String
unfolding humanize
remaining_text none = "unknown"
remaining_text (some remaining) = humanize remaining

-- a rung of no length is as good as none
rung_text : Option ℤ → String
unfolding humanize
rung_text none = ""
rung_text (some (pos ℕ.zero)) = ""
rung_text (some rung) = humanize rung

portal_status_text : Option String → String
portal_status_text none = "unknown"
portal_status_text (some s) = or_text s "unknown"

-- the names before the part, most specific first
unfoldable pub prefixes : Bool → String → List String
prefixes true channel = concat channel ".digest" ∷ "digest" ∷ channel ∷ "default" ∷ []
prefixes false channel = channel ∷ "default" ∷ []

abbrev pub template_name : String → String → String → String
template_name locale part prefix =
    concat locale (concat "/" (concat prefix (concat "." (concat part ".j2"))))

unfoldable pub candidates : String → String → String → String → Bool → List String
unfolding prefixes
candidates default_locale locale channel part digest =
    map (template_name locale part) (prefixes digest channel)
    ++ map (template_name default_locale part) (prefixes digest channel)

-- whether there is a template of a name, what it renders to, and an instant as a reader sees it
pub record Templates : Type 0 where
  pub exists : String → Bool
  pub fill : String → Context → Result String
  pub display : DateTime → String

module _ (p : Platform) (templates : Templates) (default_locale : String) where
  open p use {is_space}
  open templates use {exists, fill, display}

  expires_text : Option DateTime → String
  expires_text none = "unknown"
  expires_text (some at) = display at

  item : Evaluation → Item
  unfolding expires_text remaining_text label value is_credential_kind
  item e = record {
    component_id = e.component.component_id;
    name = label e.component;
    status = value e.status;
    is_credential = is_credential_kind e.component.kind;
    expires_display = expires_text e.component.expires_at;
    remaining_display = remaining_text e.remaining;
    reason = e.reason;
  }

  unfoldable pub context : NotificationEvent → Context
  unfolding item expires_text remaining_text rung_text portal_status_text label value is_critical
      is_credential_kind
  context event = record {
    recipient = event.recipient;
    channel = event.target.channel;
    evaluation = event.evaluation;
    component_name = label event.evaluation.component;
    status = value event.evaluation.status;
    is_critical = is_critical event.evaluation;
    expires_display = expires_text event.evaluation.component.expires_at;
    remaining_display = remaining_text event.evaluation.remaining;
    rung_display = rung_text event.evaluation.rung;
    portal_status = portal_status_text event.evaluation.component.portal_status;
    is_credential = is_credential_kind event.evaluation.component.kind;
    is_digest = event.digest;
    count = length (evaluations event);
    items = map item (evaluations event);
  }

  -- the loop of `_pick`
  unfoldable pub first_existing : List String → Result String
  first_existing [] = raise (other_error "no template")
  first_existing (name ∷ names) =
      let later = first_existing names in if exists name then return name else later

  -- `_pick`
  unfoldable pub pick : String → String → String → Bool → Result String
  unfolding candidates first_existing
  pick locale channel part digest =
      first_existing (candidates default_locale locale channel part digest)

  -- one part of a message
  render_part : NotificationEvent → String → Result String
  unfolding pick context strip
  render_part event part =
      and_then (pick (or_text event.locale default_locale) event.target.channel part event.digest)
        (λ name. and_then (fill name (context event)) (λ text. return (strip is_space text)))

  unfoldable pub render : NotificationEvent → Result Rendered
  unfolding render_part
  render event = and_then (render_part event "subject") (λ subject.
      and_then (render_part event "body")
        (λ body. return (record { subject = subject; body = body })))

  -- no template has this name
  abbrev pub IsAbsent : String → Type 0
  IsAbsent name = exists name ≡ false

  -- the outcome is the first name that has a template
  abbrev pub IsFirst : List String → Result String → Type 0
  IsFirst names o =
      (before after : List String) × (name : String) × (names ≡ before ++ name ∷ after)
      × All IsAbsent before
      × (exists name ≡ true)
      × (o ≡ return name)

  -- The first one there is, or there is none.
  first_existing-IsFirst :
      (names : List String) → IsFirst names (first_existing names) ⊎ All IsAbsent names
  unfolding first_existing
  first_existing-IsFirst [] = inr tt
  first_existing-IsFirst (name ∷ names) = elim (Bool-cases (exists name)) [
    | inl there ↦ inl ([], names, name, refl, tt, there, rw there refl)
    | inr absent ↦ elim (first_existing-IsFirst names) [
      | inl found ↦
          let (before, after, chosen, split, earlier, there, picked) = found in
          inl (
            name ∷ before,
            after,
            chosen,
            ap (λ ns. name ∷ ns) split,
            (absent, earlier),
            there,
            rw absent picked,
          )
      | inr nowhere ↦ inr (absent, nowhere)
    ]
  ]

  -- where a part of a message is looked for: for a digest the channel's digest, any digest, the
  -- channel and the default, and else the channel and the default; each in the message's own locale
  -- and then in the default one
  pub searched : String → String → String → Bool → List String
  searched locale channel part true =
      template_name locale part (concat channel ".digest")
      ∷ template_name locale part "digest"
      ∷ template_name locale part channel
      ∷ template_name locale part "default"
      ∷ template_name default_locale part (concat channel ".digest")
      ∷ template_name default_locale part "digest"
      ∷ template_name default_locale part channel
      ∷ template_name default_locale part "default"
      ∷ []
  searched locale channel part false =
      template_name locale part channel
      ∷ template_name locale part "default"
      ∷ template_name default_locale part channel
      ∷ template_name default_locale part "default"
      ∷ []

  candidates-searched :
      (locale channel part : String) (digest : Bool)
      → candidates default_locale locale channel part digest ≡ searched locale channel part digest
  unfolding candidates prefixes searched
  candidates-searched locale channel part true = refl
  candidates-searched locale channel part false = refl

  -- the name of the template of last resort
  last_resort :
      (locale channel part : String) (digest : Bool)
      → In
          (template_name default_locale part "default")
          (candidates default_locale locale channel part digest)
  unfolding candidates prefixes
  last_resort locale channel part true =
      In.there (In.there (In.there (In.there (In.there (In.there (In.there In.here))))))
  last_resort locale channel part false = In.there (In.there (In.there In.here))

  -- If the default locale has the default template of a part, every message finds a template for
  -- that part, whatever its locale and channel: the first one that there is in the order of
  -- `searched`, its own locale before the default one, and in each a digest's templates before the
  -- plain ones and the channel's before the general one.
  pub pick-IsFirst :
      (locale channel part : String) (digest : Bool)
      → exists (template_name default_locale part "default") ≡ true
      → IsFirst (searched locale channel part digest) (pick locale channel part digest)
  unfolding pick
  pick-IsFirst locale channel part digest there =
      rw (← candidates-searched locale channel part digest)
        (elim (first_existing-IsFirst (candidates default_locale locale channel part digest)) [
          | inl found ↦ found
          | inr nowhere ↦
              let absent = All-In IsAbsent _ nowhere (last_resort locale channel part digest) in
              let impossible : ⊥ = cc in elim impossible [ ]
        ])
