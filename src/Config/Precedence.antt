-- ===== src/Config/Precedence.antt =====
-- That `.env` never overrides the environment of the process.
use telecloud_subscription_r.Base.{
  ◌≡◌, refl, String, true, not, ◌&&◌, ◌||◌, Option, none, some, List, [], ◌∷◌, is_empty, is_some,
  str_eq, eq_iff, Bool-cases, inl, inr,
}
use telecloud_subscription_r.Base.Text.{strip, starts_with}
use telecloud_subscription_r.Config.Loading.{
  Environ, set_default, before_comment, unquoted, exported, export_line, export_dotenv_extras,
}
use telecloud_subscription_r.Platform.{Platform}

set_default-keeps :
    (key value : String) (environ : Environ) (name : String) {v : String}
    → environ name ≡ some v
    → set_default key value environ name ≡ some v
unfolding set_default
set_default-keeps key value environ name h = elim (Bool-cases (str_eq name key)) [
  | inr apart ↦ rw apart h
  | inl same ↦
      let there : is_some (environ key) ≡ true = rw (← (eq_iff name key).0 same, h) refl in
      rw (same, there) h
]

module _ (p : Platform) where
  exported-keeps :
      (key : String) (raw : Option String) (environ : Environ) (name : String) {v : String}
      → environ name ≡ some v
      → exported p key raw environ name ≡ some v
  unfolding exported
  exported-keeps key none environ name h = h
  exported-keeps key (some raw) environ name h =
      let value = unquoted 39 (unquoted 34 (strip p.is_space (before_comment raw))) in
      elim (Bool-cases (not (is_empty (strip p.is_space key)) && not (is_empty value))) [
        | inl set ↦ rw set (set_default-keeps (strip p.is_space key) value environ name h)
        | inr unset ↦ rw unset h
      ]

  export_line-keeps :
      (raw : String) (environ : Environ) (name : String) {v : String}
      → environ name ≡ some v
      → export_line p raw environ name ≡ some v
  unfolding export_line
  export_line-keeps raw environ name h =
      let line = strip p.is_space raw in
      elim (Bool-cases (is_empty line || starts_with line "#")) [
        | inl skipped ↦ rw skipped h
        | inr read ↦ rw read (exported-keeps _ _ environ name h)
      ]

  -- A variable that the process has keeps its value, whatever lines `.env` has.
  pub export_dotenv_extras-keeps :
      (lines : List String) (environ : Environ) (name : String) {v : String}
      → environ name ≡ some v
      → export_dotenv_extras p lines environ name ≡ some v
  unfolding export_dotenv_extras
  export_dotenv_extras-keeps [] environ name h = h
  export_dotenv_extras-keeps (line ∷ lines) environ name h =
      export_dotenv_extras-keeps lines (export_line p line environ) name
        (export_line-keeps line environ name h)
