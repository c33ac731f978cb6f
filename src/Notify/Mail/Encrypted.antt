-- ===== src/Notify/Mail/Encrypted.antt =====
-- That the credentials of the mail server go over TLS.
use telecloud_subscription_r.Base.{
  ◌≡◌, refl, String, Option, none, some, List, [], ◌∷◌, In, ◌==◌, there, Bool-cases, inl, inr, ◌⊎◌,
}
use telecloud_subscription_r.Notify.Mail.{
  EmailNotifier, Command, connect_ssl, connect, starttls, login, Fault, tls_mode, commands,
  following, carry_out, send_sync,
}
use telecloud_subscription_r.Notify.Sending.{Rendered}

module _ (n : EmailNotifier) where
  -- the modes of a notifier that is not told to go without TLS
  tls_mode-tls :
      (n.tls ≡ "auto") ⊎ (n.tls ≡ "ssl") ⊎ (n.tls ≡ "starttls")
      → (tls_mode n ≡ "ssl") ⊎ (tls_mode n ≡ "starttls")
  unfolding tls_mode
  tls_mode-tls (inl auto) = elim (Bool-cases (n.port == 465)) [
    | inl smtps ↦ inl (rw (auto, smtps) refl)
    | inr other ↦ inr (rw (auto, other) refl)
  ]
  tls_mode-tls (inr (inl ssl)) = inl (rw ssl refl)
  tls_mode-tls (inr (inr start)) = inr (rw start refl)

module _ (perform : List Command → Command → Option Fault) where
  -- TLS was established: by the connection, or by the command after it.
  abbrev pub IsSecured : EmailNotifier → Type 0
  IsSecured n =
      (perform [] (connect_ssl n.host n.port) ≡ none)
      ⊎ (perform (connect n.host n.port ∷ []) starttls ≡ none)

  following-In :
      (f : Option Fault) (done : List Command) (rest : Option Fault × List Command) {c : Command}
      → In c (following f done rest).1
      → (f ≡ none) ⊎ In c done
  unfolding following
  following-In none done rest m = inl refl
  following-In (some fault) done rest m = inr m

  following-rest :
      (f : Option Fault) (done : List Command) (rest : Option Fault × List Command) {c : Command}
      → In c (following f done rest).1
      → In c rest.1 ⊎ In c done
  unfolding following
  following-rest none done rest m = inl m
  following-rest (some fault) done rest m = inr m

  module _ (n : EmailNotifier) (address : String) (m : Rendered) where
    not_login_ssl : {u v : String} → In (login u v) (connect_ssl n.host n.port ∷ []) → ⊥
    not_login_ssl (there i) = elim i [ ]

    not_login_plain : {u v : String} → In (login u v) (connect n.host n.port ∷ []) → ⊥
    not_login_plain (there i) = elim i [ ]

    not_login_start : {u v : String} → In (login u v) (connect n.host n.port ∷ starttls ∷ []) → ⊥
    not_login_start (there (there i)) = elim i [ ]

    by_mode :
        {u v : String}
        → (tls_mode n ≡ "ssl") ⊎ (tls_mode n ≡ "starttls")
        → In (login u v) (send_sync perform n address m).1
        → IsSecured n
    unfolding send_sync commands carry_out
    by_mode (inl ssl) i =
        elim (following-In (perform [] (connect_ssl n.host n.port)) _ _ (rw ssl at i)) [
          | inl fine ↦ inl fine
          | inr early ↦ absurd (not_login_ssl early)
        ]
    by_mode (inr start) i =
        elim (following-rest (perform [] (connect n.host n.port)) _ _ (rw start at i)) [
          | inr early ↦ absurd (not_login_plain early)
          | inl later ↦
              elim (following-In (perform (connect n.host n.port ∷ []) starttls) _ _ later) [
                | inl fine ↦ inr fine
                | inr early ↦ absurd (not_login_start early)
              ]
        ]

    -- Unless the notifier is told to use no TLS, a login is sent to the mail server only after TLS
    -- was established: the encrypted connection, or STARTTLS on a plain one, succeeded.
    pub send_sync-IsSecured :
        (u v : String)
        → (n.tls ≡ "auto") ⊎ (n.tls ≡ "ssl") ⊎ (n.tls ≡ "starttls")
        → In (login u v) (send_sync perform n address m).1
        → IsSecured n
    send_sync-IsSecured u v tls i = by_mode (tls_mode-tls n tls) i
