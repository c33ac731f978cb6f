-- ===== src/Observability/Redaction/Registered.antt =====
-- From the credentials of the settings, through their registration, to what a log event shows.
use telecloud_subscription_r.Base.{String, List, [], ◌∷◌}
use telecloud_subscription_r.Config.{Settings}
use telecloud_subscription_r.Platform.{Platform}

-- the credentials that are registered when the program starts
abbrev pub credentials : Settings → List String
credentials s =
    s.telegram_bot_token ∷ s.smtp_password ∷ s.portal_auth_header ∷ s.portal_session_cookie
    ∷ s.portal_password ∷ []
