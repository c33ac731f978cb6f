-- ===== src/Notify/Mail.antt =====
-- src/tele_scraper/notify/email.py: one message over SMTP, as the commands that the server is given. The
-- message itself is taken to be built without an error.
use Prim.Native.String.{◌++◌ as concat}
pub mod Encrypted
use telecloud_subscription_r.Base.{
  ℕ, String, Bool, true, false, not, Option, none, some, List, [], ◌∷◌, ◌++◌, is_empty, str_eq,
  ◌==◌, Error, Result, return, raise, and_then, if◌then◌else◌,
}
use telecloud_subscription_r.Models.{NotificationEvent, DeliveryResult, success, failure}
use telecloud_subscription_r.Notify.Sending.{Rendered}

pub record EmailNotifier : Type 0 where
  pub host : String
  pub port : ℕ
  pub sender : String
  pub username : String
  pub password : String
  pub tls : String

-- `server.login` has the credentials, `server.send_message` the sender, address, subject and body.
pub data Command : Type 0 where
  connect_ssl : String → ℕ → Command
  connect : String → ℕ → Command
  starttls : Command
  login : String → String → Command
  send_message : String → String → String → String → Command

-- An `SMTPException` or an `OSError`, or another exception.
pub data Fault : Type 0 where
  smtp_fault : String → Fault
  other_fault : Error → Fault

unfoldable pub tls_mode : EmailNotifier → String
tls_mode n =
    if not (str_eq n.tls "auto") then n.tls else if n.port == 465 then "ssl" else "starttls"

unfoldable pub login_commands : EmailNotifier → List Command
login_commands n = if is_empty n.username then [] else login n.username n.password ∷ []

unfoldable pub commands : EmailNotifier → String → Rendered → List Command
unfolding tls_mode login_commands
commands n address m =
    (if str_eq (tls_mode n) "ssl" then connect_ssl n.host n.port else connect n.host n.port)
      ∷ (if str_eq (tls_mode n) "starttls" then starttls ∷ [] else [])
    ++ (login_commands n ++ send_message n.sender address m.subject m.body ∷ [])

-- what follows a command: the rest, or its fault, with the commands sent until then
unfoldable pub following :
    Option Fault → List Command → Option Fault × List Command → Option Fault × List Command
following none done rest = rest
following (some fault) done rest = (some fault, done)

-- The server performs a command, on those that it has performed.
module _ (perform : List Command → Command → Option Fault) where
  -- The commands in order, until one fails; and those that were sent, in order.
  unfoldable pub carry_out : List Command → List Command → Option Fault × List Command
  unfolding following
  carry_out done [] = (none, done)
  carry_out done (c ∷ cs) =
      following (perform done c) (done ++ c ∷ []) (carry_out (done ++ c ∷ []) cs)

  -- `_send_sync`
  unfoldable pub send_sync : EmailNotifier → String → Rendered → Option Fault × List Command
  unfolding commands carry_out
  send_sync n address m = carry_out [] (commands n address m)

  unfoldable pub mailed : NotificationEvent → Option Fault → Result DeliveryResult
  unfolding success failure
  mailed event none = return (success event)
  mailed event (some (smtp_fault m)) = return (failure event (concat "smtp error: " m) none)
  mailed event (some (other_fault e)) = raise e

  module _ (render : NotificationEvent → Result Rendered) where
    unfoldable pub email_send : EmailNotifier → NotificationEvent → Result DeliveryResult
    unfolding mailed send_sync
    email_send n event =
        and_then (render event) (λ m. mailed event (send_sync n event.target.address m).0)
