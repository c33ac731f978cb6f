-- ===== src/Notify/Acks/Silenced.antt =====
-- From the press of a button to the next cycle: what is still sent about the situation.
use telecloud_subscription_r.Base.{String, Bool, inl, inr, ◌⊎◌, if◌then◌else◌}
use telecloud_subscription_r.Models.{NotificationEvent}
use telecloud_subscription_r.Platform.{Platform}
use telecloud_subscription_r.Store.Database.{Database}

-- the message is held, or goes on
abbrev pub held_if : Bool → NotificationEvent → String ⊎ NotificationEvent
held_if b event = if b then inl "acknowledged" else inr event
