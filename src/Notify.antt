-- ===== src/Notify.antt =====
-- src/tele_scraper/notify: who is told what, and the confirmations that come back.
pub mod Plan
pub mod Router
pub mod Acks
pub mod Sending
pub mod Channels
pub mod Mail
pub mod Registry
pub mod Rendering
