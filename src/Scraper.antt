-- ===== src/Scraper.antt =====
-- src/tele_scraper/scraper: from the portal's responses to components.
pub mod Json
pub mod Stamp
pub mod Envelope
pub mod Listing
pub mod Account
pub mod Hints
pub mod Client
