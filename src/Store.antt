-- ===== src/Store.antt =====
-- src/tele_scraper/state/store.py: the dedup backend.
pub mod Table
pub mod Protocol
pub mod Database
pub mod Sqlite
pub mod Memory
