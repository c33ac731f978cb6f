-- ===== src/Observability.antt =====
-- src/tele_scraper/observability: what may be logged.
pub mod Redaction
