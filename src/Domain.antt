-- ===== src/Domain.antt =====
-- src/tele_scraper/domain: pure rules over one component.
pub mod Rules
pub mod Status
