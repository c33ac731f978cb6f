-- ===== src/Tests.antt =====
-- Samples, and the theorems applied to them.
pub mod Samples
pub mod Evaluating
pub mod Storing
pub mod Planning
pub mod Delivering
pub mod Running
pub mod Scheduling
pub mod Scraping
pub mod Sending
pub mod Loading
pub mod Logging
pub mod Listening
pub mod Starting
pub mod Interleaving
pub mod Rendering
