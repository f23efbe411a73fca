-- ===== src/Scraping.antt =====
-- The collection of job listings: backend/app/services/scrapers.
pub mod Listing
pub mod Upsert
pub mod Lookups
pub mod Upserts
pub mod Totals
pub mod Uniqueness
pub mod Filter
pub mod Pipeline
pub mod Limits
pub mod Selection
pub mod Run
pub mod Execute
pub mod Executions
pub mod Cancels
