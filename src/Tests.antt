-- ===== src/Tests.antt =====
-- Runs of the modelled code of backend/app at concrete inputs, and the theorems at inputs that meet
-- their hypotheses.
mod Samples
mod Queue
mod Scraping
mod Runs
mod Limits
mod Batch
mod World
mod Profiles
mod Work
mod Applications
mod Points
