-- ===== src/Batch.antt =====
-- The evaluation of many listings at once, with its quotas: backend/app/services/ai_guardrails.py and
-- backend/app/services/batch_evaluator.py.
pub mod Guardrails
pub mod Listings
pub mod Counts
pub mod Totals
