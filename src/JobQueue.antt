-- ===== src/JobQueue.antt =====
-- The durable queue of AI jobs: backend/app/services/job_queue.py over the table of
-- backend/app/models/ai_job.py, and the endpoints of backend/app/api/jobs.py.
pub mod Job
pub mod Fields
pub mod Store
pub mod Keys
pub mod Enqueue
pub mod Claim
pub mod Marks
pub mod Rows
pub mod Retries
pub mod Order
pub mod Claims
pub mod Sessions
pub mod Dedupe
pub mod Twice
pub mod Queued
pub mod KeyLaws
pub mod Invariant
