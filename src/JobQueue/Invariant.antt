-- ===== src/JobQueue/Invariant.antt =====
-- What the functions of backend/app/services/job_queue.py and the cancel endpoint of
-- backend/app/api/jobs.py keep true of a row and of the table.
pub mod Rows
pub mod Table
pub mod Enqueue
pub mod Workers
pub mod Reach
