-- ===== src/JobQueue/Sessions.antt =====
-- Several workers at once: `claim_next_job` of backend/app/services/job_queue.py as the two moments
-- that other sessions see, the SELECT ... FOR UPDATE SKIP LOCKED and the COMMIT.
mod Steps
mod Holders
mod Exclusive
mod Starvation
pub use Steps.{World, Step, select, commit, write, add, Reach, here, next}
unfoldable pub use Steps.{ids, locked_ids, commit_claim}
pub use Holders.{holders}
pub use Exclusive.{Reach-excludes}
pub use Starvation.{select_starves, select-commit}
