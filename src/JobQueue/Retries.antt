-- ===== src/JobQueue/Retries.antt =====
-- Retries of backend/app/services/job_queue.py: the delay between two runs, the number of runs, and
-- what a requeue leaves of it.
use native.Mathlib.Nat.{pow-suc}
use resume_helper.Base.{
  ℕ, zero, suc, ◌+◌, ◌-◌, ◌*◌, ◌^◌, ◌≤◌, ◌<◌, ◌≡◌, refl, true, false, Option, Text, or_nat, ltb,
  arith, if◌then◌else◌,
}
use resume_helper.JobQueue.Job.{AiJob, JobKind, retry_wait, cancelled, failed}
use resume_helper.JobQueue.Fields.{backoff_seconds, second}
use resume_helper.JobQueue.Enqueue.{EvaluateIn, requeue_evaluate}
use resume_helper.JobQueue.Claim.{is_due, start_job}
use resume_helper.JobQueue.Invariant.Rows.{is_held}
use resume_helper.JobQueue.Marks.{fail_job, cancel_row}

pow_pos : (n : ℕ) → 1 ≤ 2 ^ n
pow_pos zero = omega arith
pow_pos (suc n) = rw pow-suc (omega (arith, pow_pos n))

pow_mono : (m n : ℕ) → m ≤ n → 2 ^ m ≤ 2 ^ n
pow_mono zero n h = pow_pos n
pow_mono (suc m) zero h = absurd (omega arith)
pow_mono (suc m) (suc n) h =
    rw (pow-suc 2 m, pow-suc 2 n) (omega (arith, pow_mono m n (omega arith)))

-- The delay is between one minute and fifteen, and never shrinks from one failed run to a later one.
pub backoff_seconds_bounds :
    (a b : ℕ)
    → a ≤ b
    → (60 ≤ backoff_seconds a) × (backoff_seconds a ≤ backoff_seconds b) × (backoff_seconds b ≤ 900)
unfolding backoff_seconds
backoff_seconds_bounds a b h =
    let mono : 2 ^ (or_nat a 1 - 1) ≤ 2 ^ (or_nat b 1 - 1) = pow_mono _ _ (ground arith) in
    (omega (arith, pow_pos (or_nat a 1 - 1)), omega arith, omega arith)

-- A row whose run has failed is claimed again only after its delay, and only if it was not being
-- cancelled and had runs left.
pub is_due-fail_job :
    (kind : Option JobKind) (now later : ℕ) (code message : Text) (job : AiJob)
    → is_due kind later (fail_job now code message job) ≡ true
    → (now + backoff_seconds job.attempts * second ≤ later)
      × (job.attempts < or_nat job.max_attempts 1)
unfolding is_due fail_job
is_due-fail_job kind now later code message job h = ground arith

-- `n` runs that all fail, each claimed and reported at the times given.
pub failed_runs : ℕ → (ℕ → ℕ) → Text → Text → AiJob → AiJob
failed_runs zero clock code message job = job
failed_runs (suc n) clock code message job =
    fail_job (clock n) code message (start_job (clock n) (failed_runs n clock code message job))

attempts-failed_runs :
    (n : ℕ) (clock : ℕ → ℕ) (code message : Text) (job : AiJob)
    → ((failed_runs n clock code message job).attempts ≡ job.attempts + n)
      × ((failed_runs n clock code message job).max_attempts ≡ job.max_attempts)
unfolding failed_runs fail_job start_job
attempts-failed_runs zero clock code message job = (omega arith, refl)
attempts-failed_runs (suc n) clock code message job =
    ground (arith, attempts-failed_runs n clock code message job)

-- A job that keeps failing waits for a retry after each run until its runs are used up, and is failed
-- from then on: it is run `max_attempts - attempts` times.
pub failed_runs_status :
    (n : ℕ) (clock : ℕ → ℕ) (code message : Text) (job : AiJob)
    → (failed_runs (suc n) clock code message job).status
      ≡ (if ltb (job.attempts + suc n) (or_nat job.max_attempts 1) then retry_wait else failed)
unfolding failed_runs fail_job start_job
failed_runs_status n clock code message job =
    ground (arith, attempts-failed_runs n clock code message job)

-- Queueing a failed job again does not give it new runs: the next failure ends it at once.
pub requeue_keeps_attempts :
    (t u v : ℕ) (a : EvaluateIn) (code message : Text) (job : AiJob)
    → or_nat job.max_attempts 1 ≤ job.attempts
    → (fail_job v code message (start_job u (requeue_evaluate t a job))).status ≡ failed
unfolding fail_job start_job requeue_evaluate
requeue_keeps_attempts t u v a code message job h = ground arith

-- No claim takes a row that `cancel_job` has seen, and a failure of the run that it interrupts ends the
-- job as cancelled, with no retry.
pub cancel_row_sticks :
    (kind : Option JobKind) (now later t : ℕ) (code message : Text) (job : AiJob)
    → is_held job.status ≡ true
    → (is_due kind later (cancel_row job.status now job) ≡ false)
      × (is_due kind later (fail_job t code message (cancel_row job.status now job)) ≡ false)
      × ((fail_job t code message (cancel_row job.status now job)).status ≡ cancelled)
unfolding is_due cancel_row fail_job
cancel_row_sticks kind now later t code message job h = ground arith
