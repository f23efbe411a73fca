-- ===== src/JobQueue/Invariant/Rows.antt =====
-- The lease, the times and the error fields of a row fit its status, and each update of a row in
-- backend/app/services/job_queue.py and backend/app/api/jobs.py keeps that so.
use resume_helper.Base.{
  ℕ, ◌≤◌, ◌≡◌, ◌⊎◌, Bool, true, false, Option, none, some, Text, is_some, arith,
}
use resume_helper.Uuid.{Uuid}
use resume_helper.Json.{Payload}
use resume_helper.JobQueue.Job.{
  AiJob, JobStatus, queued, running, cancel_requested, cancelled, succeeded, is_claimable,
  is_terminal,
}
use resume_helper.JobQueue.Fields.{set_queued_fields, set_terminal_fields}
use resume_helper.JobQueue.Enqueue.{
  EvaluateIn, TailorIn, requeue_evaluate, refresh_evaluate, evaluate_job, refresh_tailoring,
  tailoring_job,
}
use resume_helper.JobQueue.Claim.{start_job}
use resume_helper.JobQueue.Marks.{apply_result, complete_progress, fail_job, cancel_row}

-- A worker has the job.
abbrev pub is_held : JobStatus → Bool
is_held running = true
is_held cancel_requested = true
is_held _ = false

pub record IsWellFormed (j : AiJob) : Type 0 where
  pub waiting : is_claimable j.status ≡ true → (j.finished_at ≡ none) × (j.locked_at ≡ none)
  pub held :
      is_held j.status ≡ true
      → (is_some j.started_at ≡ true)
        × (is_some j.locked_at ≡ true)
        × (j.finished_at ≡ none)
        × (1 ≤ j.attempts)
  pub ended : is_terminal j.status ≡ true → (is_some j.finished_at ≡ true) × (j.locked_at ≡ none)
  pub no_error :
      (j.status ≡ queued) ⊎ (j.status ≡ running) → (j.error_code ≡ none) × (j.error_message ≡ none)

pub set_queued_fields-IsWellFormed :
    (now : ℕ) (p : Payload) (j : AiJob) → IsWellFormed (set_queued_fields now p j)
unfolding set_queued_fields
set_queued_fields-IsWellFormed now p j = ground arith

pub requeue_evaluate-IsWellFormed :
    (now : ℕ) (a : EvaluateIn) (j : AiJob) → IsWellFormed (requeue_evaluate now a j)
unfolding requeue_evaluate
requeue_evaluate-IsWellFormed now a j = ground arith

pub refresh_evaluate-IsWellFormed :
    (now : ℕ) (a : EvaluateIn) (j : AiJob)
    → IsWellFormed j
    → IsWellFormed (refresh_evaluate now a j)
unfolding refresh_evaluate
refresh_evaluate-IsWellFormed now a j h = ground arith

pub evaluate_job-IsWellFormed :
    (id : Uuid) (now : ℕ) (key : Text) (a : EvaluateIn) → IsWellFormed (evaluate_job id now key a)
unfolding evaluate_job
evaluate_job-IsWellFormed id now key a = ground arith

pub refresh_tailoring-IsWellFormed :
    (now : ℕ) (a : TailorIn) (j : AiJob) → IsWellFormed j → IsWellFormed (refresh_tailoring now a j)
unfolding refresh_tailoring
refresh_tailoring-IsWellFormed now a j h = ground arith

pub tailoring_job-IsWellFormed :
    (id : Uuid) (now : ℕ) (a : TailorIn) → IsWellFormed (tailoring_job id now a)
unfolding tailoring_job
tailoring_job-IsWellFormed id now a = ground arith

pub start_job-IsWellFormed :
    (now : ℕ) (j : AiJob)
    → is_claimable j.status ≡ true
    → IsWellFormed j
    → IsWellFormed (start_job now j)
unfolding start_job
start_job-IsWellFormed now j c h = ground arith

pub succeed-IsWellFormed :
    (now : ℕ) (result : Option Payload) (j k : AiJob)
    → apply_result result (set_terminal_fields now succeeded none none j) ≡ some k
    → IsWellFormed (complete_progress k)
unfolding apply_result set_terminal_fields complete_progress
succeed-IsWellFormed now result j k e = ground arith

pub fail_job-IsWellFormed :
    (now : ℕ) (code message : Text) (j : AiJob) → IsWellFormed (fail_job now code message j)
unfolding fail_job
fail_job-IsWellFormed now code message j = ground arith

pub cancel-IsWellFormed :
    (now : ℕ) (j : AiJob) → IsWellFormed (set_terminal_fields now cancelled none none j)
unfolding set_terminal_fields
cancel-IsWellFormed now j = ground arith

pub cancel_row-IsWellFormed :
    (now : ℕ) (j : AiJob) → IsWellFormed j → IsWellFormed (cancel_row j.status now j)
unfolding cancel_row
cancel_row-IsWellFormed now j h = ground arith
