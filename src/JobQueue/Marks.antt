-- ===== src/JobQueue/Marks.antt =====
-- `mark_job_succeeded`, `mark_job_failed`, `mark_job_cancelled` and `is_cancel_requested` of
-- backend/app/services/job_queue.py, and `cancel_job` of backend/app/api/jobs.py.
use resume_helper.Base.{ℕ, Bool, true, false, Option, none, some, Text, ltb, or_nat, if◌then◌else◌}
use resume_helper.Uuid.{Uuid, uuid_of}
use resume_helper.Json.{Json, Payload, get, truthy, json_str}
use resume_helper.JobQueue.Job.{
  AiJob, JobStatus, queued, running, retry_wait, cancel_requested, cancelled, succeeded, failed,
}
use resume_helper.JobQueue.Fields.{set_terminal_fields, set_retry_wait_fields}
use resume_helper.JobQueue.Store.{Db, get_job, save}
use resume_helper.JobQueue.Enqueue.{Outcome, returned, raised, value_error, JobRef, job_ref}

-- `if value: uuid.UUID(str(value))`: the id that is read, if any; the outer `none` is a `ValueError`.
unfoldable pub id_of_value : Option Json → Option (Option Uuid)
id_of_value none = some none
id_of_value (some v) =
    if truthy v
    then elim (uuid_of (json_str v)) [ none ↦ none | some u ↦ some (some u) ]
    else some none

abbrev keep_or : Option Uuid → Option Uuid → Option Uuid
keep_or none old = old
keep_or (some u) old = some u

-- What `mark_job_succeeded` takes from the result; `none` is a `ValueError`.
unfoldable pub apply_result : Option Payload → AiJob → Option AiJob
unfolding id_of_value
apply_result none job = some job
apply_result (some result) job = elim (id_of_value (get "job_analysis_id" result)) [
  | none ↦ none
  | some analysis ↦ elim (id_of_value (get "generated_resume_id" result)) [
    | none ↦ none
    | some resume ↦ some (record job {
      result_payload = some result;
      job_analysis_id = keep_or analysis job.job_analysis_id;
      generated_resume_id = keep_or resume job.generated_resume_id;
    })
  ]
]

unfoldable pub complete_progress : AiJob → AiJob
complete_progress job = elim job.progress_total [
  | none ↦ job
  | some total ↦ record job { progress_current = total }
]

-- An exception leaves the session without a commit, so the store is as before.
unfoldable pub mark_job_succeeded : ℕ → Uuid → Option Payload → Db → Db × Outcome (Option JobRef)
mark_job_succeeded now job_id result db = elim (get_job db job_id) [
  | none ↦ (db, returned none)
  | some job ↦ elim (apply_result result (set_terminal_fields now succeeded none none job)) [
    | none ↦ (db, raised value_error)
    | some ended ↦
        let done = complete_progress ended in (save done db, returned (some (job_ref done false)))
  ]
]

abbrev is_cancelling : JobStatus → Bool
is_cancelling cancel_requested = true
is_cancelling _ = false

-- The three branches of `mark_job_failed`.
unfoldable pub fail_job : ℕ → Text → Text → AiJob → AiJob
unfolding set_terminal_fields set_retry_wait_fields
fail_job now error_code error_message job =
    if is_cancelling job.status
    then set_terminal_fields now cancelled none none job
    else if ltb job.attempts (or_nat job.max_attempts 1)
    then set_retry_wait_fields now error_code error_message job
    else set_terminal_fields now failed (some error_code) (some error_message) job

unfoldable pub mark_job_failed : ℕ → Uuid → Text → Text → Db → Db × Option JobRef
mark_job_failed now job_id error_code error_message db = elim (get_job db job_id) [
  | none ↦ (db, none)
  | some job ↦
      let failed_job = fail_job now error_code error_message job in
      (save failed_job db, some (job_ref failed_job false))
]

unfoldable pub mark_job_cancelled : ℕ → Uuid → Db → Db × Option JobRef
mark_job_cancelled now job_id db = elim (get_job db job_id) [
  | none ↦ (db, none)
  | some job ↦
      let ended = set_terminal_fields now cancelled none none job in
      (save ended db, some (job_ref ended false))
]

unfoldable pub is_cancel_requested : Db → Uuid → Bool
is_cancel_requested db job_id = elim (get_job db job_id) [
  | none ↦ false
  | some job ↦ is_cancelling job.status
]

-- The row that `cancel_job` leaves, by the status that it finds.
unfoldable pub cancel_row : JobStatus → ℕ → AiJob → AiJob
cancel_row queued now job = record job {
  status = cancelled;
  finished_at = some now;
  updated_at = now;
}
cancel_row retry_wait now job = record job {
  status = cancelled;
  finished_at = some now;
  updated_at = now;
}
cancel_row running now job = record job { status = cancel_requested; updated_at = now }
cancel_row _ now job = job

-- `POST /jobs/{job_id}/cancel`: `none` is the 404. A row that is left alone is written as it was.
unfoldable pub cancel_job : ℕ → Uuid → Db → Db × Option AiJob
cancel_job now job_id db = elim (get_job db job_id) [
  | none ↦ (db, none)
  | some job ↦ let changed = cancel_row job.status now job in (save changed db, some changed)
]
