-- ===== src/JobQueue/Fields.antt =====
-- The helpers of backend/app/services/job_queue.py that write the fields of one row. Each reads the
-- clock once, which is the argument `now`.
use resume_helper.Base.{
  ℕ, ◌+◌, ◌-◌, ◌*◌, ◌^◌, min, Bool, false, Option, none, some, ◌||◌, [], Text, nonempty, or_nat,
  if◌then◌else◌,
}
use resume_helper.Json.{Payload, merge}
use resume_helper.JobQueue.Job.{AiJob, JobStatus, PayloadColumn, dict, not_dict, queued, retry_wait}

-- `bool(text)` of an optional string.
abbrev pub given : Option Text → Bool
given none = false
given (some s) = nonempty s

-- The dict of a payload column, `{}` if it holds none.
abbrev pub payload_of : PayloadColumn → Payload
payload_of (dict p) = p
payload_of not_dict = []

unfoldable pub clear_error_fields : AiJob → AiJob
clear_error_fields job = record job { error_code = none; error_message = none }

unfoldable pub merge_payload : Payload → AiJob → AiJob
merge_payload payload job = record job {
  input_payload = dict (merge (payload_of job.input_payload) payload);
}

unfoldable pub set_queued_fields : ℕ → Payload → AiJob → AiJob
unfolding clear_error_fields merge_payload
set_queued_fields now payload job =
    let queued_job = record job {
      status = queued;
      run_after = now;
      started_at = none;
      finished_at = none;
      locked_at = none;
      locked_by = none;
      updated_at = now;
    } in
    merge_payload payload (clear_error_fields queued_job)

unfoldable pub set_terminal_fields : ℕ → JobStatus → Option Text → Option Text → AiJob → AiJob
set_terminal_fields now status error_code error_message job =
    let ended = record job {
      status = status;
      finished_at = some now;
      locked_at = none;
      locked_by = none;
      updated_at = now;
    } in
    if given error_code || given error_message
    then record ended { error_code = error_code; error_message = error_message }
    else ended

abbrev pub second : ℕ
second = 1_000_000

-- `min(60 * (2 ** max((job.attempts or 1) - 1, 0)), 900)`; subtraction stops at 0, as `max` does.
unfoldable pub backoff_seconds : ℕ → ℕ
backoff_seconds attempts = min (60 * 2 ^ (or_nat attempts 1 - 1)) 900

unfoldable pub set_retry_wait_fields : ℕ → Text → Text → AiJob → AiJob
set_retry_wait_fields now error_code error_message job = record job {
  status = retry_wait;
  run_after = now + backoff_seconds job.attempts * second;
  finished_at = none;
  locked_at = none;
  locked_by = none;
  updated_at = now;
  error_code = some error_code;
  error_message = some error_message;
}
