-- ===== src/JobQueue/Job.antt =====
-- backend/app/models/ai_job.py: a row of `ai_jobs`. An id is the number of its UUID, a time is a
-- count of microseconds, and the columns with a check for a sign are naturals.
use resume_helper.Base.{
  ℕ, ℤ, pos, Bool, true, false, Option, none, [], Text, text_of, ◌==◌, ◌≡◌, arith, ◌↔◌,
}
use resume_helper.Uuid.{Uuid}
use resume_helper.Json.{Payload}

pub data JobStatus : Type 0 where
  queued running retry_wait cancel_requested cancelled succeeded failed : JobStatus

pub data JobKind : Type 0 where
  tailor evaluate evaluate_bulk evaluate_listing evaluate_pending_listings : JobKind

-- A JSON column may hold a value that is no object.
pub data PayloadColumn : Type 0 where
  dict : Payload → PayloadColumn
  not_dict : PayloadColumn

pub record AiJob : Type 0 where
  pub id : Uuid
  pub kind : JobKind
  pub status : JobStatus
  pub parent_job_id : Option Uuid
  pub dedupe_key : Option Text
  pub priority : ℤ
  pub run_after : ℕ
  pub attempts : ℕ
  pub max_attempts : ℕ
  pub locked_by : Option Text
  pub locked_at : Option ℕ
  pub started_at : Option ℕ
  pub finished_at : Option ℕ
  pub progress_current : ℕ
  pub progress_total : Option ℕ
  pub profile_id : Option ℕ
  pub job_analysis_id : Option Uuid
  pub job_listing_id : Option Uuid
  pub generated_resume_id : Option Uuid
  pub prompt_version : Option Text
  pub request_id : Option Text
  pub input_payload : PayloadColumn
  pub result_payload : Option Payload
  pub error_code : Option Text
  pub error_message : Option Text
  pub created_at : ℕ
  pub updated_at : ℕ

-- A new row with the defaults of the columns, before its arguments are set.
abbrev pub new_job : Uuid → JobKind → ℕ → AiJob
new_job id kind now = record {
  id = id;
  kind = kind;
  status = queued;
  parent_job_id = none;
  dedupe_key = none;
  priority = pos 0;
  run_after = now;
  attempts = 0;
  max_attempts = 3;
  locked_by = none;
  locked_at = none;
  started_at = none;
  finished_at = none;
  progress_current = 0;
  progress_total = none;
  profile_id = none;
  job_analysis_id = none;
  job_listing_id = none;
  generated_resume_id = none;
  prompt_version = none;
  request_id = none;
  input_payload = dict [];
  result_payload = none;
  error_code = none;
  error_message = none;
  created_at = now;
  updated_at = now;
}

-- `status in CLAIMABLE_JOB_STATUSES`
abbrev pub is_claimable : JobStatus → Bool
is_claimable queued = true
is_claimable retry_wait = true
is_claimable _ = false

-- `status in TERMINAL_JOB_STATUSES`
abbrev pub is_terminal : JobStatus → Bool
is_terminal succeeded = true
is_terminal failed = true
is_terminal cancelled = true
is_terminal _ = false

-- The values of the column `kind`.
unfoldable pub kind_name : JobKind → Text
kind_name tailor = text_of "tailor"
kind_name evaluate = text_of "evaluate"
kind_name evaluate_bulk = text_of "evaluate_bulk"
kind_name evaluate_listing = text_of "evaluate_listing"
kind_name evaluate_pending_listings = text_of "evaluate_pending_listings"

abbrev kind_code : JobKind → ℕ
kind_code tailor = 0
kind_code evaluate = 1
kind_code evaluate_bulk = 2
kind_code evaluate_listing = 3
kind_code evaluate_pending_listings = 4

unfoldable pub kind_eq : JobKind → JobKind → Bool
kind_eq a b = kind_code a == kind_code b

pub kind_eq_iff : (a b : JobKind) → (kind_eq a b ≡ true) ↔ (a ≡ b)
unfolding kind_eq
kind_eq_iff a b = ground arith
