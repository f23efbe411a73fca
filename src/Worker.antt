-- ===== src/Worker.antt =====
-- backend/app/workers/job_queue.py: one round of the worker and its loop. The two handlers of a claimed
-- job are arguments here: what they and other sessions commit while a handler runs is the table that
-- it returns, and a handler that raises returns its exception.
pub mod Rounds
use resume_helper.Base.{
  ℕ, suc, ◌+◌, Bool, true, false, Option, none, some, List, [], ◌∷◌, ◌++◌, Text, text_of, take,
  get_or, leb, or_none, if◌then◌else◌,
}
use resume_helper.Uuid.{Uuid}
use resume_helper.Json.{Payload}
use resume_helper.Errors.{
  WorkerError, coded, llm_unavailable, llm_invalid_output, unexpected, error_code_for_exception,
  error_message_for_exception,
}
use resume_helper.JobQueue.Job.{
  JobStatus, JobKind, tailor, evaluate, evaluate_bulk, evaluate_listing, evaluate_pending_listings,
  cancelled, failed, succeeded, kind_name,
}
use resume_helper.JobQueue.Store.{Db}
use resume_helper.JobQueue.Enqueue.{Outcome, returned, raised, QueueError, JobRef}
use resume_helper.JobQueue.Claim.{ClaimedAiJob, claim_next_job}
use resume_helper.JobQueue.Marks.{mark_job_succeeded, mark_job_failed}

unfoldable pub truncate_error : Text → Text
truncate_error message = take 240 message

unfoldable pub error_details : WorkerError → Text × Text
unfolding truncate_error error_code_for_exception error_message_for_exception
error_details (coded code message) = (code, truncate_error message)
error_details (llm_unavailable name) =
    let e = llm_unavailable name in
    (error_code_for_exception e, truncate_error (error_message_for_exception e))
error_details (llm_invalid_output name) =
    let e = llm_invalid_output name in
    (error_code_for_exception e, truncate_error (error_message_for_exception e))
error_details (unexpected name message) = (name, truncate_error (get_or (or_none message) name))

pub data Execution : Type 0 where
  done : Payload → Execution
  broken : WorkerError → Execution

abbrev pub Handler : Type 0
Handler = ClaimedAiJob → Db → Db × Execution

pub record Handlers : Type 0 where
  pub run_tailor : Handler
  pub run_evaluate : Handler

unfoldable pub execute_claimed_job : Handlers → JobKind → Handler
execute_claimed_job h tailor claimed db = h.run_tailor claimed db
execute_claimed_job h evaluate claimed db = h.run_evaluate claimed db
execute_claimed_job h kind claimed db = (
  db,
  broken (
      coded (text_of "unsupported_job_kind")
        (text_of "unsupported ai_job kind " ++ kind_name kind)),
)

pub record JobExecutionResult : Type 0 where
  pub id : Uuid
  pub kind : JobKind
  pub status : JobStatus
  pub error_code : Option Text
  pub error_message : Option Text
  pub result : Option Payload

-- What a round does not decide: the times of its claim and its report, and the rows that other
-- sessions have locked at the claim.
pub record Round : Type 0 where
  pub claim_time : ℕ
  pub report_time : ℕ
  pub locked : List Uuid

abbrev pub status_or : Option JobRef → JobStatus → JobStatus
status_or none s = s
status_or (some ref) s = ref.status

-- The `except` branch.
unfoldable pub report_failure :
    ℕ → ClaimedAiJob → WorkerError → Db → Db × Outcome (Option JobExecutionResult)
report_failure now claimed e db =
    let (code, message) = error_details e in
    let (db', ref) = mark_job_failed now claimed.id code message db in
    (
      db',
      returned (
          some (record {
            id = claimed.id;
            kind = claimed.kind;
            status = status_or ref failed;
            error_code = some code;
            error_message = some message;
            result = none;
          })),
    )

abbrev pub success_result :
    ClaimedAiJob → Payload → Outcome (Option JobRef) → Outcome (Option JobExecutionResult)
success_result claimed result (raised e) = raised e
success_result claimed result (returned ref) = returned (
    some (record {
      id = claimed.id;
      kind = claimed.kind;
      status = status_or ref succeeded;
      error_code = none;
      error_message = none;
      result = some result;
    }))

-- An exception of the report leaves the round.
unfoldable pub report_success :
    ℕ → ClaimedAiJob → Payload → Db → Db × Outcome (Option JobExecutionResult)
report_success now claimed result db =
    let (db', o) = mark_job_succeeded now claimed.id (some result) db in
    (db', success_result claimed result o)

abbrev pub report : ℕ → ClaimedAiJob → Db × Execution → Db × Outcome (Option JobExecutionResult)
report now claimed (db, done result) = report_success now claimed result db
report now claimed (db, broken e) = report_failure now claimed e db

abbrev pub is_cancelled : JobStatus → Bool
is_cancelled cancelled = true
is_cancelled _ = false

abbrev pub after_claim :
    Handlers → Round → Db × Option ClaimedAiJob → Db × Outcome (Option JobExecutionResult)
after_claim h round (db, none) = (db, returned none)
after_claim h round (db, some claimed) =
    if is_cancelled claimed.status
    then (
      db,
      returned (
          some (record {
            id = claimed.id;
            kind = claimed.kind;
            status = cancelled;
            error_code = none;
            error_message = none;
            result = none;
          })),
    )
    else report round.report_time claimed (execute_claimed_job h claimed.kind claimed db)

-- `none` says that the queue had nothing to claim.
unfoldable pub run_job_queue_once :
    Handlers → Option JobKind → Round → Db → Db × Outcome (Option JobExecutionResult)
run_job_queue_once h kind round db =
    after_claim h round (claim_next_job kind round.claim_time round.locked db)

-- How a loop ends: by its `return`, by an exception, or not yet when the given rounds are over.
pub data LoopEnd : Type 0 where
  stopped : ℕ → LoopEnd
  crashed : QueueError → LoopEnd
  polling : ℕ → LoopEnd

-- `max_jobs is not None and processed >= max_jobs`
abbrev pub limit_reached : Option ℕ → ℕ → Bool
limit_reached none processed = false
limit_reached (some max_jobs) processed = leb max_jobs processed

-- `result is None`: with a limit the loop returns, without one it sleeps and polls again.
abbrev idle_end : Option ℕ → ℕ → Option LoopEnd
idle_end none processed = none
idle_end (some max_jobs) processed = some (stopped processed)

unfoldable pub run_job_queue_loop :
    Handlers → Option JobKind → Option ℕ → List Round → ℕ → Db → Db × LoopEnd
run_job_queue_loop h kind max_jobs [] processed db = (db, polling processed)
run_job_queue_loop h kind max_jobs (round ∷ rounds) processed db =
    let (db', o) = run_job_queue_once h kind round db in
    elim o [
      | raised e ↦ (db', crashed e)
      | returned none ↦ elim (idle_end max_jobs processed) [
        | none ↦ run_job_queue_loop h kind max_jobs rounds processed db'
        | some end ↦ (db', end)
      ]
      | returned (some result) ↦ elim (limit_reached max_jobs (processed + 1)) [
        | true ↦ (db', stopped (processed + 1))
        | false ↦ run_job_queue_loop h kind max_jobs rounds (processed + 1) db'
      ]
    ]
