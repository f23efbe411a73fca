-- ===== src/Handlers.antt =====
-- The two handlers of backend/app/workers/job_queue.py for a claimed job.
pub mod Payloads
pub mod Queued
pub mod Valid
pub mod RoundTrip
use resume_helper.Base.{
  ℕ, ℤ, pos, Bool, true, false, not, ◌&&◌, Option, none, some, List, [], ◌∷◌, ◌++◌, Text, text_of,
  get_or, or_else, is_some, if◌then◌else◌,
}
use resume_helper.Uuid.{Uuid, uuid_str}
use resume_helper.Json.{Json, null, bool, string, int, other, Payload, get, json_str}
use resume_helper.Tables.{
  JobAnalysis, AnalysisStatus, ready_to_submit, needs_tailoring, skip, step_tailor,
}
use resume_helper.Errors.{WorkerError, coded, unexpected, Attempt, ok, fails}
use resume_helper.Settings.{Settings, prompt_version_for_step}
use resume_helper.JobQueue.Job.{
  JobStatus, queued, running, retry_wait, cancel_requested, cancelled, succeeded, failed,
}
use resume_helper.JobQueue.Store.{Db, get_job}
use resume_helper.JobQueue.Marks.{is_cancel_requested}
use resume_helper.JobQueue.Enqueue.{
  Outcome, returned, raised, QueueError, integrity_error, value_error, JobRef, TailorIn,
  enqueue_tailoring_job,
}
use resume_helper.JobQueue.Claim.{ClaimedAiJob, job_analysis_id_from_claim}
use resume_helper.Audit.{LlmClient}
use resume_helper.Evaluation.{EvaluateEnv, evaluate_jd}
use resume_helper.Tailoring.{
  Poll, TailorEnv, TailoringResult, TailoringStatus, tailoring_status_succeeded,
  tailoring_status_failed,
}
use resume_helper.Tailoring.Run.{run_tailoring}
use resume_helper.Worker.{Handlers, Execution, done, broken}
use resume_helper.Handlers.Payloads.{EvaluateRequest, evaluate_request, optional_string}

-- `EvaluateOut`
pub record EvaluateOut : Type 0 where
  pub job_analysis_id : Uuid
  pub score : ℤ
  pub explanation : Text
  pub strengths : List Text
  pub gaps : List Text
  pub threshold_met : Bool
  pub status : AnalysisStatus
  pub message : Text
  pub action : Text
  pub prompt_version : Option Text
  pub llm_backend : Option Text
  pub llm_model : Option Text
  pub tailoring_job_id : Option Uuid
  pub tailoring_status : Option JobStatus

-- What the handlers do not decide: what the evaluation, the run and the call of the queue do not, which
-- polls raise, the text of an exception, and the text of a dumped `EvaluateOut`.
pub record HandlerEnv : Type 0 where
  pub settings : Settings
  pub llm : LlmClient
  pub evaluation : EvaluateEnv
  pub tailoring : TailorEnv
  pub enqueue_now : ℕ
  pub enqueue_id : Uuid
  pub enqueue_others : Db → Db
  pub poll_raises : ℕ → Bool
  pub message : Text
  pub dump : EvaluateOut → Text

unfoldable pub evaluate_message_and_action : AnalysisStatus → ℤ → Option Text → Text × Text
evaluate_message_and_action ready_to_submit score skip_reason = (
  text_of "Score "
      ++ json_str (int score)
      ++ text_of ": Excellent match. Resume is ready to submit.",
  text_of "none",
)
evaluate_message_and_action needs_tailoring score skip_reason = (
  text_of "Score "
      ++ json_str (int score)
      ++ text_of ": Good match. Tailoring resume in background.",
  text_of "tailoring",
)
evaluate_message_and_action skip score skip_reason = (
  text_of "Score "
      ++ json_str (int score)
      ++ text_of ": Low match. Skipping this job. "
      ++ get_or skip_reason [],
  text_of "skip",
)

-- The values of the column `status`.
unfoldable pub job_status_name : JobStatus → Text
job_status_name queued = text_of "queued"
job_status_name running = text_of "running"
job_status_name retry_wait = text_of "retry_wait"
job_status_name cancel_requested = text_of "cancel_requested"
job_status_name cancelled = text_of "cancelled"
job_status_name succeeded = text_of "succeeded"
job_status_name failed = text_of "failed"

abbrev pub ref_id : Option JobRef → Option Uuid
ref_id none = none
ref_id (some ref) = some ref.id

abbrev pub ref_status : Option JobRef → Option JobStatus
ref_status none = none
ref_status (some ref) = some ref.status

abbrev pub id_value : Option Uuid → Json
id_value none = null
id_value (some id) = string (uuid_str id)

abbrev pub status_value : Option JobStatus → Json
status_value none = null
status_value (some s) = string (job_status_name s)

unfoldable pub evaluate_out : JobAnalysis → AnalysisStatus → Option JobRef → EvaluateOut
evaluate_out job status ref =
    let score = get_or job.score (pos 0) in
    let said = evaluate_message_and_action status score job.skip_reason in
    record {
      job_analysis_id = job.id;
      score = score;
      explanation = get_or job.explanation [];
      strengths = job.strengths;
      gaps = job.gaps;
      threshold_met = job.threshold_met;
      status = status;
      message = said.0;
      action = said.1;
      prompt_version = job.prompt_version;
      llm_backend = job.llm_backend;
      llm_model = job.llm_model;
      tailoring_job_id = ref_id ref;
      tailoring_status = ref_status ref;
    }

-- The dict that becomes the job's result.
unfoldable pub evaluate_result : HandlerEnv → JobAnalysis → Bool → Option JobRef → Payload
evaluate_result env job cached ref =
    let status = get_or job.status skip in
    ("cached", bool cached)
    ∷ ("job_analysis_id", string (uuid_str job.id))
    ∷ ("tailoring_job_id", id_value (ref_id ref))
    ∷ ("tailoring_status", status_value (ref_status ref))
    ∷ ("evaluation", other (env.dump (evaluate_out job status ref)))
    ∷ []

abbrev pub queue_exception : HandlerEnv → QueueError → WorkerError
queue_exception env integrity_error = unexpected (text_of "IntegrityError") env.message
queue_exception env value_error = unexpected (text_of "ValueError") env.message

-- The tailoring job, for an analysis that needs it.
unfoldable pub enqueue_if_needed :
    HandlerEnv → EvaluateRequest → JobAnalysis → Db → Db × Outcome (Option JobRef)
enqueue_if_needed env request job db = elim (get_or job.status skip) [
  | needs_tailoring ↦
      enqueue_tailoring_job env.enqueue_now env.enqueue_id env.enqueue_others
        (record {
          job_analysis_id = job.id;
          prompt_version = some request.tailor_prompt_version;
          request_id = request.request_id;
        })
        db
  | _ ↦ (db, returned none)
]

abbrev pub evaluate_cancelled : WorkerError
evaluate_cancelled = coded (text_of "job_cancelled") (text_of "evaluate job was cancelled")

abbrev pub queued_result :
    HandlerEnv → JobAnalysis → Bool → Db × Outcome (Option JobRef) → Db × Execution
queued_result env job cached (db, returned ref) = (db, done (evaluate_result env job cached ref))
queued_result env job cached (db, raised e) = (db, broken (queue_exception env e))

-- After the evaluation. The row is read as it was stored.
unfoldable pub after_evaluation :
    HandlerEnv → ClaimedAiJob → EvaluateRequest → Db × Attempt (JobAnalysis × Bool) → Db × Execution
after_evaluation env claimed request (db, fails e) = (db, broken e)
after_evaluation env claimed request (db, ok (job, cached)) =
    if is_cancel_requested db claimed.id
    then (db, broken evaluate_cancelled)
    else queued_result env job cached (enqueue_if_needed env request job db)

-- `set_request_id` gives the audit rows the job's request id, where it has one.
abbrev pub with_request : Option Text → EvaluateEnv → EvaluateEnv
with_request request_id env = record env {
  audit = record (env.audit) {
    current_request_id = or_else request_id env.audit.current_request_id;
  };
}

unfoldable pub evaluate_claimed :
    HandlerEnv → EvaluateRequest → Db → Db × Attempt (JobAnalysis × Bool)
evaluate_claimed env request db =
    evaluate_jd (with_request request.request_id env.evaluation) env.llm request.jd_text
      request.prompt_version env.settings.resume_gen_threshold (some request.profile_id) db

unfoldable pub execute_evaluate_job : HandlerEnv → ClaimedAiJob → Db → Db × Execution
execute_evaluate_job env claimed db = elim (evaluate_request env.settings claimed.input_payload) [
  | fails e ↦ (db, broken e)
  | ok request ↦
      if is_cancel_requested db claimed.id
      then (db, broken evaluate_cancelled)
      else after_evaluation env claimed request (evaluate_claimed env request db)
]

-- What the worker makes of the result of a run; an exception of the run goes on to it.
unfoldable pub tailored_execution : Attempt TailoringResult → Execution
tailored_execution (fails e) = broken e
tailored_execution (ok result) = elim result.status [
  | tailoring_status_succeeded ↦ done (
      ("job_analysis_id", string (uuid_str result.job_analysis_id))
      ∷ ("generated_resume_id", id_value result.generated_resume_id)
      ∷ [])
  | tailoring_status_failed ↦ broken (
      coded (get_or result.error_code (text_of "tailor_failed"))
        (get_or result.error_message (text_of "tailoring failed")))
]

abbrev pub tailored_result : Db × Attempt TailoringResult → Db × Execution
tailored_result p = (p.0, tailored_execution p.1)

-- `lambda: _is_cancel_requested(session_factory, job_id=claimed.id)`
abbrev pub cancel_poll : HandlerEnv → ClaimedAiJob → Poll
cancel_poll env claimed n db =
    if env.poll_raises n then none else some (is_cancel_requested db claimed.id)

-- `run_tailoring` with what the claim holds.
unfoldable pub tailor_claimed : HandlerEnv → ClaimedAiJob → Uuid → Db → Db × Attempt TailoringResult
tailor_claimed env claimed id db =
    run_tailoring env.tailoring env.llm (some (cancel_poll env claimed)) id
      (optional_string (get "prompt_version" claimed.input_payload))
      (optional_string (get "request_id" claimed.input_payload)) db

unfoldable pub execute_tailor_job : HandlerEnv → ClaimedAiJob → Db → Db × Execution
unfolding tailor_claimed tailored_execution
execute_tailor_job env claimed db = elim (job_analysis_id_from_claim claimed) [
  | none ↦ (db, broken (unexpected (text_of "ValueError") env.message))
  | some id ↦ tailored_result (tailor_claimed env claimed id db)
]

unfoldable pub worker_handlers : HandlerEnv → Handlers
worker_handlers env = record {
  run_tailor = execute_tailor_job env;
  run_evaluate = execute_evaluate_job env;
}
