-- ===== src/Handlers/Valid.antt =====
-- A worker's round with the handlers of backend/app/workers/job_queue.py keeps the table of jobs valid.
use resume_helper.Base.{
  subst, sym, ap, ℕ, zero, suc, ℤ, ◌≡◌, refl, inl, inr, Bool, Option, none, some, Text, All,
  Bool-cases, Option-cases, get_or,
}
use resume_helper.Uuid.{Uuid}
use resume_helper.Json.{get}
use resume_helper.Tables.{JobAnalysis, AnalysisStatus, ready_to_submit, needs_tailoring, skip}
use resume_helper.Errors.{Attempt, Attempt, ok, fails, Attempt-cases}
use resume_helper.JobQueue.Job.{
  JobKind, tailor, evaluate, evaluate_bulk, evaluate_listing, evaluate_pending_listings,
}
use resume_helper.JobQueue.Store.{Db}
use resume_helper.JobQueue.Enqueue.{Outcome, returned, raised, JobRef}
use resume_helper.JobQueue.Marks.{is_cancel_requested}
use resume_helper.JobQueue.Claim.{ClaimedAiJob, claim_next_job, job_analysis_id_from_claim}
use resume_helper.JobQueue.Invariant.Table.{IsValid}
use resume_helper.JobQueue.Invariant.Rows.{IsWellFormed}
use resume_helper.JobQueue.Rows.{NoClash}
use resume_helper.JobQueue.Invariant.Enqueue.{enqueue_tailoring_job-IsValid}
use resume_helper.JobQueue.Invariant.Workers.{
  claim_next_job-IsValid, mark_job_succeeded-IsValid, mark_job_failed-IsValid,
}
use resume_helper.Audit.{LlmClient}
use resume_helper.Evaluation.{EvaluateEnv}
use resume_helper.Evaluation.States.{
  EvaluateState, same, audited, stored, evaluate_jd-EvaluateState,
}
use resume_helper.Tailoring.{TailorEnv, Poll, TailoringResult}
use resume_helper.Tailoring.Outcomes.{
  later, TailoringOutcome, failed, succeeded, raised, run_tailoring-TailoringOutcome,
}
use resume_helper.Worker.{
  Round, Execution, done, broken, error_details, execute_claimed_job, run_job_queue_once, report,
  report_failure, report_success, after_claim, is_cancelled,
}
use resume_helper.Handlers.{
  HandlerEnv, worker_handlers, execute_evaluate_job, evaluate_claimed, execute_tailor_job,
  after_evaluation, cancel_poll, tailor_claimed, enqueue_if_needed, queued_result, with_request,
}
use resume_helper.Handlers.Payloads.{EvaluateRequest, evaluate_request, optional_string}

-- The other tables do not count.
IsValid-jobs : (v w : Db) → w.jobs ≡ v.jobs → IsValid v → IsValid w
IsValid-jobs v w e valid = record {
  rows = subst (λ jobs. All IsWellFormed jobs) (sym e) valid.rows;
  constraints = subst NoClash (sym e) valid.constraints;
}

evaluated-IsValid :
    (env : EvaluateEnv) (llm : LlmClient) (jd_text prompt_version : Text) (threshold : ℤ)
    (db after : Db)
    → IsValid db
    → IsValid (env.others db)
    → EvaluateState env llm jd_text prompt_version threshold db after
    → IsValid after
evaluated-IsValid env llm jd_text prompt_version threshold db after v o (same e) =
    IsValid-jobs db after (ap (λ d. d.jobs) e) v
evaluated-IsValid env llm jd_text prompt_version threshold db after v o (audited e) =
    IsValid-jobs (env.others db) after (ap (λ d. d.jobs) e) o
evaluated-IsValid env llm jd_text prompt_version threshold db after v o (stored id result range e) =
    IsValid-jobs (env.others db) after (ap (λ d. d.jobs) e) o

later-IsValid :
    (env : TailorEnv) (db : Db)
    → ((n : ℕ) (u : Db) → IsValid u → IsValid (env.others n u))
    → IsValid db
    → (n : ℕ) → IsValid (later env n db)
later-IsValid env db keep v zero = v
later-IsValid env db keep v (suc n) = keep n (later env n db) (later-IsValid env db keep v n)

tailored-IsValid :
    (env : TailorEnv) (poll : Option Poll) (id : Uuid) (db : Db) (p : Db × Attempt TailoringResult)
    → ((n : ℕ) → IsValid (later env n db))
    → TailoringOutcome env poll id db p
    → IsValid p.0
tailored-IsValid env poll id db p v (failed n result answer status e) =
    IsValid-jobs (later env n db) p.0 (ap (λ d. d.jobs) e) (v n)
tailored-IsValid env poll id db p v (succeeded baseline resume own end chosen there calm e) =
    IsValid-jobs (later env 4 db) p.0 (ap (λ d. d.jobs) e) (v 4)
tailored-IsValid env poll id db p v (raised baseline resume own end chosen gone calm e) =
    IsValid-jobs (later env 4 db) p.0 (ap (λ d. d.jobs) e) (v 4)

-- Other sessions keep the table valid at every point where a handler lets them go on.
pub record IsQuiet (env : HandlerEnv) : Type 0 where
  pub evaluating : (u : Db) → IsValid u → IsValid (env.evaluation.others u)
  pub tailoring : (n : ℕ) (u : Db) → IsValid u → IsValid (env.tailoring.others n u)
  pub enqueueing : (u : Db) → IsValid u → IsValid (env.enqueue_others u)

enqueue_if_needed-IsValid :
    (env : HandlerEnv) (request : EvaluateRequest) (job : JobAnalysis) (db : Db)
    → IsQuiet env
    → IsValid db
    → IsValid (enqueue_if_needed env request job db).0
unfolding enqueue_if_needed
enqueue_if_needed-IsValid env request job db q v = go (get_or job.status skip) refl
  where
    go :
        (s : AnalysisStatus)
        → get_or job.status skip ≡ s
        → IsValid (enqueue_if_needed env request job db).0
    go needs_tailoring e =
        rw (e, enqueue_if_needed)
          (enqueue_tailoring_job-IsValid env.enqueue_now env.enqueue_id env.enqueue_others _ db v
            (q.enqueueing db v))
    go ready_to_submit e = rw (e, enqueue_if_needed) v
    go skip e = rw (e, enqueue_if_needed) v

queued_result-IsValid :
    (env : HandlerEnv) (job : JobAnalysis) (cached : Bool) (p : Db × Outcome (Option JobRef))
    → IsValid p.0
    → IsValid (queued_result env job cached p).0
queued_result-IsValid env job cached (db, returned ref) v = v
queued_result-IsValid env job cached (db, raised e) v = v

after_evaluation-IsValid :
    (env : HandlerEnv) (claimed : ClaimedAiJob) (request : EvaluateRequest)
    (p : Db × Attempt (JobAnalysis × Bool))
    → IsQuiet env
    → IsValid p.0
    → IsValid (after_evaluation env claimed request p).0
unfolding after_evaluation
after_evaluation-IsValid env claimed request (db, fails e) q v = v
after_evaluation-IsValid env claimed request (db, ok (job, cached)) q v =
    elim (Bool-cases (is_cancel_requested db claimed.id)) [
      | inl e ↦ rw (e, after_evaluation) v
      | inr e ↦
          rw (e, after_evaluation)
            (queued_result-IsValid env job cached (enqueue_if_needed env request job db)
              (enqueue_if_needed-IsValid env request job db q v))
    ]

pub evaluate_claimed-IsValid :
    (env : HandlerEnv) (request : EvaluateRequest) (db : Db)
    → IsQuiet env
    → IsValid db
    → IsValid (evaluate_claimed env request db).0
unfolding evaluate_claimed
evaluate_claimed-IsValid env request db q v =
    let env' = with_request request.request_id env.evaluation in
    let threshold = env.settings.resume_gen_threshold in
    evaluated-IsValid env' env.llm request.jd_text request.prompt_version threshold db _ v
      (q.evaluating db v)
      (evaluate_jd-EvaluateState env' env.llm request.jd_text request.prompt_version threshold
        (some request.profile_id) db)

execute_evaluate_job-IsValid :
    (env : HandlerEnv) (claimed : ClaimedAiJob) (db : Db)
    → IsQuiet env
    → IsValid db
    → IsValid (execute_evaluate_job env claimed db).0
unfolding execute_evaluate_job
execute_evaluate_job-IsValid env claimed db q v =
    elim (Attempt-cases (evaluate_request env.settings claimed.input_payload)) [
      | inl (x, e) ↦ rw (e, execute_evaluate_job) v
      | inr (request, e) ↦ elim (Bool-cases (is_cancel_requested db claimed.id)) [
        | inl f ↦ rw (e, f, execute_evaluate_job) v
        | inr f ↦
            rw (e, f, execute_evaluate_job)
              (after_evaluation-IsValid env claimed request (evaluate_claimed env request db) q
                (evaluate_claimed-IsValid env request db q v))
      ]
    ]

execute_tailor_job-IsValid :
    (env : HandlerEnv) (claimed : ClaimedAiJob) (db : Db)
    → IsQuiet env
    → IsValid db
    → IsValid (execute_tailor_job env claimed db).0
unfolding execute_tailor_job
execute_tailor_job-IsValid env claimed db q v =
    elim (Option-cases (job_analysis_id_from_claim claimed)) [
      | inl e ↦ rw (e, execute_tailor_job) v
      | inr (id, e) ↦
          let poll = some (cancel_poll env claimed) in
          let p = tailor_claimed env claimed id db in
          let outcome : TailoringOutcome env.tailoring poll id db p =
            unfold tailor_claimed in
            run_tailoring-TailoringOutcome env.tailoring env.llm poll id
              (optional_string (get "prompt_version" claimed.input_payload))
              (optional_string (get "request_id" claimed.input_payload)) db in
          rw (e, execute_tailor_job)
            (tailored-IsValid env.tailoring poll id db p
              (later-IsValid env.tailoring db q.tailoring v) outcome)
    ]

execute_claimed_job-IsValid :
    (env : HandlerEnv) (kind : JobKind) (claimed : ClaimedAiJob) (db : Db)
    → IsQuiet env
    → IsValid db
    → IsValid (execute_claimed_job (worker_handlers env) kind claimed db).0
unfolding execute_claimed_job worker_handlers
execute_claimed_job-IsValid env tailor claimed db q v =
    execute_tailor_job-IsValid env claimed db q v
execute_claimed_job-IsValid env evaluate claimed db q v =
    execute_evaluate_job-IsValid env claimed db q v
execute_claimed_job-IsValid env evaluate_bulk claimed db q v = v
execute_claimed_job-IsValid env evaluate_listing claimed db q v = v
execute_claimed_job-IsValid env evaluate_pending_listings claimed db q v = v

report-IsValid :
    (now : ℕ) (claimed : ClaimedAiJob) (p : Db × Execution)
    → IsValid p.0
    → IsValid (report now claimed p).0
unfolding report_success report_failure
report-IsValid now claimed (db, done result) v =
    mark_job_succeeded-IsValid now claimed.id (some result) db v
report-IsValid now claimed (db, broken e) v =
    let (code, message) = error_details e in
    mark_job_failed-IsValid now claimed.id code message db v

after_claim-IsValid :
    (env : HandlerEnv) (round : Round) (p : Db × Option ClaimedAiJob)
    → IsQuiet env
    → IsValid p.0
    → IsValid (after_claim (worker_handlers env) round p).0
after_claim-IsValid env round (db, none) q v = v
after_claim-IsValid env round (db, some claimed) q v =
    elim (Bool-cases (is_cancelled claimed.status)) [
      | inl e ↦ rw e v
      | inr e ↦ rw e (
          report-IsValid round.report_time claimed
            (execute_claimed_job (worker_handlers env) claimed.kind claimed db)
            (execute_claimed_job-IsValid env claimed.kind claimed db q v))
    ]

-- A round of the worker with its own handlers keeps the table of jobs valid, whatever job it claims,
-- however its LLM, its polls and its PDF answer, and whether it reports a success, a failure or
-- nothing, so long as the other sessions keep the table valid while a handler waits for them.
pub run_job_queue_once-IsValid :
    (env : HandlerEnv) (kind : Option JobKind) (round : Round) (db : Db)
    → IsQuiet env
    → IsValid db
    → IsValid (run_job_queue_once (worker_handlers env) kind round db).0
unfolding run_job_queue_once
run_job_queue_once-IsValid env kind round db q v =
    after_claim-IsValid env round (claim_next_job kind round.claim_time round.locked db) q
      (claim_next_job-IsValid kind round.claim_time round.locked db v)
