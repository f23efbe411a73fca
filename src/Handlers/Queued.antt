-- ===== src/Handlers/Queued.antt =====
-- No evaluation of backend/app/workers/job_queue.py succeeds and leaves an analysis that needs tailoring
-- without its job.
use resume_helper.Base.{
  subst, sym, ap, ◌≡◌, ◌∙◌, ◌⊎◌, refl, inl, inr, Bool, true, Option, some, arith, Bool-cases,
  get_or,
}
use resume_helper.Json.{Payload}
use resume_helper.Tables.{JobAnalysis, needs_tailoring, skip}
use resume_helper.Errors.{ok}
use resume_helper.JobQueue.Store.{Db, has_generated_resume}
use resume_helper.JobQueue.Enqueue.{
  Outcome, returned, raised, JobRef, TailorIn, enqueue_tailoring_job,
}
use resume_helper.JobQueue.Marks.{is_cancel_requested}
use resume_helper.JobQueue.Claim.{ClaimedAiJob}
use resume_helper.JobQueue.Invariant.Table.{IsValid}
use resume_helper.JobQueue.Queued.{HasJob, enqueue_tailoring_job-HasJob}
use resume_helper.Worker.{done}
use resume_helper.Handlers.{
  HandlerEnv, execute_evaluate_job, after_evaluation, enqueue_if_needed, queued_result,
  evaluate_claimed,
}
use resume_helper.Handlers.Payloads.{EvaluateRequest, evaluate_request}
use resume_helper.Handlers.Valid.{IsQuiet, evaluate_claimed-IsValid}

-- The arguments of the call for an analysis.
abbrev tailor_in : EvaluateRequest → JobAnalysis → TailorIn
tailor_in request job = record {
  job_analysis_id = job.id;
  prompt_version = some request.tailor_prompt_version;
  request_id = request.request_id;
}

abbrev pub HasWork : Db → JobAnalysis → Type 0
HasWork db job = HasJob db job.id ⊎ (has_generated_resume db job.id ≡ true)

queued_result-done :
    (env : HandlerEnv) (job : JobAnalysis) (cached : Bool) (p : Db × Outcome (Option JobRef))
    (payload : Payload)
    → (queued_result env job cached p).1 ≡ done payload
    → (ref : Option JobRef) × (p.1 ≡ returned ref) × ((queued_result env job cached p).0 ≡ p.0)
queued_result-done env job cached (db, returned ref) payload e = (ref, refl, refl)
queued_result-done env job cached (db, raised x) payload e = absurd (cc)

after_evaluation-HasWork :
    (env : HandlerEnv) (claimed : ClaimedAiJob) (request : EvaluateRequest) (db : Db)
    (job : JobAnalysis) (cached : Bool) (payload : Payload)
    → IsValid db
    → job.status ≡ some needs_tailoring
    → (after_evaluation env claimed request (db, ok (job, cached))).1 ≡ done payload
    → HasWork (after_evaluation env claimed request (db, ok (job, cached))).0 job
unfolding after_evaluation enqueue_if_needed
after_evaluation-HasWork env claimed request db job cached payload v status e =
    elim (Bool-cases (is_cancel_requested db claimed.id)) [
      | inl f ↦ absurd (ground arith)
      | inr f ↦
          let p = enqueue_if_needed env request job db in
          let now : after_evaluation env claimed request (db, ok (job, cached))
              ≡ queued_result env job cached p =
            rw (f, after_evaluation) refl in
          let (ref, came, left) =
            queued_result-done env job cached p payload (sym (ap (λ q. q.1) now) ∙ e) in
          let needed : get_or job.status skip ≡ needs_tailoring = ap (λ s. get_or s skip) status in
          let call : p
              ≡ enqueue_tailoring_job env.enqueue_now env.enqueue_id env.enqueue_others
                  (tailor_in request job) db =
            rw (needed, enqueue_if_needed) refl in
          let work =
            enqueue_tailoring_job-HasJob env.enqueue_now env.enqueue_id env.enqueue_others
              (tailor_in request job) db ref v (sym (ap (λ q. q.1) call) ∙ came) in
          subst (λ d. HasWork d job) (sym (ap (λ q. q.0) now ∙ left ∙ ap (λ q. q.0) call)) work
    ]

-- A job whose evaluation came to an analysis that needs tailoring succeeds only where the analysis then
-- has a tailoring job or a generated resume, in a table that is valid at the start and that the other
-- sessions keep valid.
pub execute_evaluate_job-HasWork :
    (env : HandlerEnv) (claimed : ClaimedAiJob) (request : EvaluateRequest) (db : Db)
    (job : JobAnalysis) (cached : Bool) (payload : Payload)
    → IsQuiet env
    → IsValid db
    → evaluate_request env.settings claimed.input_payload ≡ ok request
    → (evaluate_claimed env request db).1 ≡ ok (job, cached)
    → job.status ≡ some needs_tailoring
    → (execute_evaluate_job env claimed db).1 ≡ done payload
    → HasWork (execute_evaluate_job env claimed db).0 job
unfolding execute_evaluate_job
execute_evaluate_job-HasWork env claimed request db job cached payload q v read came status e =
    elim (Bool-cases (is_cancel_requested db claimed.id)) [
      | inl f ↦ absurd (ground arith)
      | inr f ↦
          let p = evaluate_claimed env request db in
          let same : p ≡ (p.0, ok (job, cached)) = ap (λ o. (p.0, o)) came in
          let now : execute_evaluate_job env claimed db
              ≡ after_evaluation env claimed request (p.0, ok (job, cached)) =
            rw (read, f, execute_evaluate_job) (ap (after_evaluation env claimed request) same) in
          subst (λ r. HasWork r.0 job) (sym now)
            (after_evaluation-HasWork env claimed request p.0 job cached payload
              (evaluate_claimed-IsValid env request db q v) status (sym (ap (λ r. r.1) now) ∙ e))
    ]
