-- ===== src/Tests/Work.antt =====
-- Evaluations, tailoring and the worker's handlers (backend/app/services/evaluator_v2.py,
-- backend/app/workers).
use resume_helper.Tests.World.{
  evaluation, graded, handler_env, jd, llm, profile, resume_text, row, settings, started,
  tailoring_env, version,
}
use resume_helper.Analyses.Reach as AnalysesReach
use resume_helper.Base.{
  pos, ◌≡◌, refl, Bool, true, false, none, some, [], ◌∷◌, text_of, All, text_eq, strip, lstrip,
  rstrip, is_space,
}
use resume_helper.Tests.Samples.{request, first_round}
use resume_helper.Tables.{JobAnalysis}
use resume_helper.Errors.{Attempt, ok}
use resume_helper.Json.{get, json_str}
use resume_helper.JobQueue.Job.{evaluate, running, queued, kind_eq}
use resume_helper.JobQueue.Store.{
  Db, get_job, find_row, find_tailoring_job_by, has_generated_resume, any_resume, commit_new,
  any_clash, latest,
}
use resume_helper.JobQueue.Claim.{ClaimedAiJob}
use resume_helper.JobQueue.Enqueue.{
  evaluate_payload, evaluate_job, JobRef, with_request_id, enqueue_tailoring_job,
  find_tailoring_job, commit_or_find, tailoring_job, job_ref,
}
use resume_helper.JobQueue.Fields.{set_queued_fields}
use resume_helper.JobQueue.Keys.{tailor_dedupe_key}
use resume_helper.JobQueue.Marks.{is_cancel_requested}
use resume_helper.JobQueue.Invariant.Rows.{evaluate_job-IsWellFormed}
use resume_helper.JobQueue.Invariant.Table.{IsValid}
use resume_helper.Hashing.{jd_hash}
use resume_helper.Profiles.{
  new_profile, get_profile, find_profile, get_default_profile, latest_profile,
}
use resume_helper.Audit.{get_analysis, find_analysis, find_resume}
use resume_helper.Evaluation.{
  evaluate_jd, resolve_profile, first_cached, is_cached, score_jd, store_score, commit_analysis,
  analysis_row, tier,
}
use resume_helper.Evaluation.Cache.{evaluate_jd-again}
use resume_helper.Tailoring.{tailor_baseline, is_cancelled}
use resume_helper.Tailoring.Run.{run_tailoring, tailored}
use resume_helper.Tailoring.Outcomes.{IsAwaiting}
use resume_helper.Tailoring.Success.{run_tailoring-tailored}
use resume_helper.Analyses.{IsGraded}
use resume_helper.Analyses.Reach.{Reach-IsGraded}
use resume_helper.Worker.{run_job_queue_once, done}
use resume_helper.Handlers.{
  worker_handlers, execute_evaluate_job, evaluate_claimed, evaluate_result, after_evaluation,
  enqueue_if_needed,
}
use resume_helper.Handlers.Payloads.{
  EvaluateRequest, evaluate_request, required_string, required_int, optional_string, string_or_none,
  int_of,
}
use resume_helper.Handlers.Valid.{IsQuiet, run_job_queue_once-IsValid}
use resume_helper.Handlers.Queued.{HasWork, execute_evaluate_job-HasWork}
use resume_helper.Handlers.RoundTrip.{evaluate_request-evaluate_payload}

abbrev scored : Db × Attempt (JobAnalysis × Bool)
scored = evaluate_jd evaluation llm jd version (pos 60) none started

scored_row : scored.1 ≡ ok (row, false)
unfolding new_profile evaluate_jd resolve_profile get_default_profile latest_profile get_profile
    find_profile first_cached score_jd store_score commit_analysis get_analysis find_analysis
    analysis_row
scored_row = refl

evaluate_jd-again_example :
    (b : JobAnalysis) × (evaluate_jd evaluation llm jd version (pos 90) none scored.0
      ≡ (scored.0, ok (b, true)))
    × (b.jd_hash ≡ row.jd_hash)
    × (b.profile_id ≡ row.profile_id)
    × (b.prompt_version ≡ row.prompt_version)
evaluate_jd-again_example =
    evaluate_jd-again evaluation evaluation llm llm jd version (pos 60) (pos 90) none started row
      false refl refl scored_row

graded_awaiting : IsAwaiting 5 graded
unfolding get_analysis find_analysis analysis_row tier
graded_awaiting = record { job = row; found = refl; awaits = refl }

run_tailoring-tailored_example :
    (run_tailoring tailoring_env llm none 5 none none graded).1 ≡ ok (tailored 5 9)
unfolding analysis_row tailor_baseline get_profile find_profile find_resume get_analysis
    find_analysis is_cancelled new_profile graded_awaiting
run_tailoring-tailored_example =
    run_tailoring-tailored tailoring_env llm none 5 none none graded graded_awaiting profile
      (λ call. ok (resume_text call)) resume_text refl refl (λ call. refl) refl refl refl refl
      (λ text. refl) (λ n. refl)

Reach-IsGraded_example :
    let done = (run_tailoring tailoring_env llm none 5 none none scored.0).0 in
    All (IsGraded done.resumes) done.analyses
Reach-IsGraded_example = Reach-IsGraded started (
    AnalysesReach.tailor
      (AnalysesReach.evaluate AnalysesReach.here evaluation llm jd version (pos 60) none
        AnalysesReach.here)
      tailoring_env llm none 5 none none (λ n. AnalysesReach.here))

quiet : IsQuiet handler_env
quiet = record { evaluating = λ u v. v; tailoring = λ n u v. v; enqueueing = λ u v. v }

abbrev with_job : Db
with_job = record graded { jobs = evaluate_job 1 5 (text_of "evaluate:1") request ∷ [] }

with_job-IsValid : IsValid with_job
with_job-IsValid = record {
  rows = (evaluate_job-IsWellFormed 1 5 (text_of "evaluate:1") request, tt);
  constraints = (tt, tt);
}

run_job_queue_once-IsValid_example :
    IsValid (run_job_queue_once (worker_handlers handler_env) none first_round with_job).0
run_job_queue_once-IsValid_example =
    run_job_queue_once-IsValid handler_env none first_round with_job quiet with_job-IsValid

evaluate_request-evaluate_payload_example :
    evaluate_request settings (evaluate_payload request)
    ≡ ok (record {
      jd_text = jd;
      profile_id = pos 1;
      prompt_version = version;
      request_id = none;
      tailor_prompt_version = text_of "t1";
    })
unfolding strip lstrip rstrip is_space
evaluate_request-evaluate_payload_example =
    evaluate_request-evaluate_payload settings request jd version (text_of "t1") refl refl refl

abbrev claimed : ClaimedAiJob
claimed = record {
  id = 1;
  kind = evaluate;
  dedupe_key = none;
  status = running;
  input_payload = evaluate_payload request;
}

abbrev read_request : EvaluateRequest
read_request = record {
  jd_text = jd;
  profile_id = pos 1;
  prompt_version = version;
  request_id = none;
  tailor_prompt_version = text_of "t1";
}

came : (evaluate_claimed handler_env read_request with_job).1 ≡ ok (row, true)
unfolding evaluate_claimed evaluate_jd resolve_profile get_profile find_profile first_cached
    is_cached analysis_row new_profile jd_hash text_eq strip is_space
came = refl

abbrev tailoring_ref : JobRef
tailoring_ref = record { id = 12; status = queued; created = true }

went_well :
    (execute_evaluate_job handler_env claimed with_job).1
    ≡ done (evaluate_result handler_env row true (some tailoring_ref))
unfolding execute_evaluate_job evaluate_request required_string required_int optional_string
    string_or_none json_str int_of get evaluate_payload with_request_id is_cancel_requested get_job
    find_row evaluate_job set_queued_fields after_evaluation enqueue_if_needed enqueue_tailoring_job
    find_tailoring_job find_tailoring_job_by has_generated_resume any_resume commit_or_find
    commit_new any_clash tailoring_job latest kind_eq job_ref tier evaluate_claimed evaluate_jd
    resolve_profile get_profile find_profile first_cached is_cached analysis_row new_profile jd_hash
    text_eq strip is_space tailor_dedupe_key
went_well = refl

execute_evaluate_job-HasWork_example :
    HasWork (execute_evaluate_job handler_env claimed with_job).0 row
unfolding analysis_row tier
execute_evaluate_job-HasWork_example =
    execute_evaluate_job-HasWork handler_env claimed read_request with_job row true
      (evaluate_result handler_env row true (some tailoring_ref)) quiet with_job-IsValid
      evaluate_request-evaluate_payload_example came refl went_well
