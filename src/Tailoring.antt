-- ===== src/Tailoring.antt =====
-- The parts of `run_tailoring` of backend/app/workers/tailor.py: its inputs, its rows and its queries.
pub mod Run
pub mod Outcomes
pub mod Success
use resume_helper.Base.{
  map, ℕ, zero, suc, ℤ, pos, Bool, true, false, not, ◌||◌, Option, none, some, List, [], ◌∷◌, ◌++◌,
  Text, text_of, get_or, is_some, ◌==◌, if◌then◌else◌,
}
use resume_helper.Uuid.{Uuid, uuid_str}
use resume_helper.Tables.{
  BaselineProfile, ProofPoint, JobAnalysis, GeneratedResume, AnalysisStatus, ready_to_submit,
  needs_tailoring, skip, step_tailor, status_succeeded, status_failed,
}
use resume_helper.Errors.{
  WorkerError, llm_invalid_output, Attempt, ok, fails, error_code_for_exception,
  error_message_for_exception,
}
use resume_helper.Settings.{prompt_version_for_step}
use resume_helper.JobQueue.Store.{Db}
use resume_helper.ProofPoints.{select_relevant_proof_points, format_proof_points_for_prompt}
use resume_helper.Profiles.{get_profile, get_default_profile}
use resume_helper.Audit.{
  LlmClient, TailorCall, TailorOutput, AuditEnv, AuditEntry, llm_metadata, text, number, uuid,
  texts, object, record_llm_audit_log, get_analysis, find_resume,
}

pub data TailoringStatus : Type 0 where
  tailoring_status_succeeded tailoring_status_failed : TailoringStatus

pub record TailoringResult : Type 0 where
  pub job_analysis_id : Uuid
  pub status : TailoringStatus
  pub generated_resume_id : Option Uuid
  pub error_code : Option Text
  pub error_message : Option Text

unfoldable pub tailoring_failure : Uuid → Text → Text → TailoringResult
tailoring_failure job_analysis_id error_code error_message = record {
  job_analysis_id = job_analysis_id;
  status = tailoring_status_failed;
  generated_resume_id = none;
  error_code = some error_code;
  error_message = some error_message;
}

-- What a run does not decide: the id and the time of its row, how long the LLM took, `str.casefold`, the
-- class of the exception that writing the PDF raises, if any, the text of an `ObjectDeletedError`, and
-- what other sessions commit before each of its polls.
pub record TailorEnv : Type 0 where
  pub audit : AuditEnv
  pub new_id : Uuid
  pub now : ℕ
  pub latency_ms : ℕ
  pub casefold : Text → Text
  pub write_pdf : Uuid → Text → Option Text
  pub deleted_message : Text
  pub others : ℕ → Db → Db

-- `cancel_requested`, by the number of the call; `none` where it raises.
abbrev pub Poll : Type 0
Poll = ℕ → Db → Option Bool

unfoldable pub is_cancelled : Option Poll → ℕ → Db → Bool
is_cancelled none n db = false
is_cancelled (some cancel_requested) n db = get_or (cancel_requested n db) false

unfoldable pub call_tailor_llm : LlmClient → TailorCall → Attempt TailorOutput
call_tailor_llm llm call = elim llm.tailor [
  | none ↦ fails (llm_invalid_output (text_of "LLMInvalidOutputError"))
  | some tailor ↦ tailor call
]

-- `None` or 0 counts as no profile.
unfoldable pub tailor_baseline : Option ℕ → Db → Option BaselineProfile
tailor_baseline none db = get_default_profile db
tailor_baseline (some zero) db = get_default_profile db
tailor_baseline (some (suc n)) db = get_profile db (suc n)

abbrev pub awaits_tailoring : Option AnalysisStatus → Bool
awaits_tailoring (some needs_tailoring) = true
awaits_tailoring _ = false

abbrev pub status_text : Option AnalysisStatus → Text
status_text none = text_of "None"
status_text (some ready_to_submit) = text_of "ready_to_submit"
status_text (some needs_tailoring) = text_of "needs_tailoring"
status_text (some skip) = text_of "skip"

abbrev pub analysis_name : Uuid → Text
analysis_name id = text_of "job_analysis " ++ uuid_str id

-- What a run fixes before its LLM is called.
pub record Tailoring : Type 0 where
  pub job : JobAnalysis
  pub baseline : BaselineProfile
  pub prompt_version : Text
  pub request_id : Option Text
  pub proof_text : Text
  pub proof_point_ids : List Text

unfoldable pub prepare_tailoring :
    TailorEnv → JobAnalysis → BaselineProfile → Option Text → Option Text → Db → Tailoring
prepare_tailoring env job baseline prompt_version request_id db =
    let points =
      select_relevant_proof_points env.casefold db.proof_points (some baseline.id) job.jd_full_text
        job.gaps 5 in
    record {
      job = job;
      baseline = baseline;
      prompt_version = prompt_version_for_step env.audit.settings step_tailor prompt_version;
      request_id = request_id;
      proof_text = format_proof_points_for_prompt points;
      proof_point_ids = map (λ (p : ProofPoint). uuid_str p.id) points;
    }

unfoldable pub tailor_call : Tailoring → TailorCall
tailor_call t = record {
  baseline_text = t.baseline.skills_text;
  jd_text = t.job.jd_full_text;
  gaps = t.job.gaps;
  score = get_or t.job.score (pos 0);
  structured_data = t.baseline.structured_data;
  proof_points = t.proof_text;
}

-- The audit row of a run, without what its outcome adds.
unfoldable pub tailor_entry : TailorEnv → Tailoring → Text × Option Text → AuditEntry
tailor_entry env t metadata = record {
  workflow_step = step_tailor;
  backend = metadata.0;
  model = metadata.1;
  prompt_version = some t.prompt_version;
  input_hash = some (
      env.audit.stable_payload_hash (
        ("step", text (text_of "tailor"))
        ∷ ("job_analysis_id", uuid t.job.id)
        ∷ ("baseline_text", text t.baseline.skills_text)
        ∷ ("structured_data", object t.baseline.structured_data)
        ∷ ("jd_text", text t.job.jd_full_text)
        ∷ ("gaps", texts t.job.gaps)
        ∷ ("score", number (get_or t.job.score (pos 0)))
        ∷ ("prompt_version", text t.prompt_version)
        ∷ ("proof_point_ids", texts t.proof_point_ids)
        ∷ ("proof_points", text t.proof_text)
        ∷ []));
  output_hash = none;
  latency_ms = some env.latency_ms;
  token_count_input = none;
  token_count_output = none;
  status = status_failed;
  error_code = none;
  error_message = none;
  request_id = t.request_id;
  baseline_profile_id = some t.baseline.id;
  job_analysis_id = some t.job.id;
  generated_resume_id = none;
}

abbrev pub tailored_entry : TailorEnv → AuditEntry → TailorOutput → Uuid → AuditEntry
tailored_entry env entry result resume_id = record entry {
  output_hash = some (
      env.audit.stable_payload_hash (
        ("tailoring_suggestions", texts result.tailoring_suggestions)
        ∷ ("tailored_resume", text result.tailored_resume)
        ∷ []));
  token_count_input = result.token_count_input;
  token_count_output = result.token_count_output;
  status = status_succeeded;
  generated_resume_id = some resume_id;
}

-- The new row, with the URL that it gets before the commit.
unfoldable pub resume_row :
    TailorEnv → Tailoring → Text × Option Text → TailorOutput → GeneratedResume
resume_row env t metadata result = record {
  id = env.new_id;
  job_analysis_id = t.job.id;
  resume_text = result.tailored_resume;
  pdf_url = some (text_of "/api/generated-resumes/" ++ uuid_str env.new_id ++ text_of "/pdf");
  prompt_version = some t.prompt_version;
  llm_backend = some metadata.0;
  llm_model = metadata.1;
  proof_point_ids = t.proof_point_ids;
  revision_source = text_of "ai_draft";
  exported_at = none;
  created_at = env.now;
}

-- `db.add(resume); db.flush()`: the primary key and the foreign key of the new row.
unfoldable pub can_flush : GeneratedResume → Db → Bool
can_flush resume db =
    if is_some (find_resume resume.id db.resumes)
    then false
    else is_some (get_analysis db resume.job_analysis_id)

unfoldable pub set_can_submit : Uuid → List JobAnalysis → List JobAnalysis
set_can_submit id [] = []
set_can_submit id (a ∷ analyses) =
    if a.id == id then record a { can_submit = true } ∷ analyses else a ∷ set_can_submit id analyses

-- The commit of the row and of `job.can_submit = True`, which raises where the row of the job has gone.
unfoldable pub commit_resume : GeneratedResume → Db → Option Db
unfolding set_can_submit
commit_resume resume db =
    if is_some (get_analysis db resume.job_analysis_id)
    then some (record db {
      resumes = db.resumes ++ resume ∷ [];
      analyses = set_can_submit resume.job_analysis_id db.analyses;
    })
    else none
