-- ===== src/Evaluation.antt =====
-- `evaluate_jd` of backend/app/services/evaluator_v2.py.
pub mod Results
pub mod Cache
pub mod States
use resume_helper.Base.{
  ℕ, ℤ, pos, negsuc, ltb_ℤ, Bool, true, false, ◌&&◌, not, Option, none, some, List, [], ◌∷◌, ◌++◌,
  Text, text_of, text_eq, take, get_or, is_some, ◌==◌, if◌then◌else◌,
}
use resume_helper.Decimal.{decimal}
use resume_helper.Uuid.{Uuid}
use resume_helper.Json.{json_str, int}
use resume_helper.Tables.{
  BaselineProfile, JobAnalysis, AnalysisStatus, ready_to_submit, needs_tailoring, skip,
  step_evaluate, status_succeeded, status_failed,
}
use resume_helper.Errors.{
  WorkerError, unexpected, Attempt, ok, fails, error_code_for_exception,
  error_message_for_exception,
}
use resume_helper.Hashing.{Digest, jd_hash}
use resume_helper.JobQueue.Store.{Db}
use resume_helper.Profiles.{get_profile, get_default_profile}
use resume_helper.Audit.{
  LlmClient, EvaluationResult, AuditEnv, AuditEntry, llm_metadata, Hashed, text, number, texts,
  record_llm_audit_log, get_analysis, has_profile,
}

-- What an evaluation does not decide: the id and the time of its row, the text of a database error,
-- how long the LLM took, and what other sessions commit meanwhile.
pub record EvaluateEnv : Type 0 where
  pub digest : Digest
  pub audit : AuditEnv
  pub new_id : Uuid
  pub now : ℕ
  pub latency_ms : ℕ
  pub database_message : Text
  pub others : Db → Db

abbrev lookup_error : Text → WorkerError
lookup_error message = unexpected (text_of "LookupError") message

abbrev no_profile : ℤ → WorkerError
no_profile id = lookup_error (text_of "profile " ++ json_str (int id) ++ text_of " not found")

-- The table has no negative id.
unfoldable pub resolve_profile : Option ℤ → Db → Attempt BaselineProfile
resolve_profile none db = elim (get_default_profile db) [
  | none ↦ fails (lookup_error (text_of "baseline_profile not set"))
  | some profile ↦ ok profile
]
resolve_profile (some (pos id)) db = elim (get_profile db id) [
  | none ↦ fails (no_profile (pos id))
  | some profile ↦ ok profile
]
resolve_profile (some (negsuc n)) db = fails (no_profile (negsuc n))

abbrev pub same_profile : Option ℕ → ℕ → Bool
same_profile none id = false
same_profile (some n) id = n == id

abbrev pub same_version : Option Text → Text → Bool
same_version none prompt_version = false
same_version (some v) prompt_version = text_eq v prompt_version

-- The filter of the cache, which is no constraint of the table.
unfoldable pub is_cached : Text → ℕ → Text → JobAnalysis → Bool
is_cached jd_h profile_id prompt_version a =
    text_eq a.jd_hash jd_h
    && same_profile a.profile_id profile_id
    && same_version a.prompt_version prompt_version

-- `.first()` without an order: the first row of the table.
unfoldable pub first_cached : Text → ℕ → Text → List JobAnalysis → Option JobAnalysis
first_cached jd_h profile_id prompt_version [] = none
first_cached jd_h profile_id prompt_version (a ∷ analyses) =
    if is_cached jd_h profile_id prompt_version a
    then some a
    else first_cached jd_h profile_id prompt_version analyses

-- `THRESHOLD_HIGH` and `THRESHOLD_MID`.
unfoldable pub tier : ℤ → AnalysisStatus
tier score =
    if not (ltb_ℤ score (pos 85))
    then ready_to_submit
    else if not (ltb_ℤ score (pos 60))
    then needs_tailoring
    else skip

unfoldable pub skip_message : ℤ → Text
skip_message score =
    text_of "Score "
    ++ json_str (int score)
    ++ text_of " is below threshold 60. "
    ++ text_of "The resume does not sufficiently match this job description."

abbrev pub can_submit_of : AnalysisStatus → Bool
can_submit_of ready_to_submit = true
can_submit_of _ = false

abbrev pub skip_reason_of : AnalysisStatus → ℤ → Option Text
skip_reason_of skip score = some (skip_message score)
skip_reason_of _ score = none

-- The new row.
unfoldable pub analysis_row :
    EvaluateEnv → Text → ℕ → Text → Text → ℤ → Text × Option Text → EvaluationResult → JobAnalysis
unfolding tier
analysis_row env jd_h profile_id jd_text prompt_version threshold metadata result = record {
  id = env.new_id;
  profile_id = some profile_id;
  jd_hash = jd_h;
  jd_snippet = some (take 200 jd_text);
  jd_full_text = jd_text;
  score = some result.score;
  explanation = some result.explanation;
  strengths = result.strengths;
  gaps = result.gaps;
  threshold_met = not (ltb_ℤ result.score threshold);
  status = some (tier result.score);
  can_submit = can_submit_of (tier result.score);
  skip_reason = skip_reason_of (tier result.score) result.score;
  prompt_version = some prompt_version;
  llm_backend = some metadata.0;
  llm_model = metadata.1;
  created_at = env.now;
}

-- `ck_job_score_range`
abbrev pub is_in_range : Option ℤ → Bool
is_in_range none = true
is_in_range (some score) = not (ltb_ℤ score (pos 0)) && not (ltb_ℤ (pos 100) score)

-- The primary key, the check of the score and the foreign key; `none` is the `IntegrityError`.
unfoldable pub commit_analysis : JobAnalysis → Db → Option Db
commit_analysis a db =
    if not (is_some (get_analysis db a.id)) && is_in_range a.score && has_profile db a.profile_id
    then some (record db { analyses = db.analyses ++ a ∷ [] })
    else none

-- The audit row of an evaluation, without what its outcome adds.
unfoldable pub evaluate_entry :
    EvaluateEnv → BaselineProfile → Text → Text → Text × Option Text → AuditEntry
evaluate_entry env profile jd_text prompt_version metadata = record {
  workflow_step = step_evaluate;
  backend = metadata.0;
  model = metadata.1;
  prompt_version = some prompt_version;
  input_hash = some (
      env.audit.stable_payload_hash (
        ("step", text (text_of "evaluate"))
        ∷ ("profile_id", number (pos profile.id))
        ∷ ("profile_text", text profile.skills_text)
        ∷ ("jd_text", text jd_text)
        ∷ ("prompt_version", text prompt_version)
        ∷ []));
  output_hash = none;
  latency_ms = some env.latency_ms;
  token_count_input = none;
  token_count_output = none;
  status = status_failed;
  error_code = none;
  error_message = none;
  request_id = none;
  baseline_profile_id = some profile.id;
  job_analysis_id = none;
  generated_resume_id = none;
}

abbrev pub failed_entry : AuditEntry → WorkerError → AuditEntry
failed_entry entry e = record entry {
  error_code = some (error_code_for_exception e);
  error_message = some (error_message_for_exception e);
}

abbrev pub succeeded_entry : EvaluateEnv → AuditEntry → EvaluationResult → Uuid → AuditEntry
succeeded_entry env entry result id = record entry {
  output_hash = some (
      env.audit.stable_payload_hash (
        ("score", number result.score)
        ∷ ("explanation", text result.explanation)
        ∷ ("strengths", texts result.strengths)
        ∷ ("gaps", texts result.gaps)
        ∷ []));
  token_count_input = result.token_count_input;
  token_count_output = result.token_count_output;
  status = status_succeeded;
  job_analysis_id = some id;
}

-- What follows a score.
unfoldable pub store_score :
    EvaluateEnv → JobAnalysis → AuditEntry → Db → Db × Attempt (JobAnalysis × Bool)
store_score env row entry db = elim (commit_analysis row db) [
  | none ↦ (db, fails (unexpected (text_of "IntegrityError") env.database_message))
  | some stored ↦ ((record_llm_audit_log env.audit entry stored).0, ok (row, false))
]

-- The call of the LLM, `db` being what the database holds when it answers.
unfoldable pub score_jd :
    EvaluateEnv
    → LlmClient
    → BaselineProfile
    → Text
    → Text
    → ℤ
    → Db
    → Db × Attempt (JobAnalysis × Bool)
unfolding store_score
score_jd env llm profile jd_text prompt_version threshold db =
    let metadata = llm_metadata env.audit.settings llm in
    let entry = evaluate_entry env profile jd_text prompt_version metadata in
    elim (llm.evaluate profile.skills_text jd_text prompt_version) [
      | fails e ↦ ((record_llm_audit_log env.audit (failed_entry entry e) db).0, fails e)
      | ok result ↦
          let jd_h = jd_hash env.digest jd_text in
          let row =
            analysis_row env jd_h profile.id jd_text prompt_version threshold metadata result in
          store_score env row (succeeded_entry env entry result row.id) db
    ]

-- The flag says that the score was in the cache.
unfoldable pub evaluate_jd :
    EvaluateEnv → LlmClient → Text → Text → ℤ → Option ℤ → Db → Db × Attempt (JobAnalysis × Bool)
evaluate_jd env llm jd_text prompt_version threshold profile_id db =
    elim (resolve_profile profile_id db) [
      | fails e ↦ (db, fails e)
      | ok profile ↦
          let jd_h = jd_hash env.digest jd_text in
          elim (first_cached jd_h profile.id prompt_version db.analyses) [
            | some existing ↦ (db, ok (existing, true))
            | none ↦ score_jd env llm profile jd_text prompt_version threshold (env.others db)
          ]
    ]
