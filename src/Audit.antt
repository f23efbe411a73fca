-- ===== src/Audit.antt =====
-- backend/app/services/llm/audit.py: the rows that a call of an LLM leaves.
use resume_helper.Base.{
  ℕ, ℤ, Bool, true, false, ◌&&◌, ◌||◌, not, Option, none, some, List, [], ◌∷◌, ◌++◌, String, Text,
  text_of, text_eq, strip, or_none, get_or, is_some, ◌==◌, if◌then◌else◌,
}
use resume_helper.Uuid.{Uuid}
use resume_helper.Json.{Json, Payload}
use resume_helper.Tables.{JobAnalysis, GeneratedResume, LlmAuditLog, WorkflowStep, AuditStatus}
use resume_helper.Errors.{Attempt}
use resume_helper.Settings.{Settings}
use resume_helper.Batch.Guardrails.{estimate_batch_cost}
use resume_helper.JobQueue.Fields.{given}
use resume_helper.JobQueue.Store.{Db}
use resume_helper.Profiles.{get_profile}

-- `_string_or_none` of a text or None.
unfoldable pub string_or_none : Option Text → Option Text
unfolding strip
string_or_none none = none
string_or_none (some text) = or_none (strip text)

-- `EvaluationResult`
pub record EvaluationResult : Type 0 where
  pub score : ℤ
  pub explanation : Text
  pub strengths : List Text
  pub gaps : List Text
  pub token_count_input : Option ℕ
  pub token_count_output : Option ℕ

-- The arguments of `llm.tailor`, and the fields of its validated answer.
pub record TailorCall : Type 0 where
  pub baseline_text : Text
  pub jd_text : Text
  pub gaps : List Text
  pub score : ℤ
  pub structured_data : Option Payload
  pub proof_points : Text

pub record TailorOutput : Type 0 where
  pub tailoring_suggestions : List Text
  pub tailored_resume : Text
  pub token_count_input : Option ℕ
  pub token_count_output : Option ℕ

-- An LLM client: its class, its attributes `model` and `_model` where it has them, and its methods;
-- `tailor` stands with the validation of its answer, and is `none` for a client without the method.
pub record LlmClient : Type 0 where
  pub class_name : Text
  pub model : Option (Option Text)
  pub private_model : Option (Option Text)
  pub evaluate : Text → Text → Text → Attempt EvaluationResult
  pub tailor : Option (TailorCall → Attempt TailorOutput)

unfoldable pub llm_metadata : Settings → LlmClient → Text × Option Text
unfolding string_or_none text_eq
llm_metadata settings llm =
    if text_eq llm.class_name (text_of "AnthropicLLMClient")
    then (text_of "anthropic", string_or_none (get_or llm.private_model none))
    else if text_eq llm.class_name (text_of "ClaudeCLIClient")
    then (text_of "claude_cli", string_or_none (get_or llm.model none))
    else if text_eq llm.class_name (text_of "FakeLLMClient")
    then (text_of "fake", some (text_of "fake"))
    else (
      settings.guard.llm_backend,
      string_or_none (get_or llm.model (get_or llm.private_model (some settings.llm_model))),
    )

-- A value of the dict that `stable_payload_hash` hashes.
pub data Hashed : Type 0 where
  text : Text → Hashed
  number : ℤ → Hashed
  uuid : Uuid → Hashed
  texts : List Text → Hashed
  object : Option Payload → Hashed
  value : Json → Hashed

-- What a row does not take from its arguments: its id and time, `current_request_id()`, and
-- `prompt_hash_for_step` of the files; and `stable_payload_hash`, whose dict is the list of its items.
pub record AuditEnv : Type 0 where
  pub id : Uuid
  pub now : ℕ
  pub settings : Settings
  pub current_request_id : Option Text
  pub prompt_hash_for_step : WorkflowStep → Option Text
  pub stable_payload_hash : List (String × Hashed) → Text

-- The keyword arguments of `record_llm_audit_log`.
pub record AuditEntry : Type 0 where
  pub workflow_step : WorkflowStep
  pub backend : Text
  pub model : Option Text
  pub prompt_version : Option Text
  pub input_hash : Option Text
  pub output_hash : Option Text
  pub latency_ms : Option ℕ
  pub token_count_input : Option ℕ
  pub token_count_output : Option ℕ
  pub status : AuditStatus
  pub error_code : Option Text
  pub error_message : Option Text
  pub request_id : Option Text
  pub baseline_profile_id : Option ℕ
  pub job_analysis_id : Option Uuid
  pub generated_resume_id : Option Uuid

-- The estimate of the cost, where both counts of tokens are known.
unfoldable pub cost_of : Settings → Option ℕ → Option ℕ → Option ℕ
cost_of settings (some input_tokens) (some output_tokens) =
    estimate_batch_cost settings.guard input_tokens output_tokens
cost_of settings _ _ = none

unfoldable pub audit_row : AuditEnv → AuditEntry → LlmAuditLog
unfolding cost_of
audit_row env e = record {
  id = env.id;
  request_id = if given e.request_id then e.request_id else env.current_request_id;
  workflow_step = e.workflow_step;
  backend = e.backend;
  model = e.model;
  prompt_version = e.prompt_version;
  prompt_hash = env.prompt_hash_for_step e.workflow_step;
  input_hash = e.input_hash;
  output_hash = e.output_hash;
  latency_ms = e.latency_ms;
  token_count_input = e.token_count_input;
  token_count_output = e.token_count_output;
  estimated_cost_micros = cost_of env.settings e.token_count_input e.token_count_output;
  status = e.status;
  error_code = e.error_code;
  error_message = e.error_message;
  baseline_profile_id = e.baseline_profile_id;
  job_analysis_id = e.job_analysis_id;
  generated_resume_id = e.generated_resume_id;
  resume_beautification_id = none;
  created_at = env.now;
}

-- What the INSERT of a row asks of the tables: a new id, and the rows that its foreign keys name.
abbrev pub has_profile : Db → Option ℕ → Bool
has_profile db none = true
has_profile db (some id) = is_some (get_profile db id)

unfoldable pub find_analysis : Uuid → List JobAnalysis → Option JobAnalysis
find_analysis id [] = none
find_analysis id (a ∷ analyses) = if a.id == id then some a else find_analysis id analyses

unfoldable pub get_analysis : Db → Uuid → Option JobAnalysis
get_analysis db id = find_analysis id db.analyses

abbrev pub has_analysis : Db → Option Uuid → Bool
has_analysis db none = true
has_analysis db (some id) = is_some (get_analysis db id)

unfoldable pub find_resume : Uuid → List GeneratedResume → Option GeneratedResume
find_resume id [] = none
find_resume id (r ∷ resumes) = if r.id == id then some r else find_resume id resumes

abbrev pub has_resume : Db → Option Uuid → Bool
has_resume db none = true
has_resume db (some id) = is_some (find_resume id db.resumes)

unfoldable pub any_audit : Uuid → List LlmAuditLog → Bool
any_audit id [] = false
any_audit id (l ∷ audits) = l.id == id || any_audit id audits

unfoldable pub is_insertable : LlmAuditLog → Db → Bool
unfolding find_resume any_audit
is_insertable row db =
    not (any_audit row.id db.audits)
    && has_profile db row.baseline_profile_id
    && has_analysis db row.job_analysis_id
    && has_resume db row.generated_resume_id

-- A failed INSERT is rolled back and only logged: the result is `none`.
unfoldable pub record_llm_audit_log : AuditEnv → AuditEntry → Db → Db × Option LlmAuditLog
unfolding audit_row is_insertable
record_llm_audit_log env e db =
    let row = audit_row env e in
    if is_insertable row db
    then (record db { audits = db.audits ++ row ∷ [] }, some row)
    else (db, none)
