-- ===== src/Tables.antt =====
-- backend/app/models: the rows of `baseline_profile`, `job_analyses`, `generated_resumes`,
-- `llm_audit_logs` and `proof_points`, with the constants of their status columns. A time is a count of microseconds.
use resume_helper.Base.{ℕ, ℤ, Bool, Option, List, Text}
use resume_helper.Uuid.{Uuid}
use resume_helper.Json.{Payload}

pub record BaselineProfile : Type 0 where
  pub id : ℕ
  pub name : Option Text
  pub skills_text : Text
  pub pdf_path : Option Text
  pub is_default : Bool
  pub structured_data : Option Payload
  pub created_at : Option ℕ
  pub updated_at : ℕ

pub data AnalysisStatus : Type 0 where
  ready_to_submit needs_tailoring skip : AnalysisStatus

pub record JobAnalysis : Type 0 where
  pub id : Uuid
  pub profile_id : Option ℕ
  pub jd_hash : Text
  pub jd_snippet : Option Text
  pub jd_full_text : Text
  pub score : Option ℤ
  pub explanation : Option Text
  pub strengths : List Text
  pub gaps : List Text
  pub threshold_met : Bool
  pub status : Option AnalysisStatus
  pub can_submit : Bool
  pub skip_reason : Option Text
  pub prompt_version : Option Text
  pub llm_backend : Option Text
  pub llm_model : Option Text
  pub created_at : ℕ

pub record GeneratedResume : Type 0 where
  pub id : Uuid
  pub job_analysis_id : Uuid
  pub resume_text : Text
  pub pdf_url : Option Text
  pub prompt_version : Option Text
  pub llm_backend : Option Text
  pub llm_model : Option Text
  pub proof_point_ids : List Text
  pub revision_source : Text
  pub exported_at : Option ℕ
  pub created_at : ℕ

-- `STEP_EVALUATE` and the other names of a step.
pub data WorkflowStep : Type 0 where
  step_evaluate step_tailor step_extract step_beautify : WorkflowStep

pub data AuditStatus : Type 0 where
  status_succeeded status_failed : AuditStatus

pub record LlmAuditLog : Type 0 where
  pub id : Uuid
  pub request_id : Option Text
  pub workflow_step : WorkflowStep
  pub backend : Text
  pub model : Option Text
  pub prompt_version : Option Text
  pub prompt_hash : Option Text
  pub input_hash : Option Text
  pub output_hash : Option Text
  pub latency_ms : Option ℕ
  pub token_count_input : Option ℕ
  pub token_count_output : Option ℕ
  pub estimated_cost_micros : Option ℕ
  pub status : AuditStatus
  pub error_code : Option Text
  pub error_message : Option Text
  pub baseline_profile_id : Option ℕ
  pub job_analysis_id : Option Uuid
  pub generated_resume_id : Option Uuid
  pub resume_beautification_id : Option Uuid
  pub created_at : ℕ

pub record ProofPoint : Type 0 where
  pub id : Uuid
  pub profile_id : Option ℕ
  pub title : Text
  pub context : Option Text
  pub metrics : Option Text
  pub skills : List Text
  pub tags : List Text
  pub situation : Option Text
  pub task : Option Text
  pub action : Option Text
  pub result : Option Text
  pub created_at : ℕ
  pub updated_at : ℕ
