-- ===== src/Profiles/Extract.antt =====
-- `extract_profile_structured` of backend/app/api/profile.py.
use resume_helper.Base.{ℕ, pos, map, Option, none, some, [], ◌∷◌, Text, text_of}
use resume_helper.Json.{Payload}
use resume_helper.Tables.{BaselineProfile, step_extract, status_succeeded, status_failed}
use resume_helper.Errors.{Attempt, ok, fails, error_code_for_exception, error_message_for_exception}
use resume_helper.Settings.{prompt_version_for_step}
use resume_helper.JobQueue.Store.{Db}
use resume_helper.Envelope.{Response, success, error, unhandled}
use resume_helper.Audit.{
  LlmClient, AuditEnv, AuditEntry, llm_metadata, record_llm_audit_log, text, number, value,
}
use resume_helper.Profiles.{get_profile, set_profile}
use resume_helper.Profiles.Endpoints.{not_found}

-- What a call does not decide: the client's `extract_structured` with the validation of its answer, if
-- it has the method, the text of its exception, and what other sessions commit while it runs.
pub record ExtractEnv : Type 0 where
  pub audit : AuditEnv
  pub llm : LlmClient
  pub extract_structured : Option (Text → Text → Attempt Payload)
  pub latency_ms : ℕ
  pub message : Text
  pub request_id : Option Text
  pub others : Db → Db

unfoldable pub extract_entry : ExtractEnv → BaselineProfile → Text → AuditEntry
extract_entry env profile prompt_version =
    let metadata = llm_metadata env.audit.settings env.llm in
    record {
      workflow_step = step_extract;
      backend = metadata.0;
      model = metadata.1;
      prompt_version = some prompt_version;
      input_hash = some (
          env.audit.stable_payload_hash (
            ("step", text (text_of "extract"))
            ∷ ("profile_id", number (pos profile.id))
            ∷ ("skills_text", text profile.skills_text)
            ∷ ("prompt_version", text prompt_version)
            ∷ []));
      output_hash = none;
      latency_ms = some env.latency_ms;
      token_count_input = none;
      token_count_output = none;
      status = status_failed;
      error_code = none;
      error_message = none;
      request_id = env.request_id;
      baseline_profile_id = some profile.id;
      job_analysis_id = none;
      generated_resume_id = none;
    }

-- The row is updated if it is still there, and its audit row follows.
unfoldable pub store_extracted :
    ExtractEnv → ℕ → AuditEntry → Payload → Db → Db × Response BaselineProfile
store_extracted env profile_id entry extracted db = elim (get_profile db profile_id) [
  | none ↦ (db, unhandled (text_of "StaleDataError"))
  | some current ↦
      let saved = record current { structured_data = some extracted } in
      let audited = record entry {
        output_hash =
            some (env.audit.stable_payload_hash (map (λ item. (item.0, value item.1)) extracted));
        status = status_succeeded;
      } in
      (
        (record_llm_audit_log env.audit audited
            (record db { profiles = set_profile saved db.profiles })).0,
        success saved,
      )
]

unfoldable pub extract_profile_structured : ExtractEnv → ℕ → Db → Db × Response BaselineProfile
extract_profile_structured env profile_id db = elim (get_profile db profile_id) [
  | none ↦ (db, error (text_of "not_found") (not_found profile_id) 404)
  | some profile ↦ elim env.extract_structured [
    | none ↦ (
      db,
      error (text_of "not_available")
          (text_of "Active LLM backend does not implement extract_structured().") 503,
    )
    | some extract_structured ↦
        let prompt_version = prompt_version_for_step env.audit.settings step_extract none in
        let entry = extract_entry env profile prompt_version in
        elim (extract_structured profile.skills_text prompt_version) [
          | fails e ↦
              let failed = record entry {
                error_code = some (error_code_for_exception e);
                error_message = some (error_message_for_exception e);
              } in
              (
                (record_llm_audit_log env.audit failed (env.others db)).0,
                error (text_of "llm_invalid_output") env.message 502,
              )
          | ok extracted ↦ store_extracted env profile_id entry extracted (env.others db)
        ]
  ]
]
