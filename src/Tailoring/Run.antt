-- ===== src/Tailoring/Run.antt =====
-- `run_tailoring` of backend/app/workers/tailor.py, from its end to its start.
use resume_helper.Base.{not, ℕ, Option, none, some, ◌++◌, Text, text_of, if◌then◌else◌}
use resume_helper.Uuid.{Uuid}
use resume_helper.Tables.{GeneratedResume}
use resume_helper.Errors.{
  WorkerError, unexpected, Attempt, ok, fails, error_code_for_exception,
  error_message_for_exception,
}
use resume_helper.JobQueue.Store.{Db}
use resume_helper.Profiles.{get_profile}
use resume_helper.Audit.{LlmClient, AuditEntry, llm_metadata, record_llm_audit_log, get_analysis}
use resume_helper.Tailoring.{
  TailoringResult, tailoring_status_succeeded, tailoring_failure, TailorEnv, Poll, is_cancelled,
  call_tailor_llm, tailor_baseline, awaits_tailoring, status_text, analysis_name, Tailoring,
  tailor_call, tailor_entry, tailored_entry, resume_row, can_flush, commit_resume,
  prepare_tailoring,
}

abbrev pub cancelled_result : Uuid → TailoringResult
cancelled_result id =
    tailoring_failure id (text_of "job_cancelled") (text_of "tailoring job was cancelled")

abbrev pub persist_failed : Uuid → Text → TailoringResult
persist_failed id name = tailoring_failure id (text_of "tailor_persist_failed") name

abbrev pub tailored : Uuid → Uuid → TailoringResult
tailored id resume_id = record {
  job_analysis_id = id;
  status = tailoring_status_succeeded;
  generated_resume_id = some resume_id;
  error_code = none;
  error_message = none;
}

-- What the read of an object raises that a commit has expired and whose row has gone.
abbrev pub object_deleted : TailorEnv → WorkerError
object_deleted env = unexpected (text_of "ObjectDeletedError") env.deleted_message

-- The second `try` block, from its flush on, and the audit row behind it. The commit expires the objects
-- of the session, so that `baseline.id` in the audit's arguments is read again: where the profile has gone
-- this raises, outside of the `try`. From the commit to this read is one step.
unfoldable pub store_resume :
    TailorEnv → Option Poll → ℕ → GeneratedResume → AuditEntry → Db → Db × Attempt TailoringResult
store_resume env poll baseline_id resume entry db =
    let id = resume.job_analysis_id in
    if not (can_flush resume db)
    then (db, ok (persist_failed id (text_of "IntegrityError")))
    else elim (env.write_pdf resume.id resume.resume_text) [
      | some name ↦ (db, ok (persist_failed id name))
      | none ↦
          let db' = env.others 3 db in
          if is_cancelled poll 3 db'
          then (db', ok (cancelled_result id))
          else elim (commit_resume resume db') [
            | none ↦ (db', ok (persist_failed id (text_of "StaleDataError")))
            | some stored ↦ elim (get_profile stored baseline_id) [
              | none ↦ (stored, fails (object_deleted env))
              | some _ ↦
                  ((record_llm_audit_log env.audit entry stored).0, ok (tailored id resume.id))
            ]
          ]
    ]

-- From the call of the LLM on; `db` is what the database holds when it answers.
unfoldable pub tailor_resume :
    TailorEnv → LlmClient → Option Poll → Tailoring → Db → Db × Attempt TailoringResult
tailor_resume env llm poll t db =
    let metadata = llm_metadata env.audit.settings llm in
    let entry = tailor_entry env t metadata in
    elim (call_tailor_llm llm (tailor_call t)) [
      | fails e ↦
          let failed = record entry {
            error_code = some (error_code_for_exception e);
            error_message = some (error_message_for_exception e);
          } in
          (
            (record_llm_audit_log env.audit failed db).0,
            ok (
                tailoring_failure t.job.id (error_code_for_exception e)
                  (error_message_for_exception e)),
          )
      | ok result ↦
          let db' = env.others 2 db in
          let resume = resume_row env t metadata result in
          if is_cancelled poll 1 db
          then (db, ok (cancelled_result t.job.id))
          else if is_cancelled poll 2 db'
          then (db', ok (cancelled_result t.job.id))
          else store_resume env poll t.baseline.id resume
              (tailored_entry env entry result resume.id) db'
    ]

unfoldable pub run_tailoring :
    TailorEnv
    → LlmClient
    → Option Poll
    → Uuid
    → Option Text
    → Option Text
    → Db
    → Db × Attempt TailoringResult
run_tailoring env llm poll id prompt_version request_id db = elim (get_analysis db id) [
  | none ↦ (
    db,
    ok (
        tailoring_failure id (text_of "job_analysis_not_found")
          (analysis_name id ++ text_of " not found")),
  )
  | some job ↦
      if not (awaits_tailoring job.status)
      then (
        db,
        ok (
            tailoring_failure id (text_of "invalid_job_status")
              (analysis_name id ++ text_of " status is " ++ status_text job.status)),
      )
      else elim (tailor_baseline job.profile_id db) [
        | none ↦ (
          db,
          ok (
              tailoring_failure id (text_of "baseline_profile_not_found")
                (text_of "baseline_profile not set")),
        )
        | some baseline ↦
            let db' = env.others 0 db in
            let t = prepare_tailoring env job baseline prompt_version request_id db' in
            if is_cancelled poll 0 db'
            then (db', ok (cancelled_result id))
            else tailor_resume env llm poll t (env.others 1 db')
      ]
]
