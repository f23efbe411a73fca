-- ===== src/Tailoring/Success.antt =====
-- When a run of backend/app/workers/tailor.py succeeds.
use resume_helper.Base.{
  ◌∙◌, ap, inl, inr, arith, Option-cases, none, ℕ, ◌≡◌, refl, true, false, Option, some, Text,
  is_some,
}
use resume_helper.Uuid.{Uuid}
use resume_helper.Tables.{BaselineProfile, GeneratedResume}
use resume_helper.Errors.{Attempt, ok}
use resume_helper.JobQueue.Store.{Db}
use resume_helper.Profiles.{get_profile}
use resume_helper.Audit.{
  LlmClient, TailorCall, TailorOutput, find_resume, AuditEntry, llm_metadata, get_analysis,
}
use resume_helper.Tailoring.{
  tailoring_failure, TailorEnv, Poll, is_cancelled, call_tailor_llm, tailor_baseline, Tailoring,
  tailor_call, tailor_entry, tailored_entry, resume_row, can_flush, commit_resume,
  prepare_tailoring,
}
use resume_helper.Tailoring.Run.{tailored, store_resume, tailor_resume, run_tailoring}
use resume_helper.Tailoring.Outcomes.{later, polled, IsAwaiting, find_analysis-id}

store_resume-tailored :
    (env : TailorEnv) (poll : Option Poll) (baseline_id : ℕ) (resume : GeneratedResume)
    (entry : AuditEntry) (db : Db)
    → can_flush resume db ≡ true
    → env.write_pdf resume.id resume.resume_text ≡ none
    → is_cancelled poll 3 (env.others 3 db) ≡ false
    → is_some (get_analysis (env.others 3 db) resume.job_analysis_id) ≡ true
    → is_some (get_profile (env.others 3 db) baseline_id) ≡ true
    → (store_resume env poll baseline_id resume entry db).1
      ≡ ok (tailored resume.job_analysis_id resume.id)
unfolding store_resume commit_resume get_profile
store_resume-tailored env poll baseline_id resume entry db flush written calm there kept =
    elim (Option-cases (get_profile (env.others 3 db) baseline_id)) [
      | inl e ↦ absurd (ground (arith, e, kept))
      | inr (p, e) ↦ rw (flush, written, calm, there, e, store_resume, commit_resume) refl
    ]

tailor_resume-tailored :
    (env : TailorEnv) (llm : LlmClient) (poll : Option Poll) (t : Tailoring) (db : Db)
    (result : TailorOutput)
    → call_tailor_llm llm (tailor_call t) ≡ ok result
    → is_cancelled poll 1 db ≡ false
    → is_cancelled poll 2 (env.others 2 db) ≡ false
    → is_cancelled poll 3 (env.others 3 (env.others 2 db)) ≡ false
    → find_resume env.new_id (env.others 2 db).resumes ≡ none
    → is_some (get_analysis (env.others 2 db) t.job.id) ≡ true
    → is_some (get_analysis (env.others 3 (env.others 2 db)) t.job.id) ≡ true
    → is_some (get_profile (env.others 3 (env.others 2 db)) t.baseline.id) ≡ true
    → ((resume_text : Text) → env.write_pdf env.new_id resume_text ≡ none)
    → (tailor_resume env llm poll t db).1 ≡ ok (tailored t.job.id env.new_id)
unfolding tailor_resume resume_row can_flush
tailor_resume-tailored env llm poll t db result answered calm calm2 calm3 fresh there end_there kept
      written =
    let metadata = llm_metadata env.audit.settings llm in
    let resume = resume_row env t metadata result in
    let entry = tailored_entry env (tailor_entry env t metadata) result resume.id in
    rw (answered, calm, calm2, tailor_resume)
      (store_resume-tailored env poll t.baseline.id resume entry (env.others 2 db)
        (rw (fresh, can_flush) there) (written resume.resume_text) calm3 end_there kept)

-- A run succeeds where its analysis waits for a resume and is there to the end, a profile is found and is
-- there to the end, the LLM answers every call, the id of the resume is new, the PDF is written and no
-- poll sees a request to cancel.
pub run_tailoring-tailored :
    (env : TailorEnv) (llm : LlmClient) (poll : Option Poll) (id : Uuid)
    (prompt_version request_id : Option Text) (db : Db) (awaiting : IsAwaiting id db)
    (baseline : BaselineProfile) (tailor : TailorCall → Attempt TailorOutput)
    (answer : TailorCall → TailorOutput)
    → tailor_baseline awaiting.job.profile_id db ≡ some baseline
    → llm.tailor ≡ some tailor
    → ((call : TailorCall) → tailor call ≡ ok (answer call))
    → find_resume env.new_id (later env 3 db).resumes ≡ none
    → is_some (get_analysis (later env 3 db) id) ≡ true
    → is_some (get_analysis (later env 4 db) id) ≡ true
    → is_some (get_profile (later env 4 db) baseline.id) ≡ true
    → ((resume_text : Text) → env.write_pdf env.new_id resume_text ≡ none)
    → ((n : ℕ) → polled env poll db n ≡ false)
    → (run_tailoring env llm poll id prompt_version request_id db).1 ≡ ok (tailored id env.new_id)
unfolding run_tailoring tailoring_failure
run_tailoring-tailored env llm poll id prompt_version request_id db awaiting baseline tailor answer
      found has_tailor answers fresh there end_there kept written calm =
    let job = awaiting.job in
    let own : job.id ≡ id =
      find_analysis-id id db.analyses job (unfold get_analysis in awaiting.found) in
    let t = prepare_tailoring env job baseline prompt_version request_id (later env 1 db) in
    let same : t.job.id ≡ id = unfold prepare_tailoring in own in
    let answered : call_tailor_llm llm (tailor_call t) ≡ ok (answer (tailor_call t)) =
      unfold call_tailor_llm in rw (has_tailor, call_tailor_llm) (answers (tailor_call t)) in
    rw (awaiting.found, awaiting.awaits, found, calm 0, run_tailoring)
      (tailor_resume-tailored env llm poll t (later env 2 db) (answer (tailor_call t)) answered
          (calm 1) (calm 2) (calm 3) fresh (rw same there) (rw same end_there)
          (unfold prepare_tailoring in kept) written
        ∙ ap (λ i. ok (tailored i env.new_id)) same)
