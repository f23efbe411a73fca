-- ===== src/Tailoring/Outcomes.antt =====
-- How a run of backend/app/workers/tailor.py ends, and what it leaves.
use resume_helper.Base.{
  subst, sym, ap, ◌∙◌, none, zero, suc, ℕ, ◌≡◌, refl, inl, inr, Bool, true, false, Option, some,
  List, [], ◌∷◌, ◌++◌, Text, arith, Bool-cases, Option-cases, is_some,
}
use resume_helper.Uuid.{Uuid}
use resume_helper.Tables.{BaselineProfile, JobAnalysis, GeneratedResume}
use resume_helper.Errors.{Attempt, ok, fails, Attempt-cases}
use resume_helper.JobQueue.Store.{Db}
use resume_helper.Profiles.{get_profile}
use resume_helper.Audit.{
  LlmClient, AuditEntry, llm_metadata, record_llm_audit_log, get_analysis, find_analysis,
}
use resume_helper.Evaluation.Results.{record_llm_audit_log-tables}
use resume_helper.Tailoring.{
  TailoringResult, tailoring_status_failed, tailoring_failure, TailorEnv, Poll, is_cancelled,
  call_tailor_llm, tailor_baseline, awaits_tailoring, Tailoring, tailor_call, tailor_entry,
  tailored_entry, resume_row, can_flush, commit_resume, prepare_tailoring, set_can_submit,
}
use resume_helper.Tailoring.Run.{
  tailored, object_deleted, store_resume, tailor_resume, run_tailoring,
}

-- What the database holds when a run has let the other sessions go on `n` times.
abbrev pub later : TailorEnv → ℕ → Db → Db
later env zero db = db
later env (suc n) db = env.others n (later env n db)

-- The answer of the poll of the given number.
abbrev pub polled : TailorEnv → Option Poll → Db → ℕ → Bool
polled env poll db n = is_cancelled poll n (later env (suc n) db)

-- The analysis is there and waits for its resume.
pub record IsAwaiting (id : Uuid) (db : Db) : Type 0 where
  pub job : JobAnalysis
  pub found : get_analysis db id ≡ some job
  pub awaits : awaits_tailoring job.status ≡ true

-- No poll saw a request to cancel.
pub record IsCalm (env : TailorEnv) (poll : Option Poll) (db : Db) : Type 0 where
  pub first : polled env poll db 0 ≡ false
  pub second : polled env poll db 1 ≡ false
  pub third : polled env poll db 2 ≡ false
  pub fourth : polled env poll db 3 ≡ false

-- The analysis waited at the start, where the profile was found for it, and is there at the end.
pub record IsChosen (env : TailorEnv) (id : Uuid) (db : Db) (baseline : BaselineProfile)
    : Type 0 where
  pub awaiting : IsAwaiting id db
  pub chosen : tailor_baseline awaiting.job.profile_id db ≡ some baseline
  pub there : is_some (get_analysis (later env 4 db) id) ≡ true

pub data TailoringOutcome (env : TailorEnv) (poll : Option Poll) (id : Uuid) (db : Db)
    (p : Db × Attempt TailoringResult) : Type 0 where
  failed :
      (n : ℕ) (result : TailoringResult)
      → p.1 ≡ ok result
      → result.status ≡ tailoring_status_failed
      → p.0 ≡ record (later env n db) { audits = p.0.audits }
      → TailoringOutcome env poll id db p
  succeeded :
      (baseline : BaselineProfile) (resume : GeneratedResume)
      → resume.job_analysis_id ≡ id
      → p.1 ≡ ok (tailored id resume.id)
      → IsChosen env id db baseline
      → is_some (get_profile (later env 4 db) baseline.id) ≡ true
      → IsCalm env poll db
      → p.0 ≡ record (later env 4 db) {
        resumes = (later env 4 db).resumes ++ resume ∷ [];
        analyses = set_can_submit id (later env 4 db).analyses;
        audits = p.0.audits;
      }
      → TailoringOutcome env poll id db p
  raised :
      (baseline : BaselineProfile) (resume : GeneratedResume)
      → resume.job_analysis_id ≡ id
      → p.1 ≡ fails (object_deleted env)
      → IsChosen env id db baseline
      → get_profile (later env 4 db) baseline.id ≡ none
      → IsCalm env poll db
      → p.0 ≡ record (later env 4 db) {
        resumes = (later env 4 db).resumes ++ resume ∷ [];
        analyses = set_can_submit id (later env 4 db).analyses;
      }
      → TailoringOutcome env poll id db p

committed :
    (resume : GeneratedResume) (db stored : Db)
    → commit_resume resume db ≡ some stored
    → (is_some (get_analysis db resume.job_analysis_id) ≡ true)
      × (stored ≡ record db {
        resumes = db.resumes ++ resume ∷ [];
        analyses = set_can_submit resume.job_analysis_id db.analyses;
      })
unfolding commit_resume
committed resume db stored e = ground arith

module _ (env : TailorEnv) (poll : Option Poll) (baseline : BaselineProfile)
    (resume : GeneratedResume) (entry : AuditEntry) (db stored : Db) where
  -- The end of a run, after its commit.
  stored-TailoringOutcome :
      IsCalm env poll db
      → IsChosen env resume.job_analysis_id db baseline
      → stored ≡ record (later env 4 db) {
        resumes = (later env 4 db).resumes ++ resume ∷ [];
        analyses = set_can_submit resume.job_analysis_id (later env 4 db).analyses;
      }
      → TailoringOutcome env poll resume.job_analysis_id db (elim (get_profile stored baseline.id) [
        | none ↦ (stored, fails (object_deleted env))
        | some _ ↦ (
          (record_llm_audit_log env.audit entry stored).0,
          ok (tailored resume.job_analysis_id resume.id),
        )
      ])
  unfolding get_profile
  stored-TailoringOutcome calm chosen own =
      let same : get_profile stored baseline.id ≡ get_profile (later env 4 db) baseline.id =
        ap (λ s. get_profile s baseline.id) own in
      elim (Option-cases (get_profile stored baseline.id)) [
        | inl e ↦
            rw (e, get_profile) (raised baseline resume refl refl chosen (sym same ∙ e) calm own)
        | inr (p, e) ↦
            let written =
              subst
                (λ s.
                  (record_llm_audit_log env.audit entry stored).0
                  ≡ record s { audits = (record_llm_audit_log env.audit entry stored).0.audits })
                own (record_llm_audit_log-tables env.audit entry stored) in
            let there : is_some (get_profile (later env 4 db) baseline.id) ≡ true =
              subst (λ o. is_some o ≡ true) (sym (sym same ∙ e)) refl in
            rw (e, get_profile) (succeeded baseline resume refl refl chosen there calm written)
      ]

store_resume-TailoringOutcome :
    (env : TailorEnv) (poll : Option Poll) (baseline : BaselineProfile) (resume : GeneratedResume)
    (entry : AuditEntry) (db : Db)
    → (polled env poll db 0 ≡ false)
      × (polled env poll db 1 ≡ false)
      × (polled env poll db 2 ≡ false)
    → (awaiting : IsAwaiting resume.job_analysis_id db)
    → tailor_baseline awaiting.job.profile_id db ≡ some baseline
    → TailoringOutcome env poll resume.job_analysis_id db
        (store_resume env poll baseline.id resume entry (later env 3 db))
unfolding store_resume tailoring_failure
store_resume-TailoringOutcome env poll baseline resume entry db c awaiting chosen =
    let start = later env 3 db in
    let end = later env 4 db in
    let id = resume.job_analysis_id in
    elim (Bool-cases (can_flush resume start)) [
      | inr e ↦ rw (e, store_resume) (failed 3 _ refl refl refl)
      | inl e ↦ elim (Option-cases (env.write_pdf resume.id resume.resume_text)) [
        | inr (name, f) ↦ rw (e, f, store_resume) (failed 3 _ refl refl refl)
        | inl f ↦ elim (Bool-cases (is_cancelled poll 3 end)) [
          | inl g ↦ rw (e, f, g, store_resume) (failed 4 _ refl refl refl)
          | inr g ↦ elim (Option-cases (commit_resume resume end)) [
            | inl h ↦ rw (e, f, g, h, store_resume) (failed 4 _ refl refl refl)
            | inr (stored, h) ↦
                let (there, own) = committed resume end stored h in
                let calm : IsCalm env poll db = record {
                  first = c.0;
                  second = c.1;
                  third = c.2;
                  fourth = g;
                } in
                let kept : IsChosen env id db baseline = record {
                  awaiting = awaiting;
                  chosen = chosen;
                  there = there;
                } in
                rw (e, f, g, h, store_resume)
                  (stored-TailoringOutcome env poll baseline resume entry db stored calm kept own)
          ]
        ]
      ]
    ]

tailor_resume-TailoringOutcome :
    (env : TailorEnv) (llm : LlmClient) (poll : Option Poll) (t : Tailoring) (db : Db)
    → polled env poll db 0 ≡ false
    → (awaiting : IsAwaiting t.job.id db)
    → tailor_baseline awaiting.job.profile_id db ≡ some t.baseline
    → TailoringOutcome env poll t.job.id db (tailor_resume env llm poll t (later env 2 db))
unfolding tailor_resume tailoring_failure
tailor_resume-TailoringOutcome env llm poll t db c awaiting chosen =
    let start = later env 2 db in
    let next = later env 3 db in
    elim (Attempt-cases (call_tailor_llm llm (tailor_call t))) [
      | inl (x, e) ↦
          rw (e, tailor_resume)
            (failed 2 _ refl refl (record_llm_audit_log-tables env.audit _ start))
      | inr (result, e) ↦ elim (Bool-cases (is_cancelled poll 1 start)) [
        | inl f ↦ rw (e, f, tailor_resume) (failed 2 _ refl refl refl)
        | inr f ↦ elim (Bool-cases (is_cancelled poll 2 next)) [
          | inl g ↦ rw (e, f, g, tailor_resume) (failed 3 _ refl refl refl)
          | inr g ↦
              let metadata = llm_metadata env.audit.settings llm in
              let resume = resume_row env t metadata result in
              let entry = tailored_entry env (tailor_entry env t metadata) result resume.id in
              rw (e, f, g, tailor_resume)
                (unfold resume_row in
                  store_resume-TailoringOutcome env poll t.baseline resume entry db (c, f, g)
                    awaiting chosen)
        ]
      ]
    ]

pub find_analysis-id :
    (id : Uuid) (analyses : List JobAnalysis) (a : JobAnalysis)
    → find_analysis id analyses ≡ some a
    → a.id ≡ id
unfolding find_analysis
find_analysis-id id [] a e = absurd (cc)
find_analysis-id id (b ∷ analyses) a e = ground (arith, find_analysis-id id analyses a)

pub run_tailoring-TailoringOutcome :
    (env : TailorEnv) (llm : LlmClient) (poll : Option Poll) (id : Uuid)
    (prompt_version request_id : Option Text) (db : Db)
    → TailoringOutcome env poll id db (run_tailoring env llm poll id prompt_version request_id db)
unfolding run_tailoring tailoring_failure
run_tailoring-TailoringOutcome env llm poll id prompt_version request_id db =
    elim (Option-cases (get_analysis db id)) [
      | inl e ↦ rw (e, run_tailoring) (failed 0 _ refl refl refl)
      | inr (job, e) ↦ elim (Bool-cases (awaits_tailoring job.status)) [
        | inr f ↦ rw (e, f, run_tailoring) (failed 0 _ refl refl refl)
        | inl f ↦ elim (Option-cases (tailor_baseline job.profile_id db)) [
          | inl g ↦ rw (e, f, g, run_tailoring) (failed 0 _ refl refl refl)
          | inr (baseline, g) ↦
              let next = later env 1 db in
              let t = prepare_tailoring env job baseline prompt_version request_id next in
              elim (Bool-cases (is_cancelled poll 0 next)) [
                | inl h ↦ rw (e, f, g, h, run_tailoring) (failed 1 _ refl refl refl)
                | inr h ↦
                    let own : job.id ≡ id =
                      find_analysis-id id db.analyses job (unfold get_analysis in e) in
                    let same : t.job.id ≡ id = unfold prepare_tailoring in own in
                    let base : t.baseline ≡ baseline = unfold prepare_tailoring in refl in
                    let awaiting : IsAwaiting id db = record { job = job; found = e; awaits = f } in
                    let waits =
                      subst
                        (λ i.
                          (a : IsAwaiting i db) × (tailor_baseline a.job.profile_id db
                            ≡ some t.baseline))
                        (sym same) (awaiting, g ∙ ap some (sym base)) in
                    rw (e, f, g, h, run_tailoring)
                      (subst
                        (λ i.
                          TailoringOutcome env poll i db
                            (tailor_resume env llm poll t (later env 2 db)))
                        same (tailor_resume-TailoringOutcome env llm poll t db h waits.0 waits.1))
              ]
        ]
      ]
    ]
