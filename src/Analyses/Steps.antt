-- ===== src/Analyses/Steps.antt =====
-- What one evaluation, one run of the tailoring worker, one delivery of a resume and one deletion of a
-- profile do to the analyses (backend/app/services/evaluator_v2.py, backend/app/workers/tailor.py,
-- backend/app/api/evaluate.py).
use resume_helper.Base.{
  none, nonempty, get_or, strip, if◌then◌else◌, subst, sym, ap, ℕ, ℤ, zero, suc, ◌≡◌, ◌∙◌, refl,
  inl, inr, true, Option, some, List, [], ◌∷◌, ◌++◌, Text, All, All-map, All-append, map, arith,
  Bool-cases, Option-cases,
}
use resume_helper.Uuid.{Uuid}
use resume_helper.Tables.{JobAnalysis, GeneratedResume}
use resume_helper.JobQueue.Store.{Db, any_resume}
use resume_helper.Profiles.{delete_profile, unlink, get_profile}
use resume_helper.Audit.{LlmClient, get_analysis, find_resume}
use resume_helper.Evaluation.{EvaluateEnv}
use resume_helper.Evaluation.Results.{row_of}
use resume_helper.Evaluation.States.{EvaluateState, same, audited, stored}
use resume_helper.Tailoring.{TailorEnv, Poll, TailoringResult, set_can_submit, can_flush}
use resume_helper.Tailoring.Outcomes.{later, TailoringOutcome, failed, succeeded, raised}
use resume_helper.Errors.{Attempt}
use resume_helper.Deliveries.{
  DeliveryEnv, CallbackIn, resume_url, commit_delivery, callback_row, deliver_written,
  deliver_linked, external_resume_callback, revision_row, create_generated_resume_revision,
  set_exported, export_written, download_generated_resume_pdf,
}
use resume_helper.Analyses.{
  IsGraded, IsGraded-append, row_of-IsGraded, set_can_submit-IsGraded, IsGraded-same,
}

abbrev pub IsGradedDb : Db → Type 0
IsGradedDb db = All (IsGraded db.resumes) db.analyses

abbrev pub Next : Db → Db → Type 0
Next u v = IsGradedDb u → IsGradedDb v

-- States that agree on the analyses and the resumes.
Next-same : (u v w : Db) → Next u v → w.analyses ≡ v.analyses → w.resumes ≡ v.resumes → Next u w
Next-same u v w n e f g =
    subst (λ rows. All (IsGraded w.resumes) rows) (sym e)
      (subst (λ rs. All (IsGraded rs) v.analyses) (sym f) (n g))

pub evaluated-Next :
    (env : EvaluateEnv) (llm : LlmClient) (jd_text prompt_version : Text) (threshold : ℤ)
    (db after : Db)
    → Next db (env.others db)
    → EvaluateState env llm jd_text prompt_version threshold db after
    → Next db after
evaluated-Next env llm jd_text prompt_version threshold db after n (same e) =
    subst (Next db) (sym e) (λ g. g)
evaluated-Next env llm jd_text prompt_version threshold db after n (audited e) =
    Next-same db (env.others db) after n (ap (λ d. d.analyses) e) (ap (λ d. d.resumes) e)
evaluated-Next env llm jd_text prompt_version threshold db after n (stored id result range e) =
    let v = env.others db in
    let row = row_of env llm id jd_text prompt_version threshold result in
    let w = record v { analyses = v.analyses ++ row ∷ [] } in
    let added : Next v w = λ g.
      All-append (IsGraded v.resumes) v.analyses (row ∷ []) g
        (row_of-IsGraded env llm id jd_text prompt_version threshold result v.resumes range, tt) in
    Next-same db w after (λ g. added (n g)) (ap (λ d. d.analyses) e) (ap (λ d. d.resumes) e)

later-Next :
    (env : TailorEnv) (db : Db)
    → ((n : ℕ) → Next (later env n db) (later env (suc n) db))
    → (n : ℕ) → Next db (later env n db)
later-Next env db steps zero g = g
later-Next env db steps (suc n) g = steps n (later-Next env db steps n g)

any_resume-new :
    (resumes : List GeneratedResume) (r : GeneratedResume)
    → any_resume r.job_analysis_id (resumes ++ r ∷ []) ≡ true
unfolding any_resume
any_resume-new [] r = ground arith
any_resume-new (q ∷ resumes) r = ground (arith, any_resume-new resumes r)

-- A resume is added, and the flag of its analysis set.
submitted-Next :
    (v : Db) (resume : GeneratedResume)
    → Next v (record v {
      resumes = v.resumes ++ resume ∷ [];
      analyses = set_can_submit resume.job_analysis_id v.analyses;
    })
submitted-Next v resume g =
    set_can_submit-IsGraded (v.resumes ++ resume ∷ []) resume.job_analysis_id v.analyses
      (any_resume-new v.resumes resume)
      (All-map v.analyses (λ r h. IsGraded-append v.resumes (resume ∷ []) r h) g)

added-Next :
    (env : TailorEnv) (db after : Db)
    → ((n : ℕ) → Next (later env n db) (later env (suc n) db))
    → (resume : GeneratedResume)
    → after.analyses ≡ set_can_submit resume.job_analysis_id (later env 4 db).analyses
    → after.resumes ≡ (later env 4 db).resumes ++ resume ∷ []
    → Next db after
added-Next env db after steps resume e f =
    let v = later env 4 db in
    let w = record v {
      resumes = v.resumes ++ resume ∷ [];
      analyses = set_can_submit resume.job_analysis_id v.analyses;
    } in
    Next-same db w after (λ g. submitted-Next v resume (later-Next env db steps 4 g)) e f

pub tailored-Next :
    (env : TailorEnv) (poll : Option Poll) (id : Uuid) (db : Db) (p : Db × Attempt TailoringResult)
    → ((n : ℕ) → Next (later env n db) (later env (suc n) db))
    → TailoringOutcome env poll id db p
    → Next db p.0
tailored-Next env poll id db p steps (failed n result answer status e) =
    Next-same db (later env n db) p.0 (later-Next env db steps n) (ap (λ d. d.analyses) e)
      (ap (λ d. d.resumes) e)
tailored-Next env poll id db p steps (succeeded baseline resume own end chosen there calm e) =
    added-Next env db p.0 steps resume
      (ap (λ d. d.analyses) e ∙ ap (λ i. set_can_submit i (later env 4 db).analyses) (sym own))
      (ap (λ d. d.resumes) e)
tailored-Next env poll id db p steps (raised baseline resume own end chosen gone calm e) =
    added-Next env db p.0 steps resume
      (ap (λ d. d.analyses) e ∙ ap (λ i. set_can_submit i (later env 4 db).analyses) (sym own))
      (ap (λ d. d.resumes) e)

deliver_written-Next :
    (env : DeliveryEnv) (resume : GeneratedResume) (db : Db)
    → Next db (deliver_written env resume db).0
unfolding deliver_written commit_delivery
deliver_written-Next env resume db = elim (Bool-cases (can_flush resume db)) [
  | inr e ↦ rw (e, deliver_written) (λ g. g)
  | inl e ↦ elim (Option-cases (env.write_pdf resume.id resume.resume_text)) [
    | inr (name, f) ↦ rw (e, f, deliver_written) (λ g. g)
    | inl f ↦
        rw (e, f, deliver_written)
          (submitted-Next db (record resume { pdf_url = some (resume_url resume.id) }))
  ]
]

pub external_resume_callback-Next :
    (env : DeliveryEnv) (body : CallbackIn) (db : Db)
    → Next db (external_resume_callback env body db).0
unfolding external_resume_callback deliver_linked commit_delivery
external_resume_callback-Next env body db =
    elim (Option-cases (get_analysis db body.job_analysis_id)) [
      | inl e ↦ rw (e, external_resume_callback) (λ g. g)
      | inr (job, e) ↦
          let resume = callback_row env body in
          elim (Bool-cases (nonempty (get_or body.pdf_url []))) [
            | inr f ↦ rw (e, f, external_resume_callback) (deliver_written-Next env resume db)
            | inl f ↦ elim (Bool-cases (can_flush resume db)) [
              | inr h ↦ rw (e, f, h, external_resume_callback, deliver_linked) (λ g. g)
              | inl h ↦
                  rw (e, f, h, external_resume_callback, deliver_linked) (submitted-Next db resume)
            ]
          ]
    ]

pub create_generated_resume_revision-Next :
    (env : DeliveryEnv) (resume_id : Uuid) (resume_text : Text) (db : Db)
    → Next db (create_generated_resume_revision env resume_id resume_text db).0
unfolding create_generated_resume_revision
create_generated_resume_revision-Next env resume_id resume_text db =
    elim (Option-cases (find_resume resume_id db.resumes)) [
      | inl e ↦ rw (e, create_generated_resume_revision) (λ g. g)
      | inr (source, e) ↦ elim (Bool-cases (nonempty (strip resume_text))) [
        | inr f ↦ rw (e, f, create_generated_resume_revision) (λ g. g)
        | inl f ↦
            rw (e, f, create_generated_resume_revision)
              (deliver_written-Next env (revision_row env source (strip resume_text)) db)
      ]
    ]

any_resume-set_exported :
    (now : ℕ) (id a : Uuid) (rows : List GeneratedResume)
    → any_resume a (set_exported now id rows) ≡ any_resume a rows
unfolding any_resume set_exported
any_resume-set_exported now id a [] = refl
any_resume-set_exported now id a (r ∷ rows) = ground (arith, any_resume-set_exported now id a rows)

pub download_generated_resume_pdf-Next :
    (env : DeliveryEnv) (resume_id : Uuid) (db : Db)
    → Next db (download_generated_resume_pdf env resume_id db).0
unfolding download_generated_resume_pdf export_written
download_generated_resume_pdf-Next env resume_id db =
    elim (Option-cases (find_resume resume_id db.resumes)) [
      | inl e ↦ rw (e, download_generated_resume_pdf) (λ g. g)
      | inr (resume, e) ↦
          let failure =
            if env.pdf_exists resume_id then none else env.write_pdf resume_id resume.resume_text in
          elim (Option-cases failure) [
            | inr (name, f) ↦ rw (e, f, download_generated_resume_pdf, export_written) (λ g. g)
            | inl f ↦
                rw (e, f, download_generated_resume_pdf, export_written)
                  (λ g.
                    All-map db.analyses
                      (λ a h.
                        IsGraded-same db.resumes _ a
                          (any_resume-set_exported env.now resume_id a.id db.resumes) h)
                      g)
          ]
    ]

unlinked : ℕ → List JobAnalysis → List JobAnalysis
unlinked id analyses =
    map (λ (a : JobAnalysis). record a { profile_id = unlink id a.profile_id }) analyses

unlinked-All :
    (resumes : List GeneratedResume) (id : ℕ) (analyses : List JobAnalysis)
    → All (IsGraded resumes) analyses
    → All (IsGraded resumes) (unlinked id analyses)
unfolding unlinked
unlinked-All resumes id [] all = tt
unlinked-All resumes id (a ∷ analyses) all =
    let g = all.0 in
    (
      record {
        value = g.value;
        scored = g.scored;
        in_range = g.in_range;
        graded = g.graded;
        reason = g.reason;
        fits = g.fits;
      },
      unlinked-All resumes id analyses all.1,
    )

pub delete_profile-Next : (id : ℕ) (db : Db) → Next db (delete_profile id db).0
unfolding delete_profile unlinked
delete_profile-Next id db = elim (Option-cases (get_profile db id)) [
  | inl e ↦ rw (e, delete_profile) (λ g. g)
  | inr (p, e) ↦ rw (e, delete_profile) (unlinked-All db.resumes id db.analyses)
]
