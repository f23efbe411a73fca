-- ===== src/Analyses.antt =====
-- What a row of `job_analyses` keeps under backend/app/services/evaluator_v2.py,
-- backend/app/workers/tailor.py and the deliveries of backend/app/api/evaluate.py.
pub mod Steps
pub mod Reach
use resume_helper.Base.{
  subst, sym, ap, ℕ, ℤ, ◌≡◌, ◌∙◌, ◌⊎◌, refl, inl, inr, Bool, true, false, Option, none, some, List,
  [], ◌∷◌, ◌++◌, Text, All, All-map, All-append, map, arith, Bool-cases, Option-cases, ◌==◌, ==_iff,
  ◌||◌,
}
use resume_helper.Uuid.{Uuid}
use resume_helper.Tables.{
  BaselineProfile, JobAnalysis, GeneratedResume, AnalysisStatus, ready_to_submit, needs_tailoring,
  skip,
}
use resume_helper.JobQueue.Store.{Db, any_resume}
use resume_helper.Audit.{LlmClient, EvaluationResult, get_analysis, find_analysis}
use resume_helper.Evaluation.{
  EvaluateEnv, tier, skip_reason_of, can_submit_of, is_in_range, analysis_row,
}
use resume_helper.Evaluation.Results.{row_of}
use resume_helper.Tailoring.{set_can_submit, awaits_tailoring}

-- What the flag of a row may be, by its status and by whether it has a generated resume.
abbrev pub SubmitFits : AnalysisStatus → Bool → Bool → Type 0
SubmitFits ready_to_submit can_submit has_resume = can_submit ≡ true
SubmitFits needs_tailoring can_submit has_resume = (can_submit ≡ false) ⊎ (has_resume ≡ true)
SubmitFits skip can_submit has_resume = (can_submit ≡ false) ⊎ (has_resume ≡ true)

pub record IsGraded (resumes : List GeneratedResume) (a : JobAnalysis) : Type 0 where
  pub value : ℤ
  pub scored : a.score ≡ some value
  pub in_range : is_in_range (some value) ≡ true
  pub graded : a.status ≡ some (tier value)
  pub reason : a.skip_reason ≡ skip_reason_of (tier value) value
  pub fits : SubmitFits (tier value) a.can_submit (any_resume a.id resumes)

any_resume-append :
    (id : Uuid) (resumes more : List GeneratedResume)
    → any_resume id resumes ≡ true
    → any_resume id (resumes ++ more) ≡ true
unfolding any_resume
any_resume-append id [] more e = absurd (cc)
any_resume-append id (r ∷ resumes) more e = ground (arith, any_resume-append id resumes more)

SubmitFits-more :
    (s : AnalysisStatus) (flag has has' : Bool)
    → (has ≡ true → has' ≡ true)
    → SubmitFits s flag has
    → SubmitFits s flag has'
SubmitFits-more ready_to_submit flag has has' more f = f
SubmitFits-more needs_tailoring flag has has' more (inl f) = inl f
SubmitFits-more needs_tailoring flag has has' more (inr f) = inr (more f)
SubmitFits-more skip flag has has' more (inl f) = inl f
SubmitFits-more skip flag has has' more (inr f) = inr (more f)

pub IsGraded-append :
    (resumes more : List GeneratedResume) (a : JobAnalysis)
    → IsGraded resumes a
    → IsGraded (resumes ++ more) a
IsGraded-append resumes more a g = record {
  value = g.value;
  scored = g.scored;
  in_range = g.in_range;
  graded = g.graded;
  reason = g.reason;
  fits =
      SubmitFits-more (tier g.value) a.can_submit _ _ (any_resume-append a.id resumes more) g.fits;
}

new_fits : (s : AnalysisStatus) (has : Bool) → SubmitFits s (can_submit_of s) has
new_fits ready_to_submit has = refl
new_fits needs_tailoring has = inl refl
new_fits skip has = inl refl

pub row_of-IsGraded :
    (env : EvaluateEnv) (llm : LlmClient) (id : ℕ) (jd_text prompt_version : Text) (threshold : ℤ)
    (result : EvaluationResult) (resumes : List GeneratedResume)
    → is_in_range (row_of env llm id jd_text prompt_version threshold result).score ≡ true
    → IsGraded resumes (row_of env llm id jd_text prompt_version threshold result)
row_of-IsGraded env llm id jd_text prompt_version threshold result resumes range =
    unfold analysis_row in
    record {
      value = result.score;
      scored = refl;
      in_range = range;
      graded = refl;
      reason = refl;
      fits = new_fits (tier result.score) _;
    }

-- A row that is marked, once there is a resume for it.
marked-IsGraded :
    (resumes : List GeneratedResume) (a : JobAnalysis)
    → any_resume a.id resumes ≡ true
    → IsGraded resumes a
    → IsGraded resumes (record a { can_submit = true })
marked-IsGraded resumes a has g = record {
  value = g.value;
  scored = g.scored;
  in_range = g.in_range;
  graded = g.graded;
  reason = g.reason;
  fits = fits (tier g.value);
}
  where
    fits : (s : AnalysisStatus) → SubmitFits s true (any_resume a.id resumes)
    fits ready_to_submit = refl
    fits needs_tailoring = inr has
    fits skip = inr has

pub set_can_submit-IsGraded :
    (resumes : List GeneratedResume) (id : Uuid) (analyses : List JobAnalysis)
    → any_resume id resumes ≡ true
    → All (IsGraded resumes) analyses
    → All (IsGraded resumes) (set_can_submit id analyses)
unfolding set_can_submit
set_can_submit-IsGraded resumes id [] has all = tt
set_can_submit-IsGraded resumes id (b ∷ analyses) has all = elim (Bool-cases (b.id == id)) [
  | inl e ↦
      let own : b.id ≡ id = ground (arith, ==_iff b.id id) in
      rw e (
        marked-IsGraded resumes b (subst (λ i. any_resume i resumes ≡ true) (sym own) has) all.0,
        all.1,
      )
  | inr e ↦ rw e (all.0, set_can_submit-IsGraded resumes id analyses has all.1)
]

-- A change of the resumes that leaves every analysis as many as it had.
pub IsGraded-same :
    (resumes more : List GeneratedResume) (a : JobAnalysis)
    → any_resume a.id more ≡ any_resume a.id resumes
    → IsGraded resumes a
    → IsGraded more a
IsGraded-same resumes more a same g = record {
  value = g.value;
  scored = g.scored;
  in_range = g.in_range;
  graded = g.graded;
  reason = g.reason;
  fits = subst (SubmitFits (tier g.value) a.can_submit) (sym same) g.fits;
}
