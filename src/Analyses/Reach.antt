-- ===== src/Analyses/Reach.antt =====
-- Every table of analyses that backend/app/services/evaluator_v2.py, backend/app/workers/tailor.py and the
-- deliveries of backend/app/api/evaluate.py can make of an empty one.
use resume_helper.Base.{ℕ, ℤ, suc, Option, [], Text, All}
use resume_helper.Uuid.{Uuid}
use resume_helper.JobQueue.Store.{Db}
use resume_helper.Profiles.{delete_profile}
use resume_helper.Audit.{LlmClient}
use resume_helper.Evaluation.{EvaluateEnv, evaluate_jd}
use resume_helper.Evaluation.States.{evaluate_jd-EvaluateState}
use resume_helper.Tailoring.{TailorEnv, Poll}
use resume_helper.Tailoring.Run.{run_tailoring}
use resume_helper.Tailoring.Outcomes.{later, run_tailoring-TailoringOutcome}
use resume_helper.Deliveries.{
  DeliveryEnv, CallbackIn, external_resume_callback, create_generated_resume_revision,
  download_generated_resume_pdf,
}
use resume_helper.Analyses.{IsGraded}
use resume_helper.Analyses.Steps.{
  Next, evaluated-Next, tailored-Next, delete_profile-Next, external_resume_callback-Next,
  create_generated_resume_revision-Next, download_generated_resume_pdf-Next,
}

-- The calls may come in any order, with any arguments, also with clients that raise; while an LLM or a
-- poll is waited for, the other sessions go on. `elsewhere` is what leaves both tables as they are.
pub data Reach : Db → Db → Type 0 where
  here : {w : Db} → Reach w w
  evaluate :
      {w u : Db}
      → Reach w u
      → (env : EvaluateEnv) (llm : LlmClient) (jd_text prompt_version : Text) (threshold : ℤ)
        (profile_id : Option ℤ)
      → Reach u (env.others u)
      → Reach w (evaluate_jd env llm jd_text prompt_version threshold profile_id u).0
  tailor :
      {w u : Db}
      → Reach w u
      → (env : TailorEnv) (llm : LlmClient) (poll : Option Poll) (id : Uuid)
        (prompt_version request_id : Option Text)
      → ((n : ℕ) → Reach (later env n u) (later env (suc n) u))
      → Reach w (run_tailoring env llm poll id prompt_version request_id u).0
  forget : {w u : Db} → Reach w u → (profile_id : ℕ) → Reach w (delete_profile profile_id u).0
  callback :
      {w u : Db}
      → Reach w u
      → (env : DeliveryEnv) (body : CallbackIn) → Reach w (external_resume_callback env body u).0
  revise :
      {w u : Db}
      → Reach w u
      → (env : DeliveryEnv) (resume_id : Uuid) (resume_text : Text)
      → Reach w (create_generated_resume_revision env resume_id resume_text u).0
  download :
      {w u : Db}
      → Reach w u
      → (env : DeliveryEnv) (resume_id : Uuid)
      → Reach w (download_generated_resume_pdf env resume_id u).0
  elsewhere :
      {w u : Db}
      → Reach w u
      → (v : Db) → Reach w (record v { analyses = u.analyses; resumes = u.resumes })

Reach-Next : {w u : Db} → Reach w u → Next w u
Reach-Next here g = g
Reach-Next (evaluate {u = u} r env llm jd_text prompt_version threshold profile_id between) g =
    let after = (evaluate_jd env llm jd_text prompt_version threshold profile_id u).0 in
    evaluated-Next env llm jd_text prompt_version threshold u after (Reach-Next between)
      (evaluate_jd-EvaluateState env llm jd_text prompt_version threshold profile_id u)
      (Reach-Next r g)
Reach-Next (tailor {u = u} r env llm poll id prompt_version request_id between) g =
    let p = run_tailoring env llm poll id prompt_version request_id u in
    tailored-Next env poll id u p (λ n. Reach-Next (between n))
      (run_tailoring-TailoringOutcome env llm poll id prompt_version request_id u) (Reach-Next r g)
Reach-Next (forget {u = u} r profile_id) g = delete_profile-Next profile_id u (Reach-Next r g)
Reach-Next (callback {u = u} r env body) g =
    external_resume_callback-Next env body u (Reach-Next r g)
Reach-Next (revise {u = u} r env resume_id resume_text) g =
    create_generated_resume_revision-Next env resume_id resume_text u (Reach-Next r g)
Reach-Next (download {u = u} r env resume_id) g =
    download_generated_resume_pdf-Next env resume_id u (Reach-Next r g)
Reach-Next (elsewhere r v) g = Reach-Next r g

-- In every database that evaluations, tailorings, deliveries, revisions and downloads of resumes and
-- deletions of profiles can make of one without analyses, each analysis has a score from 0 to 100, its
-- status is the tier of the score, it has the reason of a skip just where it is skipped, and its flag fits:
-- an analysis that is ready can be submitted, and any other only where it has a generated resume.
pub Reach-IsGraded :
    (start : Db) {u : Db}
    → Reach (record start { analyses = [] }) u
    → All (IsGraded u.resumes) u.analyses
Reach-IsGraded start r = Reach-Next r tt
