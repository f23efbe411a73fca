-- ===== src/JobQueue/Store.antt =====
-- The tables that the queue reads and writes, and the queries of
-- backend/app/services/job_queue.py on them.
use resume_helper.Base.{
  ℕ, Bool, false, Option, none, some, List, [], ◌∷◌, ◌++◌, Text, text_eq, keep, ◌==◌, ltb, ◌||◌,
  ◌&&◌, if◌then◌else◌,
}
use resume_helper.Uuid.{Uuid}
use resume_helper.Tables.{BaselineProfile, JobAnalysis, GeneratedResume, LlmAuditLog, ProofPoint}
use resume_helper.JobQueue.Job.{AiJob, tailor, kind_eq}

-- The tables, and the next value of the sequence of `baseline_profile.id`.
pub record Db : Type 0 where
  pub jobs : List AiJob
  pub resumes : List GeneratedResume
  pub profiles : List BaselineProfile
  pub next_profile_id : ℕ
  pub analyses : List JobAnalysis
  pub audits : List LlmAuditLog
  pub proof_points : List ProofPoint

-- `db.get(AIJob, job_id)`
unfoldable pub find_row : Uuid → List AiJob → Option AiJob
find_row id [] = none
find_row id (j ∷ jobs) = if j.id == id then some j else find_row id jobs

unfoldable pub get_job : Db → Uuid → Option AiJob
get_job db job_id = find_row job_id db.jobs

-- The UPDATE that a commit issues for a changed row.
unfoldable pub set_row : AiJob → List AiJob → List AiJob
set_row job [] = []
set_row job (j ∷ jobs) = if j.id == job.id then job ∷ jobs else j ∷ set_row job jobs

unfoldable pub save : AiJob → Db → Db
unfolding set_row
save job db = record db { jobs = set_row job db.jobs }

-- `dedupe_key = key`, which NULL never satisfies.
abbrev pub has_key : Text → AiJob → Bool
has_key key job = elim job.dedupe_key [ none ↦ false | some k ↦ text_eq k key ]

-- `ORDER BY created_at DESC`, first row.
unfoldable pub latest : List AiJob → Option AiJob
latest [] = none
latest (j ∷ jobs) = elim (latest jobs) [
  | none ↦ some j
  | some k ↦ if ltb j.created_at k.created_at then some k else some j
]

unfoldable pub find_job_by_dedupe : Db → Text → Option AiJob
find_job_by_dedupe db key = latest (keep (has_key key) db.jobs)

unfoldable pub find_tailoring_job_by : Db → Text → Option AiJob
find_tailoring_job_by db key = latest (keep (λ j. kind_eq j.kind tailor && has_key key j) db.jobs)

unfoldable pub any_resume : Uuid → List GeneratedResume → Bool
any_resume id [] = false
any_resume id (r ∷ rows) = r.job_analysis_id == id || any_resume id rows

unfoldable pub has_generated_resume : Db → Uuid → Bool
has_generated_resume db job_analysis_id = any_resume job_analysis_id db.resumes

-- The primary key and `uq_ai_jobs_dedupe_key`; NULL keys do not clash.
abbrev pub same_key : Option Text → Option Text → Bool
same_key (some k) (some l) = text_eq k l
same_key _ _ = false

abbrev pub clashes : AiJob → AiJob → Bool
clashes a b = a.id == b.id || same_key a.dedupe_key b.dedupe_key

unfoldable pub any_clash : AiJob → List AiJob → Bool
any_clash job [] = false
any_clash job (j ∷ jobs) = clashes job j || any_clash job jobs

-- `db.add(job); db.commit()`; `none` is the `IntegrityError`.
unfoldable pub commit_new : AiJob → Db → Option Db
commit_new job db =
    if any_clash job db.jobs then none else some (record db { jobs = db.jobs ++ job ∷ [] })
