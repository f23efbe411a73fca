-- ===== src/JobQueue/Dedupe.antt =====
-- One job for each deduplication key: enqueueing the same evaluation twice, and enqueueing it in two
-- sessions at once (backend/app/services/job_queue.py).
use resume_helper.Base.{
  none, Bool-cases, ℕ, ◌≡◌, refl, sym, subst, ◌∙◌, inl, inr, true, false, some, List, [], ◌∷◌, ◌++◌,
  Text, text_eq_iff, keep, length, All, arith, Option-cases,
}
use resume_helper.JobQueue.Job.{AiJob, JobStatus, queued, retry_wait, cancelled, failed}
use resume_helper.JobQueue.Store.{
  Db, find_row, set_row, save, latest, has_key, clashes, find_job_by_dedupe, any_clash, commit_new,
}
use resume_helper.JobQueue.Enqueue.{
  EvaluateIn, JobRef, job_ref, returned, requeue_evaluate, refresh_evaluate, reuse_evaluate,
}
use resume_helper.JobQueue.Rows.{Elem, All-elem, Elem-keep, Elem-latest, NoClash, clashes_comm}
use resume_helper.JobQueue.Invariant.Rows.{
  IsWellFormed, requeue_evaluate-IsWellFormed, refresh_evaluate-IsWellFormed,
}
use resume_helper.JobQueue.Invariant.Table.{IsValid, Found, save-IsValid, Found-latest}

has_key_iff : (key : Text) (job : AiJob) → has_key key job ≡ true → job.dedupe_key ≡ some key
has_key_iff key job h = elim (Option-cases job.dedupe_key) [
  | inl e ↦ ground arith
  | inr (k, e) ↦ ground (arith, text_eq_iff k key)
]

key_free :
    (key : Text) (job x : AiJob)
    → job.dedupe_key ≡ some key
    → clashes job x ≡ false
    → has_key key x ≡ false
key_free key job x e h = elim (Option-cases x.dedupe_key) [
  | inl none_there ↦ ground arith
  | inr (k, there) ↦ ground (arith, text_eq_iff k key, text_eq_iff key k)
]

no_other_key :
    (key : Text) (job : AiJob) (jobs : List AiJob)
    → job.dedupe_key ≡ some key
    → All (λ k. clashes job k ≡ false) jobs
    → keep (has_key key) jobs ≡ []
no_other_key key job [] e h = refl
no_other_key key job (x ∷ xs) e h = rw (key_free key job x e h.0) (no_other_key key job xs e h.1)

keep-has_key :
    (key : Text) (jobs : List AiJob) (job : AiJob)
    → NoClash jobs
    → Elem job jobs
    → job.dedupe_key ≡ some key
    → keep (has_key key) jobs ≡ job ∷ []
keep-has_key key [] job h e k = absurd e
keep-has_key key (x ∷ xs) job h (inl e) k =
    let own : has_key key job ≡ true = ground (arith, text_eq_iff key key) in
    let rest : keep (has_key key) xs ≡ [] =
      no_other_key key x xs (subst (λ j. j.dedupe_key ≡ some key) e k) h.0 in
    rw (← e, own, rest)
keep-has_key key (x ∷ xs) job h (inr e) k =
    let apart : clashes x job ≡ false = All-elem (λ y. clashes x y ≡ false) xs job h.0 e in
    rw (key_free key job x k (clashes_comm job x ∙ apart)) (keep-has_key key xs job h.1 e k)

-- A key finds the one row that has it.
pub find_job_by_dedupe-Elem :
    (db : Db) (key : Text) (job : AiJob)
    → IsValid db
    → Elem job db.jobs
    → job.dedupe_key ≡ some key
    → find_job_by_dedupe db key ≡ some job
unfolding find_job_by_dedupe latest
find_job_by_dedupe-Elem db key job v e k = rw (keep-has_key key db.jobs job v.constraints e k)

pub Elem-set_row :
    (job : AiJob) (jobs : List AiJob) (old : AiJob)
    → find_row job.id jobs ≡ some old
    → Elem job (set_row job jobs)
unfolding find_row set_row
Elem-set_row job [] old h = cc
Elem-set_row job (x ∷ xs) old h = ground (arith, Elem-set_row job xs old)

Elem-append : (job : AiJob) (jobs : List AiJob) → Elem job (jobs ++ job ∷ [])
Elem-append job [] = inl refl
Elem-append job (x ∷ xs) = inr (Elem-append job xs)

length-set_row : (job : AiJob) (jobs : List AiJob) → length (set_row job jobs) ≡ length jobs
unfolding set_row
length-set_row job [] = refl
length-set_row job (x ∷ xs) = ground (arith, length-set_row job xs)

-- What a row that was written over another is found by.
save_finds :
    (db : Db) (old job : AiJob) (key : Text)
    → IsValid db
    → find_row old.id db.jobs ≡ some old
    → job.id ≡ old.id
    → old.dedupe_key ≡ job.dedupe_key
    → IsWellFormed job
    → old.dedupe_key ≡ some key
    → find_job_by_dedupe (save job db) key ≡ some job
save_finds db old job key v f i k w e =
    find_job_by_dedupe-Elem (save job db) key job (save-IsValid db old job v f i k w)
      (unfold save in Elem-set_row job db.jobs old (rw i f)) (sym k ∙ e)

-- A row that is reused keeps its id and is reported as not created; no row is added.
pub reuse_evaluate_ref :
    (status : JobStatus) (now : ℕ) (a : EvaluateIn) (job : AiJob) (db : Db)
    → (r : JobRef) × ((reuse_evaluate status now a job db).1 ≡ returned r)
      × (r.id ≡ job.id)
      × (r.created ≡ false)
      × (length (reuse_evaluate status now a job db).0.jobs ≡ length db.jobs)
unfolding reuse_evaluate job_ref save requeue_evaluate refresh_evaluate
reuse_evaluate_ref failed now a job db = (_, refl, refl, refl, length-set_row _ db.jobs)
reuse_evaluate_ref cancelled now a job db = (_, refl, refl, refl, length-set_row _ db.jobs)
reuse_evaluate_ref queued now a job db = (_, refl, refl, refl, length-set_row _ db.jobs)
reuse_evaluate_ref retry_wait now a job db = (_, refl, refl, refl, length-set_row _ db.jobs)
reuse_evaluate_ref _ now a job db = (_, refl, refl, refl, refl)

-- A row that is reused is found by its key afterwards.
pub reuse_evaluate_finds :
    (status : JobStatus) (now : ℕ) (a : EvaluateIn) (key : Text) (job : AiJob) (db : Db)
    → IsValid db
    → Found db job
    → find_job_by_dedupe db key ≡ some job
    → job.dedupe_key ≡ some key
    → (k : AiJob) × (find_job_by_dedupe (reuse_evaluate status now a job db).0 key ≡ some k)
      × (k.id ≡ job.id)
unfolding reuse_evaluate requeue_evaluate refresh_evaluate
reuse_evaluate_finds failed now a key job db v f e k = (
  _,
  save_finds db job _ key v f.by_id refl refl (requeue_evaluate-IsWellFormed now a job) k,
  refl,
)
reuse_evaluate_finds cancelled now a key job db v f e k = (
  _,
  save_finds db job _ key v f.by_id refl refl (requeue_evaluate-IsWellFormed now a job) k,
  refl,
)
reuse_evaluate_finds queued now a key job db v f e k = (
  _,
  save_finds db job _ key v f.by_id refl refl
      (refresh_evaluate-IsWellFormed now a job f.well_formed) k,
  refl,
)
reuse_evaluate_finds retry_wait now a key job db v f e k = (
  _,
  save_finds db job _ key v f.by_id refl refl
      (refresh_evaluate-IsWellFormed now a job f.well_formed) k,
  refl,
)
reuse_evaluate_finds _ now a key job db v f e k = (job, e, refl)

-- A row that the key finds has it.
pub find_job_by_dedupe_key :
    (db : Db) (key : Text) (job : AiJob)
    → find_job_by_dedupe db key ≡ some job
    → job.dedupe_key ≡ some key
unfolding find_job_by_dedupe
find_job_by_dedupe_key db key job e =
    has_key_iff key job (Elem-keep (has_key key) db.jobs job (Elem-latest _ job e)).1

pub commit_new-Elem : (job : AiJob) (db db' : Db) → commit_new job db ≡ some db' → Elem job db'.jobs
unfolding commit_new
commit_new-Elem job db db' e = elim (Bool-cases (any_clash job db.jobs)) [
  | inl clash ↦ absurd (ground arith)
  | inr free ↦
      let added : db.jobs ++ job ∷ [] ≡ db'.jobs = ground arith in
      subst (λ jobs. Elem job jobs) added (Elem-append job db.jobs)
]

any_clash-Elem :
    (new old : AiJob) (jobs : List AiJob)
    → Elem old jobs
    → clashes new old ≡ true
    → any_clash new jobs ≡ true
unfolding any_clash
any_clash-Elem new old [] e c = absurd e
any_clash-Elem new old (x ∷ xs) (inl e) c =
    let here : clashes new x ≡ true = subst (λ j. clashes new j ≡ true) e c in ground arith
any_clash-Elem new old (x ∷ xs) (inr e) c = ground (arith, any_clash-Elem new old xs e c)

-- The unique constraint: a row whose key is in the table is not inserted.
pub commit_new-same_key :
    (key : Text) (new old : AiJob) (db : Db)
    → new.dedupe_key ≡ some key
    → old.dedupe_key ≡ some key
    → Elem old db.jobs
    → commit_new new db ≡ none
unfolding commit_new
commit_new-same_key key new old db e f m =
    let clash : clashes new old ≡ true = ground (arith, text_eq_iff key key) in
    ground (arith, any_clash-Elem new old db.jobs m clash)

pub Found-find_job_by_dedupe :
    (db : Db) (key : Text) (job : AiJob)
    → IsValid db
    → find_job_by_dedupe db key ≡ some job
    → Found db job
unfolding find_job_by_dedupe
Found-find_job_by_dedupe db key job v e = Found-latest db (has_key key) job v e
