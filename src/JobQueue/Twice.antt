-- ===== src/JobQueue/Twice.antt =====
-- Enqueueing one evaluation again, and in two sessions at once: `enqueue_evaluate_job` of
-- backend/app/services/job_queue.py.
use resume_helper.Base.{
  ℕ, ◌≡◌, refl, sym, ap, ◌∙◌, inl, inr, true, false, Option, none, some, Text, length, arith,
  Option-cases,
}
use resume_helper.Uuid.{Uuid}
use resume_helper.Hashing.{Digest}
use resume_helper.JobQueue.Job.{AiJob}
use resume_helper.JobQueue.Keys.{evaluate_dedupe_key}
use resume_helper.JobQueue.Store.{Db, commit_new, find_job_by_dedupe}
use resume_helper.JobQueue.Enqueue.{
  EvaluateIn, JobRef, job_ref, Outcome, returned, raised, integrity_error, reuse_evaluate,
  evaluate_job, commit_or_find, enqueue_evaluate_job,
}
use resume_helper.JobQueue.Rows.{Elem}
use resume_helper.JobQueue.Invariant.Rows.{IsWellFormed, evaluate_job-IsWellFormed}
use resume_helper.JobQueue.Invariant.Table.{IsValid}
use resume_helper.JobQueue.Invariant.Enqueue.{commit_new-IsValid}
use resume_helper.JobQueue.Dedupe.{
  reuse_evaluate_ref, reuse_evaluate_finds, find_job_by_dedupe_key, find_job_by_dedupe-Elem,
  commit_new-Elem, commit_new-same_key, Found-find_job_by_dedupe,
}

-- The key of the request.
abbrev pub key_of : Digest → EvaluateIn → Text
key_of d a = evaluate_dedupe_key d a.profile_id a.prompt_version a.jd_text

module _ (d : Digest) (now : ℕ) (id : Uuid) (others : Db → Db) (a : EvaluateIn) (db : Db) where
  enqueue_found :
      (job : AiJob)
      → find_job_by_dedupe db (key_of d a) ≡ some job
      → enqueue_evaluate_job d now id others a db ≡ reuse_evaluate job.status now a job db
  unfolding enqueue_evaluate_job
  enqueue_found job e = rw (e, enqueue_evaluate_job)

  enqueue_missing :
      find_job_by_dedupe db (key_of d a) ≡ none
      → enqueue_evaluate_job d now id others a db
        ≡ commit_or_find
            (evaluate_job id now (key_of d a) a)
            (λ store. find_job_by_dedupe store (key_of d a))
            (others db)
  unfolding enqueue_evaluate_job
  enqueue_missing e = rw (e, enqueue_evaluate_job)

module _ (job : AiJob) (find : Db → Option AiJob) (db : Db) where
  commit_done :
      (db' : Db)
      → commit_new job db ≡ some db'
      → commit_or_find job find db ≡ (db', returned (job_ref job true))
  unfolding commit_or_find
  commit_done db' e = rw (e, commit_or_find)

  commit_lost :
      (k : AiJob)
      → commit_new job db ≡ none
      → find db ≡ some k
      → commit_or_find job find db ≡ (db, returned (job_ref k false))
  unfolding commit_or_find
  commit_lost k e f = ground (arith)

  commit_raised :
      commit_new job db ≡ none
      → find db ≡ none
      → commit_or_find job find db ≡ (db, raised integrity_error)
  unfolding commit_or_find
  commit_raised e f = ground (arith)

abbrev ref_id : Uuid → Outcome JobRef → Uuid
ref_id other (returned r) = r.id
ref_id other (raised e) = other

-- The result of an action that is known to return finds a row by its key.
abbrev Finds : Text → JobRef → Db × Outcome JobRef → Type 0
Finds key r (db, o) = (k : AiJob) × (find_job_by_dedupe db key ≡ some k) × (k.id ≡ r.id)

commit-Finds :
    (job : AiJob) (key : Text) (db : Db) (r : JobRef)
    → job.dedupe_key ≡ some key
    → IsWellFormed job
    → IsValid db
    → (commit_or_find job (λ store. find_job_by_dedupe store key) db).1 ≡ returned r
    → Finds key r (commit_or_find job (λ store. find_job_by_dedupe store key) db)
unfolding job_ref
commit-Finds job key db r e w v h = elim (Option-cases (commit_new job db)) [
  | inl clash ↦ elim (Option-cases (find_job_by_dedupe db key)) [
    | inl missing ↦
        let result = commit_raised job (λ store. find_job_by_dedupe store key) db clash missing in
        let bad : raised integrity_error ≡ returned r = rw result at h in absurd (cc)
    | inr (k, found) ↦
        let result = commit_lost job (λ store. find_job_by_dedupe store key) db k clash found in
        rw result (k, found, ap (ref_id r.id) (rw result at h))
  ]
  | inr (db', done) ↦
      let result = commit_done job (λ store. find_job_by_dedupe store key) db db' done in
      rw result (
        job,
        find_job_by_dedupe-Elem db' key job (commit_new-IsValid job db db' w v done)
            (commit_new-Elem job db db' done) e,
        ap (ref_id r.id) (rw result at h),
      )
]

-- After an enqueue that returns, the key finds the job that it reports.
enqueue-Finds :
    (d : Digest) (now : ℕ) (id : Uuid) (others : Db → Db) (a : EvaluateIn) (db : Db) (r : JobRef)
    → IsValid db
    → IsValid (others db)
    → (enqueue_evaluate_job d now id others a db).1 ≡ returned r
    → Finds (key_of d a) r (enqueue_evaluate_job d now id others a db)
enqueue-Finds d now id others a db r v vo h =
    elim (Option-cases (find_job_by_dedupe db (key_of d a))) [
      | inl missing ↦
          let result = enqueue_missing d now id others a db missing in
          rw result (
            commit-Finds (evaluate_job id now (key_of d a) a) (key_of d a) (others db) r
              (unfold evaluate_job in refl) (evaluate_job-IsWellFormed id now (key_of d a) a) vo
              (rw result at h))
      | inr (job, found) ↦
          let result = enqueue_found d now id others a db job found in
          let (k, again, same) =
            reuse_evaluate_finds job.status now a (key_of d a) job db v
              (Found-find_job_by_dedupe db (key_of d a) job v found) found
              (find_job_by_dedupe_key db (key_of d a) job found) in
          let (s, reported, own, fresh, len) = reuse_evaluate_ref job.status now a job db in
          rw result
            (k, again, same ∙ (sym own ∙ ap (ref_id r.id) (sym reported ∙ (rw result at h))))
    ]

-- Enqueueing the same evaluation once more, whenever it is and however it is spelled, as long as the
-- key is the same: it returns the id of the first call, says that nothing was created, and adds no
-- row.
pub enqueue_evaluate_job_again :
    (d : Digest) (now later : ℕ) (id id' : Uuid) (others others' : Db → Db) (a b : EvaluateIn)
    (db : Db) (r : JobRef)
    → IsValid db
    → IsValid (others db)
    → key_of d a ≡ key_of d b
    → (enqueue_evaluate_job d now id others a db).1 ≡ returned r
    → let first = (enqueue_evaluate_job d now id others a db).0 in
      let again = enqueue_evaluate_job d later id' others' b first in
      (s : JobRef) × (again.1 ≡ returned s)
      × (s.id ≡ r.id)
      × (s.created ≡ false)
      × (length again.0.jobs ≡ length first.jobs)
enqueue_evaluate_job_again d now later id id' others others' a b db r v vo e h =
    let first = (enqueue_evaluate_job d now id others a db).0 in
    let (k, found, same) = enqueue-Finds d now id others a db r v vo h in
    let (s, reported, own, fresh, len) = reuse_evaluate_ref k.status later b k first in
    let found' : find_job_by_dedupe first (key_of d b) ≡ some k = rw (← e) found in
    rw (enqueue_found d later id' others' b first k found') (s, reported, own ∙ same, fresh, len)

-- Where another session has committed a job with the key before the INSERT, the INSERT is given up:
-- the table is the other session's, and the call returns that job as not created.
pub enqueue_evaluate_job_race :
    (d : Digest) (now : ℕ) (id : Uuid) (others : Db → Db) (a : EvaluateIn) (db : Db) (job : AiJob)
    → IsValid (others db)
    → find_job_by_dedupe db (key_of d a) ≡ none
    → Elem job (others db).jobs
    → job.dedupe_key ≡ some (key_of d a)
    → enqueue_evaluate_job d now id others a db ≡ (others db, returned (job_ref job false))
enqueue_evaluate_job_race d now id others a db job vo missing e k =
    enqueue_missing d now id others a db missing
    ∙ commit_lost (evaluate_job id now (key_of d a) a) _ (others db) job
        (commit_new-same_key (key_of d a) _ job (others db) (unfold evaluate_job in refl) k e)
        (find_job_by_dedupe-Elem (others db) (key_of d a) job vo e k)
