-- ===== src/JobQueue/Invariant/Enqueue.antt =====
-- The enqueueing functions of backend/app/services/job_queue.py keep the table valid.
use resume_helper.Base.{
  ℕ, ◌≡◌, refl, Bool, Option, some, [], ◌∷◌, ◌++◌, ◌&&◌, All-append, inl, inr, not, arith,
  Option-cases, Bool-cases,
}
use resume_helper.Uuid.{Uuid}
use resume_helper.Hashing.{Digest}
use resume_helper.JobQueue.Job.{
  AiJob, JobStatus, queued, retry_wait, cancelled, failed, is_claimable, is_terminal,
}
use resume_helper.JobQueue.Fields.{set_queued_fields}
use resume_helper.JobQueue.Keys.{evaluate_dedupe_key}
use resume_helper.JobQueue.Store.{
  Db, has_key, find_job_by_dedupe, commit_new, any_clash, has_generated_resume,
}
use resume_helper.JobQueue.Enqueue.{
  Outcome, returned, raised, JobRef, to_option, EvaluateIn, TailorIn, requeue_evaluate,
  refresh_evaluate, reuse_evaluate, commit_or_find, enqueue_evaluate_job, refresh_tailoring,
  reuse_tailoring, find_tailoring_job, enqueue_tailoring_job,
}
use resume_helper.JobQueue.Rows.{NoClash-append}
use resume_helper.JobQueue.Invariant.Rows.{
  IsWellFormed, set_queued_fields-IsWellFormed, requeue_evaluate-IsWellFormed,
  refresh_evaluate-IsWellFormed, evaluate_job-IsWellFormed, refresh_tailoring-IsWellFormed,
  tailoring_job-IsWellFormed,
}
use resume_helper.JobQueue.Invariant.Table.{
  IsValid, Found, save-IsValid, Found-latest, Found-find_tailoring_job,
}

pub commit_new-IsValid :
    (job : AiJob) (db db' : Db)
    → IsWellFormed job
    → IsValid db
    → commit_new job db ≡ some db'
    → IsValid db'
unfolding commit_new
commit_new-IsValid job db db' w v e = elim (Bool-cases (any_clash job db.jobs)) [
  | inl clash ↦ ground arith
  | inr free ↦
      let added : db' ≡ record db { jobs = db.jobs ++ job ∷ [] } = ground arith in
      rw added (record {
        rows = All-append IsWellFormed db.jobs _ v.rows (w, tt);
        constraints = NoClash-append db.jobs job v.constraints free;
      })
]

commit_or_find-IsValid :
    (job : AiJob) (find : Db → Option AiJob) (db : Db)
    → IsWellFormed job
    → IsValid db
    → IsValid (commit_or_find job find db).0
unfolding commit_or_find
commit_or_find-IsValid job find db w v = elim (Option-cases (commit_new job db)) [
  | inl clash ↦ elim (Option-cases (find db)) [
    | inl e ↦ rw (clash, commit_or_find) (rw (e, commit_or_find) v)
    | inr (k, e) ↦ rw (clash, commit_or_find) (rw (e, commit_or_find) v)
  ]
  | inr (db', e) ↦ rw (e, commit_or_find) (commit_new-IsValid job db db' w v e)
]

reuse_evaluate-IsValid :
    (status : JobStatus) (now : ℕ) (a : EvaluateIn) (job : AiJob) (db : Db)
    → job.status ≡ status
    → IsValid db
    → Found db job
    → IsValid (reuse_evaluate status now a job db).0
unfolding reuse_evaluate
reuse_evaluate-IsValid failed now a job db e v f =
    unfold requeue_evaluate in
    save-IsValid db job _ v f.by_id refl refl (requeue_evaluate-IsWellFormed now a job)
reuse_evaluate-IsValid cancelled now a job db e v f =
    unfold requeue_evaluate in
    save-IsValid db job _ v f.by_id refl refl (requeue_evaluate-IsWellFormed now a job)
reuse_evaluate-IsValid queued now a job db e v f =
    unfold refresh_evaluate in
    save-IsValid db job _ v f.by_id refl refl
      (refresh_evaluate-IsWellFormed now a job f.well_formed)
reuse_evaluate-IsValid retry_wait now a job db e v f =
    unfold refresh_evaluate in
    save-IsValid db job _ v f.by_id refl refl
      (refresh_evaluate-IsWellFormed now a job f.well_formed)
reuse_evaluate-IsValid _ now a job db e v f = v

-- Whatever valid table the other sessions leave before the INSERT, enqueueing an evaluation leaves a
-- valid table.
pub enqueue_evaluate_job-IsValid :
    (d : Digest) (now : ℕ) (new_id : Uuid) (others : Db → Db) (a : EvaluateIn) (db : Db)
    → IsValid db
    → IsValid (others db)
    → IsValid (enqueue_evaluate_job d now new_id others a db).0
enqueue_evaluate_job-IsValid d now new_id others a db v vo =
    let key = evaluate_dedupe_key d a.profile_id a.prompt_version a.jd_text in
    elim (Option-cases (find_job_by_dedupe db key)) [
      | inl e ↦
          unfold enqueue_evaluate_job in
          rw (e, enqueue_evaluate_job)
            (commit_or_find-IsValid _ _ (others db) (evaluate_job-IsWellFormed new_id now key a) vo)
      | inr (job, e) ↦
          unfold enqueue_evaluate_job in
          rw (e, enqueue_evaluate_job)
            (reuse_evaluate-IsValid job.status now a job db refl v
              (Found-latest db (has_key key) job v (unfold find_job_by_dedupe in e)))
    ]

reuse_tailoring-IsValid :
    (now : ℕ) (a : TailorIn) (has_resume : Bool) (job : AiJob) (db : Db)
    → IsValid db
    → Found db job
    → IsValid (reuse_tailoring now a has_resume job db).0
reuse_tailoring-IsValid now a has_resume job db v f =
    unfold reuse_tailoring in
    elim (Bool-cases (not has_resume && is_terminal job.status)) [
      | inl again ↦ rw again (
          unfold set_queued_fields in
          save-IsValid db job _ v f.by_id refl refl (set_queued_fields-IsWellFormed now _ job))
      | inr other ↦ rw other (elim (Bool-cases (is_claimable job.status)) [
        | inl waits ↦ rw waits (
            unfold refresh_tailoring in
            save-IsValid db job _ v f.by_id refl refl
              (refresh_tailoring-IsWellFormed now a job f.well_formed))
        | inr busy ↦ rw busy v
      ])
    ]

to_option-IsValid : (r : Db × Outcome JobRef) → IsValid r.0 → IsValid (to_option r).0
to_option-IsValid (db, returned ref) v = v
to_option-IsValid (db, raised e) v = v

-- Whatever valid table the other sessions leave before the INSERT, enqueueing a tailoring leaves a
-- valid table.
pub enqueue_tailoring_job-IsValid :
    (now : ℕ) (new_id : Uuid) (others : Db → Db) (a : TailorIn) (db : Db)
    → IsValid db
    → IsValid (others db)
    → IsValid (enqueue_tailoring_job now new_id others a db).0
enqueue_tailoring_job-IsValid now new_id others a db v vo =
    elim (Option-cases (find_tailoring_job db a.job_analysis_id)) [
      | inl e ↦
          unfold enqueue_tailoring_job in
          rw (e, enqueue_tailoring_job)
            (elim (Bool-cases (has_generated_resume db a.job_analysis_id)) [
              | inl done ↦ rw done v
              | inr missing ↦ rw missing (
                  to_option-IsValid _ (
                    commit_or_find-IsValid _ _ (others db) (tailoring_job-IsWellFormed new_id now a)
                      vo))
            ])
      | inr (job, e) ↦
          unfold enqueue_tailoring_job in
          rw (e, enqueue_tailoring_job)
            (to_option-IsValid _ (
              reuse_tailoring-IsValid now a _ job db v
                (Found-find_tailoring_job db a.job_analysis_id job v e)))
    ]
