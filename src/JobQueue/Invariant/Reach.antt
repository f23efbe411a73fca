-- ===== src/JobQueue/Invariant/Reach.antt =====
-- Every table that the functions of backend/app/services/job_queue.py and the cancel endpoint of
-- backend/app/api/jobs.py can make of an empty one.
use resume_helper.Base.{ℕ, Option, List, [], Text}
use resume_helper.Uuid.{Uuid}
use resume_helper.Hashing.{Digest}
use resume_helper.Json.{Payload}
use resume_helper.JobQueue.Job.{JobKind}
use resume_helper.JobQueue.Store.{Db}
use resume_helper.JobQueue.Enqueue.{
  EvaluateIn, TailorIn, enqueue_evaluate_job, enqueue_tailoring_job,
}
use resume_helper.JobQueue.Claim.{claim_next_job}
use resume_helper.JobQueue.Marks.{
  mark_job_succeeded, mark_job_failed, mark_job_cancelled, cancel_job,
}
use resume_helper.JobQueue.Invariant.Table.{IsValid}
use resume_helper.JobQueue.Invariant.Enqueue.{
  enqueue_evaluate_job-IsValid, enqueue_tailoring_job-IsValid,
}
use resume_helper.JobQueue.Invariant.Workers.{
  claim_next_job-IsValid, mark_job_succeeded-IsValid, mark_job_failed-IsValid,
  mark_job_cancelled-IsValid, cancel_job-IsValid,
}

-- The calls may come in any order, with any arguments, also for jobs that no worker has; while an
-- enqueueing call is between its query and its INSERT the other sessions go on, from `u` to `v`. The
-- other tables may change at any time.
pub data Reach (d : Digest) : Db → Db → Type 0 where
  here : {w : Db} → Reach d w w
  evaluate :
      {w u : Db}
      → Reach d w u
      → (now : ℕ) (id : Uuid) (a : EvaluateIn) {v : Db} → Reach d u v
      → Reach d w (enqueue_evaluate_job d now id (λ _. v) a u).0
  tailor :
      {w u : Db}
      → Reach d w u
      → (now : ℕ) (id : Uuid) (a : TailorIn) {v : Db} → Reach d u v
      → Reach d w (enqueue_tailoring_job now id (λ _. v) a u).0
  claim :
      {w u : Db}
      → Reach d w u
      → (kind : Option JobKind) (now : ℕ) (locked : List Uuid)
      → Reach d w (claim_next_job kind now locked u).0
  succeed :
      {w u : Db}
      → Reach d w u
      → (now : ℕ) (id : Uuid) (result : Option Payload)
      → Reach d w (mark_job_succeeded now id result u).0
  fail :
      {w u : Db}
      → Reach d w u
      → (now : ℕ) (id : Uuid) (code message : Text)
      → Reach d w (mark_job_failed now id code message u).0
  abandon :
      {w u : Db} → Reach d w u → (now : ℕ) (id : Uuid) → Reach d w (mark_job_cancelled now id u).0
  cancel : {w u : Db} → Reach d w u → (now : ℕ) (id : Uuid) → Reach d w (cancel_job now id u).0
  elsewhere : {w u : Db} → Reach d w u → (v : Db) → Reach d w (record v { jobs = u.jobs })

Reach-IsValid_from : {d : Digest} {w u : Db} → Reach d w u → IsValid w → IsValid u
Reach-IsValid_from here v = v
Reach-IsValid_from {d} (evaluate r now id a between) v =
    let u = Reach-IsValid_from r v in
    enqueue_evaluate_job-IsValid d now id _ a _ u (Reach-IsValid_from between u)
Reach-IsValid_from (tailor r now id a between) v =
    let u = Reach-IsValid_from r v in
    enqueue_tailoring_job-IsValid now id _ a _ u (Reach-IsValid_from between u)
Reach-IsValid_from (claim r kind now locked) v =
    claim_next_job-IsValid kind now locked _ (Reach-IsValid_from r v)
Reach-IsValid_from (succeed r now id result) v =
    mark_job_succeeded-IsValid now id result _ (Reach-IsValid_from r v)
Reach-IsValid_from (fail r now id code message) v =
    mark_job_failed-IsValid now id code message _ (Reach-IsValid_from r v)
Reach-IsValid_from (abandon r now id) v =
    mark_job_cancelled-IsValid now id _ (Reach-IsValid_from r v)
Reach-IsValid_from (cancel r now id) v = cancel_job-IsValid now id _ (Reach-IsValid_from r v)
Reach-IsValid_from (elsewhere r _) v =
    let u = Reach-IsValid_from r v in record { rows = u.rows; constraints = u.constraints }

-- In every table of jobs that can be reached from an empty one, whatever the other tables hold, no two jobs share an id or a key, and each
-- job's times, lease and error fields fit its status: a waiting job has no lease and no end, a running
-- job or one that is being cancelled has a start, a lease and an attempt and no end, an ended job has
-- an end and no lease, and a queued or running job shows no error.
pub Reach-IsValid :
    (d : Digest) (start : Db) {u : Db} → Reach d (record start { jobs = [] }) u → IsValid u
Reach-IsValid d start r = Reach-IsValid_from r (record { rows = tt; constraints = tt })
