-- ===== src/JobQueue/Invariant/Table.antt =====
-- The table of jobs of backend/app/models/ai_job.py: its rows are well formed and its two unique
-- constraints hold; a row that a query of backend/app/services/job_queue.py finds may be updated.
use resume_helper.Base.{ℕ, ◌≡◌, Bool, true, false, Option, some, List, ◌&&◌, All, not, keep, arith}
use resume_helper.Uuid.{Uuid}
use resume_helper.JobQueue.Job.{AiJob, JobKind}
use resume_helper.JobQueue.Store.{Db, find_row, get_job, save, latest, find_tailoring_job_by}
use resume_helper.JobQueue.Enqueue.{find_tailoring_job}
use resume_helper.JobQueue.Claim.{contains, is_due, selected, first_in_order}
use resume_helper.JobQueue.Rows.{
  Elem, All-elem, Elem-keep, Elem-find_row, Elem-latest, Elem-first_in_order, NoClash,
  find_row-Elem, All-set_row, NoClash-set_row,
}
use resume_helper.JobQueue.Invariant.Rows.{IsWellFormed}

pub record IsValid (db : Db) : Type 0 where
  pub rows : All IsWellFormed db.jobs
  pub constraints : NoClash db.jobs

pub save-IsValid :
    (db : Db) (old job : AiJob)
    → IsValid db
    → find_row old.id db.jobs ≡ some old
    → job.id ≡ old.id
    → old.dedupe_key ≡ job.dedupe_key
    → IsWellFormed job
    → IsValid (save job db)
unfolding save
save-IsValid db old job v f i k w = record {
  rows = All-set_row IsWellFormed job db.jobs w v.rows;
  constraints = NoClash-set_row job db.jobs old v.constraints (rw i f) k;
}

-- A row of a valid table is well formed, and is the one that its id finds.
pub record Found (db : Db) (job : AiJob) : Type 0 where
  pub well_formed : IsWellFormed job
  pub by_id : find_row job.id db.jobs ≡ some job

pub Found-Elem : (db : Db) (job : AiJob) → IsValid db → Elem job db.jobs → Found db job
Found-Elem db job v e = record {
  well_formed = All-elem IsWellFormed db.jobs job v.rows e;
  by_id = find_row-Elem db.jobs job v.constraints e;
}

pub Found-get_job :
    (db : Db) (id : Uuid) (job : AiJob) → IsValid db → get_job db id ≡ some job → Found db job
unfolding get_job
Found-get_job db id job v e = Found-Elem db job v (Elem-find_row id db.jobs job e).0

pub Found-latest :
    (db : Db) (p : AiJob → Bool) (job : AiJob)
    → IsValid db
    → latest (keep p db.jobs) ≡ some job
    → Found db job
Found-latest db p job v e =
    Found-Elem db job v (Elem-keep p db.jobs job (Elem-latest (keep p db.jobs) job e)).0

pub Found-find_tailoring_job :
    (db : Db) (id : Uuid) (job : AiJob)
    → IsValid db
    → find_tailoring_job db id ≡ some job
    → Found db job
unfolding find_tailoring_job find_tailoring_job_by
Found-find_tailoring_job db id job v e = Found-latest db _ job v e

-- The row that a claim takes is due and in no other session's hands.
pub Found-selected :
    (kind : Option JobKind) (now : ℕ) (locked : List Uuid) (db : Db) (job : AiJob)
    → IsValid db
    → first_in_order (selected kind now locked db) ≡ some job
    → Found db job × (is_due kind now job ≡ true) × (contains job.id locked ≡ false)
unfolding selected
Found-selected kind now locked db job v e =
    let test = λ (j : AiJob). is_due kind now j && not (contains j.id locked) in
    let (elem, passed) =
      Elem-keep test db.jobs job (Elem-first_in_order (keep test db.jobs) job e) in
    (Found-Elem db job v elem, ground arith, ground arith)
