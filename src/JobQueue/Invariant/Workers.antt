-- ===== src/JobQueue/Invariant/Workers.antt =====
-- The claim, the three marks and the cancel endpoint keep the table valid
-- (backend/app/services/job_queue.py, backend/app/api/jobs.py).
use resume_helper.Base.{ℕ, ◌≡◌, refl, Option, none, some, List, Text, inl, inr, arith, Option-cases}
use resume_helper.Uuid.{Uuid}
use resume_helper.Json.{Payload}
use resume_helper.JobQueue.Job.{AiJob, JobStatus, JobKind, succeeded}
use resume_helper.JobQueue.Fields.{set_terminal_fields}
use resume_helper.JobQueue.Store.{Db, get_job}
use resume_helper.JobQueue.Claim.{is_due, selected, first_in_order, start_job, claim_next_job}
use resume_helper.JobQueue.Marks.{
  apply_result, complete_progress, fail_job, cancel_row, mark_job_succeeded, mark_job_failed,
  mark_job_cancelled, cancel_job,
}
use resume_helper.JobQueue.Invariant.Rows.{
  start_job-IsWellFormed, succeed-IsWellFormed, fail_job-IsWellFormed, cancel-IsWellFormed,
  cancel_row-IsWellFormed,
}
use resume_helper.JobQueue.Invariant.Table.{IsValid, save-IsValid, Found-get_job, Found-selected}

succeed_keys :
    (now : ℕ) (result : Option Payload) (j k : AiJob)
    → apply_result result (set_terminal_fields now succeeded none none j) ≡ some k
    → ((complete_progress k).id ≡ j.id) × (j.dedupe_key ≡ (complete_progress k).dedupe_key)
unfolding apply_result set_terminal_fields complete_progress
succeed_keys now result j k e = ground arith

fail_keys :
    (now : ℕ) (code message : Text) (j : AiJob)
    → ((fail_job now code message j).id ≡ j.id)
      × (j.dedupe_key ≡ (fail_job now code message j).dedupe_key)
unfolding fail_job
fail_keys now code message j = ground arith

cancel_keys :
    (status : JobStatus) (now : ℕ) (j : AiJob)
    → ((cancel_row status now j).id ≡ j.id) × (j.dedupe_key ≡ (cancel_row status now j).dedupe_key)
unfolding cancel_row
cancel_keys status now j = ground arith

-- A claim leaves a valid table, whatever rows other sessions have locked.
pub claim_next_job-IsValid :
    (kind : Option JobKind) (now : ℕ) (locked : List Uuid) (db : Db)
    → IsValid db
    → IsValid (claim_next_job kind now locked db).0
claim_next_job-IsValid kind now locked db v =
    elim (Option-cases (first_in_order (selected kind now locked db))) [
      | inl e ↦ unfold claim_next_job in rw (e, claim_next_job) v
      | inr (job, e) ↦
          unfold claim_next_job in
          let (f, due, free) = Found-selected kind now locked db job v e in
          rw (e, claim_next_job)
            (unfold start_job in
              save-IsValid db job _ v f.by_id refl refl
                (start_job-IsWellFormed now job (unfold is_due in ground arith) f.well_formed))
    ]

-- A success that is reported leaves a valid table, also where its result holds no UUID and the call
-- raises.
pub mark_job_succeeded-IsValid :
    (now : ℕ) (id : Uuid) (result : Option Payload) (db : Db)
    → IsValid db
    → IsValid (mark_job_succeeded now id result db).0
mark_job_succeeded-IsValid now id result db v = elim (Option-cases (get_job db id)) [
  | inl e ↦ unfold mark_job_succeeded in rw (e, mark_job_succeeded) v
  | inr (job, e) ↦
      unfold mark_job_succeeded in
      let f = Found-get_job db id job v e in
      rw (e, mark_job_succeeded)
        (elim (Option-cases
          (apply_result result (set_terminal_fields now succeeded none none job))) [
            | inl bad ↦ rw (bad, mark_job_succeeded) v
            | inr (k, good) ↦
                let (same_id, same_key) = succeed_keys now result job k good in
                rw (good, mark_job_succeeded)
                  (save-IsValid db job _ v f.by_id same_id same_key
                    (succeed-IsWellFormed now result job k good))
          ])
]

-- A failure that is reported leaves a valid table.
pub mark_job_failed-IsValid :
    (now : ℕ) (id : Uuid) (code message : Text) (db : Db)
    → IsValid db
    → IsValid (mark_job_failed now id code message db).0
mark_job_failed-IsValid now id code message db v = elim (Option-cases (get_job db id)) [
  | inl e ↦ unfold mark_job_failed in rw (e, mark_job_failed) v
  | inr (job, e) ↦
      unfold mark_job_failed in
      let f = Found-get_job db id job v e in
      let (same_id, same_key) = fail_keys now code message job in
      rw (e, mark_job_failed)
        (save-IsValid db job _ v f.by_id same_id same_key
          (fail_job-IsWellFormed now code message job))
]

-- A cancellation that a worker reports leaves a valid table.
pub mark_job_cancelled-IsValid :
    (now : ℕ) (id : Uuid) (db : Db) → IsValid db → IsValid (mark_job_cancelled now id db).0
mark_job_cancelled-IsValid now id db v = elim (Option-cases (get_job db id)) [
  | inl e ↦ unfold mark_job_cancelled in rw (e, mark_job_cancelled) v
  | inr (job, e) ↦
      unfold mark_job_cancelled in
      let f = Found-get_job db id job v e in
      rw (e, mark_job_cancelled)
        (unfold set_terminal_fields in
          save-IsValid db job _ v f.by_id refl refl (cancel-IsWellFormed now job))
]

-- The cancel endpoint leaves a valid table.
pub cancel_job-IsValid :
    (now : ℕ) (id : Uuid) (db : Db) → IsValid db → IsValid (cancel_job now id db).0
cancel_job-IsValid now id db v = elim (Option-cases (get_job db id)) [
  | inl e ↦ unfold cancel_job in rw (e, cancel_job) v
  | inr (job, e) ↦
      unfold cancel_job in
      let f = Found-get_job db id job v e in
      let (same_id, same_key) = cancel_keys job.status now job in
      rw (e, cancel_job)
        (save-IsValid db job _ v f.by_id same_id same_key
          (cancel_row-IsWellFormed now job f.well_formed))
]
