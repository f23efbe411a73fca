-- ===== src/Worker/Rounds.antt =====
-- A bounded run of the worker ends, and a round leaves no job running
-- (backend/app/workers/job_queue.py).
use resume_helper.Base.{
  subst, sym, ℕ, ◌+◌, ◌≤◌, ◌<◌, max, ◌≡◌, refl, inl, inr, false, Option, none, some, List, [], ◌∷◌,
  Text, length, arith, Option-cases,
}
use resume_helper.Uuid.{Uuid}
use resume_helper.Json.{Payload}
use resume_helper.JobQueue.Job.{AiJob, JobKind, running, failed, succeeded}
use resume_helper.JobQueue.Store.{Db, get_job, save}
use resume_helper.JobQueue.Enqueue.{JobRef, job_ref, Outcome, returned, raised}
use resume_helper.JobQueue.Claim.{ClaimedAiJob, claimed_job, start_job, claim_next_job}
use resume_helper.JobQueue.Marks.{
  fail_job, mark_job_failed, mark_job_succeeded, apply_result, complete_progress,
}
use resume_helper.JobQueue.Fields.{set_terminal_fields}
use resume_helper.JobQueue.Rows.{find_row-set_row, Elem-find_row}
use resume_helper.JobQueue.Invariant.Rows.{is_held}
use resume_helper.Worker.{
  Handlers, Round, JobExecutionResult, LoopEnd, stopped, crashed, polling, run_job_queue_once,
  run_job_queue_loop, Execution, done, broken, execute_claimed_job, error_details, report,
  report_failure, report_success, success_result, after_claim, is_cancelled, status_or,
}

-- How many jobs a loop has processed.
abbrev pub Within : ℕ → LoopEnd → Type 0
Within m (stopped n) = n ≤ m
Within m (crashed e) = Unit
Within m (polling n) = ⊥

-- With a limit the loop needs one round for each job up to the limit, and a round for a limit of 0
-- too: within that many rounds it returns or raises, and it has processed no more jobs than that.
pub run_job_queue_loop_ends :
    (h : Handlers) (kind : Option JobKind) (max_jobs processed : ℕ) (rounds : List Round) (db : Db)
    → processed < max max_jobs 1
    → max max_jobs 1 ≤ processed + length rounds
    → Within (max max_jobs 1) (run_job_queue_loop h kind (some max_jobs) rounds processed db).1
unfolding run_job_queue_loop
run_job_queue_loop_ends h kind max_jobs processed [] db lt le = absurd (omega arith)
run_job_queue_loop_ends h kind max_jobs processed (round ∷ rounds) db lt le = ground (
  arith,
  run_job_queue_loop_ends h kind max_jobs (processed + 1) rounds
      (run_job_queue_once h kind round db).0,
)

-- A row that was written and is looked up by its id.
saved_status :
    (job old : AiJob) (db : Db) (j : AiJob)
    → get_job db job.id ≡ some old
    → get_job (save job db) job.id ≡ some j
    → j ≡ job
unfolding get_job save
saved_status job old db j found again = ground (arith, find_row-set_row job.id job db.jobs old)

fail_job_frees :
    (now : ℕ) (code message : Text) (job : AiJob)
    → (is_held (fail_job now code message job).status ≡ false)
      × ((fail_job now code message job).id ≡ job.id)
unfolding fail_job
fail_job_frees now code message job = ground arith

succeed_frees :
    (now : ℕ) (result : Option Payload) (job k : AiJob)
    → apply_result result (set_terminal_fields now succeeded none none job) ≡ some k
    → ((complete_progress k).status ≡ succeeded) × ((complete_progress k).id ≡ job.id)
unfolding apply_result set_terminal_fields complete_progress
succeed_frees now result job k e = ground arith

-- After a reported failure the row has the reported status, and no worker has it.
mark_job_failed_frees :
    (now : ℕ) (id : Uuid) (code message : Text) (db : Db) (j : AiJob)
    → get_job (mark_job_failed now id code message db).0 id ≡ some j
    → (j.status ≡ status_or (mark_job_failed now id code message db).1 failed)
      × (is_held j.status ≡ false)
unfolding mark_job_failed job_ref
mark_job_failed_frees now id code message db j f = elim (Option-cases (get_job db id)) [
  | inl missing ↦ absurd (ground arith)
  | inr (old, found) ↦
      let new = fail_job now code message old in
      let (free, same) = fail_job_frees now code message old in
      let own : old.id ≡ id = (Elem-find_row id db.jobs old (unfold get_job in found)).1 in
      let e : j ≡ new = saved_status new old db j (ground arith) (ground arith) in ground arith
]

-- After a reported success the row has succeeded.
mark_job_succeeded_frees :
    (now : ℕ) (id : Uuid) (result : Option Payload) (db : Db) (ref : Option JobRef) (j : AiJob)
    → (mark_job_succeeded now id result db).1 ≡ returned ref
    → get_job (mark_job_succeeded now id result db).0 id ≡ some j
    → (j.status ≡ succeeded) × (status_or ref succeeded ≡ succeeded)
unfolding mark_job_succeeded job_ref
mark_job_succeeded_frees now id result db ref j e f = elim (Option-cases (get_job db id)) [
  | inl missing ↦ absurd (ground arith)
  | inr (old, found) ↦
      elim (Option-cases (apply_result result (set_terminal_fields now succeeded none none old))) [
        | inl bad ↦ absurd (ground arith)
        | inr (k, good) ↦
            let new = complete_progress k in
            let (ended, same) = succeed_frees now result old k good in
            let own : old.id ≡ id = (Elem-find_row id db.jobs old (unfold get_job in found)).1 in
            let e' : j ≡ new = saved_status new old db j (ground arith) (ground arith) in
            ground arith
      ]
]

claimed_running :
    (kind : Option JobKind) (now : ℕ) (locked : List Uuid) (db : Db) (claimed : ClaimedAiJob)
    → (claim_next_job kind now locked db).1 ≡ some claimed
    → claimed.status ≡ running
unfolding claim_next_job start_job claimed_job
claimed_running kind now locked db claimed e = ground arith

report_frees :
    (now : ℕ) (claimed : ClaimedAiJob) (p : Db × Execution) (r : JobExecutionResult) (j : AiJob)
    → (report now claimed p).1 ≡ returned (some r)
    → get_job (report now claimed p).0 r.id ≡ some j
    → (j.status ≡ r.status) × (is_held j.status ≡ false)
unfolding report_failure report_success
report_frees now claimed (db, broken x) r j e f =
    let (code, message) = error_details x in
    let id : claimed.id ≡ r.id = ground arith in
    let found =
      subst (λ u. get_job (mark_job_failed now claimed.id code message db).0 u ≡ some j) (sym id)
        f in
    let free = mark_job_failed_frees now claimed.id code message db j found in ground arith
report_frees now claimed (db, done result) r j e f =
    success_frees (mark_job_succeeded now claimed.id (some result) db).1 refl e
  where
    success_frees :
        (o : Outcome (Option JobRef))
        → (mark_job_succeeded now claimed.id (some result) db).1 ≡ o
        → success_result claimed result o ≡ returned (some r)
        → (j.status ≡ r.status) × (is_held j.status ≡ false)
    success_frees (raised x) m e' = absurd (cc)
    success_frees (returned ref) m e' =
        let id : claimed.id ≡ r.id = ground arith in
        let found =
          subst (λ u. get_job (mark_job_succeeded now claimed.id (some result) db).0 u ≡ some j)
            (sym id) f in
        let free = mark_job_succeeded_frees now claimed.id (some result) db ref j m found in
        ground arith

after_claim_frees :
    (h : Handlers) (round : Round) (p : Db × Option ClaimedAiJob) (r : JobExecutionResult)
    (j : AiJob)
    → ((claimed : ClaimedAiJob) → p.1 ≡ some claimed → claimed.status ≡ running)
    → (after_claim h round p).1 ≡ returned (some r)
    → get_job (after_claim h round p).0 r.id ≡ some j
    → (j.status ≡ r.status) × (is_held j.status ≡ false)
after_claim_frees h round (db, none) r j runs e f = absurd (cc)
after_claim_frees h round (db, some claimed) r j runs e f =
    let status : claimed.status ≡ running = runs claimed refl in
    let go : is_cancelled claimed.status ≡ false = rw status in
    report_frees round.report_time claimed (execute_claimed_job h claimed.kind claimed db) r j
      (rw go at e) (rw go at f)

-- After a round that ran a job, however its handler ended and whatever it and other sessions did to
-- the table, the row of the job, if it is there still, has the status that the round reports, and no
-- worker has it: it has ended or waits for its next run.
pub run_job_queue_once_frees :
    (h : Handlers) (kind : Option JobKind) (round : Round) (db : Db) (r : JobExecutionResult)
    (j : AiJob)
    → (run_job_queue_once h kind round db).1 ≡ returned (some r)
    → get_job (run_job_queue_once h kind round db).0 r.id ≡ some j
    → (j.status ≡ r.status) × (is_held j.status ≡ false)
unfolding run_job_queue_once
run_job_queue_once_frees h kind round db r j e f =
    after_claim_frees h round (claim_next_job kind round.claim_time round.locked db) r j
      (claimed_running kind round.claim_time round.locked db) e f
