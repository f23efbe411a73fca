-- ===== src/Tests/Queue.antt =====
-- The queue of backend/app/services/job_queue.py and its worker.
use resume_helper.Base.{
  ℕ, ◌*◌, ◌≡◌, ◌↔◌, refl, inl, true, false, none, some, [], ◌∷◌, text_of, length, arith, max,
}
use resume_helper.Tests.Samples.{
  digest, request, empty_db, empty_db-IsValid, waiting, earlier, two_waiting, exhausted, handlers,
  first_round,
}
use resume_helper.Hashing.{jd_hash}
use resume_helper.JobQueue.Job.{queued, retry_wait, failed, tailor, is_claimable}
use resume_helper.JobQueue.Fields.{backoff_seconds}
use resume_helper.JobQueue.Keys.{evaluate_dedupe_key}
use resume_helper.JobQueue.Store.{
  find_row, set_row, save, get_job, latest, find_job_by_dedupe, commit_new, any_clash,
}
use resume_helper.JobQueue.Enqueue.{
  JobRef, job_ref, returned, evaluate_job, commit_or_find, enqueue_evaluate_job, requeue_evaluate,
}
use resume_helper.JobQueue.Claim.{
  contains, is_due, before, selected, first_in_order, start_job, claimed_job, claim_next_job,
}
use resume_helper.JobQueue.Marks.{fail_job, mark_job_failed}
use resume_helper.JobQueue.Retries.{failed_runs, failed_runs_status, requeue_keeps_attempts}
use resume_helper.JobQueue.Claims.{ClaimOutcome, claim_next_job-ClaimOutcome}
use resume_helper.JobQueue.KeyLaws.{evaluate_dedupe_key_iff}
use resume_helper.JobQueue.Twice.{enqueue_evaluate_job_again, enqueue_evaluate_job_race, key_of}
use resume_helper.JobQueue.Invariant.Rows.{is_held, evaluate_job-IsWellFormed}
use resume_helper.JobQueue.Invariant.Table.{IsValid}
use resume_helper.JobQueue.Invariant.Reach
use resume_helper.JobQueue.Invariant.Reach.{Reach-IsValid}
use resume_helper.JobQueue.Sessions.{
  locked_ids, holders, select, here, next, Reach-excludes, select_starves,
}
use resume_helper.Worker.{
  run_job_queue_once, run_job_queue_loop, execute_claimed_job, error_details, report_failure,
}
use resume_helper.Worker.Rounds.{Within, run_job_queue_loop_ends, run_job_queue_once_frees}

abbrev first_ref : JobRef
first_ref = record { id = 7; status = queued; created = true }

-- Two calls with one description: the second reuses the row of the first.
enqueue_evaluate_job_again_example :
    let first = (enqueue_evaluate_job digest 10 7 (λ s. s) request empty_db).0 in
    let again = enqueue_evaluate_job digest 20 8 (λ s. s) request first in
    (s : JobRef) × (again.1 ≡ returned s)
    × (s.id ≡ 7)
    × (s.created ≡ false)
    × (length again.0.jobs ≡ length first.jobs)
unfolding enqueue_evaluate_job find_job_by_dedupe latest commit_or_find commit_new any_clash job_ref
    evaluate_job
enqueue_evaluate_job_again_example =
    enqueue_evaluate_job_again digest 10 20 7 8 (λ s. s) (λ s. s) request request empty_db first_ref
      empty_db-IsValid empty_db-IsValid refl refl

-- What the claim of the two rows takes: the earlier one.
first_claim : first_in_order (selected none 20 [] two_waiting) ≡ some earlier
unfolding first_in_order before selected is_due contains
first_claim = refl

failed_runs_status_example :
    (failed_runs 3 (λ n. n * 100) (text_of "e") (text_of "m") waiting).status ≡ failed
failed_runs_status_example = failed_runs_status 2 (λ n. n * 100) (text_of "e") (text_of "m") waiting

requeue_keeps_attempts_example :
    (fail_job 30
      (text_of "e")
      (text_of "m")
      (start_job 20 (requeue_evaluate 10 request exhausted))).status
    ≡ failed
requeue_keeps_attempts_example =
    requeue_keeps_attempts 10 20 30 request (text_of "e") (text_of "m") exhausted (omega arith)

claim_next_job-ClaimOutcome_example :
    ClaimOutcome none 20 [] two_waiting (claim_next_job none 20 [] two_waiting)
claim_next_job-ClaimOutcome_example = claim_next_job-ClaimOutcome none 20 [] two_waiting

enqueue_evaluate_job_race_example :
    let other = evaluate_job 9 5 (key_of digest request) request in
    enqueue_evaluate_job digest 10 7 (λ _. record empty_db { jobs = other ∷ [] }) request empty_db
    ≡ (record empty_db { jobs = other ∷ [] }, returned (job_ref other false))
unfolding find_job_by_dedupe latest evaluate_job
enqueue_evaluate_job_race_example =
    let other = evaluate_job 9 5 (key_of digest request) request in
    enqueue_evaluate_job_race digest 10 7 (λ _. record empty_db { jobs = other ∷ [] }) request
      empty_db other
      (record {
        rows = (evaluate_job-IsWellFormed 9 5 (key_of digest request) request, tt);
        constraints = (tt, tt);
      })
      refl (inl refl) refl

Reach-IsValid_example :
    IsValid
      (claim_next_job none 20 []
        (enqueue_evaluate_job digest 10 7 (λ _. empty_db) request empty_db).0).0
Reach-IsValid_example =
    Reach-IsValid digest empty_db
      (Reach.claim (Reach.evaluate Reach.here 10 7 request Reach.here) none 20 [])

select_starves_example :
    claim_next_job none 20
      (locked_ids (selected none 20 (locked_ids []) two_waiting ∷ []))
      two_waiting
    ≡ (two_waiting, none)
select_starves_example = select_starves none 20 [] two_waiting

Reach-excludes_example :
    (find_row 2 two_waiting.jobs ≡ some earlier) × (is_claimable queued ≡ true) × (holders 2 [] ≡ 0)
unfolding locked_ids first_in_order before selected is_due contains
Reach-excludes_example =
    Reach-excludes two_waiting [] (waiting ∷ earlier ∷ []) [] earlier ((refl, tt), (tt, tt))
      (next here (select none 20)) refl refl

evaluate_dedupe_key_iff_example :
    (evaluate_dedupe_key digest 1 (text_of "a") (text_of "x")
      ≡ evaluate_dedupe_key digest 12 (text_of "a") (text_of "x"))
    ↔ ((◌≡◌ {A = ℕ} 1 12)
        × (text_of "a" ≡ text_of "a")
        × (jd_hash digest (text_of "x") ≡ jd_hash digest (text_of "x")))
evaluate_dedupe_key_iff_example =
    evaluate_dedupe_key_iff digest 1 12 (text_of "a") (text_of "a") (text_of "x") (text_of "x")

run_job_queue_loop_ends_example :
    Within
      (max 2 1)
      (run_job_queue_loop handlers none (some 2) (first_round ∷ first_round ∷ []) 0 two_waiting).1
run_job_queue_loop_ends_example =
    run_job_queue_loop_ends handlers none 2 0 (first_round ∷ first_round ∷ []) two_waiting
      (omega arith) (omega arith)

-- The handler of the earlier row raises: the row waits for a retry.
run_job_queue_once_frees_example :
    let row = fail_job 30 (text_of "boom") (text_of "no") (start_job 20 earlier) in
    (row.status ≡ retry_wait) × (is_held row.status ≡ false)
unfolding run_job_queue_once claim_next_job selected is_due contains first_in_order before start_job
    save set_row claimed_job execute_claimed_job report_failure error_details mark_job_failed
    get_job find_row fail_job backoff_seconds job_ref
run_job_queue_once_frees_example =
    run_job_queue_once_frees handlers none first_round two_waiting
      (record {
        id = 2;
        kind = tailor;
        status = retry_wait;
        error_code = some (text_of "boom");
        error_message = some (text_of "no");
        result = none;
      })
      (fail_job 30 (text_of "boom") (text_of "no") (start_job 20 earlier)) refl refl
