-- ===== src/Tests/Samples.antt =====
-- Sample data for the queue of backend/app/services/job_queue.py.
use native.Mathlib.Nat.{le_refl}
use resume_helper.Base.{
  ℕ, zero, suc, ◌≤◌, ◌≡◌, refl, ap, arith, none, some, [], ◌∷◌, ◌++◌, Text, text_of, take, length,
}
use resume_helper.Hashing.{Digest}
use resume_helper.JobQueue.Job.{AiJob, tailor, new_job, failed}
use resume_helper.JobQueue.Store.{Db}
use resume_helper.JobQueue.Enqueue.{EvaluateIn, TailorIn}
use resume_helper.JobQueue.Invariant.Table.{IsValid}
use resume_helper.Errors.{coded}
use resume_helper.Worker.{Handlers, Round, done, broken}

abbrev pub zeros : ℕ → Text
zeros zero = []
zeros (suc n) = 48 ∷ zeros n

pub length-take-zeros : (n : ℕ) (s : Text) → length (take n (s ++ zeros n)) ≡ n
length-take-zeros n s = go n n s (le_refl n)
  where
    go : (n m : ℕ) (s : Text) → n ≤ m → length (take n (s ++ zeros m)) ≡ n
    go zero m s h = refl
    go (suc n) zero [] h = absurd (omega arith)
    go (suc n) (suc m) [] h = ap suc (go n m [] (omega arith))
    go (suc n) m (c ∷ s) h = ap suc (go n m s (omega arith))

-- The first 64 characters of the text, filled up by zeros, in place of a digest.
abbrev pub digest : Digest
digest = record {
  normalize = λ s. s;
  hexdigest = λ s. take 64 (s ++ zeros 64);
  length-hexdigest = λ s. length-take-zeros 64 s;
}

abbrev pub request : EvaluateIn
request = record {
  jd_text = text_of "Python";
  profile_id = 1;
  prompt_version = text_of "v1";
  tailor_prompt_version = text_of "t1";
  request_id = none;
}

abbrev pub tailoring : TailorIn
tailoring = record { job_analysis_id = 5; prompt_version = some (text_of "t1"); request_id = none }

abbrev pub empty_db : Db
empty_db = record {
  jobs = [];
  resumes = [];
  profiles = [];
  next_profile_id = 1;
  analyses = [];
  audits = [];
  proof_points = [];
}

pub empty_db-IsValid : IsValid empty_db
empty_db-IsValid = record { rows = tt; constraints = tt }

-- Two rows that wait, the second with an earlier time.
abbrev pub waiting : AiJob
waiting = new_job 1 tailor 10

abbrev pub earlier : AiJob
earlier = new_job 2 tailor 5

abbrev pub two_waiting : Db
two_waiting = record empty_db { jobs = waiting ∷ earlier ∷ [] }

abbrev pub exhausted : AiJob
exhausted = record waiting { status = failed; attempts = 3 }

abbrev pub handlers : Handlers
handlers = record {
  run_tailor = λ claimed db. (db, broken (coded (text_of "boom") (text_of "no")));
  run_evaluate = λ claimed db. (db, done []);
}

abbrev pub first_round : Round
first_round = record { claim_time = 20; report_time = 30; locked = [] }
