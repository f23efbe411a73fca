-- ===== src/Lib.antt =====
-- A verification library for the backend of resumeHelper (backend/app). The program evaluates job
-- descriptions against a resume profile by an LLM, tailors resumes in the background, and collects job
-- listings. Its slow work runs as durable jobs: the API enqueues a row of `ai_jobs`, worker processes
-- claim rows, run a handler and report, and the API may ask for a cancellation.
--
-- - Base (Base/Tests, Base/Lists, Base/Int, Base/Texts): names, Boolean tests, lists, signed numbers,
--   Python's `str` as a list of code points. Decimal, Uuid and Json: what the code uses of `str(int)`,
--   `uuid.UUID`, `dict` and JSON values.
-- - Hashing: backend/app/services/hashing.py. NFC and SHA-256 are the record `Digest`.
-- - Tables: the rows of backend/app/models besides `AIJob` and the listings. Errors: the exceptions of a
--   worker's handler and `error_code_for_exception` and `error_message_for_exception` of
--   backend/app/services/llm/audit.py; a call that may raise returns an `Attempt`. Envelope: the answer of an
--   endpoint. Settings: what the code reads of backend/app/config.py.
-- - JobQueue: backend/app/services/job_queue.py, backend/app/models/ai_job.py and
--   backend/app/api/jobs.py. JobQueue/Job is the row, with the columns of `AIJob`; JobQueue/Fields has
--   the helpers `_set_queued_fields`, `_set_terminal_fields`, `_set_retry_wait_fields`,
--   `_clear_error_fields` and `_merge_payload`; JobQueue/Store has the tables and the queries;
--   JobQueue/Keys, JobQueue/Enqueue, JobQueue/Claim and JobQueue/Marks have the functions of the
--   module under their own names. Their proofs: JobQueue/Invariant (rows and table), JobQueue/Retries,
--   JobQueue/Order, JobQueue/Claims, JobQueue/KeyLaws, JobQueue/Rows, JobQueue/Dedupe, JobQueue/Twice, JobQueue/Queued, and
--   JobQueue/Sessions for several workers at once.
-- - Worker: `run_job_queue_once`, `run_job_queue_loop`, `_execute_claimed_job` and `_error_details` of
--   backend/app/workers/job_queue.py, over any two handlers. Handlers: the two handlers of the same file,
--   `_execute_evaluate_job` and `_execute_tailor_job`; Handlers/Payloads reads their payloads. Their
--   proofs: Handlers/Queued, Handlers/Valid, Handlers/RoundTrip.
-- - Profiles: the functions on profiles of backend/app/services/evaluator_v2.py. Profiles/Pdf,
--   Profiles/Endpoints and Profiles/Extract: backend/app/api/profile.py. Their proofs: Profiles/Rows,
--   Profiles/Defaults, Profiles/Sound, Profiles/Tidy, Profiles/Requests, Profiles/Reach, Profiles/Delete.
-- - Audit: `record_llm_audit_log`, `prompt_version_for_step` and what they call, of
--   backend/app/services/llm/audit.py and prompt_registry.py there.
-- - Evaluation: `evaluate_jd` of backend/app/services/evaluator_v2.py. Its proofs: Evaluation/Results,
--   Evaluation/Cache, Evaluation/States.
-- - Tailoring and Tailoring/Run: `run_tailoring` of backend/app/workers/tailor.py. Their proofs:
--   Tailoring/Outcomes, Tailoring/Success.
-- - Deliveries: `external_resume_callback`, `create_generated_resume_revision` and
--   `download_generated_resume_pdf` of backend/app/api/evaluate.py. Analyses: the states of `job_analyses`
--   that evaluations, tailorings, deliveries of resumes and deletions of profiles can reach together.
-- - Applications: backend/app/api/applications.py. Applications has the rows and the helpers on links,
--   Applications/Endpoints the endpoints for one application, Applications/Hydrate `_hydrate` and
--   Applications/Pages `list_applications`; how the database compares texts is the record `Collation`,
--   and how it answers an ORDER BY an argument, of which IsOrderBy says what the columns decide.
--   Their proofs: Applications/Found, Applications/Own and Applications/Loaded (the rows that links lead
--   to), Applications/Sound, Applications/Requests, Applications/Reach, Applications/Answers, Applications/RoundTrip,
--   Applications/Again, Applications/Ordering, Applications/Paging.
-- - Listings and Listings/Admin: backend/app/api/job_listings.py but its list, and
--   backend/app/services/listing_admin.py; the proofs are in Listings/Deletions.
-- - ProofPoints: backend/app/services/proof_points.py, with `str.casefold` as an argument; the proofs are
--   in ProofPoints/Selected.
-- - Scraping: backend/app/services/scrapers. Scraping/Listing has the drafts and the rows of
--   `job_listings`, Scraping/Upsert has persistence.py, Scraping/Filter has `DescriptionFilter`,
--   Scraping/Pipeline has `scrape_with_runner`, Scraping/Run has the rows of `scrape_runs` with what makes
--   and cancels them, and Scraping/Execute has `execute_scrape_run`, all of pipeline.py. Their proofs:
--   Scraping/Lookups, Scraping/Upserts, Scraping/Totals, Scraping/Uniqueness, Scraping/Limits, Scraping/Selection,
--   Scraping/Executions, Scraping/Cancels. The scrapers of the sites are the record `Scraper`, and
--   what an execution takes from outside is the record `Site`.
-- - RateLimit: backend/app/rate_limit.py. RateLimit/Limiter has `FixedWindowRateLimiter`, RateLimit/Rules
--   has `rate_limit_rule_for`, and RateLimit/Requests what the middleware of backend/app/main.py asks for a
--   request; the proofs are in RateLimit/Buckets, RateLimit/Budget, RateLimit/Windows, RateLimit/Retry,
--   RateLimit/Routes and RateLimit/Admission.
-- - Batch: Batch/Guardrails has backend/app/services/ai_guardrails.py and Batch/Listings has
--   backend/app/services/batch_evaluator.py, with `evaluate_jd` as an argument; the proofs are in
--   Batch/Counts and Batch/Totals.
-- - Tests: runs at concrete inputs, and the theorems at inputs that meet their hypotheses.
--
-- State. A function that changes the database takes the tables and returns them; an exception is a
-- value of `Outcome` or `Attempt` beside the tables as they were last committed. An id is the number of
-- its UUID, a time is a count of microseconds, and a call reads the clock once. What other sessions commit
-- between the query and the INSERT of an enqueueing call, or while an evaluation or a tailoring waits for
-- its LLM, is an argument `others`; the rows that they have locked at a claim are the argument `locked`.
-- The foreign keys of `ai_jobs` are not checked; the deletion of a profile unlinks the analyses,
-- the audit log, the jobs and the proof points that refer to it. From the commit of a tailoring to the read of
-- the profile's id behind it is one step.
--
-- Loops. `run_job_queue_loop` recurs on the list of rounds that it is given, since without a limit the
-- source loops for ever; with a limit as many rounds as the limit are enough. `without_pattern` of Uuid
-- takes the length of its text as fuel and drops a character in each round; `decimal_on` takes the
-- number itself and divides it by ten.
--
-- The other loops recur on a list. A call of `should_cancel`, a read of the clock or a new id that the
-- source takes from outside is an argument: a function of the number of the call, or one value.
-- The settings that limit something are naturals, where 0 is what the source does with 0 and below, and
-- prices are millionths of a dollar.
--
-- Not modelled: HTTP, logging, the LLM clients and the validation of their answers, the HTML scrapers, PDF
-- files and migrations, which are input and output; the endpoints
-- of evaluations but those of Deliveries, the list of listings, the endpoints of proof points, and the hash
-- of a payload, which is an argument.
pub mod Base
pub mod Uuid
pub mod Decimal
pub mod Json
pub mod Tables
pub mod Errors
pub mod Hashing
pub mod JobQueue
pub mod Envelope
pub mod Batch
pub mod Profiles
pub mod Settings
pub mod Audit
pub mod Evaluation
pub mod Tailoring
pub mod Analyses
pub mod RateLimit
pub mod Scraping
pub mod Worker
pub mod Handlers
mod Tests
pub mod Applications
pub mod Listings
pub mod ProofPoints
pub mod Deliveries
