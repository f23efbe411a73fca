-- ===== src/JobQueue/Claim.antt =====
-- `claim_next_job` of backend/app/services/job_queue.py, `ClaimedAIJob`, and
-- `job_analysis_id_from_claim`.
use resume_helper.Base.{
  ℕ, ◌+◌, Bool, true, false, Option, none, some, List, [], ◌∷◌, Text, ltb_ℤ, ltb, leb, ◌==◌, ◌&&◌,
  ◌||◌, not, keep, strip_prefix, if◌then◌else◌,
}
use resume_helper.Uuid.{Uuid, uuid_of}
use resume_helper.Json.{Payload, get, truthy, json_str}
use resume_helper.JobQueue.Job.{AiJob, JobStatus, JobKind, running, kind_eq, is_claimable}
use resume_helper.JobQueue.Fields.{payload_of, clear_error_fields}
use resume_helper.JobQueue.Store.{Db, save}
use resume_helper.JobQueue.Keys.{tailor_prefix}

pub record ClaimedAiJob : Type 0 where
  pub id : Uuid
  pub kind : JobKind
  pub dedupe_key : Option Text
  pub status : JobStatus
  pub input_payload : Payload

unfoldable pub claimed_job : AiJob → ClaimedAiJob
claimed_job job = record {
  id = job.id;
  kind = job.kind;
  dedupe_key = job.dedupe_key;
  status = job.status;
  input_payload = payload_of job.input_payload;
}

unfoldable pub contains : Uuid → List Uuid → Bool
contains id [] = false
contains id (u ∷ ids) = u == id || contains id ids

abbrev kind_fits : Option JobKind → JobKind → Bool
kind_fits none k = true
kind_fits (some kind) k = kind_eq k kind

-- The WHERE clause.
unfoldable pub is_due : Option JobKind → ℕ → AiJob → Bool
is_due kind now job = is_claimable job.status && leb job.run_after now && kind_fits kind job.kind

-- The rows that `FOR UPDATE SKIP LOCKED` returns, and that it locks until the commit, beside the
-- rows that other sessions hold.
unfoldable pub selected : Option JobKind → ℕ → List Uuid → Db → List AiJob
selected kind now locked db = keep (λ j. is_due kind now j && not (contains j.id locked)) db.jobs

-- One column of an ORDER BY: the row that is less goes first, and a tie is left to the next column.
abbrev pub lex : Bool → Bool → Bool → Bool
lex less greater rest = less || (not greater && rest)

-- ORDER BY priority DESC, run_after, created_at, id
unfoldable pub before : AiJob → AiJob → Bool
before a b = lex (ltb_ℤ b.priority a.priority) (ltb_ℤ a.priority b.priority) (
    lex (ltb a.run_after b.run_after) (ltb b.run_after a.run_after)
      (lex (ltb a.created_at b.created_at) (ltb b.created_at a.created_at) (ltb a.id b.id)))

-- `.scalars().first()` of the ordered rows.
unfoldable pub first_in_order : List AiJob → Option AiJob
first_in_order [] = none
first_in_order (j ∷ jobs) = elim (first_in_order jobs) [
  | none ↦ some j
  | some k ↦ if before k j then some k else some j
]

unfoldable pub start_job : ℕ → AiJob → AiJob
unfolding clear_error_fields
start_job now job = clear_error_fields (record job {
  status = running;
  started_at = some now;
  locked_at = some now;
  updated_at = now;
  attempts = job.attempts + 1;
})

unfoldable pub claim_next_job : Option JobKind → ℕ → List Uuid → Db → Db × Option ClaimedAiJob
claim_next_job kind now locked db = elim (first_in_order (selected kind now locked db)) [
  | none ↦ (db, none)
  | some job ↦ let started = start_job now job in (save started db, some (claimed_job started))
]

-- `uuid.UUID(claimed.dedupe_key[len(prefix):])` behind its guard; `none` is a `ValueError`.
abbrev id_from_key : Option Text → Option Uuid
id_from_key none = none
id_from_key (some key) = elim (strip_prefix tailor_prefix key) [
  | none ↦ none
  | some rest ↦ uuid_of rest
]

-- `none` is the `ValueError`.
unfoldable pub job_analysis_id_from_claim : ClaimedAiJob → Option Uuid
job_analysis_id_from_claim claimed = elim (get "job_analysis_id" claimed.input_payload) [
  | none ↦ id_from_key claimed.dedupe_key
  | some raw ↦ if truthy raw then uuid_of (json_str raw) else id_from_key claimed.dedupe_key
]
