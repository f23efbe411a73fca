-- ===== src/JobQueue/Enqueue.antt =====
-- `enqueue_evaluate_job`, `enqueue_tailoring_job` and `get_tailoring_job_ref` of
-- backend/app/services/job_queue.py. A call reads the clock once, `now`; `new_id` is its `uuid4()`.
-- `others` is what other sessions commit between its query and its INSERT.
use resume_helper.Base.{
  ℕ, Bool, true, false, Option, none, some, [], ◌∷◌, Text, pos, not, ◌&&◌, if◌then◌else◌,
}
use resume_helper.Hashing.{Digest}
use resume_helper.Uuid.{Uuid, uuid_str}
use resume_helper.Json.{Payload, string, int, set_item}
use resume_helper.JobQueue.Job.{
  AiJob, JobStatus, queued, retry_wait, failed, cancelled, tailor, evaluate, new_job, is_terminal,
  is_claimable,
}
use resume_helper.JobQueue.Fields.{given, set_queued_fields, merge_payload}
use resume_helper.JobQueue.Store.{
  Db, save, find_job_by_dedupe, find_tailoring_job_by, has_generated_resume, commit_new,
}
use resume_helper.JobQueue.Keys.{tailor_dedupe_key, evaluate_dedupe_key}

pub data QueueError : Type 0 where
  integrity_error value_error : QueueError

pub data Outcome {ℓ} (A : Type ℓ) : Type ℓ where
  returned : A → Outcome A
  raised : QueueError → Outcome A

-- `TailoringJobRef` and `EvaluateJobRef`, which have the same fields.
pub record JobRef : Type 0 where
  pub id : Uuid
  pub status : JobStatus
  pub created : Bool

unfoldable pub job_ref : AiJob → Bool → JobRef
job_ref job created = record { id = job.id; status = job.status; created = created }

-- The keyword arguments of `enqueue_evaluate_job`.
pub record EvaluateIn : Type 0 where
  pub jd_text : Text
  pub profile_id : ℕ
  pub prompt_version : Text
  pub tailor_prompt_version : Text
  pub request_id : Option Text

-- `if request_id: payload["request_id"] = request_id`
unfoldable pub with_request_id : Option Text → Payload → Payload
unfolding set_item
with_request_id none payload = payload
with_request_id (some r) payload =
    if given (some r) then set_item "request_id" (string r) payload else payload

unfoldable pub evaluate_payload : EvaluateIn → Payload
unfolding with_request_id
evaluate_payload a = with_request_id a.request_id (
    ("jd_text", string a.jd_text)
    ∷ ("profile_id", int (pos a.profile_id))
    ∷ ("prompt_version", string a.prompt_version)
    ∷ ("tailor_prompt_version", string a.tailor_prompt_version)
    ∷ [])

-- The branch for a failed or cancelled row: it is queued once more.
unfoldable pub requeue_evaluate : ℕ → EvaluateIn → AiJob → AiJob
unfolding set_queued_fields evaluate_payload
requeue_evaluate now a existing = record (set_queued_fields now (evaluate_payload a) existing) {
  profile_id = some a.profile_id;
  prompt_version = some a.prompt_version;
  request_id = a.request_id;
  progress_current = 0;
  progress_total = some 1;
}

-- The branch for a row that still waits: its payload is brought up to date.
unfoldable pub refresh_evaluate : ℕ → EvaluateIn → AiJob → AiJob
unfolding merge_payload evaluate_payload
refresh_evaluate now a existing = record (merge_payload (evaluate_payload a) existing) {
  profile_id = some a.profile_id;
  prompt_version = some a.prompt_version;
  request_id = if given a.request_id then a.request_id else existing.request_id;
  updated_at = now;
}

unfoldable pub reuse_evaluate : JobStatus → ℕ → EvaluateIn → AiJob → Db → Db × Outcome JobRef
reuse_evaluate failed now a existing db =
    let job = requeue_evaluate now a existing in (save job db, returned (job_ref job false))
reuse_evaluate cancelled now a existing db =
    let job = requeue_evaluate now a existing in (save job db, returned (job_ref job false))
reuse_evaluate queued now a existing db =
    let job = refresh_evaluate now a existing in (save job db, returned (job_ref job false))
reuse_evaluate retry_wait now a existing db =
    let job = refresh_evaluate now a existing in (save job db, returned (job_ref job false))
reuse_evaluate _ now a existing db = (db, returned (job_ref existing false))

unfoldable pub evaluate_job : Uuid → ℕ → Text → EvaluateIn → AiJob
unfolding set_queued_fields evaluate_payload
evaluate_job new_id now key a =
    let row = record (new_job new_id evaluate now) {
      dedupe_key = some key;
      profile_id = some a.profile_id;
      prompt_version = some a.prompt_version;
      request_id = a.request_id;
      progress_total = some 1;
    } in
    set_queued_fields now (evaluate_payload a) row

-- The commit of a new row, and the `except IntegrityError` behind it.
unfoldable pub commit_or_find : AiJob → (Db → Option AiJob) → Db → Db × Outcome JobRef
commit_or_find job find db = elim (commit_new job db) [
  | some db' ↦ (db', returned (job_ref job true))
  | none ↦ elim (find db) [
    | none ↦ (db, raised integrity_error)
    | some existing ↦ (db, returned (job_ref existing false))
  ]
]

unfoldable pub enqueue_evaluate_job :
    Digest → ℕ → Uuid → (Db → Db) → EvaluateIn → Db → Db × Outcome JobRef
enqueue_evaluate_job d now new_id others a db =
    let key = evaluate_dedupe_key d a.profile_id a.prompt_version a.jd_text in
    elim (find_job_by_dedupe db key) [
      | some existing ↦ reuse_evaluate existing.status now a existing db
      | none ↦
          commit_or_find (evaluate_job new_id now key a) (λ store. find_job_by_dedupe store key)
            (others db)
    ]

-- The keyword arguments of `enqueue_tailoring_job`.
pub record TailorIn : Type 0 where
  pub job_analysis_id : Uuid
  pub prompt_version : Option Text
  pub request_id : Option Text

unfoldable pub with_prompt_version : Option Text → Payload → Payload
unfolding set_item
with_prompt_version none payload = payload
with_prompt_version (some v) payload =
    if given (some v) then set_item "prompt_version" (string v) payload else payload

unfoldable pub tailor_payload : TailorIn → Payload
unfolding with_prompt_version with_request_id
tailor_payload a = with_request_id a.request_id (
    with_prompt_version a.prompt_version
      (("job_analysis_id", string (uuid_str a.job_analysis_id)) ∷ []))

unfoldable pub refresh_tailoring : ℕ → TailorIn → AiJob → AiJob
unfolding merge_payload tailor_payload
refresh_tailoring now a existing = record (merge_payload (tailor_payload a) existing) {
  prompt_version = if given a.prompt_version then a.prompt_version else existing.prompt_version;
  request_id = if given a.request_id then a.request_id else existing.request_id;
  updated_at = now;
}

unfoldable pub reuse_tailoring : ℕ → TailorIn → Bool → AiJob → Db → Db × Outcome JobRef
reuse_tailoring now a has_resume existing db =
    let requeued = set_queued_fields now (tailor_payload a) existing in
    let refreshed = refresh_tailoring now a existing in
    if not has_resume && is_terminal existing.status
    then (save requeued db, returned (job_ref requeued false))
    else if is_claimable existing.status
    then (save refreshed db, returned (job_ref refreshed false))
    else (db, returned (job_ref existing false))

unfoldable pub tailoring_job : Uuid → ℕ → TailorIn → AiJob
unfolding set_queued_fields tailor_payload
tailoring_job new_id now a =
    let row = record (new_job new_id tailor now) {
      dedupe_key = some (tailor_dedupe_key a.job_analysis_id);
      job_analysis_id = some a.job_analysis_id;
      prompt_version = a.prompt_version;
      request_id = a.request_id;
    } in
    set_queued_fields now (tailor_payload a) row

unfoldable pub find_tailoring_job : Db → Uuid → Option AiJob
find_tailoring_job db job_analysis_id = find_tailoring_job_by db (tailor_dedupe_key job_analysis_id)

abbrev pub to_option : Db × Outcome JobRef → Db × Outcome (Option JobRef)
to_option (db, returned ref) = (db, returned (some ref))
to_option (db, raised e) = (db, raised e)

-- The reference is `none` where the analysis has its resume and no job.
unfoldable pub enqueue_tailoring_job :
    ℕ → Uuid → (Db → Db) → TailorIn → Db → Db × Outcome (Option JobRef)
enqueue_tailoring_job now new_id others a db =
    let has_resume = has_generated_resume db a.job_analysis_id in
    elim (find_tailoring_job db a.job_analysis_id) [
      | some existing ↦ to_option (reuse_tailoring now a has_resume existing db)
      | none ↦
          if has_resume
          then (db, returned none)
          else to_option (
              commit_or_find (tailoring_job new_id now a)
                (λ store. find_tailoring_job store a.job_analysis_id) (others db))
    ]

unfoldable pub get_tailoring_job_ref : Db → Uuid → Option JobRef
get_tailoring_job_ref db job_analysis_id = elim (find_tailoring_job db job_analysis_id) [
  | none ↦ none
  | some job ↦ some (job_ref job false)
]
