-- ===== src/JobQueue/Sessions/Steps.antt =====
-- The steps of the sessions. A claim that is under way holds the row locks of all the rows that its
-- SELECT returned: the statement has no LIMIT, `.first()` only drops the other rows in the client.
use resume_helper.Base.{ℕ, ◌≡◌, false, Option, none, some, List, [], ◌∷◌, ◌++◌}
use resume_helper.Uuid.{Uuid}
use resume_helper.JobQueue.Job.{AiJob, JobKind}
use resume_helper.JobQueue.Store.{Db, find_row, save, commit_new}
use resume_helper.JobQueue.Claim.{
  ClaimedAiJob, claimed_job, contains, selected, first_in_order, start_job,
}

-- The rows that each open claim has locked.
pub record World : Type 0 where
  pub db : Db
  pub claims : List (List AiJob)

unfoldable pub ids : List AiJob → List Uuid
ids [] = []
ids (j ∷ jobs) = j.id ∷ ids jobs

unfoldable pub locked_ids : List (List AiJob) → List Uuid
unfolding ids
locked_ids [] = []
locked_ids (rows ∷ claims) = ids rows ++ locked_ids claims

-- From the SELECT's rows to the COMMIT: the first row in the order is started.
unfoldable pub commit_claim : ℕ → List AiJob → Db → Db × Option ClaimedAiJob
commit_claim now rows db = elim (first_in_order rows) [
  | none ↦ (db, none)
  | some job ↦ let started = start_job now job in (save started db, some (claimed_job started))
]

-- A session may write any row that no claim has locked, under the key that it has, and insert a row,
-- at any time.
pub data Step (w : World) : World → Type 0 where
  select :
      (kind : Option JobKind) (now : ℕ)
      → Step w (record w { claims = selected kind now (locked_ids w.claims) w.db ∷ w.claims })
  commit :
      (now : ℕ) (xs : List (List AiJob)) (rows : List AiJob) (ys : List (List AiJob))
      → w.claims ≡ xs ++ rows ∷ ys
      → Step w (record w { db = (commit_claim now rows w.db).0; claims = xs ++ ys })
  write :
      (old job : AiJob)
      → contains job.id (locked_ids w.claims) ≡ false
      → find_row job.id w.db.jobs ≡ some old
      → old.dedupe_key ≡ job.dedupe_key
      → Step w (record w { db = save job w.db })
  add : (job : AiJob) (db' : Db) → commit_new job w.db ≡ some db' → Step w (record w { db = db' })

pub data Reach (w : World) : World → Type 0 where
  here : Reach w w
  next : {u v : World} → Reach w u → Step u v → Reach w v
