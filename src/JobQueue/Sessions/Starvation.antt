-- ===== src/JobQueue/Sessions/Starvation.antt =====
-- What a second worker sees while a claim is under way
-- (backend/app/services/job_queue.py, `claim_next_job`).
use resume_helper.Base.{
  ℕ, ◌≡◌, refl, ◌∙◌, inl, inr, Bool, true, false, Option, none, List, [], ◌∷◌, ◌&&◌, not, keep,
  arith, Bool-cases,
}
use resume_helper.Uuid.{Uuid}
use resume_helper.JobQueue.Job.{AiJob, JobKind}
use resume_helper.JobQueue.Store.{Db}
use resume_helper.JobQueue.Claim.{contains, is_due, selected, first_in_order, claim_next_job}
use resume_helper.JobQueue.Rows.{Elem}
use resume_helper.JobQueue.Sessions.Steps.{locked_ids, commit_claim}
use resume_helper.JobQueue.Sessions.Holders.{contains-append, contains-ids}

keep_none :
    (p : AiJob → Bool) (jobs : List AiJob)
    → ((j : AiJob) → Elem j jobs → p j ≡ false)
    → keep p jobs ≡ []
keep_none p [] h = refl
keep_none p (j ∷ jobs) h = rw (h j (inl refl)) (keep_none p jobs (λ k e. h k (inr e)))

keep-Elem :
    (p : AiJob → Bool) (jobs : List AiJob) (j : AiJob)
    → Elem j jobs
    → p j ≡ true
    → Elem j (keep p jobs)
keep-Elem p [] j e h = absurd e
keep-Elem p (x ∷ xs) j (inl e) h = let good : p x ≡ true = rw (← e) h in rw good (inl e)
keep-Elem p (x ∷ xs) j (inr e) h = elim (Bool-cases (p x)) [
  | inl good ↦ rw good (inr (keep-Elem p xs j e h))
  | inr bad ↦ rw bad (keep-Elem p xs j e h)
]

any_kind :
    (kind : Option JobKind) (now : ℕ) (j : AiJob)
    → is_due kind now j ≡ true
    → is_due none now j ≡ true
unfolding is_due
any_kind kind now j h = ground arith

-- Each due row is locked: by the claims before, or by the claim of any kind.
due_locked :
    (kind : Option JobKind) (now : ℕ) (claims : List (List AiJob)) (db : Db) (j : AiJob)
    → Elem j db.jobs
    → is_due kind now j ≡ true
    → contains j.id (locked_ids (selected none now (locked_ids claims) db ∷ claims)) ≡ true
unfolding locked_ids selected
due_locked kind now claims db j e due =
    contains-append j.id _ (locked_ids claims)
    ∙ elim (Bool-cases (contains j.id (locked_ids claims))) [
      | inl held ↦ ground arith
      | inr free ↦
          let test = λ (k : AiJob). is_due none now k && not (contains k.id (locked_ids claims)) in
          let passes : test j ≡ true = ground (arith, any_kind kind now j due) in
          rw (contains-ids j (keep test db.jobs) (keep-Elem test db.jobs j e passes))
    ]

-- While one session is between the SELECT and the COMMIT of a claim of any kind, another session that
-- claims at that time finds nothing, however many due jobs there are: its SELECT skips the rows that
-- the first one has locked, and the first one has locked every due row.
pub select_starves :
    (kind : Option JobKind) (now : ℕ) (claims : List (List AiJob)) (db : Db)
    → claim_next_job kind now (locked_ids (selected none now (locked_ids claims) db ∷ claims)) db
      ≡ (db, none)
select_starves kind now claims db =
    let locked = locked_ids (selected none now (locked_ids claims) db ∷ claims) in
    let empty : selected kind now locked db ≡ [] =
      unfold selected in
      keep_none (λ j. is_due kind now j && not (contains j.id locked)) db.jobs
        (skipped kind now claims db) in
    unfold claim_next_job first_in_order in rw (empty, claim_next_job)
  where
    skipped :
        (kind : Option JobKind) (now : ℕ) (claims : List (List AiJob)) (db : Db) (j : AiJob)
        → Elem j db.jobs
        → (is_due kind now j
            && not (contains j.id (locked_ids (selected none now (locked_ids claims) db ∷ claims))))
          ≡ false
    skipped kind now claims db j e = elim (Bool-cases (is_due kind now j)) [
      | inl due ↦ rw (due, due_locked kind now claims db j e due)
      | inr later ↦ rw later
    ]

-- The SELECT and the COMMIT, with nothing in between, are `claim_next_job`.
pub select-commit :
    (kind : Option JobKind) (now : ℕ) (locked : List Uuid) (db : Db)
    → commit_claim now (selected kind now locked db) db ≡ claim_next_job kind now locked db
unfolding commit_claim claim_next_job
select-commit kind now locked db = refl
