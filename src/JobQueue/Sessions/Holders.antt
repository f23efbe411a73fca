-- ===== src/JobQueue/Sessions/Holders.antt =====
-- How many open claims hold a row, and the rows that a write leaves as they were
-- (backend/app/services/job_queue.py).
use resume_helper.Base.{
  ℕ, ◌+◌, ◌≤◌, ◌≡◌, refl, subst, ◌∙◌, inl, inr, true, false, some, List, [], ◌∷◌, ◌++◌, ◌==◌, ◌||◌,
  All, All-append, arith, ltb, Bool-cases, Option-cases, if◌then◌else◌,
}
use resume_helper.Uuid.{Uuid}
use resume_helper.JobQueue.Job.{AiJob, is_claimable}
use resume_helper.JobQueue.Store.{Db, find_row, set_row, save, commit_new, any_clash}
use resume_helper.JobQueue.Claim.{contains, first_in_order, start_job}
use resume_helper.JobQueue.Rows.{Elem, Elem-first_in_order}
use resume_helper.JobQueue.Sessions.Steps.{ids, locked_ids, commit_claim}

-- How many claims hold the row.
unfoldable pub holders : Uuid → List (List AiJob) → ℕ
holders id [] = 0
holders id (rows ∷ claims) = (if contains id (ids rows) then 1 else 0) + holders id claims

-- The row is as the claim read it, and waits.
abbrev pub IsCurrent : Db → AiJob → Type 0
IsCurrent db r = (find_row r.id db.jobs ≡ some r) × (is_claimable r.status ≡ true)

pub contains-append :
    (id : Uuid) (xs ys : List Uuid) → contains id (xs ++ ys) ≡ (contains id xs || contains id ys)
unfolding contains
contains-append id [] ys = refl
contains-append id (x ∷ xs) ys = ground (arith, contains-append id xs ys)

pub contains-locked_ids :
    (id : Uuid) (claims : List (List AiJob))
    → contains id (locked_ids claims) ≡ ltb 0 (holders id claims)
unfolding locked_ids holders
contains-locked_ids id [] = unfold contains in refl
contains-locked_ids id (rows ∷ claims) =
    contains-append id (ids rows) (locked_ids claims)
    ∙ ground (arith, contains-locked_ids id claims)

pub holders-append :
    (id : Uuid) (xs ys : List (List AiJob)) → holders id (xs ++ ys) ≡ holders id xs + holders id ys
unfolding holders
holders-append id [] ys = omega arith
holders-append id (x ∷ xs) ys = ground (arith, holders-append id xs ys)

pub contains-ids :
    (job : AiJob) (rows : List AiJob) → Elem job rows → contains job.id (ids rows) ≡ true
unfolding contains ids
contains-ids job [] e = absurd e
contains-ids job (x ∷ xs) (inl e) = ground arith
contains-ids job (x ∷ xs) (inr e) = ground (arith, contains-ids job xs e)

-- A row that no claim holds is not among the rows of any claim.
ids-ne :
    (id : Uuid) (r : AiJob) (rows : List AiJob)
    → contains id (ids (r ∷ rows)) ≡ false
    → (r.id == id) ≡ false
unfolding contains ids
ids-ne id r rows h = ground arith

-- A change of the table that leaves a row alone.
abbrev pub Leaves : Uuid → Db → Db → Type 0
Leaves id db db' = (r : AiJob) → (r.id == id) ≡ false → IsCurrent db r → IsCurrent db' r

IsCurrent-rows :
    (id : Uuid) (db db' : Db) (rows : List AiJob)
    → Leaves id db db'
    → contains id (ids rows) ≡ false
    → All (IsCurrent db) rows
    → All (IsCurrent db') rows
unfolding contains ids
IsCurrent-rows id db db' [] l h c = tt
IsCurrent-rows id db db' (r ∷ rows) l h c =
    (l r (ground arith) c.0, IsCurrent-rows id db db' rows l (ground arith) c.1)

pub IsCurrent-claims :
    (id : Uuid) (db db' : Db) (claims : List (List AiJob))
    → Leaves id db db'
    → holders id claims ≡ 0
    → All (All (IsCurrent db)) claims
    → All (All (IsCurrent db')) claims
unfolding holders
IsCurrent-claims id db db' [] l h c = tt
IsCurrent-claims id db db' (rows ∷ claims) l h c = (
  IsCurrent-rows id db db' rows l (ground arith) c.0,
  IsCurrent-claims id db db' claims l (ground arith) c.1,
)

find_row-set_row_ne :
    (id : Uuid) (job : AiJob) (jobs : List AiJob)
    → (id == job.id) ≡ false
    → find_row id (set_row job jobs) ≡ find_row id jobs
unfolding find_row set_row
find_row-set_row_ne id job [] ne = refl
find_row-set_row_ne id job (x ∷ xs) ne = ground (arith, find_row-set_row_ne id job xs ne)

pub save-Leaves : (job : AiJob) (db : Db) → Leaves job.id db (save job db)
unfolding save
save-Leaves job db r ne c = (find_row-set_row_ne r.id job db.jobs ne ∙ c.0, c.1)

find_row-append :
    (id : Uuid) (r : AiJob) (xs ys : List AiJob)
    → find_row id xs ≡ some r
    → find_row id (xs ++ ys) ≡ some r
unfolding find_row
find_row-append id r [] ys e = cc
find_row-append id r (x ∷ xs) ys e = ground (arith, find_row-append id r xs ys)

pub add-IsCurrent :
    (job : AiJob) (db db' : Db) (r : AiJob)
    → commit_new job db ≡ some db'
    → IsCurrent db r
    → IsCurrent db' r
unfolding commit_new
add-IsCurrent job db db' r e c = elim (Bool-cases (any_clash job db.jobs)) [
  | inl clash ↦ absurd (ground arith)
  | inr free ↦
      let added : db.jobs ++ job ∷ [] ≡ db'.jobs = ground arith in
      (
        subst (λ jobs. find_row r.id jobs ≡ some r) added (find_row-append r.id r db.jobs _ c.0),
        c.1,
      )
]

module _ (P Q : AiJob → Type 0) (f : (r : AiJob) → P r → Q r) where
  All-map : (rows : List AiJob) → All P rows → All Q rows
  All-map [] h = tt
  All-map (r ∷ rows) h = (f r h.0, All-map rows h.1)

  pub All-All-map : (claims : List (List AiJob)) → All (All P) claims → All (All Q) claims
  All-All-map [] h = tt
  All-All-map (rows ∷ claims) h = (All-map rows h.0, All-All-map claims h.1)

module _ (P : List AiJob → Type 0) where
  pub All-split :
      (xs : List (List AiJob)) (rows : List AiJob) (ys : List (List AiJob))
      → All P (xs ++ rows ∷ ys)
      → All P xs × P rows × All P ys
  All-split [] rows ys h = (tt, h.0, h.1)
  All-split (x ∷ xs) rows ys h = let (a, b, c) = All-split xs rows ys h.1 in ((h.0, a), b, c)

-- The row that a COMMIT starts is one of the rows that its claim holds, so no other claim does.
pub others_free :
    (job : AiJob) (xs : List (List AiJob)) (rows : List AiJob) (ys : List (List AiJob))
    → holders job.id (xs ++ rows ∷ ys) ≤ 1
    → Elem job rows
    → (holders job.id xs ≡ 0) × (holders job.id ys ≡ 0)
unfolding holders
others_free job xs rows ys h e =
    ground (arith, holders-append job.id xs (rows ∷ ys), contains-ids job rows e)

pub holders-drop :
    (id : Uuid) (xs : List (List AiJob)) (rows : List AiJob) (ys : List (List AiJob))
    → holders id (xs ++ ys) ≤ holders id (xs ++ rows ∷ ys)
unfolding holders
holders-drop id xs rows ys =
    omega (arith, holders-append id xs (rows ∷ ys), holders-append id xs ys)

pub IsCurrent-commit_claim :
    (now : ℕ) (db : Db) (xs : List (List AiJob)) (rows : List AiJob) (ys : List (List AiJob))
    → ((id : Uuid) → holders id (xs ++ rows ∷ ys) ≤ 1)
    → All (All (IsCurrent db)) (xs ++ rows ∷ ys)
    → All (All (IsCurrent (commit_claim now rows db).0)) (xs ++ ys)
IsCurrent-commit_claim now db xs rows ys one cur = elim (Option-cases (first_in_order rows)) [
  | inl none_due ↦
      unfold commit_claim in
      let (a, b, c) = All-split (All (IsCurrent db)) xs rows ys cur in
      rw (none_due, commit_claim) (All-append (All (IsCurrent db)) xs ys a c)
  | inr (job, first) ↦
      unfold commit_claim in
      let (a, b, c) = All-split (All (IsCurrent db)) xs rows ys cur in
      let (fa, fc) = others_free job xs rows ys (one job.id) (Elem-first_in_order rows job first) in
      let db' = save (start_job now job) db in
      let l : Leaves job.id db db' = unfold start_job in save-Leaves (start_job now job) db in
      rw (first, commit_claim)
        (All-append (All (IsCurrent db')) xs ys (IsCurrent-claims job.id db db' xs l fa a)
          (IsCurrent-claims job.id db db' ys l fc c))
]
