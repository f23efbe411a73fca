-- ===== src/JobQueue/Claims.antt =====
-- What `claim_next_job` of backend/app/services/job_queue.py claims, without the words of its query.
use resume_helper.Base.{
  subst, sym, ℕ, ◌+◌, ◌≤◌, ◌<◌, ◌≡◌, ◌≢◌, ◌↔◌, All-map, refl, ◌⊎◌, inl, inr, Bool, true, false, not,
  ◌&&◌, Option, none, some, List, [], ◌∷◌, All, Elem, Elem-keep, keep, arith, ltb_ℤ, Bool-cases,
  Option-cases, if◌then◌else◌,
}
use resume_helper.Uuid.{Uuid}
use resume_helper.JobQueue.Job.{
  AiJob, JobKind, JobStatus, queued, retry_wait, running, kind_eq, kind_eq_iff, is_claimable,
}
use resume_helper.JobQueue.Fields.{clear_error_fields}
use resume_helper.JobQueue.Store.{Db, save, find_row, set_row}
use resume_helper.JobQueue.Claim.{
  before, first_in_order, selected, contains, is_due, start_job, ClaimedAiJob, claimed_job,
  claim_next_job,
}
use resume_helper.JobQueue.Rows.{Elem-first_in_order}
use resume_helper.JobQueue.Order.{first_in_order_empty, first_in_order_least}

-- The row waits, its time has come, its kind is asked for, and no other session has locked it.
pub record IsEligible (kind : Option JobKind) (now : ℕ) (locked : List Uuid) (j : AiJob)
    : Type 0 where
  pub waits : (j.status ≡ queued) ⊎ (j.status ≡ retry_wait)
  pub due : j.run_after ≤ now
  pub asked : (kind ≡ none) ⊎ (kind ≡ some j.kind)
  pub free : All (λ u. u ≢ j.id) locked

-- A higher priority first; then an earlier time, an earlier creation, and the lower id.
abbrev pub GoesFirst : AiJob → AiJob → Type 0
GoesFirst a b =
    (ltb_ℤ b.priority a.priority ≡ true)
    ⊎ ((a.priority ≡ b.priority)
        × ((a.run_after < b.run_after)
            ⊎ ((a.run_after ≡ b.run_after)
                × ((a.created_at < b.created_at)
                    ⊎ ((a.created_at ≡ b.created_at) × (a.id < b.id))))))

-- What the claim of a row makes of it.
pub record IsClaimed (now : ℕ) (job started : AiJob) : Type 0 where
  pub id : started.id ≡ job.id
  pub status : started.status ≡ running
  pub attempts : started.attempts ≡ job.attempts + 1
  pub started_at : started.started_at ≡ some now
  pub locked_at : started.locked_at ≡ some now

pub data ClaimOutcome (kind : Option JobKind) (now : ℕ) (locked : List Uuid) (db : Db)
    (p : Db × Option ClaimedAiJob) : Type 0 where
  empty :
      p ≡ (db, none)
      → All (λ j. ¬ IsEligible kind now locked j) db.jobs
      → ClaimOutcome kind now locked db p
  taken :
      (job started : AiJob)
      → Elem job db.jobs
      → IsEligible kind now locked job
      → All (λ j. ¬ (IsEligible kind now locked j × GoesFirst j job)) db.jobs
      → IsClaimed now job started
      → p.1 ≡ some (claimed_job started)
      → find_row job.id p.0.jobs ≡ some started
      → ClaimOutcome kind now locked db p

contains-All : (id : Uuid) (ids : List Uuid) → contains id ids ≡ false → All (λ u. u ≢ id) ids
unfolding contains
contains-All id [] h = tt
contains-All id (u ∷ ids) h = (ground (arith, h), contains-All id ids (ground (arith, h)))

All-contains : (id : Uuid) (ids : List Uuid) → All (λ u. u ≢ id) ids → contains id ids ≡ false
unfolding contains
All-contains id [] all = refl
All-contains id (u ∷ ids) all = ground (arith, all.0, All-contains id ids all.1)

claimable_iff : (s : JobStatus) → (is_claimable s ≡ true) ↔ ((s ≡ queued) ⊎ (s ≡ retry_wait))
claimable_iff s = ground arith

-- The test of the query says that a row is eligible.
selects-IsEligible :
    (kind : Option JobKind) (now : ℕ) (locked : List Uuid) (j : AiJob)
    → (is_due kind now j && not (contains j.id locked)) ≡ true
    → IsEligible kind now locked j
unfolding is_due
selects-IsEligible kind now locked j h = record {
  waits = ground (arith, h, claimable_iff j.status);
  due = ground (arith, h);
  asked = elim (Option-cases kind) [
    | inl e ↦ inl e
    | inr (k, e) ↦ inr (ground (arith, h, e, kind_eq_iff j.kind k))
  ];
  free = contains-All j.id locked (ground (arith, h));
}

-- An eligible row is selected.
eligible-Elem :
    (kind : Option JobKind) (now : ℕ) (locked : List Uuid) (j : AiJob)
    → IsEligible kind now locked j
    → (is_due kind now j && not (contains j.id locked)) ≡ true
unfolding is_due
eligible-Elem kind now locked j e =
    let free = All-contains j.id locked e.free in
    let waits = (claimable_iff j.status).1 e.waits in
    elim (Option-cases kind) [
      | inl f ↦ rw f (ground (arith, free, waits, e.due))
      | inr (k, f) ↦
          let asked : kind_eq j.kind k ≡ true = elim e.asked [
            | inl g ↦ absurd (ground (arith, f, g))
            | inr g ↦ (kind_eq_iff j.kind k).1 (ground (arith, f, g))
          ] in
          rw f (ground (arith, free, waits, e.due, asked))
    ]

GoesFirst-before : (a b : AiJob) → GoesFirst a b → before a b ≡ true
unfolding before
GoesFirst-before a b h = ground (arith, h)

start_job-IsClaimed : (now : ℕ) (job : AiJob) → IsClaimed now job (start_job now job)
unfolding start_job clear_error_fields
start_job-IsClaimed now job = record {
  id = refl;
  status = refl;
  attempts = refl;
  started_at = refl;
  locked_at = refl;
}

find_row-set_row :
    (new job : AiJob) (jobs : List AiJob)
    → Elem job jobs
    → new.id ≡ job.id
    → find_row job.id (set_row new jobs) ≡ some new
unfolding find_row set_row
find_row-set_row new job [] m e = absurd m
find_row-set_row new job (j ∷ jobs) (inl same) e =
    subst (λ k. find_row job.id (set_row new (k ∷ jobs)) ≡ some new) same (ground (arith, e))
find_row-set_row new job (j ∷ jobs) (inr m) e = ground (arith, e, find_row-set_row new job jobs m)

keep-All :
    {A : Type 0} (P : A → Type 0) (p : A → Bool) (xs : List A)
    → All P (keep p xs)
    → All (λ x. (p x ≡ false) ⊎ P x) xs
keep-All P p [] all = tt
keep-All P p (x ∷ xs) all = elim (Bool-cases (p x)) [
  | inl e ↦
      let both : P x × All P (keep p xs) =
        subst (λ b. All P (if b then x ∷ keep p xs else keep p xs)) e all in
      (inr both.0, keep-All P p xs both.1)
  | inr e ↦
      let rest = subst (λ b. All P (if b then x ∷ keep p xs else keep p xs)) e all in
      (inl e, keep-All P p xs rest)
]

-- A claim takes a row that waits for its first run or a retry, whose time has come, whose kind is asked
-- for, and that no other session has locked; of those rows none goes first, by a higher priority, then an
-- earlier time, an earlier creation, a lower id. It starts the row, counts the attempt, takes the lease at
-- this time, and hands it out. Where there is no such row it changes nothing and hands out nothing.
pub claim_next_job-ClaimOutcome :
    (kind : Option JobKind) (now : ℕ) (locked : List Uuid) (db : Db)
    → ClaimOutcome kind now locked db (claim_next_job kind now locked db)
unfolding claim_next_job save selected
claim_next_job-ClaimOutcome kind now locked db =
    let p = (λ (j : AiJob). is_due kind now j && not (contains j.id locked)) in
    let due = selected kind now locked db in
    elim (Option-cases (first_in_order due)) [
      | inl e ↦
          let none_left = first_in_order_empty due e in
          let nothing : All (λ (j : AiJob). j ≢ j) (keep p db.jobs) =
            subst (All (λ (j : AiJob). j ≢ j)) (sym none_left) tt in
          rw (e, claim_next_job)
            (empty refl (
              All-map db.jobs
                (λ j either eligible. elim either [
                  | inl f ↦ ground (arith, f, eligible-Elem kind now locked j eligible)
                  | inr f ↦ f refl
                ])
                (keep-All (λ (j : AiJob). j ≢ j) p db.jobs nothing)))
      | inr (job, e) ↦
          let started = start_job now job in
          let (member, test) = Elem-keep p db.jobs job (Elem-first_in_order due job e) in
          rw (e, claim_next_job)
            (taken job started member (selects-IsEligible kind now locked job test)
              (All-map db.jobs
                (λ j either (eligible, sooner). elim either [
                  | inl f ↦ ground (arith, f, eligible-Elem kind now locked j eligible)
                  | inr f ↦ ground (arith, f, GoesFirst-before j job sooner)
                ])
                (keep-All (λ (j : AiJob). before j job ≡ false) p db.jobs
                  (first_in_order_least due job e)))
              (start_job-IsClaimed now job) refl
              (find_row-set_row started job db.jobs member (start_job-IsClaimed now job).id))
    ]
