-- ===== src/JobQueue/Sessions/Exclusive.antt =====
-- Two workers never have one job: the steps of JobQueue/Sessions/Steps keep the rows of the open claims
-- apart and as the SELECT read them (backend/app/services/job_queue.py, `claim_next_job`).
use native.Mathlib.Nat.{le_trans}
use resume_helper.Base.{
  ℕ, ◌≤◌, ◌≡◌, refl, subst, inl, inr, Bool, true, false, Option, some, List, [], ◌∷◌, ◌++◌, ◌==◌,
  ◌&&◌, not, keep, All, arith, Bool-cases, Option-cases,
}
use resume_helper.Uuid.{Uuid}
use resume_helper.JobQueue.Job.{AiJob, JobKind, is_claimable}
use resume_helper.JobQueue.Store.{Db, find_row, save, commit_new, any_clash}
use resume_helper.JobQueue.Claim.{contains, is_due, selected, first_in_order, start_job}
use resume_helper.JobQueue.Rows.{
  Elem, All-elem, Elem-first_in_order, NoClash, NoClash-set_row, NoClash-append, find_row-Elem,
}
use resume_helper.JobQueue.Sessions.Steps.{
  World, ids, locked_ids, commit_claim, Step, select, commit, write, add, Reach, here, next,
}
use resume_helper.JobQueue.Sessions.Holders.{
  holders, IsCurrent, contains-locked_ids, holders-append, IsCurrent-claims, save-Leaves,
  add-IsCurrent, All-All-map, All-split, others_free, holders-drop, IsCurrent-commit_claim,
}

pub record IsExclusive (w : World) : Type 0 where
  pub constraints : NoClash w.db.jobs
  pub one_holder : (id : Uuid) → holders id w.claims ≤ 1
  pub current : All (All (IsCurrent w.db)) w.claims

selected_rows :
    (db : Db) (p : AiJob → Bool) (rows jobs : List AiJob)
    → NoClash db.jobs
    → ((j : AiJob) → Elem j jobs → Elem j db.jobs)
    → ((j : AiJob) → p j ≡ true → is_claimable j.status ≡ true)
    → All (IsCurrent db) (keep p jobs)
selected_rows db p rows [] h sub waits = tt
selected_rows db p rows (j ∷ jobs) h sub waits = elim (Bool-cases (p j)) [
  | inl good ↦ rw good (
    (find_row-Elem db.jobs j h (sub j (inl refl)), waits j good),
    selected_rows db p rows jobs h (λ k e. sub k (inr e)) waits,
  )
  | inr bad ↦ rw bad (selected_rows db p rows jobs h (λ k e. sub k (inr e)) waits)
]

id_apart :
    (u id : Uuid) (locked : List Uuid)
    → contains u locked ≡ false
    → contains id locked ≡ true
    → (u == id) ≡ false
id_apart u id locked h k = ground arith

commit_new-NoClash :
    (job : AiJob) (db db' : Db) → NoClash db.jobs → commit_new job db ≡ some db' → NoClash db'.jobs
unfolding commit_new
commit_new-NoClash job db db' h e = elim (Bool-cases (any_clash job db.jobs)) [
  | inl clash ↦ absurd (ground arith)
  | inr free ↦
      let added : db.jobs ++ job ∷ [] ≡ db'.jobs = ground arith in
      subst NoClash added (NoClash-append db.jobs job h free)
]

-- A SELECT skips what is locked.
selected_skips :
    (kind : Option JobKind) (now : ℕ) (locked : List Uuid) (id : Uuid) (jobs : List AiJob)
    → contains id locked ≡ true
    → contains id (ids (keep (λ j. is_due kind now j && not (contains j.id locked)) jobs)) ≡ false
unfolding ids
selected_skips kind now locked id [] h = unfold contains in refl
selected_skips kind now locked id (j ∷ jobs) h =
    let rest = selected_skips kind now locked id jobs h in
    elim (Bool-cases (is_due kind now j && not (contains j.id locked))) [
      | inl taken ↦ rw taken (skip_head taken rest)
      | inr left ↦ rw left rest
    ]
  where
    skip_head :
        (is_due kind now j && not (contains j.id locked)) ≡ true
        → contains id (ids (keep (λ k. is_due kind now k && not (contains k.id locked)) jobs))
          ≡ false
        → contains id
            (j.id ∷ ids (keep (λ k. is_due kind now k && not (contains k.id locked)) jobs))
          ≡ false
    skip_head taken rest =
        let apart : (j.id == id) ≡ false = id_apart j.id id locked (ground arith) h in
        unfold contains in rw apart rest

due_waits :
    (kind : Option JobKind) (now : ℕ) (locked : List Uuid) (j : AiJob)
    → (is_due kind now j && not (contains j.id locked)) ≡ true
    → is_claimable j.status ≡ true
unfolding is_due
due_waits kind now locked j h = ground arith

select-one_holder :
    (kind : Option JobKind) (now : ℕ) (db : Db) (claims : List (List AiJob)) (id : Uuid)
    → holders id claims ≤ 1
    → holders id (selected kind now (locked_ids claims) db ∷ claims) ≤ 1
unfolding holders selected
select-one_holder kind now db claims id h = elim (Bool-cases (contains id (locked_ids claims))) [
  | inl locked ↦ rw (selected_skips kind now (locked_ids claims) id db.jobs locked) (omega arith)
  | inr free ↦ ground (arith, contains-locked_ids id claims)
]

commit_claim-constraints :
    (now : ℕ) (rows : List AiJob) (db : Db)
    → NoClash db.jobs
    → All (IsCurrent db) rows
    → NoClash (commit_claim now rows db).0.jobs
commit_claim-constraints now rows db h cur = elim (Option-cases (first_in_order rows)) [
  | inl none_due ↦ unfold commit_claim in rw (none_due, commit_claim) h
  | inr (job, first) ↦
      unfold commit_claim in
      let found = (All-elem (IsCurrent db) rows job cur (Elem-first_in_order rows job first)).0 in
      rw (first, commit_claim) (unfold save start_job in NoClash-set_row _ db.jobs job h found refl)
]

select-IsCurrent :
    (kind : Option JobKind) (now : ℕ) (locked : List Uuid) (db : Db)
    → NoClash db.jobs
    → All (IsCurrent db) (selected kind now locked db)
unfolding selected
select-IsCurrent kind now locked db h =
    let test = λ (j : AiJob). is_due kind now j && not (contains j.id locked) in
    selected_rows db test db.jobs db.jobs h (λ j m. m) (due_waits kind now locked)

-- Each step keeps the claims apart and current.
Step-IsExclusive : {w u : World} → Step w u → IsExclusive w → IsExclusive u
Step-IsExclusive {w} (select kind now) e = record {
  constraints = e.constraints;
  one_holder = λ id. select-one_holder kind now w.db w.claims id (e.one_holder id);
  current = (select-IsCurrent kind now (locked_ids w.claims) w.db e.constraints, e.current);
}
Step-IsExclusive {w} (commit now xs rows ys split) e =
    let cur = subst (All (All (IsCurrent w.db))) split e.current in
    let one : (id : Uuid) → holders id (xs ++ rows ∷ ys) ≤ 1 =
      λ id. rw (← split) (e.one_holder id) in
    record {
      constraints =
          commit_claim-constraints now rows w.db e.constraints
            (All-split (All (IsCurrent w.db)) xs rows ys cur).1;
      one_holder = λ id. le_trans (holders-drop id xs rows ys) (one id);
      current = IsCurrent-commit_claim now w.db xs rows ys one cur;
    }
Step-IsExclusive {w} (write old job free found same) e = record {
  constraints = unfold save in NoClash-set_row job w.db.jobs old e.constraints found same;
  one_holder = e.one_holder;
  current =
      IsCurrent-claims job.id w.db (save job w.db) w.claims (save-Leaves job w.db)
        (ground (arith, contains-locked_ids job.id w.claims)) e.current;
}
Step-IsExclusive {w} (add job db' added) e = record {
  constraints = commit_new-NoClash job w.db db' e.constraints added;
  one_holder = e.one_holder;
  current =
      All-All-map (IsCurrent w.db) (IsCurrent db') (λ r c. add-IsCurrent job w.db db' r added c)
        w.claims e.current;
}

Reach-IsExclusive : {w u : World} → Reach w u → IsExclusive w → IsExclusive u
Reach-IsExclusive here e = e
Reach-IsExclusive (next r s) e = Step-IsExclusive s (Reach-IsExclusive r e)

-- However the sessions are interleaved, the row that a COMMIT starts is a waiting row of the table as
-- it is at that moment, and no other open claim holds it: no job is started twice without having gone
-- back to the queue in between.
pub Reach-excludes :
    (db : Db) {u : World} (xs : List (List AiJob)) (rows : List AiJob) (ys : List (List AiJob))
    (job : AiJob)
    → NoClash db.jobs
    → Reach (record { db = db; claims = [] }) u
    → u.claims ≡ xs ++ rows ∷ ys
    → first_in_order rows ≡ some job
    → (find_row job.id u.db.jobs ≡ some job)
      × (is_claimable job.status ≡ true)
      × (holders job.id (xs ++ ys) ≡ 0)
Reach-excludes db {u} xs rows ys job h r split first =
    let start : IsExclusive (record { db = db; claims = [] }) = record {
      constraints = h;
      one_holder = λ id. unfold holders in omega arith;
      current = tt;
    } in
    let e = Reach-IsExclusive r start in
    let cur = subst (All (All (IsCurrent u.db))) split e.current in
    let m = Elem-first_in_order rows job first in
    let c =
      All-elem (IsCurrent u.db) rows job (All-split (All (IsCurrent u.db)) xs rows ys cur).1 m in
    let one : holders job.id (xs ++ rows ∷ ys) ≤ 1 = rw (← split) (e.one_holder job.id) in
    let (a, b) = others_free job xs rows ys one m in
    (c.0, c.1, omega (arith, holders-append job.id xs ys))
