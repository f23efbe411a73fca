-- ===== src/JobQueue/Queued.antt =====
-- An analysis for which `enqueue_tailoring_job` of backend/app/services/job_queue.py returned has its job
-- or its resume.
use resume_helper.Base.{
  subst, sym, ap, ℕ, ◌≡◌, ◌∙◌, ◌⊎◌, refl, inl, inr, Bool, true, not, ◌&&◌, Option, some, List, [],
  ◌∷◌, keep, text_eq_iff, ltb, arith, Bool-cases, Option-cases,
}
use resume_helper.Uuid.{Uuid}
use resume_helper.JobQueue.Job.{AiJob, tailor, kind_eq, kind_eq_iff, is_terminal, is_claimable}
use resume_helper.JobQueue.Fields.{set_queued_fields}
use resume_helper.JobQueue.Store.{
  Db, latest, has_key, find_tailoring_job_by, save, commit_new, has_generated_resume,
}
use resume_helper.JobQueue.Keys.{tailor_dedupe_key}
use resume_helper.JobQueue.Enqueue.{
  Outcome, returned, raised, JobRef, TailorIn, refresh_tailoring, reuse_tailoring, tailoring_job,
  find_tailoring_job, to_option, commit_or_find, enqueue_tailoring_job,
}
use resume_helper.JobQueue.Rows.{Elem, Elem-keep, Elem-latest}
use resume_helper.JobQueue.Dedupe.{Elem-set_row, commit_new-Elem}
use resume_helper.JobQueue.Invariant.Table.{IsValid, Found-find_tailoring_job}

-- `_find_tailoring_job` finds a row.
abbrev pub HasJob : Db → Uuid → Type 0
HasJob db id = (job : AiJob) × (find_tailoring_job db id ≡ some job)

latest-keep :
    (p : AiJob → Bool) (jobs : List AiJob) (j : AiJob)
    → Elem j jobs
    → p j ≡ true
    → (k : AiJob) × (latest (keep p jobs) ≡ some k)
unfolding latest
latest-keep p [] j e h = absurd e
latest-keep p (x ∷ xs) j (inl e) h =
    let own : p x ≡ true = subst (λ y. p y ≡ true) e h in
    elim (Option-cases (latest (keep p xs))) [
      | inl f ↦ (x, rw own (rw f refl))
      | inr (y, f) ↦ elim (Bool-cases (ltb x.created_at y.created_at)) [
        | inl g ↦ (y, rw own (rw (f, g) refl))
        | inr g ↦ (x, rw own (rw (f, g) refl))
      ]
    ]
latest-keep p (x ∷ xs) j (inr e) h =
    let (k, found) = latest-keep p xs j e h in
    elim (Bool-cases (p x)) [
      | inr f ↦ (k, rw f found)
      | inl f ↦ elim (Bool-cases (ltb x.created_at k.created_at)) [
        | inl g ↦ (k, rw f (rw (found, g) refl))
        | inr g ↦ (x, rw f (rw (found, g) refl))
      ]
    ]

abbrev is_tailoring_of : Uuid → AiJob → Bool
is_tailoring_of id j = kind_eq j.kind tailor && has_key (tailor_dedupe_key id) j

Elem-HasJob :
    (db : Db) (id : Uuid) (j : AiJob) → Elem j db.jobs → is_tailoring_of id j ≡ true → HasJob db id
unfolding find_tailoring_job find_tailoring_job_by
Elem-HasJob db id j e h = latest-keep (is_tailoring_of id) db.jobs j e h

saved-HasJob :
    (db : Db) (id : Uuid) (old job : AiJob)
    → IsValid db
    → find_tailoring_job db id ≡ some old
    → job.id ≡ old.id
    → job.kind ≡ old.kind
    → job.dedupe_key ≡ old.dedupe_key
    → HasJob (save job db) id
unfolding save
saved-HasJob db id old job v found i kind key =
    let f = Found-find_tailoring_job db id old v found in
    let (elem, hit) =
      Elem-keep (is_tailoring_of id) db.jobs old
        (Elem-latest _ old (unfold find_tailoring_job find_tailoring_job_by in found)) in
    Elem-HasJob (save job db) id job (Elem-set_row job db.jobs old (rw i f.by_id))
      (rw (kind, key) hit)

reuse-HasJob :
    (now : ℕ) (a : TailorIn) (has : Bool) (job : AiJob) (db : Db)
    → IsValid db
    → find_tailoring_job db a.job_analysis_id ≡ some job
    → HasJob (reuse_tailoring now a has job db).0 a.job_analysis_id
unfolding reuse_tailoring
reuse-HasJob now a has job db v found = elim (Bool-cases (not has && is_terminal job.status)) [
  | inl e ↦
      rw (e, reuse_tailoring)
        (unfold set_queued_fields in saved-HasJob db a.job_analysis_id job _ v found refl refl refl)
  | inr e ↦ elim (Bool-cases (is_claimable job.status)) [
    | inl f ↦
        rw (e, f, reuse_tailoring)
          (unfold refresh_tailoring in
            saved-HasJob db a.job_analysis_id job _ v found refl refl refl)
    | inr f ↦ rw (e, f, reuse_tailoring) (job, found)
  ]
]

commit_or_find-HasJob :
    (job : AiJob) (id : Uuid) (db : Db) (ref : JobRef)
    → is_tailoring_of id job ≡ true
    → (commit_or_find job (λ store. find_tailoring_job store id) db).1 ≡ returned ref
    → HasJob (commit_or_find job (λ store. find_tailoring_job store id) db).0 id
unfolding commit_or_find
commit_or_find-HasJob job id db ref own e = elim (Option-cases (commit_new job db)) [
  | inr (db', f) ↦
      rw (f, commit_or_find) (Elem-HasJob db' id job (commit_new-Elem job db db' f) own)
  | inl f ↦ elim (Option-cases (find_tailoring_job db id)) [
    | inl g ↦ absurd (ground arith)
    | inr (k, g) ↦ rw (f, g, commit_or_find) (k, g)
  ]
]

tailoring_job-is_tailoring :
    (new_id : Uuid) (now : ℕ) (a : TailorIn)
    → is_tailoring_of a.job_analysis_id (tailoring_job new_id now a) ≡ true
unfolding tailoring_job set_queued_fields
tailoring_job-is_tailoring new_id now a =
    let key = tailor_dedupe_key a.job_analysis_id in
    ground (arith, text_eq_iff key key, kind_eq_iff tailor tailor)

to_option-returned :
    (p : Db × Outcome JobRef) (ref : Option JobRef)
    → (to_option p).1 ≡ returned ref
    → (r : JobRef) × (p.1 ≡ returned r)
to_option-returned (db, returned r) ref e = (r, refl)
to_option-returned (db, raised x) ref e = absurd (cc)

to_option-db : (p : Db × Outcome JobRef) → (to_option p).0 ≡ p.0
to_option-db (db, returned r) = refl
to_option-db (db, raised x) = refl

-- A call that returns leaves its analysis with a tailoring job or with a generated resume.
pub enqueue_tailoring_job-HasJob :
    (now : ℕ) (new_id : Uuid) (others : Db → Db) (a : TailorIn) (db : Db) (ref : Option JobRef)
    → IsValid db
    → (enqueue_tailoring_job now new_id others a db).1 ≡ returned ref
    → HasJob (enqueue_tailoring_job now new_id others a db).0 a.job_analysis_id
      ⊎ (has_generated_resume (enqueue_tailoring_job now new_id others a db).0 a.job_analysis_id
          ≡ true)
unfolding enqueue_tailoring_job
enqueue_tailoring_job-HasJob now new_id others a db ref v e =
    let id = a.job_analysis_id in
    let has = has_generated_resume db id in
    elim (Option-cases (find_tailoring_job db id)) [
      | inr (job, f) ↦
          rw (f, enqueue_tailoring_job)
            (inl (
              subst (λ d. HasJob d id) (sym (to_option-db (reuse_tailoring now a has job db)))
                (reuse-HasJob now a has job db v f)))
      | inl f ↦ elim (Bool-cases has) [
        | inl g ↦ rw (f, g, enqueue_tailoring_job) (inr g)
        | inr g ↦
            let p =
              commit_or_find (tailoring_job new_id now a) (λ store. find_tailoring_job store id)
                (others db) in
            let now : enqueue_tailoring_job now new_id others a db ≡ to_option p =
              rw (f, g, enqueue_tailoring_job) refl in
            let (r, done) = to_option-returned p ref (sym (ap (λ q. q.1) now) ∙ e) in
            let there =
              commit_or_find-HasJob (tailoring_job new_id _ a) id (others db) r
                (tailoring_job-is_tailoring new_id _ a) done in
            subst (λ q. HasJob q.0 id ⊎ (has_generated_resume q.0 id ≡ true)) (sym now)
              (inl (subst (λ d. HasJob d id) (sym (to_option-db p)) there))
      ]
    ]
