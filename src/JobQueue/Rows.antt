-- ===== src/JobQueue/Rows.antt =====
-- The list of rows behind the queries of JobQueue/Store and JobQueue/Claim: membership, the rows that
-- a query finds, and the update of one row.
pub use resume_helper.Base.{Elem, All-elem, Elem-keep}
use resume_helper.Base.{
  ◌≡◌, refl, sym, ◌∙◌, inl, inr, true, false, Option, none, some, List, [], ◌∷◌, ◌++◌, Text,
  text_eq_iff, All, All-append, ◌==◌, arith, Bool-cases, if◌then◌else◌,
}
use resume_helper.Uuid.{Uuid}
use resume_helper.JobQueue.Job.{AiJob}
use resume_helper.JobQueue.Store.{find_row, set_row, latest, clashes, any_clash, same_key}
use resume_helper.JobQueue.Claim.{first_in_order}

pub Elem-find_row :
    (id : Uuid) (jobs : List AiJob) (j : AiJob)
    → find_row id jobs ≡ some j
    → Elem j jobs × (j.id ≡ id)
unfolding find_row
Elem-find_row id [] j h = cc
Elem-find_row id (x ∷ xs) j h = ground (arith, Elem-find_row id xs j)

pub Elem-latest : (jobs : List AiJob) (j : AiJob) → latest jobs ≡ some j → Elem j jobs
unfolding latest
Elem-latest [] j h = cc
Elem-latest (x ∷ xs) j h = ground (arith, Elem-latest xs j)

pub Elem-first_in_order :
    (jobs : List AiJob) (j : AiJob) → first_in_order jobs ≡ some j → Elem j jobs
unfolding first_in_order
Elem-first_in_order [] j h = cc
Elem-first_in_order (x ∷ xs) j h = ground (arith, Elem-first_in_order xs j)

-- No two rows clash, as the two constraints of the table say.
abbrev pub NoClash : List AiJob → Type 0
NoClash [] = Unit
NoClash (j ∷ jobs) = All (λ k. clashes j k ≡ false) jobs × NoClash jobs

same_key_comm : (a b : Option Text) → same_key a b ≡ same_key b a
same_key_comm none none = refl
same_key_comm none (some l) = refl
same_key_comm (some k) none = refl
same_key_comm (some k) (some l) = ground (arith, text_eq_iff k l, text_eq_iff l k)

pub clashes_comm : (a b : AiJob) → clashes a b ≡ clashes b a
clashes_comm a b = ground (arith, same_key_comm a.dedupe_key b.dedupe_key)

-- Only the id and the key decide a clash.
clashes-congr :
    (a b k : AiJob) → a.id ≡ b.id → a.dedupe_key ≡ b.dedupe_key → clashes a k ≡ clashes b k
clashes-congr a b k i e = rw (i, e)

All-clashes-congr :
    (a b : AiJob) (jobs : List AiJob)
    → a.id ≡ b.id
    → a.dedupe_key ≡ b.dedupe_key
    → All (λ k. clashes a k ≡ false) jobs
    → All (λ k. clashes b k ≡ false) jobs
All-clashes-congr a b [] i e h = tt
All-clashes-congr a b (k ∷ ks) i e h =
    (sym (clashes-congr a b k i e) ∙ h.0, All-clashes-congr a b ks i e h.1)

pub find_row-Elem :
    (jobs : List AiJob) (j : AiJob) → NoClash jobs → Elem j jobs → find_row j.id jobs ≡ some j
unfolding find_row
find_row-Elem [] j h e = absurd e
find_row-Elem (x ∷ xs) j h (inl e) = ground (arith)
find_row-Elem (x ∷ xs) j h (inr e) =
    ground (arith, find_row-Elem xs j h.1 e, All-elem (λ k. clashes x k ≡ false) xs j h.0 e)

pub find_row-set_row :
    (id : Uuid) (job : AiJob) (jobs : List AiJob) (old : AiJob)
    → find_row job.id jobs ≡ some old
    → find_row id (set_row job jobs) ≡ (if job.id == id then some job else find_row id jobs)
unfolding find_row set_row
find_row-set_row id job [] old h = cc
find_row-set_row id job (x ∷ xs) old h = ground (arith, find_row-set_row id job xs old)

module _ (P : AiJob → Type 0) where
  pub All-set_row :
      (job : AiJob) (jobs : List AiJob) → P job → All P jobs → All P (set_row job jobs)
  unfolding set_row
  All-set_row job [] p h = tt
  All-set_row job (x ∷ xs) p h = elim (Bool-cases (x.id == job.id)) [
    | inl same ↦ rw same (p, h.1)
    | inr other ↦ rw other (h.0, All-set_row job xs p h.1)
  ]

-- An update that keeps the id and the key of its row keeps the constraints.
pub NoClash-set_row :
    (job : AiJob) (jobs : List AiJob) (old : AiJob)
    → NoClash jobs
    → find_row job.id jobs ≡ some old
    → old.dedupe_key ≡ job.dedupe_key
    → NoClash (set_row job jobs)
unfolding set_row
NoClash-set_row job [] old h f e = tt
NoClash-set_row job (x ∷ xs) old h f e = elim (Bool-cases (x.id == job.id)) [
  | inl same ↦ rw same (All-clashes-congr x job xs (ground arith) (replaced same) h.0, h.1)
  | inr other ↦ rw other (
    All-set_row (λ k. clashes x k ≡ false) job xs (apart (later other)) h.0,
    NoClash-set_row job xs old h.1 (later other) e,
  )
]
  where
    replaced : (x.id == job.id) ≡ true → x.dedupe_key ≡ job.dedupe_key
    replaced same = unfold find_row in ground arith

    later : (x.id == job.id) ≡ false → find_row job.id xs ≡ some old
    later other = unfold find_row in ground arith

    apart : find_row job.id xs ≡ some old → clashes x job ≡ false
    apart found =
        let (elem, id) = Elem-find_row job.id xs old found in
        let free : clashes x old ≡ false = All-elem (λ k. clashes x k ≡ false) xs old h.0 elem in
        clashes_comm x job
        ∙ (clashes-congr job old x (sym id) (sym e) ∙ (clashes_comm old x ∙ free))

pub NoClash-append :
    (jobs : List AiJob) (job : AiJob)
    → NoClash jobs
    → any_clash job jobs ≡ false
    → NoClash (jobs ++ job ∷ [])
unfolding any_clash
NoClash-append [] job h e = (tt, tt)
NoClash-append (x ∷ xs) job h e = (
  All-append (λ k. clashes x k ≡ false) xs (job ∷ []) h.0 (ground (arith, clashes_comm x job), tt),
  NoClash-append xs job h.1 (ground arith),
)
