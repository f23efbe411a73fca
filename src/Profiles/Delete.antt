-- ===== src/Profiles/Delete.antt =====
-- The deletion of a profile (backend/app/api/profile.py, backend/app/services/evaluator_v2.py) and what
-- the foreign keys of the other tables make of it.
use resume_helper.Base.{
  ap, ◌∙◌, ℕ, ◌+◌, ◌≡◌, refl, inl, inr, Bool, true, false, not, Option, none, some, List, [], ◌∷◌,
  keep, map, length, All, arith, Bool-cases, Option-cases, is_some, ◌==◌,
}
use resume_helper.Tables.{BaselineProfile, JobAnalysis}
use resume_helper.JobQueue.Store.{Db}
use resume_helper.Envelope.{success}
use resume_helper.Profiles.{find_profile, get_profile, delete_profile, delete_row, unlink}
use resume_helper.Profiles.Endpoints.{DeleteImpact, of_profile, profile_delete_impact}

-- A foreign key that names a profile of the table, or none.
abbrev pub IsLink : List BaselineProfile → Option ℕ → Type 0
IsLink profiles none = Unit
IsLink profiles (some n) = is_some (find_profile n profiles) ≡ true

pub record IsLinked (db : Db) : Type 0 where
  pub analyses : All (λ a. IsLink db.profiles a.profile_id) db.analyses
  pub audits : All (λ l. IsLink db.profiles l.baseline_profile_id) db.audits
  pub jobs : All (λ j. IsLink db.profiles j.profile_id) db.jobs
  pub proof_points : All (λ p. IsLink db.profiles p.profile_id) db.proof_points

find_profile-delete_row :
    (id n : ℕ) (profiles : List BaselineProfile)
    → (n == id) ≡ false
    → find_profile n (delete_row id profiles) ≡ find_profile n profiles
unfolding find_profile delete_row
find_profile-delete_row id n [] differs = refl
find_profile-delete_row id n (p ∷ profiles) differs =
    ground (arith, find_profile-delete_row id n profiles differs)

unlink-IsLink :
    (id : ℕ) (profiles : List BaselineProfile) (o : Option ℕ)
    → IsLink profiles o
    → IsLink (delete_row id profiles) (unlink id o)
unfolding unlink
unlink-IsLink id profiles none h = tt
unlink-IsLink id profiles (some n) h = elim (Bool-cases (n == id)) [
  | inl e ↦ rw e tt
  | inr e ↦ rw e (ap is_some (find_profile-delete_row id n profiles e) ∙ h)
]

All-unlink :
    {A : Type 0} (P Q : A → Type 0) (f : A → A) (rows : List A)
    → ((x : A) → P x → Q (f x))
    → All P rows
    → All Q (map f rows)
All-unlink P Q f [] step all = tt
All-unlink P Q f (x ∷ rows) step all = (step x all.0, All-unlink P Q f rows step all.1)

-- An analysis without a profile.
abbrev pub is_unassigned : JobAnalysis → Bool
is_unassigned a = not (is_some a.profile_id)

unassigned-unlink :
    (id : ℕ) (analyses : List JobAnalysis)
    → let after =
        map (λ (a : JobAnalysis). record a { profile_id = unlink id a.profile_id }) analyses in
      (length (keep is_unassigned after)
        ≡ length (keep is_unassigned analyses) + length (keep (of_profile id) analyses))
      × (length (keep (of_profile id) after) ≡ 0)
unfolding unlink
unassigned-unlink id [] = (refl, refl)
unassigned-unlink id (a ∷ analyses) =
    let (some_freed, none_left) = unassigned-unlink id analyses in
    elim (Option-cases a.profile_id) [
      | inl e ↦ rw e (omega (arith, some_freed), none_left)
      | inr (n, e) ↦ elim (Bool-cases (n == id)) [
        | inl f ↦ rw (e, f) (omega (arith, some_freed), none_left)
        | inr f ↦ rw (e, f, f) (some_freed, none_left)
      ]
    ]

-- Where every foreign key names a profile, every one still does after a profile is deleted; and the
-- analyses that the endpoint on the impact counts are the ones that then have no profile any more: none
-- names the profile, and the analyses without a profile are as many more.
pub delete_profile-IsLinked :
    (id : ℕ) (db : Db) (impact : DeleteImpact)
    → IsLinked db
    → profile_delete_impact id db ≡ success impact
    → let after = (delete_profile id db).0 in
      IsLinked after
      × (length (keep is_unassigned after.analyses)
          ≡ length (keep is_unassigned db.analyses) + impact.job_analyses_count)
      × (length (keep (of_profile id) after.analyses) ≡ 0)
unfolding delete_profile profile_delete_impact
delete_profile-IsLinked id db impact links e = elim (Option-cases (get_profile db id)) [
  | inl f ↦ absurd (ground arith)
  | inr (p, f) ↦
      let counted : length (keep (of_profile id) db.analyses) ≡ impact.job_analyses_count =
        ground arith in
      let (freed, left) = unassigned-unlink id db.analyses in
      rw (f, delete_profile)
        (
          record {
            analyses =
                All-unlink _ _ _ db.analyses (λ a h. unlink-IsLink id db.profiles a.profile_id h)
                  links.analyses;
            audits =
                All-unlink _ _ _ db.audits
                  (λ l h. unlink-IsLink id db.profiles l.baseline_profile_id h) links.audits;
            jobs =
                All-unlink _ _ _ db.jobs (λ j h. unlink-IsLink id db.profiles j.profile_id h)
                  links.jobs;
            proof_points =
                All-unlink _ _ _ db.proof_points
                  (λ p h. unlink-IsLink id db.profiles p.profile_id h) links.proof_points;
          },
          freed ∙ ap (λ n. length (keep is_unassigned db.analyses) + n) counted,
          left,
        )
]
