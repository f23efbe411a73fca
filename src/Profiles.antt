-- ===== src/Profiles.antt =====
-- The profiles of backend/app/services/evaluator_v2.py. A call reads the clock once, `now`.
pub mod Pdf
pub mod Endpoints
pub mod Extract
pub mod Rows
pub mod Defaults
pub mod Sound
pub mod Tidy
pub mod Requests
pub mod Reach
pub mod Delete
use resume_helper.Base.{
  ℕ, ◌+◌, Bool, true, false, ◌&&◌, ◌||◌, not, Option, none, some, List, [], ◌∷◌, ◌++◌, map, keep,
  Text, text_of, ◌==◌, ltb, get_or, or_else, if◌then◌else◌,
}
use resume_helper.Decimal.{decimal}
use resume_helper.Tables.{BaselineProfile, JobAnalysis, LlmAuditLog, ProofPoint}
use resume_helper.JobQueue.Job.{AiJob}
use resume_helper.JobQueue.Store.{Db}

unfoldable pub find_profile : ℕ → List BaselineProfile → Option BaselineProfile
find_profile id [] = none
find_profile id (p ∷ profiles) = if p.id == id then some p else find_profile id profiles

unfoldable pub get_profile : Db → ℕ → Option BaselineProfile
get_profile db profile_id = find_profile profile_id db.profiles

-- `ORDER BY is_default DESC, id DESC`
abbrev pub listed_before : BaselineProfile → BaselineProfile → Bool
listed_before p q =
    if p.is_default then not q.is_default || ltb q.id p.id else not q.is_default && ltb q.id p.id

unfoldable pub insert_profile : BaselineProfile → List BaselineProfile → List BaselineProfile
insert_profile p [] = p ∷ []
insert_profile p (q ∷ profiles) =
    let later = insert_profile p profiles in
    if listed_before p q then p ∷ q ∷ profiles else q ∷ later

unfoldable pub sort_profiles : List BaselineProfile → List BaselineProfile
sort_profiles [] = []
sort_profiles (p ∷ profiles) = insert_profile p (sort_profiles profiles)

unfoldable pub list_profiles : Db → List BaselineProfile
list_profiles db = sort_profiles db.profiles

-- `ORDER BY id DESC`, first row.
unfoldable pub latest_profile : List BaselineProfile → Option BaselineProfile
latest_profile [] = none
latest_profile (p ∷ profiles) = elim (latest_profile profiles) [
  | none ↦ some p
  | some q ↦ if ltb p.id q.id then some q else some p
]

unfoldable pub get_latest_profile : Db → Option BaselineProfile
get_latest_profile db = latest_profile db.profiles

abbrev pub has_default : BaselineProfile → Bool
has_default p = p.is_default

unfoldable pub get_default_profile : Db → Option BaselineProfile
get_default_profile db =
    or_else (latest_profile (keep has_default db.profiles)) (get_latest_profile db)

-- The two statements of `_set_only_default`: the UPDATE of every other row, and the row itself.
unfoldable pub set_only_default : ℕ → List BaselineProfile → List BaselineProfile
set_only_default id [] = []
set_only_default id (p ∷ profiles) =
    (if p.id == id then record p { is_default = true } else record p { is_default = false })
    ∷ set_only_default id profiles

-- `skills_text.replace("\x00", "")`
unfoldable pub remove_nul : Text → Text
remove_nul text = keep (λ c. not (c == 0)) text

-- The row of an INSERT, with the defaults of the columns.
unfoldable pub new_profile : ℕ → ℕ → Text → Option Text → Bool → BaselineProfile
new_profile id now skills_text name is_default = record {
  id = id;
  name = name;
  skills_text = skills_text;
  pdf_path = none;
  is_default = is_default;
  structured_data = none;
  created_at = some now;
  updated_at = now;
}

unfoldable pub create_profile : ℕ → Text → Option Text → Bool → Db → Db × BaselineProfile
unfolding set_only_default remove_nul new_profile
create_profile now skills_text name is_default db =
    let id = db.next_profile_id in
    let profile = new_profile id now (remove_nul skills_text) name is_default in
    let profiles = db.profiles ++ profile ∷ [] in
    (
      record db {
        profiles = if is_default then set_only_default id profiles else profiles;
        next_profile_id = id + 1;
      },
      profile,
    )

-- The UPDATE that a commit issues for a changed row.
unfoldable pub set_profile : BaselineProfile → List BaselineProfile → List BaselineProfile
set_profile profile [] = []
set_profile profile (p ∷ profiles) =
    if p.id == profile.id then profile ∷ profiles else p ∷ set_profile profile profiles

-- `ProfileUpdateIn`
pub record ProfileUpdate : Type 0 where
  pub skills_text : Option Text
  pub name : Option Text
  pub is_default : Option Bool

abbrev pub new_default : Option Bool → Bool → Bool
new_default (some true) old = true
new_default (some false) old = false
new_default none old = old

abbrev pub new_skills : Option Text → Text → Text
new_skills none old = old
new_skills (some skills_text) old = remove_nul skills_text

-- The assignments to the row itself.
unfoldable pub edit_profile : ℕ → ProfileUpdate → BaselineProfile → BaselineProfile
unfolding remove_nul
edit_profile now u profile = record profile {
  skills_text = new_skills u.skills_text profile.skills_text;
  name = or_else u.name profile.name;
  is_default = new_default u.is_default profile.is_default;
  updated_at = now;
}

abbrev pub is_true : Option Bool → Bool
is_true (some true) = true
is_true _ = false

-- `none` is the `LookupError`.
unfoldable pub update_profile : ℕ → ℕ → ProfileUpdate → Db → Db × Option BaselineProfile
unfolding edit_profile set_profile set_only_default
update_profile now profile_id u db = elim (get_profile db profile_id) [
  | none ↦ (db, none)
  | some old ↦
      let profile = edit_profile now u old in
      let profiles = set_profile profile db.profiles in
      (
        record db {
          profiles =
              if is_true u.is_default then set_only_default profile.id profiles else profiles;
        },
        some profile,
      )
]

-- `ON DELETE SET NULL`
unfoldable pub unlink : ℕ → Option ℕ → Option ℕ
unlink id none = none
unlink id (some n) = if n == id then none else some n

unfoldable pub delete_row : ℕ → List BaselineProfile → List BaselineProfile
delete_row id profiles = keep (λ p. not (p.id == id)) profiles

-- The DELETE, with what the foreign keys of the other tables do; `none` is the `LookupError`.
unfoldable pub delete_profile : ℕ → Db → Db × Option ℕ
unfolding unlink delete_row
delete_profile profile_id db = elim (get_profile db profile_id) [
  | none ↦ (db, none)
  | some profile ↦ (
    record db {
      profiles = delete_row profile_id db.profiles;
      analyses =
          map (λ (a : JobAnalysis). record a { profile_id = unlink profile_id a.profile_id })
            db.analyses;
      audits =
          map
            (λ (l : LlmAuditLog). record l {
              baseline_profile_id = unlink profile_id l.baseline_profile_id;
            })
            db.audits;
      jobs = map (λ (j : AiJob). record j { profile_id = unlink profile_id j.profile_id }) db.jobs;
      proof_points =
          map (λ (p : ProofPoint). record p { profile_id = unlink profile_id p.profile_id })
            db.proof_points;
    },
    some profile_id,
  )
]
