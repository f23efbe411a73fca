-- ===== src/Tests/Profiles.antt =====
-- The profiles of backend/app/services/evaluator_v2.py and backend/app/api/profile.py.
use resume_helper.Tests.World.{graded}
use resume_helper.Profiles.Reach
use resume_helper.Base.{◌+◌, ◌≡◌, ◌↔◌, refl, true, false, none, some, [], text_of, keep, length}
use resume_helper.Tests.Samples.{empty_db}
use resume_helper.Tables.{BaselineProfile}
use resume_helper.JobQueue.Store.{Db}
use resume_helper.Profiles.{
  new_profile, create_profile, get_profile, find_profile, delete_profile, get_default_profile,
  list_profiles, ProfileUpdate,
}
use resume_helper.Profiles.Endpoints.{
  DeleteImpact, profile_delete_impact, of_profile, joined_count, create_profile_endpoint,
}
use resume_helper.Profiles.Sound.{IsTidy}
use resume_helper.Profiles.Defaults.{first, get_default_profile-first}
use resume_helper.Profiles.Tidy.{create_profile-IsTidy}
use resume_helper.Profiles.Reach.{Reach-IsTidy}
use resume_helper.Profiles.Delete.{IsLinked, is_unassigned, delete_profile-IsLinked}
use resume_helper.Evaluation.{analysis_row}

abbrev one_profile : Db
one_profile = (create_profile_endpoint 1 (text_of "Python") none true empty_db).0

one_profile-IsTidy : IsTidy one_profile
one_profile-IsTidy = Reach-IsTidy (Reach.create (Reach.empty refl) 1 (text_of "Python") none true)

Reach-IsTidy_example : IsTidy (create_profile_endpoint 2 (text_of "Rust") none true one_profile).0
Reach-IsTidy_example = Reach-IsTidy (
    Reach.create (Reach.create (Reach.empty refl) 1 (text_of "Python") none true) 2 (text_of "Rust")
      none true)

get_default_profile-first_example :
    (get_default_profile one_profile ≡ first (list_profiles one_profile))
    × ((get_default_profile one_profile ≡ none) ↔ (one_profile.profiles ≡ []))
get_default_profile-first_example =
    get_default_profile-first one_profile one_profile-IsTidy.sound.distinct

abbrev make_default : ProfileUpdate
make_default = record { skills_text = none; name = some (text_of "main"); is_default = some true }

abbrev two_profiles : Db
two_profiles = (create_profile 2 (text_of "Rust") none false one_profile).0

two_profiles-IsTidy : IsTidy two_profiles
two_profiles-IsTidy =
    create_profile-IsTidy 2 (text_of "Rust") none false one_profile one_profile-IsTidy

abbrev renamed : BaselineProfile
renamed = record (new_profile 2 2 (text_of "Rust") (some (text_of "main")) true) { updated_at = 3 }

abbrev linked : DeleteImpact
linked = record { profile_id = 1; job_analyses_count = 1; generated_resumes_count = 0 }

delete_profile-IsLinked_example :
    let after = (delete_profile 1 graded).0 in
    IsLinked after
    × (length (keep is_unassigned after.analyses) ≡ length (keep is_unassigned graded.analyses) + 1)
    × (length (keep (of_profile 1) after.analyses) ≡ 0)
unfolding profile_delete_impact joined_count get_profile find_profile analysis_row new_profile
delete_profile-IsLinked_example =
    delete_profile-IsLinked 1 graded linked
      (record { analyses = (refl, tt); audits = tt; jobs = tt; proof_points = tt }) refl
