-- ===== src/Profiles/Sound.antt =====
-- What the rows of `baseline_profile` keep, whatever backend/app/services/evaluator_v2.py does to them.
use resume_helper.Base.{
  ℕ, ◌+◌, ◌≤◌, ◌<◌, ◌≡◌, ◌≢◌, inl, inr, Bool, false, some, List, [], ◌∷◌, ◌++◌, keep, length, All,
  All-map, All-append, arith, Bool-cases, ◌==◌, Text,
}
use resume_helper.Tables.{BaselineProfile}
use resume_helper.JobQueue.Store.{Db}
use resume_helper.Profiles.{find_profile, set_only_default, set_profile, remove_nul}
use resume_helper.Profiles.Rows.{
  Distinct, All-set_only_default, All-set_profile, All-keep, Distinct-set_only_default,
  Distinct-set_profile, Distinct-keep, Distinct-append,
}
use resume_helper.Profiles.Defaults.{defaults}

-- The text of a profile has no NUL.
abbrev pub IsReadable : BaselineProfile → Type 0
IsReadable p = All (λ c. c ≢ 0) p.skills_text

pub record IsSound (profiles : List BaselineProfile) (next_id : ℕ) : Type 0 where
  pub below : All (λ p. p.id < next_id) profiles
  pub distinct : Distinct profiles
  pub readable : All IsReadable profiles

pub record IsTidy (db : Db) : Type 0 where
  pub sound : IsSound db.profiles db.next_profile_id
  pub one_default : length (defaults db.profiles) ≤ 1

pub remove_nul-IsReadable : (text : Text) → All (λ c. c ≢ 0) (remove_nul text)
unfolding remove_nul
remove_nul-IsReadable [] = tt
remove_nul-IsReadable (c ∷ text) = elim (Bool-cases (c == 0)) [
  | inl e ↦ rw e (remove_nul-IsReadable text)
  | inr e ↦ rw e ((λ zero. ground arith), remove_nul-IsReadable text)
]

pub append-IsSound :
    (profiles : List BaselineProfile) (p : BaselineProfile)
    → IsSound profiles p.id
    → IsReadable p
    → IsSound (profiles ++ p ∷ []) (p.id + 1)
append-IsSound profiles p s readable = record {
  below =
      All-append (λ q. q.id < p.id + 1) profiles (p ∷ [])
        (All-map profiles (λ q lt. omega (arith, lt)) s.below) (omega arith, tt);
  distinct = Distinct-append profiles p s.below s.distinct;
  readable = All-append IsReadable profiles (p ∷ []) s.readable (readable, tt);
}

pub set_only_default-IsSound :
    (id next_id : ℕ) (profiles : List BaselineProfile)
    → IsSound profiles next_id
    → IsSound (set_only_default id profiles) next_id
set_only_default-IsSound id next_id profiles s = record {
  below = All-set_only_default (λ p. p.id < next_id) id profiles (λ p flag lt. lt) s.below;
  distinct = Distinct-set_only_default id profiles s.distinct;
  readable = All-set_only_default IsReadable id profiles (λ p flag r. r) s.readable;
}

pub set_profile-IsSound :
    (profile : BaselineProfile) (next_id : ℕ) (profiles : List BaselineProfile)
    → profile.id < next_id
    → IsReadable profile
    → IsSound profiles next_id
    → IsSound (set_profile profile profiles) next_id
set_profile-IsSound profile next_id profiles lt readable s = record {
  below = All-set_profile (λ p. p.id < next_id) profile profiles lt s.below;
  distinct = Distinct-set_profile profile profiles s.distinct;
  readable = All-set_profile IsReadable profile profiles readable s.readable;
}

pub keep-IsSound :
    (test : BaselineProfile → Bool) (next_id : ℕ) (profiles : List BaselineProfile)
    → IsSound profiles next_id
    → IsSound (keep test profiles) next_id
keep-IsSound test next_id profiles s = record {
  below = All-keep (λ p. p.id < next_id) test profiles s.below;
  distinct = Distinct-keep test profiles s.distinct;
  readable = All-keep IsReadable test profiles s.readable;
}

pub length-defaults-append :
    (profiles : List BaselineProfile) (p : BaselineProfile)
    → p.is_default ≡ false
    → length (defaults (profiles ++ p ∷ [])) ≡ length (defaults profiles)
length-defaults-append [] p plain = ground arith
length-defaults-append (q ∷ profiles) p plain =
    ground (arith, length-defaults-append profiles p plain)

pub find_profile-append :
    (profiles : List BaselineProfile) (p : BaselineProfile)
    → All (λ q. q.id < p.id) profiles
    → find_profile p.id (profiles ++ p ∷ []) ≡ some p
unfolding find_profile
find_profile-append [] p below = ground arith
find_profile-append (q ∷ profiles) p below =
    ground (arith, find_profile-append profiles p below.1, below.0)

pub length-defaults-keep :
    (test : BaselineProfile → Bool) (profiles : List BaselineProfile)
    → length (defaults (keep test profiles)) ≤ length (defaults profiles)
length-defaults-keep test [] = omega arith
length-defaults-keep test (p ∷ profiles) = ground (arith, length-defaults-keep test profiles)
