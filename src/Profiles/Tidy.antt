-- ===== src/Profiles/Tidy.antt =====
-- The operations of backend/app/services/evaluator_v2.py on profiles keep the table tidy, and a profile
-- that they make the default is the default.
use resume_helper.Base.{
  subst, sym, ap, ◌∙◌, ℕ, ◌+◌, ◌<◌, ◌≡◌, ◌≢◌, ◌⊎◌, refl, inl, inr, Bool, true, false, not, Option,
  none, some, List, [], ◌∷◌, ◌++◌, All, arith, Option-cases, ◌==◌, Text, if◌then◌else◌,
}
use resume_helper.Tables.{BaselineProfile}
use resume_helper.JobQueue.Store.{Db}
use resume_helper.Profiles.{
  find_profile, set_only_default, set_profile, remove_nul, create_profile, update_profile,
  delete_profile, ProfileUpdate, edit_profile, delete_row, get_profile, get_default_profile,
  new_profile, latest_profile, is_true, new_default, new_skills,
}
use resume_helper.Profiles.Rows.{find_profile-id, All-find_profile}
use resume_helper.Profiles.Sound.{
  IsReadable, IsSound, IsTidy, remove_nul-IsReadable, append-IsSound, set_only_default-IsSound,
  set_profile-IsSound, keep-IsSound, length-defaults-append, find_profile-append,
  length-defaults-keep,
}
use resume_helper.Profiles.Defaults.{
  defaults, defaults-set_only_default, length-defaults-set_profile,
}

created-IsSound :
    (now : ℕ) (skills_text : Text) (name : Option Text) (is_default : Bool) (db : Db)
    → IsTidy db
    → let p = new_profile db.next_profile_id now (remove_nul skills_text) name is_default in
      IsSound (db.profiles ++ p ∷ []) (db.next_profile_id + 1)
created-IsSound now skills_text name is_default db t =
    unfold new_profile in append-IsSound db.profiles _ t.sound (remove_nul-IsReadable skills_text)

pub create_profile-IsTidy :
    (now : ℕ) (skills_text : Text) (name : Option Text) (is_default : Bool) (db : Db)
    → IsTidy db
    → IsTidy (create_profile now skills_text name is_default db).0
unfolding create_profile
create_profile-IsTidy now skills_text name true db t =
    let id = db.next_profile_id in
    let p = new_profile id now (remove_nul skills_text) name true in
    let sound = created-IsSound now skills_text name true db t in
    let found : find_profile id (db.profiles ++ p ∷ []) ≡ some p =
      unfold new_profile in find_profile-append db.profiles p t.sound.below in
    let only = defaults-set_only_default id (db.profiles ++ p ∷ []) p sound.distinct found in
    record {
      sound = set_only_default-IsSound id (id + 1) (db.profiles ++ p ∷ []) sound;
      one_default = rw only (omega arith);
    }
create_profile-IsTidy now skills_text name false db t = record {
  sound = created-IsSound now skills_text name false db t;
  one_default =
      unfold new_profile in omega (arith, length-defaults-append db.profiles _ refl, t.one_default);
}

-- A new default profile is the one that `get_default_profile` then finds.
pub create_profile-default :
    (now : ℕ) (skills_text : Text) (name : Option Text) (db : Db)
    → IsTidy db
    → get_default_profile (create_profile now skills_text name true db).0
      ≡ some (create_profile now skills_text name true db).1
unfolding create_profile get_default_profile latest_profile new_profile
create_profile-default now skills_text name db t =
    let id = db.next_profile_id in
    let p = new_profile id now (remove_nul skills_text) name true in
    let sound = created-IsSound now skills_text name true db t in
    let only =
      defaults-set_only_default id (db.profiles ++ p ∷ []) p sound.distinct
        (find_profile-append db.profiles p t.sound.below) in
    rw only refl

set_profile-IsSound_found :
    (profile old : BaselineProfile) (db : Db)
    → IsTidy db
    → find_profile profile.id db.profiles ≡ some old
    → IsReadable profile
    → IsSound (set_profile profile db.profiles) db.next_profile_id
set_profile-IsSound_found profile old db t found readable =
    let lt =
      All-find_profile (λ p. p.id < db.next_profile_id) profile.id db.profiles old t.sound.below
        found in
    let same = find_profile-id profile.id db.profiles old found in
    set_profile-IsSound profile db.next_profile_id db.profiles (omega (arith, lt, same)) readable
      t.sound

-- A changed row with its id, a readable text, and a flag that is the old one or false.
pub set_profile-IsTidy :
    (profile old : BaselineProfile) (db : Db)
    → IsTidy db
    → find_profile profile.id db.profiles ≡ some old
    → IsReadable profile
    → (profile.is_default ≡ false) ⊎ (profile.is_default ≡ old.is_default)
    → IsTidy (record db { profiles = set_profile profile db.profiles })
set_profile-IsTidy profile old db t found readable kept = record {
  sound = set_profile-IsSound_found profile old db t found readable;
  one_default =
      omega (arith, length-defaults-set_profile profile old db.profiles found kept, t.one_default);
}

edit_profile-IsReadable :
    (now : ℕ) (u : ProfileUpdate) (p : BaselineProfile)
    → IsReadable p
    → IsReadable (edit_profile now u p)
unfolding edit_profile
edit_profile-IsReadable now u p r = go u.skills_text
  where
    go : (o : Option Text) → All (λ c. c ≢ 0) (new_skills o p.skills_text)
    go none = r
    go (some text) = remove_nul-IsReadable text

find_profile-set_profile :
    (profile old : BaselineProfile) (profiles : List BaselineProfile)
    → find_profile profile.id profiles ≡ some old
    → find_profile profile.id (set_profile profile profiles) ≡ some profile
unfolding find_profile set_profile
find_profile-set_profile profile old [] found = absurd (cc)
find_profile-set_profile profile old (p ∷ profiles) found =
    ground (arith, find_profile-set_profile profile old profiles)

-- What an update leaves where the row is there.
updated_rows : BaselineProfile → Option Bool → List BaselineProfile → List BaselineProfile
updated_rows profile flag profiles =
    if is_true flag
    then set_only_default profile.id (set_profile profile profiles)
    else set_profile profile profiles

set_only_default-updated :
    (profile old : BaselineProfile) (db : Db)
    → IsSound (set_profile profile db.profiles) db.next_profile_id
    → find_profile profile.id db.profiles ≡ some old
    → defaults (set_only_default profile.id (set_profile profile db.profiles))
      ≡ record profile { is_default = true } ∷ []
set_only_default-updated profile old db sound found =
    defaults-set_only_default profile.id (set_profile profile db.profiles) profile sound.distinct
      (find_profile-set_profile profile old db.profiles found)

updated-IsTidy :
    (profile old : BaselineProfile) (flag : Option Bool) (db : Db)
    → IsTidy db
    → find_profile profile.id db.profiles ≡ some old
    → IsReadable profile
    → profile.is_default ≡ new_default flag old.is_default
    → IsTidy (record db { profiles = updated_rows profile flag db.profiles })
unfolding updated_rows
updated-IsTidy profile old none db t found readable kept =
    set_profile-IsTidy profile old db t found readable (inr kept)
updated-IsTidy profile old (some false) db t found readable kept =
    set_profile-IsTidy profile old db t found readable (inl kept)
updated-IsTidy profile old (some true) db t found readable kept =
    let sound = set_profile-IsSound_found profile old db t found readable in
    let rows = set_profile profile db.profiles in
    let only = set_only_default-updated profile old db sound found in
    record {
      sound = set_only_default-IsSound profile.id db.next_profile_id rows sound;
      one_default = rw only (omega arith);
    }

-- The row that an update writes.
edited :
    (now id : ℕ) (u : ProfileUpdate) (old : BaselineProfile) (db : Db)
    → IsTidy db
    → get_profile db id ≡ some old
    → (find_profile (edit_profile now u old).id db.profiles ≡ some old)
      × IsReadable (edit_profile now u old)
unfolding get_profile
edited now id u old db t found =
    let same = find_profile-id id db.profiles old found in
    (
      unfold edit_profile in subst (λ n. find_profile n db.profiles ≡ some old) (sym same) found,
      edit_profile-IsReadable now u old
          (All-find_profile IsReadable id db.profiles old t.sound.readable found),
    )

pub update_profile-IsTidy :
    (now id : ℕ) (u : ProfileUpdate) (db : Db) → IsTidy db → IsTidy (update_profile now id u db).0
unfolding update_profile
update_profile-IsTidy now id u db t = elim (Option-cases (get_profile db id)) [
  | inl e ↦ rw (e, update_profile) t
  | inr (old, e) ↦
      let (found, readable) = edited now id u old db t e in
      rw (e, update_profile)
        (unfold edit_profile updated_rows in
          updated-IsTidy (edit_profile now u old) old u.is_default db t found readable refl)
]

only_default-found :
    (db : Db) (rows : List BaselineProfile) (p : BaselineProfile)
    → p.is_default ≡ true
    → defaults rows ≡ record p { is_default = true } ∷ []
    → get_default_profile (record db { profiles = rows }) ≡ some p
unfolding get_default_profile latest_profile
only_default-found db rows p marked only = ground arith

-- An update that makes a profile the default, of a profile that is there, is what
-- `get_default_profile` then finds.
pub update_profile-default :
    (now id : ℕ) (u : ProfileUpdate) (db : Db) (p : BaselineProfile)
    → IsTidy db
    → u.is_default ≡ some true
    → (update_profile now id u db).1 ≡ some p
    → get_default_profile (update_profile now id u db).0 ≡ some p
unfolding update_profile updated_rows
update_profile-default now id u db p t flag e = elim (Option-cases (get_profile db id)) [
  | inl f ↦ absurd (ground arith)
  | inr (old, f) ↦
      let profile = edit_profile now u old in
      let (found, readable) = edited now id u old db t f in
      let sound = set_profile-IsSound_found profile old db t found readable in
      let only = set_only_default-updated profile old db sound found in
      let marked : profile.is_default ≡ true =
        unfold edit_profile in ap (λ o. new_default o old.is_default) flag in
      let same : profile ≡ p = ground arith in
      let default : get_default_profile
            (record db { profiles = updated_rows profile (some true) db.profiles })
          ≡ some profile =
        unfold updated_rows in only_default-found db _ profile marked only in
      rw (f, update_profile)
        (subst
          (λ flag.
            get_default_profile (record db { profiles = updated_rows profile flag db.profiles })
            ≡ some p)
          (sym flag) (default ∙ ap some same))
]

pub delete_profile-IsTidy : (id : ℕ) (db : Db) → IsTidy db → IsTidy (delete_profile id db).0
unfolding delete_profile delete_row
delete_profile-IsTidy id db t = elim (Option-cases (get_profile db id)) [
  | inl e ↦ rw (e, delete_profile) t
  | inr (old, e) ↦
      rw (e, delete_profile)
        (record {
          sound = keep-IsSound _ db.next_profile_id db.profiles t.sound;
          one_default =
              omega
                (arith, length-defaults-keep (λ p. not (p.id == id)) db.profiles, t.one_default);
        })
]
