-- ===== src/Profiles/Defaults.antt =====
-- The default profile of backend/app/services/evaluator_v2.py: which one `get_default_profile` finds.
use resume_helper.Base.{
  subst, sym, ◌∙◌, ℕ, ◌≤◌, ◌≡◌, ◌≢◌, ◌↔◌, ◌⊎◌, refl, inl, inr, true, false, Option, none, some,
  List, [], ◌∷◌, keep, length, All, arith, Bool-cases, Option-cases, ◌==◌, ==_iff, or_else,
  if◌then◌else◌,
}
use resume_helper.Tables.{BaselineProfile}
use resume_helper.JobQueue.Store.{Db}
use resume_helper.Profiles.{
  find_profile, set_only_default, set_profile, has_default, latest_profile, get_default_profile,
  get_latest_profile, sort_profiles, insert_profile, list_profiles, listed_before,
}
use resume_helper.Profiles.Rows.{DiffersFrom, Distinct, All-keep}

abbrev pub defaults : List BaselineProfile → List BaselineProfile
defaults profiles = keep has_default profiles

pub defaults-set_only_default_absent :
    (id : ℕ) (profiles : List BaselineProfile)
    → All (DiffersFrom id) profiles
    → defaults (set_only_default id profiles) ≡ []
unfolding set_only_default
defaults-set_only_default_absent id [] absent = refl
defaults-set_only_default_absent id (p ∷ profiles) absent =
    ground (arith, defaults-set_only_default_absent id profiles absent.1, absent.0)

-- Afterwards the row is the only default.
pub defaults-set_only_default :
    (id : ℕ) (profiles : List BaselineProfile) (p : BaselineProfile)
    → Distinct profiles
    → find_profile id profiles ≡ some p
    → defaults (set_only_default id profiles) ≡ record p { is_default = true } ∷ []
unfolding set_only_default find_profile
defaults-set_only_default id [] p d found = absurd (cc)
defaults-set_only_default id (q ∷ profiles) p d found = elim (Bool-cases (q.id == id)) [
  | inl e ↦
      let same : q.id ≡ id = ground (arith, ==_iff q.id id) in
      let rest =
        defaults-set_only_default_absent id profiles
          (subst (λ n. All (DiffersFrom n) profiles) same d.0) in
      ground (arith, rest)
  | inr e ↦ ground (arith, defaults-set_only_default id profiles p d.1)
]

-- An update that does not make its row a default adds none.
pub length-defaults-set_profile :
    (profile old : BaselineProfile) (profiles : List BaselineProfile)
    → find_profile profile.id profiles ≡ some old
    → (profile.is_default ≡ false) ⊎ (profile.is_default ≡ old.is_default)
    → length (defaults (set_profile profile profiles)) ≤ length (defaults profiles)
unfolding set_profile find_profile
length-defaults-set_profile profile old [] found kept = absurd (cc)
length-defaults-set_profile profile old (p ∷ profiles) found kept =
    elim (Bool-cases (p.id == profile.id)) [
      | inl e ↦ ground arith
      | inr e ↦ ground (arith, length-defaults-set_profile profile old profiles (ground arith) kept)
    ]

latest_default :
    (profiles : List BaselineProfile) (p : BaselineProfile)
    → latest_profile (defaults profiles) ≡ some p
    → p.is_default ≡ true
unfolding latest_profile
latest_default [] p e = absurd (cc)
latest_default (q ∷ profiles) p e = elim (Option-cases (latest_profile (defaults profiles))) [
  | inl f ↦ ground arith
  | inr (r, f) ↦ ground (arith, latest_default profiles r f, latest_default profiles p)
]

abbrev pub first : List BaselineProfile → Option BaselineProfile
first [] = none
first (p ∷ profiles) = some p

first-insert_profile :
    (p q : BaselineProfile) (sorted : List BaselineProfile)
    → first sorted ≡ some q
    → first (insert_profile p sorted) ≡ (if listed_before p q then some p else some q)
unfolding insert_profile
first-insert_profile p q [] e = absurd (cc)
first-insert_profile p q (r ∷ sorted) e = ground arith

latest-Elem_id :
    (id : ℕ) (profiles : List BaselineProfile) (q : BaselineProfile)
    → All (DiffersFrom id) profiles
    → latest_profile profiles ≡ some q
    → q.id ≢ id
unfolding latest_profile
latest-Elem_id id [] q all e = absurd (cc)
latest-Elem_id id (p ∷ profiles) q all e = elim (Option-cases (latest_profile profiles)) [
  | inl f ↦ ground (arith, all.0)
  | inr (r, f) ↦ ground (arith, all.0, latest-Elem_id id profiles r all.1 f)
]

-- No profile is a default where no default is found.
no_default :
    (profiles : List BaselineProfile) (q : BaselineProfile)
    → latest_profile (defaults profiles) ≡ none
    → latest_profile profiles ≡ some q
    → q.is_default ≡ false
unfolding latest_profile
no_default [] q e f = absurd (cc)
no_default (p ∷ profiles) q e f = elim (Option-cases (latest_profile profiles)) [
  | inl g ↦ ground arith
  | inr (r, g) ↦ elim (Bool-cases p.is_default) [
    | inl d ↦ elim (Option-cases (latest_profile (defaults profiles))) [
      | inl h ↦ absurd (ground arith)
      | inr (s, h) ↦ absurd (ground arith)
    ]
    | inr d ↦ ground (arith, no_default profiles r (ground arith) g)
  ]
]

latest_none : (profiles : List BaselineProfile) → latest_profile profiles ≡ none → profiles ≡ []
unfolding latest_profile
latest_none [] e = refl
latest_none (p ∷ profiles) e = elim (Option-cases (latest_profile profiles)) [
  | inl f ↦ absurd (ground arith)
  | inr (r, f) ↦ absurd (ground arith)
]

no_rows_found :
    (profiles : List BaselineProfile) (r : BaselineProfile)
    → profiles ≡ []
    → latest_profile (defaults profiles) ≢ some r
unfolding latest_profile
no_rows_found profiles r e f = ground arith

default_of : List BaselineProfile → Option BaselineProfile
default_of profiles = or_else (latest_profile (defaults profiles)) (latest_profile profiles)

default_of-cons :
    (p q : BaselineProfile) (profiles : List BaselineProfile)
    → All (DiffersFrom p.id) profiles
    → default_of profiles ≡ some q
    → default_of (p ∷ profiles) ≡ (if listed_before p q then some p else some q)
unfolding default_of latest_profile
default_of-cons p q profiles differ e = elim (Option-cases (latest_profile profiles)) [
  | inl f ↦ elim (Option-cases (latest_profile (defaults profiles))) [
    | inl g ↦ absurd (ground arith)
    | inr (r, g) ↦
        let nothing = latest_none profiles f in absurd (no_rows_found profiles r nothing g)
  ]
  | inr (s, f) ↦ elim (Option-cases (latest_profile (defaults profiles))) [
    | inl g ↦
        let plain = no_default profiles s g f in
        let other = latest-Elem_id p.id profiles s differ f in ground arith
    | inr (r, g) ↦
        let marked = latest_default profiles r g in
        let other =
          latest-Elem_id p.id (defaults profiles) r
            (All-keep (DiffersFrom p.id) has_default profiles differ) g in
        ground arith
  ]
]

default_of-none : (profiles : List BaselineProfile) → default_of profiles ≡ none → profiles ≡ []
unfolding default_of
default_of-none profiles e = elim (Option-cases (latest_profile profiles)) [
  | inl f ↦ latest_none profiles f
  | inr (r, f) ↦ elim (Option-cases (latest_profile (defaults profiles))) [
    | inl g ↦ absurd (ground arith)
    | inr (s, g) ↦ absurd (ground arith)
  ]
]

first-single : (p : BaselineProfile) → first (sort_profiles (p ∷ [])) ≡ default_of (p ∷ [])
unfolding sort_profiles default_of latest_profile insert_profile
first-single p = ground arith

first-sort_profiles :
    (profiles : List BaselineProfile)
    → Distinct profiles
    → first (sort_profiles profiles) ≡ default_of profiles
unfolding sort_profiles default_of latest_profile
first-sort_profiles [] d = refl
first-sort_profiles (p ∷ profiles) d = elim (Option-cases (default_of profiles)) [
  | inl e ↦
      subst (λ rows. first (sort_profiles (p ∷ rows)) ≡ default_of (p ∷ rows))
        (sym (default_of-none profiles e)) (first-single p)
  | inr (q, e) ↦
      first-insert_profile p q (sort_profiles profiles) (first-sort_profiles profiles d.1 ∙ e)
      ∙ sym (default_of-cons p q profiles d.0 e)
]

-- Where no two profiles share an id, the profile that `get_default_profile` finds is the one that
-- `list_profiles` lists first, and it finds none just where there is none.
pub get_default_profile-first :
    (db : Db)
    → Distinct db.profiles
    → (get_default_profile db ≡ first (list_profiles db))
      × ((get_default_profile db ≡ none) ↔ (db.profiles ≡ []))
unfolding get_default_profile list_profiles get_latest_profile default_of latest_profile
get_default_profile-first db d =
    (sym (first-sort_profiles db.profiles d), (default_of-none db.profiles, (λ e. rw e refl)))
