-- ===== src/Profiles/Rows.antt =====
-- How the statements of backend/app/services/evaluator_v2.py on the table of profiles change its rows.
use resume_helper.Base.{
  subst, ℕ, ◌<◌, ◌≡◌, ◌≢◌, inl, inr, Bool, true, false, some, List, [], ◌∷◌, ◌++◌, keep, All, arith,
  Bool-cases, ◌==◌, ==_iff,
}
use resume_helper.Tables.{BaselineProfile}
use resume_helper.Profiles.{find_profile, set_only_default, set_profile}

abbrev pub DiffersFrom : ℕ → BaselineProfile → Type 0
DiffersFrom id p = p.id ≢ id

-- No two rows have the same id.
abbrev pub Distinct : List BaselineProfile → Type 0
Distinct [] = Unit
Distinct (p ∷ profiles) = All (DiffersFrom p.id) profiles × Distinct profiles

module _ (P : BaselineProfile → Type 0) where
  pub All-set_only_default :
      (id : ℕ) (profiles : List BaselineProfile)
      → ((p : BaselineProfile) (flag : Bool) → P p → P (record p { is_default = flag }))
      → All P profiles
      → All P (set_only_default id profiles)
  unfolding set_only_default
  All-set_only_default id [] h all = tt
  All-set_only_default id (p ∷ profiles) h all = elim (Bool-cases (p.id == id)) [
    | inl e ↦ rw e (h p true all.0, All-set_only_default id profiles h all.1)
    | inr e ↦ rw e (h p false all.0, All-set_only_default id profiles h all.1)
  ]

  pub All-set_profile :
      (profile : BaselineProfile) (profiles : List BaselineProfile)
      → P profile
      → All P profiles
      → All P (set_profile profile profiles)
  unfolding set_profile
  All-set_profile profile [] h all = tt
  All-set_profile profile (p ∷ profiles) h all = elim (Bool-cases (p.id == profile.id)) [
    | inl e ↦ rw e (h, all.1)
    | inr e ↦ rw e (all.0, All-set_profile profile profiles h all.1)
  ]

  pub All-keep :
      (test : BaselineProfile → Bool) (profiles : List BaselineProfile)
      → All P profiles
      → All P (keep test profiles)
  All-keep test [] all = tt
  All-keep test (p ∷ profiles) all = elim (Bool-cases (test p)) [
    | inl e ↦ rw e (all.0, All-keep test profiles all.1)
    | inr e ↦ rw e (All-keep test profiles all.1)
  ]

  pub All-find_profile :
      (id : ℕ) (profiles : List BaselineProfile) (p : BaselineProfile)
      → All P profiles
      → find_profile id profiles ≡ some p
      → P p
  unfolding find_profile
  All-find_profile id [] p all found = absurd (cc)
  All-find_profile id (q ∷ profiles) p all found = elim (Bool-cases (q.id == id)) [
    | inl e ↦ subst P (ground arith) all.0
    | inr e ↦ All-find_profile id profiles p all.1 (ground arith)
  ]

pub find_profile-id :
    (id : ℕ) (profiles : List BaselineProfile) (p : BaselineProfile)
    → find_profile id profiles ≡ some p
    → p.id ≡ id
unfolding find_profile
find_profile-id id [] p found = absurd (cc)
find_profile-id id (q ∷ profiles) p found = elim (Bool-cases (q.id == id)) [
  | inl e ↦ ground (arith, ==_iff q.id id)
  | inr e ↦ find_profile-id id profiles p (ground arith)
]

pub Distinct-set_only_default :
    (id : ℕ) (profiles : List BaselineProfile)
    → Distinct profiles
    → Distinct (set_only_default id profiles)
unfolding set_only_default
Distinct-set_only_default id [] d = tt
Distinct-set_only_default id (p ∷ profiles) d =
    let tail = Distinct-set_only_default id profiles d.1 in
    let other_ids = All-set_only_default (DiffersFrom p.id) id profiles (λ q flag h. h) d.0 in
    elim (Bool-cases (p.id == id)) [
      | inl e ↦ rw e (other_ids, tail)
      | inr e ↦ rw e (other_ids, tail)
    ]

pub Distinct-set_profile :
    (profile : BaselineProfile) (profiles : List BaselineProfile)
    → Distinct profiles
    → Distinct (set_profile profile profiles)
unfolding set_profile
Distinct-set_profile profile [] d = tt
Distinct-set_profile profile (p ∷ profiles) d = elim (Bool-cases (p.id == profile.id)) [
  | inl e ↦
      let same : p.id ≡ profile.id = ground (arith, ==_iff p.id profile.id) in
      rw e (subst (λ n. All (DiffersFrom n) profiles) same d.0, d.1)
  | inr e ↦
      let differs : profile.id ≢ p.id = λ same. ground (arith, ==_iff p.id profile.id) in
      rw e (
        All-set_profile (DiffersFrom p.id) profile profiles differs d.0,
        Distinct-set_profile profile profiles d.1,
      )
]

pub Distinct-keep :
    (test : BaselineProfile → Bool) (profiles : List BaselineProfile)
    → Distinct profiles
    → Distinct (keep test profiles)
Distinct-keep test [] d = tt
Distinct-keep test (p ∷ profiles) d = elim (Bool-cases (test p)) [
  | inl e ↦ rw e (All-keep (DiffersFrom p.id) test profiles d.0, Distinct-keep test profiles d.1)
  | inr e ↦ rw e (Distinct-keep test profiles d.1)
]

-- A new row with an id above all others.
pub Distinct-append :
    (profiles : List BaselineProfile) (p : BaselineProfile)
    → All (λ q. q.id < p.id) profiles
    → Distinct profiles
    → Distinct (profiles ++ p ∷ [])
Distinct-append [] p below d = (tt, tt)
Distinct-append (q ∷ profiles) p below d =
    (new_differs profiles d.0, Distinct-append profiles p below.1 d.1)
  where
    new_differs :
        (rows : List BaselineProfile)
        → All (DiffersFrom q.id) rows
        → All (DiffersFrom q.id) (rows ++ p ∷ [])
    new_differs [] all = ((λ e. omega (arith, below.0, e)), tt)
    new_differs (r ∷ rows) all = (all.0, new_differs rows all.1)
