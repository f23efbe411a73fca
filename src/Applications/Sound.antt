-- ===== src/Applications/Sound.antt =====
-- The links of the rows of `applications`, and the changes of the endpoints to the table.
use resume_helper.Base.{
  subst, ◌≡◌, ◌≢◌, refl, sym, inl, inr, Bool, true, false, Option, none, some, List, [], ◌∷◌, ◌++◌,
  All, All-append, ◌==◌, is_some, arith, Bool-cases, Option-cases, ℕ,
}
use resume_helper.Uuid.{Uuid}
use resume_helper.Scraping.Listing.{JobListing}
use resume_helper.Audit.{has_analysis, has_resume}
use resume_helper.Applications.{
  Application, Board, find_application, get_listing, map_some, Links, listing_id, analysis_id,
  resume_id,
}
use resume_helper.Applications.Endpoints.{
  set_application, remove_application, touched, is_unchanged,
}
use resume_helper.Applications.Loaded.{IsLoaded}
use resume_helper.Applications.Own.{OwnListing, OwnAnalysis}

abbrev pub has_listing : Board → Option Uuid → Bool
has_listing board none = true
has_listing board (some id) = is_some (get_listing id board.listings)

-- Every link of the application names a row.
pub record IsLinked (board : Board) (a : Application) : Type 0 where
  pub listing : has_listing board a.job_listing_id ≡ true
  pub analysis : has_analysis board.db a.job_analysis_id ≡ true
  pub resume : has_resume board.db a.generated_resume_id ≡ true

-- The primary key.
abbrev pub Distinct : List Application → Type 0
Distinct [] = Unit
Distinct (a ∷ apps) = All (λ (b : Application). b.id ≢ a.id) apps × Distinct apps

pub record IsSound (board : Board) : Type 0 where
  pub linked : All (IsLinked board) board.applications
  pub distinct : Distinct board.applications

has_listing-own :
    (board : Board) (row : Option JobListing)
    → OwnListing board row
    → has_listing board (map_some (λ (l : JobListing). l.id) row) ≡ true
has_listing-own board none own = refl
has_listing-own board (some l) own = ground (arith, own)

has_analysis-own :
    (board : Board) (links : Links)
    → OwnAnalysis board links.analysis
    → has_analysis board.db (analysis_id links) ≡ true
has_analysis-own board links own = elim (Option-cases links.analysis) [
  | inl e ↦ rw e refl
  | inr (a, e) ↦ ground (arith, own, e)
]

-- A row with the ids of loaded links is linked.
pub loaded-IsLinked :
    (board : Board) (links : Links) (a : Application)
    → IsLoaded board links
    → a.job_listing_id ≡ listing_id links
    → a.job_analysis_id ≡ analysis_id links
    → a.generated_resume_id ≡ resume_id links
    → IsLinked board a
loaded-IsLinked board links a loaded l e r = record {
  listing =
      subst (λ o. has_listing board o ≡ true) (sym l)
        (has_listing-own board links.listing loaded.listing);
  analysis =
      subst (λ o. has_analysis board.db o ≡ true) (sym e)
        (has_analysis-own board links loaded.analysis);
  resume = subst (λ o. has_resume board.db o ≡ true) (sym r) loaded.resume;
}

pub touched-id :
    (now : ℕ) (old new : Application) → new.id ≡ old.id → (touched now old new).id ≡ old.id
unfolding touched
touched-id now old new e = elim (Bool-cases (is_unchanged old new)) [
  | inl f ↦ rw (f, touched) refl
  | inr f ↦ rw (f, touched) e
]

pub touched-IsLinked :
    (board : Board) (now : ℕ) (old new : Application)
    → IsLinked board old
    → IsLinked board new
    → IsLinked board (touched now old new)
unfolding touched
touched-IsLinked board now old new h h' = elim (Bool-cases (is_unchanged old new)) [
  | inl f ↦ rw (f, touched) h
  | inr f ↦
      rw (f, touched) (record { listing = h'.listing; analysis = h'.analysis; resume = h'.resume })
]

pub find_application-id :
    (id : Uuid) (apps : List Application) (a : Application)
    → find_application id apps ≡ some a
    → a.id ≡ id
unfolding find_application
find_application-id id [] a e = absurd (cc)
find_application-id id (b ∷ apps) a e = ground (arith, find_application-id id apps a)

module _ (P : Application → Type 0) where
  pub All-find_application :
      (id : Uuid) (apps : List Application) (a : Application)
      → All P apps
      → find_application id apps ≡ some a
      → P a
  unfolding find_application
  All-find_application id [] a all e = absurd (cc)
  All-find_application id (b ∷ apps) a all e = elim (Bool-cases (b.id == id)) [
    | inl f ↦ let same : b ≡ a = ground (arith, e, f) in subst P same all.0
    | inr f ↦ All-find_application id apps a all.1 (ground (arith, e, f))
  ]

  pub All-set_application :
      (app : Application) (apps : List Application)
      → P app
      → All P apps
      → All P (set_application app apps)
  unfolding set_application
  All-set_application app [] h all = tt
  All-set_application app (a ∷ apps) h all = elim (Bool-cases (a.id == app.id)) [
    | inl e ↦ rw e (h, all.1)
    | inr e ↦ rw e (all.0, All-set_application app apps h all.1)
  ]

  pub All-remove_application :
      (id : Uuid) (apps : List Application) → All P apps → All P (remove_application id apps)
  unfolding remove_application
  All-remove_application id [] all = tt
  All-remove_application id (a ∷ apps) all = elim (Bool-cases (a.id == id)) [
    | inl e ↦ rw e (All-remove_application id apps all.1)
    | inr e ↦ rw e (all.0, All-remove_application id apps all.1)
  ]

absent-All :
    (id : Uuid) (apps : List Application)
    → is_some (find_application id apps) ≡ false
    → All (λ (b : Application). id ≢ b.id) apps
unfolding find_application
absent-All id [] h = tt
absent-All id (a ∷ apps) h = (ground (arith, h), absent-All id apps (ground (arith, h)))

pub Distinct-append :
    (apps : List Application) (app : Application)
    → Distinct apps
    → is_some (find_application app.id apps) ≡ false
    → Distinct (apps ++ app ∷ [])
unfolding find_application
Distinct-append [] app d h = (tt, tt)
Distinct-append (a ∷ apps) app d h = (
  All-append (λ (b : Application). b.id ≢ a.id) apps (app ∷ []) d.0 (ground (arith, h), tt),
  Distinct-append apps app d.1 (ground (arith, h)),
)

pub Distinct-set_application :
    (app : Application) (apps : List Application)
    → Distinct apps
    → Distinct (set_application app apps)
unfolding set_application
Distinct-set_application app [] d = tt
Distinct-set_application app (a ∷ apps) d = elim (Bool-cases (a.id == app.id)) [
  | inl e ↦
      let same : a.id ≡ app.id = ground (arith, e) in
      rw e (subst (λ i. All (λ (b : Application). b.id ≢ i) apps) same d.0, d.1)
  | inr e ↦ rw e (
    All-set_application (λ (b : Application). b.id ≢ a.id) app apps (ground (arith, e)) d.0,
    Distinct-set_application app apps d.1,
  )
]

pub Distinct-remove_application :
    (id : Uuid) (apps : List Application) → Distinct apps → Distinct (remove_application id apps)
unfolding remove_application
Distinct-remove_application id [] d = tt
Distinct-remove_application id (a ∷ apps) d = elim (Bool-cases (a.id == id)) [
  | inl e ↦ rw e (Distinct-remove_application id apps d.1)
  | inr e ↦ rw e (
    All-remove_application (λ (b : Application). b.id ≢ a.id) id apps d.0,
    Distinct-remove_application id apps d.1,
  )
]

pub find_application-append :
    (apps : List Application) (app : Application)
    → is_some (find_application app.id apps) ≡ false
    → find_application app.id (apps ++ app ∷ []) ≡ some app
unfolding find_application
find_application-append [] app h = ground arith
find_application-append (a ∷ apps) app h = ground (arith, h, find_application-append apps app)

pub find_application-set :
    (apps : List Application) (app : Application)
    → is_some (find_application app.id apps) ≡ true
    → find_application app.id (set_application app apps) ≡ some app
unfolding find_application set_application
find_application-set [] app h = absurd (cc)
find_application-set (a ∷ apps) app h = ground (arith, h, find_application-set apps app)
