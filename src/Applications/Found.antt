-- ===== src/Applications/Found.antt =====
-- What `_load_links` and `_hydrate` of backend/app/api/applications.py find: rows of the tables, and the
-- same rows from one application as from a page of them.
use resume_helper.Base.{
  subst, Elem, ◌≡◌, refl, inl, inr, true, Option, none, some, List, [], ◌∷◌, keep, ltb, ◌==◌,
  ==_iff, or_else, if◌then◌else◌, arith, Bool-cases, Option-cases,
}
use resume_helper.Uuid.{Uuid}
use resume_helper.Tables.{JobAnalysis, GeneratedResume}
use resume_helper.JobQueue.Claim.{contains}
use resume_helper.Audit.{find_analysis, find_resume, get_analysis, has_resume}
use resume_helper.Scraping.Listing.{JobListing}
use resume_helper.Applications.{
  Application, Board, get_listing, newest, is_of, resume_time, latest_resume, bind, Links,
}
use resume_helper.Applications.Hydrate.{
  column_ids, missing_resume, insert_latest, latest_resumes, find_of_analysis, fetch, fetched_links,
}

pub get_listing-id :
    (id : Uuid) (rows : List JobListing) (l : JobListing) → get_listing id rows ≡ some l → l.id ≡ id
unfolding get_listing
get_listing-id id [] l e = absurd (cc)
get_listing-id id (k ∷ rows) l e = ground (arith, get_listing-id id rows l)

pub find_analysis-id :
    (id : Uuid) (rows : List JobAnalysis) (a : JobAnalysis)
    → find_analysis id rows ≡ some a
    → a.id ≡ id
unfolding find_analysis
find_analysis-id id [] l e = absurd (cc)
find_analysis-id id (k ∷ rows) l e = ground (arith, find_analysis-id id rows l)

pub find_resume-id :
    (id : Uuid) (rows : List GeneratedResume) (r : GeneratedResume)
    → find_resume id rows ≡ some r
    → r.id ≡ id
unfolding find_resume
find_resume-id id [] l e = absurd (cc)
find_resume-id id (k ∷ rows) l e = ground (arith, find_resume-id id rows l)

-- A row whose id is among the ids of a query is found in what the query returns.
pub get_listing-keep :
    (id : Uuid) (ids : List Uuid) (rows : List JobListing)
    → contains id ids ≡ true
    → get_listing id (keep (λ l. contains l.id ids) rows) ≡ get_listing id rows
unfolding get_listing
get_listing-keep id ids [] h = refl
get_listing-keep id ids (l ∷ rows) h = elim (Bool-cases (l.id == id)) [
  | inl e ↦ let same : l.id ≡ id = ground (arith, ==_iff l.id id) in ground arith
  | inr e ↦ ground (arith, get_listing-keep id ids rows h)
]

pub find_analysis-keep :
    (id : Uuid) (ids : List Uuid) (rows : List JobAnalysis)
    → contains id ids ≡ true
    → find_analysis id (keep (λ a. contains a.id ids) rows) ≡ find_analysis id rows
unfolding find_analysis
find_analysis-keep id ids [] h = refl
find_analysis-keep id ids (l ∷ rows) h = elim (Bool-cases (l.id == id)) [
  | inl e ↦ let same : l.id ≡ id = ground (arith, ==_iff l.id id) in ground arith
  | inr e ↦ ground (arith, find_analysis-keep id ids rows h)
]

pub find_resume-keep :
    (id : Uuid) (ids : List Uuid) (rows : List GeneratedResume)
    → contains id ids ≡ true
    → find_resume id (keep (λ r. contains r.id ids) rows) ≡ find_resume id rows
unfolding find_resume
find_resume-keep id ids [] h = refl
find_resume-keep id ids (l ∷ rows) h = elim (Bool-cases (l.id == id)) [
  | inl e ↦ let same : l.id ≡ id = ground (arith, ==_iff l.id id) in ground arith
  | inr e ↦ ground (arith, find_resume-keep id ids rows h)
]

-- `DISTINCT ON` keeps of each analysis the row that the query for one analysis finds.
later_of : GeneratedResume → Option GeneratedResume → Option GeneratedResume
later_of r none = some r
later_of r (some s) = if ltb r.created_at s.created_at then some s else some r

find_of_analysis-insert_latest :
    (id : Uuid) (r : GeneratedResume) (rows : List GeneratedResume)
    → find_of_analysis id (insert_latest r rows) ≡ (
        if r.job_analysis_id == id
        then later_of r (find_of_analysis id rows)
        else find_of_analysis id rows)
unfolding find_of_analysis insert_latest later_of
find_of_analysis-insert_latest id r [] = ground arith
find_of_analysis-insert_latest id r (s ∷ rows) =
    ground (arith, find_of_analysis-insert_latest id r rows)

newest-step :
    (r : GeneratedResume) (rows : List GeneratedResume)
    → newest resume_time (r ∷ rows) ≡ later_of r (newest resume_time rows)
unfolding newest later_of
newest-step r rows = elim (Option-cases (newest resume_time rows)) [
  | inl e ↦ rw (e, later_of, newest) refl
  | inr (s, e) ↦ rw (e, later_of, newest) refl
]

pub find_of_analysis-latest_resumes :
    (id : Uuid) (ids : List Uuid) (rows : List GeneratedResume)
    → contains id ids ≡ true
    → find_of_analysis id (latest_resumes (keep (λ r. contains r.job_analysis_id ids) rows))
      ≡ newest resume_time (keep (is_of id) rows)
unfolding latest_resumes
find_of_analysis-latest_resumes id ids [] h = unfold find_of_analysis newest in refl
find_of_analysis-latest_resumes id ids (r ∷ rows) h =
    let rest = find_of_analysis-latest_resumes id ids rows h in
    let kept = keep (λ r. contains r.job_analysis_id ids) rows in
    elim (Bool-cases (r.job_analysis_id == id)) [
      | inl e ↦
          let same : r.job_analysis_id ≡ id = ground (arith, ==_iff r.job_analysis_id id) in
          let c : contains r.job_analysis_id ids ≡ true = rw same h in
          (ground (
            arith,
            c,
            find_of_analysis-insert_latest id r (latest_resumes kept),
            newest-step r (keep (is_of id) rows),
            rest,
          ))
      | inr e ↦ elim (Bool-cases (contains r.job_analysis_id ids)) [
        | inl c ↦ ground (arith, find_of_analysis-insert_latest id r (latest_resumes kept), rest)
        | inr c ↦ ground (arith, rest)
      ]
    ]

-- The links of one application, by a query for each.
unfoldable pub own_links : Board → Application → Links
unfolding latest_resume
own_links board app = record {
  listing = bind app.job_listing_id (λ id. get_listing id board.listings);
  analysis = bind app.job_analysis_id (λ id. get_analysis board.db id);
  resume =
      or_else (bind app.generated_resume_id (λ id. find_resume id board.db.resumes))
        (latest_resume board.db app.job_analysis_id);
}

-- The id of a column is among the ids of the page.
column_ids-contains :
    (column : Application → Option Uuid) (apps : List Application) (app : Application) (id : Uuid)
    → Elem app apps
    → column app ≡ some id
    → contains id (column_ids column apps) ≡ true
unfolding column_ids contains
column_ids-contains column [] app id m e = absurd m
column_ids-contains column (a ∷ apps) app id (inl same) e =
    let f : column a ≡ some id = subst (λ b. column b ≡ some id) same e in
    rw (f, column_ids) (ground arith)
column_ids-contains column (a ∷ apps) app id (inr m) e = elim (Option-cases (column a)) [
  | inl f ↦ rw (f, column_ids) (column_ids-contains column apps app id m e)
  | inr (i, f) ↦ rw (f, column_ids) (ground (arith, column_ids-contains column apps app id m e))
]

-- The resume that an application names is there, where it names one.
abbrev pub HasResume : Board → Application → Type 0
HasResume board app = has_resume board.db app.generated_resume_id ≡ true

module _ (board : Board) (apps : List Application) (app : Application) (m : Elem app apps) where
  fetched-listing : (fetched_links (fetch board apps) app).listing ≡ (own_links board app).listing
  unfolding fetched_links fetch own_links
  fetched-listing = elim (Option-cases app.job_listing_id) [
    | inl e ↦ rw e refl
    | inr (id, e) ↦
        let c = column_ids-contains (λ a. a.job_listing_id) apps app id m e in
        rw (e, get_listing-keep id _ board.listings c) refl
  ]

  fetched-analysis :
      (fetched_links (fetch board apps) app).analysis ≡ (own_links board app).analysis
  unfolding fetched_links fetch own_links get_analysis
  fetched-analysis = elim (Option-cases app.job_analysis_id) [
    | inl e ↦ rw e refl
    | inr (id, e) ↦
        let c = column_ids-contains (λ a. a.job_analysis_id) apps app id m e in
        rw (e, find_analysis-keep id _ board.db.analyses c) refl
  ]

  fetched-resume :
      HasResume board app
      → (fetched_links (fetch board apps) app).resume ≡ (own_links board app).resume
  unfolding fetched_links fetch own_links latest_resume
  fetched-resume h = elim (Option-cases app.generated_resume_id) [
    | inl e ↦ elim (Option-cases app.job_analysis_id) [
      | inl f ↦ rw (e, f) refl
      | inr (id, f) ↦
          let own : missing_resume app ≡ some id = rw (e, f) refl in
          let c = column_ids-contains missing_resume apps app id m own in
          rw (e, f, find_of_analysis-latest_resumes id _ board.db.resumes c) refl
    ]
    | inr (id, e) ↦
        let c = column_ids-contains (λ a. a.generated_resume_id) apps app id m e in
        let g : has_resume board.db (some id) ≡ true =
          subst (λ o. has_resume board.db o ≡ true) e h in
        elim (Option-cases (find_resume id board.db.resumes)) [
          | inl f ↦ absurd (ground (arith, f, g))
          | inr (r, f) ↦ rw (e, find_resume-keep id _ board.db.resumes c, f) refl
        ]
  ]

  -- A page links an application to the rows to which it is linked by itself.
  pub fetched_links-own :
      HasResume board app → fetched_links (fetch board apps) app ≡ own_links board app
  fetched_links-own h = λ i. record {
    listing = fetched-listing i;
    analysis = fetched-analysis i;
    resume = fetched-resume h i;
  }
