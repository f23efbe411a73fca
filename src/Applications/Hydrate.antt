-- ===== src/Applications/Hydrate.antt =====
-- `_hydrate` of backend/app/api/applications.py, which fetches the links of a page at once.
use resume_helper.Base.{
  Option, none, some, List, [], ◌∷◌, or_else, map, keep, ltb, ◌==◌, if◌then◌else◌,
}
use resume_helper.Uuid.{Uuid}
use resume_helper.Tables.{JobAnalysis, GeneratedResume}
use resume_helper.JobQueue.Claim.{contains}
use resume_helper.Audit.{find_analysis, find_resume}
use resume_helper.Scraping.Listing.{JobListing}
use resume_helper.Applications.{
  Application, Board, get_listing, bind, Links, ApplicationOut, application_out,
}

-- `[app.column for app in apps if app.column]`
unfoldable pub column_ids : (Application → Option Uuid) → List Application → List Uuid
column_ids column [] = []
column_ids column (a ∷ apps) =
    let rest = column_ids column apps in elim (column a) [ none ↦ rest | some id ↦ id ∷ rest ]

-- The analysis of an application that has no resume of its own.
abbrev pub missing_resume : Application → Option Uuid
missing_resume a = elim a.generated_resume_id [ none ↦ a.job_analysis_id | some _ ↦ none ]

-- `DISTINCT ON (job_analysis_id)` of the rows by `created_at DESC`: the latest one of each analysis.
unfoldable pub insert_latest : GeneratedResume → List GeneratedResume → List GeneratedResume
insert_latest r [] = r ∷ []
insert_latest r (s ∷ rows) =
    if s.job_analysis_id == r.job_analysis_id
    then (if ltb r.created_at s.created_at then s ∷ rows else r ∷ rows)
    else s ∷ insert_latest r rows

unfoldable pub latest_resumes : List GeneratedResume → List GeneratedResume
unfolding insert_latest
latest_resumes [] = []
latest_resumes (r ∷ rows) = insert_latest r (latest_resumes rows)

-- `latest_by_analysis.get(id)`
unfoldable pub find_of_analysis : Uuid → List GeneratedResume → Option GeneratedResume
find_of_analysis id [] = none
find_of_analysis id (r ∷ rows) =
    if r.job_analysis_id == id then some r else find_of_analysis id rows

-- The rows that the queries of `_hydrate` return.
pub record Fetched : Type 0 where
  pub listings : List JobListing
  pub analyses : List JobAnalysis
  pub resumes : List GeneratedResume
  pub latest_by_analysis : List GeneratedResume

unfoldable pub fetch : Board → List Application → Fetched
unfolding column_ids latest_resumes contains
fetch board apps =
    let listing_ids = column_ids (λ a. a.job_listing_id) apps in
    let analysis_ids = column_ids (λ a. a.job_analysis_id) apps in
    let resume_ids = column_ids (λ a. a.generated_resume_id) apps in
    let missing = column_ids missing_resume apps in
    record {
      listings = keep (λ l. contains l.id listing_ids) board.listings;
      analyses = keep (λ a. contains a.id analysis_ids) board.db.analyses;
      resumes = keep (λ r. contains r.id resume_ids) board.db.resumes;
      latest_by_analysis =
          latest_resumes (keep (λ r. contains r.job_analysis_id missing) board.db.resumes);
    }

unfoldable pub fetched_links : Fetched → Application → Links
unfolding find_of_analysis
fetched_links rows app = record {
  listing = bind app.job_listing_id (λ id. get_listing id rows.listings);
  analysis = bind app.job_analysis_id (λ id. find_analysis id rows.analyses);
  resume =
      or_else (bind app.generated_resume_id (λ id. find_resume id rows.resumes))
        (bind app.job_analysis_id (λ id. find_of_analysis id rows.latest_by_analysis));
}

unfoldable pub hydrate : Board → List Application → List ApplicationOut
unfolding fetch fetched_links
hydrate board apps =
    let rows = fetch board apps in map (λ app. application_out app (fetched_links rows app)) apps
