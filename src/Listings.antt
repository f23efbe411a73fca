-- ===== src/Listings.antt =====
-- backend/app/api/job_listings.py: what it answers about one listing.
pub mod Admin
pub mod Deletions
use resume_helper.Base.{
  ℕ, ℤ, Bool, true, false, Option, none, some, List, [], ◌∷◌, ◌++◌, Text, text_of, take, rstrip,
  strip, nonempty, is_some, length, leb, if◌then◌else◌,
}
use resume_helper.Uuid.{Uuid, uuid_str}
use resume_helper.Tables.{JobAnalysis, AnalysisStatus, ready_to_submit, needs_tailoring, skip}
use resume_helper.Audit.{get_analysis}
use resume_helper.Envelope.{Response, success, error}
use resume_helper.Scraping.Listing.{JobListing}
use resume_helper.Profiles.Pdf.{join, split}
use resume_helper.Applications.{Board, get_listing, bind}

-- `_PREVIEW_CHARS`
abbrev pub preview_chars : ℕ
preview_chars = 220

unfoldable pub preview : Text → Text
unfolding join split rstrip
preview text =
    let compact = join (text_of " ") (split text) in
    if leb (length compact) preview_chars
    then compact
    else rstrip (take 219 compact) ++ text_of "..."

abbrev pub analysis_status_name : AnalysisStatus → Text
analysis_status_name ready_to_submit = text_of "ready_to_submit"
analysis_status_name needs_tailoring = text_of "needs_tailoring"
analysis_status_name skip = text_of "skip"

-- The status of a listing whose analysis has one.
unfoldable pub analyzed_status : Option AnalysisStatus → Text
analyzed_status none = text_of "analyzed"
analyzed_status (some status) = analysis_status_name status

unfoldable pub listing_status : JobListing → Option JobAnalysis → Text
unfolding strip analyzed_status
listing_status listing analysis =
    if nonempty (strip listing.description)
    then (if is_some listing.job_analysis_id
        then analyzed_status (bind analysis (λ a. a.status))
        else text_of "unanalyzed")
    else text_of "failed-invalid"

pub record JobListingSummaryOut : Type 0 where
  pub id : Uuid
  pub source : Text
  pub source_id : Text
  pub title : Text
  pub company : Text
  pub location : Option Text
  pub url : Text
  pub description_preview : Text
  pub has_description : Bool
  pub list_status : Text
  pub analyzed : Bool
  pub job_analysis_id : Option Uuid
  pub last_score : Option ℤ
  pub last_status : Option AnalysisStatus
  pub scraped_at : ℕ
  pub changed_at : Option ℕ

unfoldable pub summary : JobListing → Option JobAnalysis → JobListingSummaryOut
unfolding preview listing_status strip
summary listing analysis = record {
  id = listing.id;
  source = listing.source;
  source_id = listing.source_id;
  title = listing.title;
  company = listing.company;
  location = listing.location;
  url = listing.url;
  description_preview = preview listing.description;
  has_description = nonempty (strip listing.description);
  list_status = listing_status listing analysis;
  analyzed = is_some listing.job_analysis_id;
  job_analysis_id = listing.job_analysis_id;
  last_score = bind analysis (λ a. a.score);
  last_status = bind analysis (λ a. a.status);
  scraped_at = listing.scraped_at;
  changed_at = listing.changed_at;
}

pub record JobListingDetailOut : Type 0 where
  pub summary : JobListingSummaryOut
  pub description : Text
  pub raw_json : Option Text

unfoldable pub get_job_listing : Uuid → Board → Response JobListingDetailOut
unfolding get_analysis
get_job_listing id board = elim (get_listing id board.listings) [
  | none ↦
      error (text_of "not_found") (text_of "Job listing " ++ uuid_str id ++ text_of " not found")
        404
  | some listing ↦
      let analysis = bind listing.job_analysis_id (λ id. get_analysis board.db id) in
      success (record {
        summary = summary listing analysis;
        description = listing.description;
        raw_json = listing.raw_json;
      })
]
