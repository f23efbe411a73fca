-- ===== src/Applications.antt =====
-- backend/app/models/application.py and the helpers of backend/app/api/applications.py: an application
-- links a listing, an analysis and a resume, each of which may be absent.
pub mod Endpoints
pub mod Hydrate
pub mod Pages
pub mod Found
pub mod Own
pub mod Loaded
pub mod Sound
pub mod Requests
pub mod Reach
pub mod Answers
pub mod RoundTrip
pub mod Ordering
pub mod Paging
pub mod Again
use resume_helper.Base.{
  ℕ, ℤ, Bool, true, false, not, ◌&&◌, ◌||◌, Option, none, some, List, [], ◌∷◌, ◌++◌, Text, text_of,
  or_else, keep, ltb, ◌==◌, if◌then◌else◌,
}
use resume_helper.Uuid.{Uuid, uuid_str}
use resume_helper.Tables.{JobAnalysis, GeneratedResume, AnalysisStatus}
use resume_helper.JobQueue.Store.{Db}
use resume_helper.Audit.{get_analysis, find_resume}
use resume_helper.Scraping.Listing.{JobListing}
use resume_helper.Envelope.{Response, success, error, and_then}

pub data ApplicationStatus : Type 0 where
  planned applied interviewing rejected offer archived : ApplicationStatus

-- A date is a count of days.
pub record Application : Type 0 where
  pub id : Uuid
  pub job_listing_id : Option Uuid
  pub job_analysis_id : Option Uuid
  pub generated_resume_id : Option Uuid
  pub company : Option Text
  pub title : Option Text
  pub source_url : Option Text
  pub status : ApplicationStatus
  pub follow_up_date : Option ℕ
  pub notes : Option Text
  pub created_at : ℕ
  pub updated_at : ℕ

-- The tables that the endpoints read and write.
pub record Board : Type 0 where
  pub applications : List Application
  pub listings : List JobListing
  pub db : Db

-- `db.get(Application, application_id)`
unfoldable pub find_application : Uuid → List Application → Option Application
find_application id [] = none
find_application id (a ∷ apps) = if a.id == id then some a else find_application id apps

-- `db.get(JobListing, job_listing_id)`
unfoldable pub get_listing : Uuid → List JobListing → Option JobListing
get_listing id [] = none
get_listing id (l ∷ listings) = if l.id == id then some l else get_listing id listings

-- `o and f(o)`, where `f` may find nothing.
abbrev pub bind {ℓ κ} : {A : Type ℓ} {B : Type κ} → Option A → (A → Option B) → Option B
bind none f = none
bind (some a) f = f a

-- `x.column if x else None`
abbrev pub map_some {ℓ κ} : {A : Type ℓ} {B : Type κ} → (A → B) → Option A → Option B
map_some f none = none
map_some f (some a) = some (f a)

-- `ORDER BY created_at DESC`, first row.
unfoldable pub newest {ℓ} : {A : Type ℓ} → (A → ℕ) → List A → Option A
newest time [] = none
newest time (x ∷ xs) = elim (newest time xs) [
  | none ↦ some x
  | some y ↦ if ltb (time x) (time y) then some y else some x
]

abbrev pub is_of : Uuid → GeneratedResume → Bool
is_of id r = r.job_analysis_id == id

abbrev pub resume_time : GeneratedResume → ℕ
resume_time r = r.created_at

unfoldable pub latest_resume : Db → Option Uuid → Option GeneratedResume
unfolding newest
latest_resume db none = none
latest_resume db (some id) = newest resume_time (keep (is_of id) db.resumes)

-- `db.get(...)` of a link that may be absent.
unfoldable pub load {ℓ} :
    {A : Type ℓ} → Text → (Uuid → Option A) → Option Uuid → Response (Option A)
load name get none = success none
load name get (some id) = elim (get id) [
  | none ↦
      error (text_of "not_found") (name ++ text_of " " ++ uuid_str id ++ text_of " not found") 404
  | some row ↦ success (some row)
]

pub record Links : Type 0 where
  pub listing : Option JobListing
  pub analysis : Option JobAnalysis
  pub resume : Option GeneratedResume

-- The end of `_load_links`: what the given links lead to.
unfoldable pub complete_links :
    Board → Option JobListing → Option JobAnalysis → Option GeneratedResume → Links
unfolding latest_resume
complete_links board listing analysis resume =
    let of_listing = bind listing (λ l. bind l.job_analysis_id (λ id. get_analysis board.db id)) in
    let of_resume = bind resume (λ r. get_analysis board.db r.job_analysis_id) in
    let analysis' = or_else (or_else analysis of_listing) of_resume in
    record {
      listing = listing;
      analysis = analysis';
      resume = or_else resume (latest_resume board.db (map_some (λ a. a.id) analysis'));
    }

unfoldable pub load_links : Board → Option Uuid → Option Uuid → Option Uuid → Response Links
unfolding load
load_links board job_listing_id job_analysis_id generated_resume_id =
    and_then (load (text_of "Job listing") (λ id. get_listing id board.listings) job_listing_id)
      (λ listing.
        and_then (load (text_of "Job analysis") (λ id. get_analysis board.db id) job_analysis_id)
          (λ analysis.
            and_then
              (load (text_of "Generated resume") (λ id. find_resume id board.db.resumes)
                generated_resume_id)
              (λ resume. success (complete_links board listing analysis resume))))

-- `column == id`, which a NULL column never satisfies; a link that is absent gives no clause.
abbrev pub names : Option Uuid → Option Uuid → Bool
names none id = false
names (some c) none = false
names (some c) (some id) = c == id

abbrev pub listing_id : Links → Option Uuid
listing_id links = map_some (λ l. l.id) links.listing

abbrev pub analysis_id : Links → Option Uuid
analysis_id links = map_some (λ a. a.id) links.analysis

abbrev pub resume_id : Links → Option Uuid
resume_id links = map_some (λ r. r.id) links.resume

unfoldable pub shares_link : Links → Application → Bool
shares_link links a =
    names a.job_listing_id (listing_id links)
    || names a.job_analysis_id (analysis_id links)
    || names a.generated_resume_id (resume_id links)

abbrev pub application_time : Application → ℕ
application_time a = a.created_at

unfoldable pub find_existing : Board → Links → Option Application
unfolding newest shares_link
find_existing board links = newest application_time (keep (shares_link links) board.applications)

pub record ApplicationOut : Type 0 where
  pub id : Uuid
  pub job_listing_id : Option Uuid
  pub job_analysis_id : Option Uuid
  pub generated_resume_id : Option Uuid
  pub status : ApplicationStatus
  pub follow_up_date : Option ℕ
  pub notes : Option Text
  pub created_at : ℕ
  pub updated_at : ℕ
  pub company : Option Text
  pub title : Option Text
  pub source_url : Option Text
  pub score : Option ℤ
  pub analysis_status : Option AnalysisStatus
  pub pdf_url : Option Text

-- `s or t`, where the empty text counts as absent.
abbrev pub or_text : Option Text → Option Text → Option Text
or_text none d = d
or_text (some []) d = d
or_text (some (c ∷ s)) d = some (c ∷ s)

unfoldable pub application_out : Application → Links → ApplicationOut
application_out app links = record {
  id = app.id;
  job_listing_id = app.job_listing_id;
  job_analysis_id = app.job_analysis_id;
  generated_resume_id = app.generated_resume_id;
  status = app.status;
  follow_up_date = app.follow_up_date;
  notes = app.notes;
  created_at = app.created_at;
  updated_at = app.updated_at;
  company = or_text app.company (map_some (λ l. l.company) links.listing);
  title = or_text app.title (map_some (λ l. l.title) links.listing);
  source_url = or_text app.source_url (map_some (λ l. l.url) links.listing);
  score = bind links.analysis (λ a. a.score);
  analysis_status = bind links.analysis (λ a. a.status);
  pdf_url = bind links.resume (λ r. r.pdf_url);
}
