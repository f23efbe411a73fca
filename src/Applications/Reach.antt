-- ===== src/Applications/Reach.antt =====
-- The tables that the endpoints of backend/app/api/applications.py can make, and the deletions of
-- backend/app/services/listing_admin.py beside them.
use resume_helper.Base.{subst, ◌≡◌, sym, true, Option, [], All, All-map, ℕ}
use resume_helper.Uuid.{Uuid}
use resume_helper.Audit.{has_analysis, has_resume}
use resume_helper.Applications.{Board}
use resume_helper.Applications.Endpoints.{
  ApplicationCreateIn, ApplicationUpdateIn, create_application, update_application,
  delete_application,
}
use resume_helper.Listings.Admin.{AdminEnv, JobListingBulkDeleteIn, bulk_delete}
use resume_helper.Listings.Deletions.{bulk_delete-IsSound}
use resume_helper.Applications.Sound.{has_listing, IsLinked, IsSound, Distinct}
use resume_helper.Applications.Requests.{
  create_application-IsSound, update_application-IsSound, delete_application-IsSound,
}

-- What other requests leave of the tables that an application may link: every row that had an id.
pub record Keeps (board board' : Board) : Type 0 where
  pub applications : board'.applications ≡ board.applications
  pub listings : (o : Option Uuid) → has_listing board o ≡ true → has_listing board' o ≡ true
  pub analyses :
      (o : Option Uuid) → has_analysis board.db o ≡ true → has_analysis board'.db o ≡ true
  pub resumes : (o : Option Uuid) → has_resume board.db o ≡ true → has_resume board'.db o ≡ true

pub data Reach (start : Board) : Board → Type 0 where
  begin : Reach start start
  create :
      {board : Board}
      → Reach start board
      → (id : Uuid) (now : ℕ) (body : ApplicationCreateIn)
      → Reach start (create_application id now body board).0
  update :
      {board : Board}
      → Reach start board
      → (now : ℕ) (id : Uuid) (body : ApplicationUpdateIn)
      → Reach start (update_application now id body board).0
  delete :
      {board : Board}
      → Reach start board
      → (id : Uuid) → Reach start (delete_application id board).0
  bulk :
      {board : Board}
      → Reach start board
      → (env : AdminEnv) (body : JobListingBulkDeleteIn)
      → Reach start (bulk_delete env body board).0
  elsewhere : {board board' : Board} → Reach start board → Keeps board board' → Reach start board'

Keeps-IsSound : (board board' : Board) → Keeps board board' → IsSound board → IsSound board'
Keeps-IsSound board board' k s = record {
  linked = subst (All (IsLinked board')) (sym k.applications) (
      All-map board.applications
        (λ a h. record {
          listing = k.listings a.job_listing_id h.listing;
          analysis = k.analyses a.job_analysis_id h.analysis;
          resume = k.resumes a.generated_resume_id h.resume;
        })
        s.linked);
  distinct = subst Distinct (sym k.applications) s.distinct;
}

-- In every table that the requests on applications and the deletions of listings can make of one without
-- applications, no two applications have the same id, and every link of an application names a row, so long
-- as other requests remove no row.
pub Reach-IsSound :
    (start board : Board) → start.applications ≡ [] → Reach start board → IsSound board
Reach-IsSound start board empty begin = record {
  linked = subst (All (IsLinked start)) (sym empty) tt;
  distinct = subst Distinct (sym empty) tt;
}
Reach-IsSound start board empty (create {board = b} r id now body) =
    create_application-IsSound id now body b (Reach-IsSound start b empty r)
Reach-IsSound start board empty (update {board = b} r now id body) =
    update_application-IsSound now id body b (Reach-IsSound start b empty r)
Reach-IsSound start board empty (delete {board = b} r id) =
    delete_application-IsSound id b (Reach-IsSound start b empty r)
Reach-IsSound start board empty (bulk {board = b} r env body) =
    bulk_delete-IsSound env body b (Reach-IsSound start b empty r)
Reach-IsSound start board empty (elsewhere {board = b} r k) =
    Keeps-IsSound b board k (Reach-IsSound start b empty r)
