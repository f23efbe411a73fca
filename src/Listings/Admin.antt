-- ===== src/Listings/Admin.antt =====
-- backend/app/services/listing_admin.py and the endpoint of backend/app/api/job_listings.py that calls it.
use resume_helper.Base.{
  ℕ, ◌+◌, ◌*◌, Bool, true, not, ◌&&◌, ◌||◌, Option, none, some, List, [], ◌∷◌, ◌++◌, ◌⊎◌, inl, inr,
  Text, text_of, get_or, is_some, keep, length, ltb, map, if◌then◌else◌,
}
use resume_helper.Uuid.{Uuid, uuid_str}
use resume_helper.JobQueue.Job.{AiJob}
use resume_helper.JobQueue.Claim.{contains}
use resume_helper.Envelope.{Response, success, error, unhandled}
use resume_helper.Scraping.Listing.{JobListing}
use resume_helper.Applications.{Application, Board, map_some}

pub record JobListingBulkDeleteIn : Type 0 where
  pub ids : Option (List Uuid)
  pub older_than_days : Option ℕ
  pub only_unanalyzed : Bool
  pub force : Bool
  pub backup : Bool

-- `_exactly_one_target`
unfoldable pub has_one_target : JobListingBulkDeleteIn → Bool
has_one_target body =
    if is_some body.ids then not (is_some body.older_than_days) else is_some body.older_than_days

-- What an exception of the backup is.
pub data BackupError : Type 0 where
  os_error : Text → BackupError
  value_error : Text → BackupError

-- The clock, `isoformat`, `json.dumps`, and the writing of the CSV file: its path, or the text of the
-- `OSError`.
pub record AdminEnv : Type 0 where
  pub now : ℕ
  pub isoformat : ℕ → Text
  pub dumps : Text → Text
  pub write_csv : List (List Text) → Text ⊎ Text

abbrev pub csv_header : List Text
csv_header =
    text_of "id"
    ∷ text_of "source"
    ∷ text_of "source_id"
    ∷ text_of "title"
    ∷ text_of "company"
    ∷ text_of "location"
    ∷ text_of "url"
    ∷ text_of "description"
    ∷ text_of "raw_json"
    ∷ text_of "scraped_at"
    ∷ text_of "changed_at"
    ∷ text_of "job_analysis_id"
    ∷ []

unfoldable pub csv_row : AdminEnv → JobListing → List Text
csv_row env row =
    uuid_str row.id
    ∷ row.source
    ∷ row.source_id
    ∷ row.title
    ∷ row.company
    ∷ get_or row.location []
    ∷ row.url
    ∷ row.description
    ∷ get_or (map_some env.dumps row.raw_json) []
    ∷ env.isoformat row.scraped_at
    ∷ get_or (map_some env.isoformat row.changed_at) []
    ∷ get_or (map_some uuid_str row.job_analysis_id) []
    ∷ []

unfoldable pub write_backup : AdminEnv → List JobListing → BackupError ⊎ Text
unfolding csv_row
write_backup env [] = inl (value_error (text_of "nothing to back up"))
write_backup env (l ∷ listings) =
    elim (env.write_csv (csv_header ∷ map (csv_row env) (l ∷ listings))) [
      | inl message ↦ inl (os_error message)
      | inr path ↦ inr path
    ]

-- Microseconds.
abbrev pub day : ℕ
day = 86_400_000_000

-- `scraped_at < now - timedelta(days=days)`, and the test of `only_unanalyzed`.
unfoldable pub is_old : AdminEnv → ℕ → Bool → JobListing → Bool
is_old env days only_unanalyzed l =
    ltb (l.scraped_at + days * day) env.now
    && (not only_unanalyzed || not (is_some l.job_analysis_id))

unfoldable pub is_target : AdminEnv → JobListingBulkDeleteIn → JobListing → Bool
unfolding is_old contains
is_target env body l = elim body.ids [
  | some ids ↦ contains l.id ids
  | none ↦ elim body.older_than_days [
    | none ↦ true
    | some days ↦ is_old env days body.only_unanalyzed l
  ]
]

unfoldable pub resolve_targets :
    AdminEnv → JobListingBulkDeleteIn → List JobListing → List JobListing
unfolding is_target
resolve_targets env body listings = keep (is_target env body) listings

-- Whether a target is deleted; the others are refused.
unfoldable pub is_deletable : Bool → JobListing → Bool
is_deletable force l = not (is_some l.job_analysis_id && not force)

abbrev pub is_refused : Bool → JobListing → Bool
is_refused force l = is_some l.job_analysis_id && not force

abbrev pub listing_ids : List JobListing → List Uuid
listing_ids listings = map (λ (l : JobListing). l.id) listings

-- `ON DELETE SET NULL`
unfoldable pub unlink_listing : List Uuid → Option Uuid → Option Uuid
unfolding contains
unlink_listing ids none = none
unlink_listing ids (some id) = if contains id ids then none else some id

unfoldable pub unlink_application : List Uuid → Application → Application
unfolding unlink_listing
unlink_application ids a = record a { job_listing_id = unlink_listing ids a.job_listing_id }

unfoldable pub unlink_job : List Uuid → AiJob → AiJob
unfolding unlink_listing
unlink_job ids j = record j { job_listing_id = unlink_listing ids j.job_listing_id }

-- The DELETE of the listings with the ids, and what their foreign keys do.
unfoldable pub delete_listings : List Uuid → Board → Board
unfolding contains unlink_application unlink_job
delete_listings ids board = record {
  applications = map (unlink_application ids) board.applications;
  listings = keep (λ l. not (contains l.id ids)) board.listings;
  db = record (board.db) { jobs = map (unlink_job ids) board.db.jobs };
}

pub record Deletion : Type 0 where
  pub deleted_count : ℕ
  pub refused_ids : List Uuid
  pub backup_path : Option Text

-- The backup comes first: where it raises, nothing is deleted.
unfoldable pub delete_backed_up :
    AdminEnv → Bool → List JobListing → List Uuid → Board → Board × (BackupError ⊎ Deletion)
unfolding write_backup delete_listings
delete_backed_up env backup to_delete refused board =
    let ids = listing_ids to_delete in
    let deletion : Option Text → Deletion =
      λ path. record { deleted_count = length ids; refused_ids = refused; backup_path = path } in
    if backup
    then (elim (write_backup env to_delete) [
      | inl e ↦ (board, inl e)
      | inr path ↦ (delete_listings ids board, inr (deletion (some path)))
    ])
    else (delete_listings ids board, inr (deletion none))

unfoldable pub bulk_delete :
    AdminEnv → JobListingBulkDeleteIn → Board → Board × (BackupError ⊎ Deletion)
unfolding resolve_targets is_deletable delete_backed_up
bulk_delete env body board =
    let targets = resolve_targets env body board.listings in
    let to_delete = keep (is_deletable body.force) targets in
    let refused = listing_ids (keep (is_refused body.force) targets) in
    elim to_delete [
      | [] ↦ (board, inr (record { deleted_count = 0; refused_ids = refused; backup_path = none }))
      | l ∷ rest ↦ delete_backed_up env body.backup (l ∷ rest) refused board
    ]

pub record JobListingBulkDeleteOut : Type 0 where
  pub deleted : ℕ
  pub refused : ℕ
  pub refused_ids : List Uuid
  pub backup_path : Option Text

unfoldable pub bulk_delete_job_listings :
    AdminEnv → JobListingBulkDeleteIn → Board → Board × Response JobListingBulkDeleteOut
unfolding bulk_delete
bulk_delete_job_listings env body board =
    let (board', result) = bulk_delete env body board in
    elim result [
      | inl (os_error message) ↦ (
        board',
        error (text_of "backup_failed") (text_of "Failed to write deletion backup: " ++ message)
            500,
      )
      | inl (value_error _) ↦ (board', unhandled (text_of "ValueError"))
      | inr deletion ↦ (
        board',
        success (record {
          deleted = deletion.deleted_count;
          refused = length deletion.refused_ids;
          refused_ids = deletion.refused_ids;
          backup_path = deletion.backup_path;
        }),
      )
    ]
