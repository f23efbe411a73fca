-- ===== src/Applications/Endpoints.antt =====
-- The endpoints of backend/app/api/applications.py that read or write one application. One request is
-- one step; its clock and the id of a new row are arguments.
use resume_helper.Base.{
  ℕ, Bool, true, false, not, ◌&&◌, ◌||◌, Option, none, some, List, [], ◌∷◌, ◌++◌, Text, text_of,
  text_eq, or_else, or_none, get_or, is_some, strip, ◌==◌, if◌then◌else◌,
}
use resume_helper.Uuid.{Uuid, uuid_str}
use resume_helper.Envelope.{Response, success, error, unhandled}
use resume_helper.Applications.{
  ApplicationStatus, planned, applied, interviewing, rejected, offer, archived, Application, Board,
  find_application, Links, load_links, find_existing, ApplicationOut, application_out, listing_id,
  analysis_id, resume_id, map_some,
}
use resume_helper.Applications.Hydrate.{hydrate}

pub record ApplicationCreateIn : Type 0 where
  pub job_listing_id : Option Uuid
  pub job_analysis_id : Option Uuid
  pub generated_resume_id : Option Uuid
  pub company : Option Text
  pub title : Option Text
  pub source_url : Option Text
  pub status : ApplicationStatus
  pub follow_up_date : Option ℕ
  pub notes : Option Text

-- `none` is a field that is not in `model_fields_set`, and `some none` is an explicit null.
pub record ApplicationUpdateIn : Type 0 where
  pub job_listing_id : Option (Option Uuid)
  pub job_analysis_id : Option (Option Uuid)
  pub generated_resume_id : Option (Option Uuid)
  pub company : Option (Option Text)
  pub title : Option (Option Text)
  pub source_url : Option (Option Text)
  pub status : Option (Option ApplicationStatus)
  pub follow_up_date : Option (Option ℕ)
  pub notes : Option (Option Text)

-- `(value or "").strip() or None`
abbrev pub label : Option Text → Option Text
label value = or_none (strip (get_or value []))

unfoldable pub has_link : ApplicationCreateIn → Bool
has_link body =
    is_some body.job_listing_id || is_some body.job_analysis_id || is_some body.generated_resume_id

unfoldable pub has_manual_label : ApplicationCreateIn → Bool
has_manual_label body = is_some (label body.company) && is_some (label body.title)

unfoldable pub status_eq : ApplicationStatus → ApplicationStatus → Bool
status_eq planned planned = true
status_eq applied applied = true
status_eq interviewing interviewing = true
status_eq rejected rejected = true
status_eq offer offer = true
status_eq archived archived = true
status_eq _ _ = false

abbrev pub option_eq {ℓ} : {A : Type ℓ} → (A → A → Bool) → Option A → Option A → Bool
option_eq eq none none = true
option_eq eq (some a) (some b) = eq a b
option_eq eq _ _ = false

-- Whether the columns that an endpoint sets have the values that they had.
unfoldable pub is_unchanged : Application → Application → Bool
unfolding status_eq
is_unchanged old new =
    option_eq ◌==◌ old.job_listing_id new.job_listing_id
    && option_eq ◌==◌ old.job_analysis_id new.job_analysis_id
    && option_eq ◌==◌ old.generated_resume_id new.generated_resume_id
    && option_eq text_eq old.company new.company
    && option_eq text_eq old.title new.title
    && option_eq text_eq old.source_url new.source_url
    && status_eq old.status new.status
    && option_eq ◌==◌ old.follow_up_date new.follow_up_date
    && option_eq text_eq old.notes new.notes

-- `onupdate=_now`: the UPDATE of a row that has changed sets its time, and there is none otherwise.
unfoldable pub touched : ℕ → Application → Application → Application
unfolding is_unchanged
touched now old new = if is_unchanged old new then old else record new { updated_at = now }

unfoldable pub set_application : Application → List Application → List Application
set_application app [] = []
set_application app (a ∷ apps) = if a.id == app.id then app ∷ apps else a ∷ set_application app apps

abbrev pub with_applications : List Application → Board → Board
with_applications applications board = record board { applications = applications }

-- The fields of an application that there is already, as a second creation sets them.
unfoldable pub reuse_application : ApplicationCreateIn → Links → Application → Application
reuse_application body links existing = record existing {
  generated_resume_id = or_else existing.generated_resume_id (resume_id links);
  follow_up_date = or_else body.follow_up_date existing.follow_up_date;
  notes = or_else body.notes existing.notes;
  status = body.status;
}

unfoldable pub new_application : Uuid → ℕ → ApplicationCreateIn → Links → Application
new_application id now body links = record {
  id = id;
  job_listing_id = listing_id links;
  job_analysis_id = analysis_id links;
  generated_resume_id = resume_id links;
  company = label body.company;
  title = label body.title;
  source_url = label body.source_url;
  status = body.status;
  follow_up_date = body.follow_up_date;
  notes = body.notes;
  created_at = now;
  updated_at = now;
}

-- What a creation answers, and whether the application was there already (`existing=True`).
abbrev pub Created : Type 0
Created = ApplicationOut × Bool

unfoldable pub insert_application : Application → Links → Board → Board × Response Created
insert_application app links board =
    if is_some (find_application app.id board.applications)
    then (board, unhandled (text_of "IntegrityError"))
    else (
      with_applications (board.applications ++ app ∷ []) board,
      success (application_out app links, false),
    )

-- A creation, once its links are loaded.
unfoldable pub create_or_reuse :
    Uuid → ℕ → ApplicationCreateIn → Links → Board → Board × Response Created
unfolding set_application touched reuse_application new_application insert_application
create_or_reuse id now body links board = elim (find_existing board links) [
  | some existing ↦
      let app = touched now existing (reuse_application body links existing) in
      (
        with_applications (set_application app board.applications) board,
        success (application_out app links, true),
      )
  | none ↦ insert_application (new_application id now body links) links board
]

unfoldable pub create_application :
    Uuid → ℕ → ApplicationCreateIn → Board → Board × Response Created
unfolding has_link has_manual_label create_or_reuse
create_application id now body board =
    if not (has_link body) && not (has_manual_label body)
    then (
      board,
      error (text_of "missing_application_target")
          (text_of "Provide a linked record or both company and title.") 422,
    )
    else elim (load_links board body.job_listing_id body.job_analysis_id body.generated_resume_id) [
      | success links ↦ create_or_reuse id now body links board
      | error code message status_code ↦ (board, error code message status_code)
      | unhandled name ↦ (board, unhandled name)
    ]

unfoldable pub missing_application {ℓ} : {A : Type ℓ} → Uuid → Response A
missing_application id =
    error (text_of "not_found") (text_of "Application " ++ uuid_str id ++ text_of " not found") 404

-- `_hydrate(db, [app])[0]`; the list is never empty.
unfoldable pub get_application : Uuid → Board → Response ApplicationOut
unfolding missing_application
get_application id board = elim (find_application id board.applications) [
  | none ↦ missing_application id
  | some app ↦ elim (hydrate board (app ∷ [])) [
    | [] ↦ unhandled (text_of "IndexError")
    | row ∷ _ ↦ success row
  ]
]

-- `value.strip() or None`, of a value that may be null.
abbrev pub stripped : Option Text → Option Text
stripped none = none
stripped (some value) = or_none (strip value)

-- The row with the links and the fields of an update; `none` where its status is an explicit null,
-- which the column refuses at the commit.
unfoldable pub edit_application : ApplicationUpdateIn → Links → Application → Option Application
edit_application body links app = elim (get_or body.status (some app.status)) [
  | none ↦ none
  | some status ↦ some (record {
    id = app.id;
    job_listing_id = listing_id links;
    job_analysis_id = analysis_id links;
    generated_resume_id = resume_id links;
    company = get_or (map_some stripped body.company) app.company;
    title = get_or (map_some stripped body.title) app.title;
    source_url = get_or (map_some stripped body.source_url) app.source_url;
    status = status;
    follow_up_date = get_or body.follow_up_date app.follow_up_date;
    notes = get_or (map_some stripped body.notes) app.notes;
    created_at = app.created_at;
    updated_at = app.updated_at;
  })
]

unfoldable pub update_links :
    ℕ → ApplicationUpdateIn → Application → Links → Board → Board × Response ApplicationOut
unfolding edit_application touched set_application
update_links now body app links board = elim (edit_application body links app) [
  | none ↦ (board, unhandled (text_of "IntegrityError"))
  | some edited ↦
      let app' = touched now app edited in
      (
        with_applications (set_application app' board.applications) board,
        success (application_out app' links),
      )
]

unfoldable pub update_application :
    ℕ → Uuid → ApplicationUpdateIn → Board → Board × Response ApplicationOut
unfolding update_links missing_application
update_application now id body board = elim (find_application id board.applications) [
  | none ↦ (board, missing_application id)
  | some app ↦
      elim (load_links board (get_or body.job_listing_id app.job_listing_id)
        (get_or body.job_analysis_id app.job_analysis_id)
        (get_or body.generated_resume_id app.generated_resume_id)) [
          | success links ↦ update_links now body app links board
          | error code message status_code ↦ (board, error code message status_code)
          | unhandled name ↦ (board, unhandled name)
        ]
]

unfoldable pub remove_application : Uuid → List Application → List Application
remove_application id [] = []
remove_application id (a ∷ apps) =
    let rest = remove_application id apps in if a.id == id then rest else a ∷ rest

unfoldable pub delete_application : Uuid → Board → Board × Response Uuid
unfolding remove_application missing_application
delete_application id board = elim (find_application id board.applications) [
  | none ↦ (board, missing_application id)
  | some app ↦ (with_applications (remove_application id board.applications) board, success id)
]
