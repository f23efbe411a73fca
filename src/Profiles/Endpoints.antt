-- ===== src/Profiles/Endpoints.antt =====
-- The endpoints of backend/app/api/profile.py. A path's id is a natural number: the table has no
-- negative one. The file system, the clock and the PDF libraries are arguments.
use resume_helper.Base.{
  ℕ, ◌+◌, Bool, true, false, Option, none, some, List, [], ◌∷◌, ◌++◌, Text, text_of, text_eq, keep,
  length, or_none, get_or, ◌==◌, ◌&&◌, if◌then◌else◌,
}
use resume_helper.Decimal.{decimal}
use resume_helper.Json.{Payload}
use resume_helper.Tables.{BaselineProfile, JobAnalysis, GeneratedResume}
use resume_helper.JobQueue.Store.{Db}
use resume_helper.Envelope.{Response, success, error, unhandled}
use resume_helper.Profiles.{
  get_profile, get_default_profile, create_profile, set_profile, ProfileUpdate, update_profile,
  delete_profile,
}
use resume_helper.Profiles.Pdf.{
  PdfReader, UploadFile, join, extract_pdf_text, is_pdf_name, read_pdf_upload,
}

-- A resolved path by its parts. `resolve` is `none` where it raises, and `write` is false where making
-- the directory or writing the file raises.
pub record FileSystem : Type 0 where
  pub storage_dir : Text
  pub resolve : Text → Option (List Text)
  pub exists : List Text → Bool
  pub write : Text → List ℕ → Bool

-- What an upload does not decide: the clock, as a time and as the name of the file.
pub record UploadEnv : Type 0 where
  pub reader : PdfReader
  pub files : FileSystem
  pub max_upload_bytes : ℕ
  pub now : ℕ
  pub timestamp : Text

abbrev pub not_found : ℕ → Text
not_found id = text_of "profile " ++ decimal id ++ text_of " not found"

unfoldable pub save_pdf : FileSystem → Text → ℕ → List ℕ → Option Text
unfolding join
save_pdf files timestamp profile_id pdf_bytes =
    let target =
      files.storage_dir
      ++ text_of "/profiles/"
      ++ decimal profile_id
      ++ text_of "/"
      ++ timestamp
      ++ text_of ".pdf" in
    if files.write target pdf_bytes
    then (elim (files.resolve target) [ none ↦ none | some path ↦ some (47 ∷ join (47 ∷ []) path) ])
    else none

-- The profile is committed before its file is written: when that raises, it stays without a path.
unfoldable pub persist_pdf_for_profile :
    UploadEnv → BaselineProfile → List ℕ → Db → Db × Response BaselineProfile
unfolding save_pdf set_profile
persist_pdf_for_profile env profile pdf_bytes db =
    elim (save_pdf env.files env.timestamp profile.id pdf_bytes) [
      | none ↦ (db, unhandled (text_of "OSError"))
      | some path ↦
          let saved = record profile { pdf_path = some path } in
          (record db { profiles = set_profile saved db.profiles }, success saved)
    ]

-- What the upload endpoints do before they differ: the checks of the file, and the text in it.
unfoldable pub checked_upload {ℓ} :
    {A : Type ℓ}
    → UploadEnv
    → Text
    → UploadFile
    → (Text → List ℕ → Db → Db × Response A)
    → Db
    → Db × Response A
unfolding is_pdf_name read_pdf_upload
checked_upload env message file next db =
    if is_pdf_name file.filename
    then (elim (read_pdf_upload env.max_upload_bytes file) [
      | none ↦ (
        db,
        error (text_of "payload_too_large")
            (text_of "Uploaded PDF exceeds the configured size limit.") 413,
      )
      | some pdf_bytes ↦ elim (extract_pdf_text env.reader pdf_bytes) [
        | none ↦ (db, error (text_of "pdf_error") message 422)
        | some extracted_text ↦ next extracted_text pdf_bytes db
      ]
    ])
    else (db, error (text_of "invalid_input") (text_of "Only PDF files are accepted") 400)

abbrev no_text_message : Text
no_text_message = text_of "Could not extract text from PDF. Please check the file format."

-- `skills_text or extracted_text`
abbrev pub or_extracted : Option Text → Text → Text
or_extracted none extracted_text = extracted_text
or_extracted (some skills_text) extracted_text = get_or (or_none skills_text) extracted_text

-- The profile of an upload, and its file.
unfoldable pub create_uploaded :
    UploadEnv
    → Option Text
    → Option Text
    → Bool
    → Text
    → List ℕ
    → Db
    → Db × Response BaselineProfile
create_uploaded env name skills_text is_default extracted_text pdf_bytes db =
    let (created, profile) =
      create_profile env.now (or_extracted skills_text extracted_text) name is_default db in
    persist_pdf_for_profile env profile pdf_bytes created

unfoldable pub upload_profile_pdf :
    UploadEnv → UploadFile → Option Text → Option Text → Bool → Db → Db × Response BaselineProfile
upload_profile_pdf env file name skills_text is_default db =
    checked_upload env no_text_message file (create_uploaded env name skills_text is_default) db

unfoldable pub preview_profile_pdf : UploadEnv → UploadFile → Db → Db × Response Text
unfolding checked_upload
preview_profile_pdf env file db =
    checked_upload env no_text_message file
      (λ extracted_text pdf_bytes store. (store, success extracted_text)) db

unfoldable pub upload_profile_legacy : UploadEnv → UploadFile → Db → Db × Response BaselineProfile
upload_profile_legacy env file db =
    checked_upload env (text_of "Could not read PDF.") file (create_uploaded env none none false) db

-- `ProfileIn`, for the endpoint on profiles and the older one on the profile.
unfoldable pub create_profile_endpoint :
    ℕ → Text → Option Text → Bool → Db → Db × Response BaselineProfile
create_profile_endpoint now skills_text name is_default db =
    let (db', profile) = create_profile now skills_text name is_default db in (db', success profile)

unfoldable pub get_profile_endpoint : ℕ → Db → Response BaselineProfile
get_profile_endpoint profile_id db = elim (get_profile db profile_id) [
  | none ↦ error (text_of "not_found") (not_found profile_id) 404
  | some profile ↦ success profile
]

unfoldable pub get_profile_legacy : Db → Response BaselineProfile
get_profile_legacy db = elim (get_default_profile db) [
  | none ↦ error (text_of "not_found") (text_of "No baseline profile set yet") 404
  | some profile ↦ success profile
]

-- `body or None`
abbrev pub some_or_null : Payload → Option Payload
some_or_null [] = none
some_or_null (item ∷ body) = some (item ∷ body)

unfoldable pub put_profile_structured : ℕ → Payload → Db → Db × Response BaselineProfile
unfolding set_profile
put_profile_structured profile_id body db = elim (get_profile db profile_id) [
  | none ↦ (db, error (text_of "not_found") (not_found profile_id) 404)
  | some profile ↦
      let saved = record profile { structured_data = some_or_null body } in
      (record db { profiles = set_profile saved db.profiles }, success saved)
]

unfoldable pub update_profile_endpoint : ℕ → ℕ → ProfileUpdate → Db → Db × Response BaselineProfile
update_profile_endpoint now profile_id body db =
    let (db', updated) = update_profile now profile_id body db in
    elim updated [
      | none ↦ (db', error (text_of "not_found") (not_found profile_id) 404)
      | some profile ↦ (db', success profile)
    ]

unfoldable pub delete_profile_endpoint : ℕ → Db → Db × Response ℕ
delete_profile_endpoint profile_id db =
    let (db', deleted) = delete_profile profile_id db in
    elim deleted [
      | none ↦ (db', error (text_of "not_found") (not_found profile_id) 404)
      | some id ↦ (db', success id)
    ]

-- `ProfileDeleteImpactOut`
pub record DeleteImpact : Type 0 where
  pub profile_id : ℕ
  pub job_analyses_count : ℕ
  pub generated_resumes_count : ℕ

abbrev pub of_profile : ℕ → JobAnalysis → Bool
of_profile id a = elim a.profile_id [ none ↦ false | some n ↦ n == id ]

-- The rows of the join, one for each resume and analysis that fit.
unfoldable pub joined_count : ℕ → List JobAnalysis → List GeneratedResume → ℕ
joined_count id analyses [] = 0
joined_count id analyses (r ∷ resumes) =
    length (keep (λ (a : JobAnalysis). r.job_analysis_id == a.id && of_profile id a) analyses)
    + joined_count id analyses resumes

unfoldable pub profile_delete_impact : ℕ → Db → Response DeleteImpact
unfolding joined_count
profile_delete_impact profile_id db = elim (get_profile db profile_id) [
  | none ↦ error (text_of "not_found") (not_found profile_id) 404
  | some profile ↦ success (record {
    profile_id = profile_id;
    job_analyses_count = length (keep (of_profile profile_id) db.analyses);
    generated_resumes_count = joined_count profile_id db.analyses db.resumes;
  })
]

-- `path.relative_to(storage_root)` raises for a path that is not below the root.
unfoldable pub is_below : List Text → List Text → Bool
unfolding text_eq
is_below [] path = true
is_below (part ∷ root) [] = false
is_below (part ∷ root) (p ∷ path) = text_eq part p && is_below root path

abbrev no_file : Response (List Text)
no_file = error (text_of "not_found") (text_of "profile PDF file is missing on disk") 404

abbrev pub stored_path : BaselineProfile → Option Text
stored_path profile = elim profile.pdf_path [ none ↦ none | some path ↦ or_none path ]

unfoldable pub get_profile_pdf : FileSystem → ℕ → Db → Response (List Text)
unfolding is_below
get_profile_pdf files profile_id db = elim (get_profile db profile_id) [
  | none ↦ error (text_of "not_found") (not_found profile_id) 404
  | some profile ↦ elim (stored_path profile) [
    | none ↦ error (text_of "not_found") (text_of "profile has no uploaded PDF") 404
    | some pdf_path ↦ elim (files.resolve files.storage_dir) [
      | none ↦ unhandled (text_of "OSError")
      | some storage_root ↦ elim (files.resolve pdf_path) [
        | none ↦ no_file
        | some path ↦
            if is_below storage_root path && files.exists path then success path else no_file
      ]
    ]
  ]
]
