-- ===== src/Profiles/Reach.antt =====
-- Every table of profiles that the endpoints of backend/app/api/profile.py can make of an empty one.
use resume_helper.Base.{subst, sym, ℕ, ◌≡◌, Bool, false, Option, none, [], Text}
use resume_helper.Json.{Payload}
use resume_helper.JobQueue.Store.{Db}
use resume_helper.Profiles.{ProfileUpdate}
use resume_helper.Profiles.Pdf.{UploadFile}
use resume_helper.Profiles.Endpoints.{
  UploadEnv, create_profile_endpoint, update_profile_endpoint, delete_profile_endpoint,
  put_profile_structured, upload_profile_pdf, upload_profile_legacy, create_uploaded,
}
use resume_helper.Profiles.Extract.{ExtractEnv, extract_profile_structured}
use resume_helper.Profiles.Sound.{IsTidy}
use resume_helper.Profiles.Tidy.{
  create_profile-IsTidy, update_profile-IsTidy, delete_profile-IsTidy,
}
use resume_helper.Profiles.Requests.{
  put_profile_structured-IsTidy, checked_upload-IsTidy, create_uploaded-IsTidy,
  extract_profile_structured-IsTidy, update_profile_endpoint-db, delete_profile_endpoint-db,
  no_profiles-IsTidy,
}

-- Requests may come in any order, and others are answered while an LLM is waited for; what else the program does leaves the profiles as they are.
pub data Reach : Db → Type 0 where
  empty : {u : Db} → u.profiles ≡ [] → Reach u
  create :
      {u : Db}
      → Reach u
      → (now : ℕ) (skills_text : Text) (name : Option Text) (is_default : Bool)
      → Reach (create_profile_endpoint now skills_text name is_default u).0
  upload :
      {u : Db}
      → Reach u
      → (env : UploadEnv) (file : UploadFile) (name skills_text : Option Text) (is_default : Bool)
      → Reach (upload_profile_pdf env file name skills_text is_default u).0
  upload_legacy :
      {u : Db}
      → Reach u
      → (env : UploadEnv) (file : UploadFile) → Reach (upload_profile_legacy env file u).0
  put_structured :
      {u : Db} → Reach u → (id : ℕ) (body : Payload) → Reach (put_profile_structured id body u).0
  extract :
      {u : Db}
      → Reach u
      → (env : ExtractEnv) (id : ℕ) → Reach (env.others u)
      → Reach (extract_profile_structured env id u).0
  update :
      {u : Db}
      → Reach u
      → (now id : ℕ) (body : ProfileUpdate) → Reach (update_profile_endpoint now id body u).0
  delete : {u : Db} → Reach u → (id : ℕ) → Reach (delete_profile_endpoint id u).0
  elsewhere :
      {u : Db}
      → Reach u
      → (v : Db) → Reach (record v { profiles = u.profiles; next_profile_id = u.next_profile_id })

-- In every table that requests can make of a table without profiles no two profiles have the same id,
-- every id is below the next one, at most one profile is the default, and no profile's text has a NUL.
pub Reach-IsTidy : {u : Db} → Reach u → IsTidy u
unfolding create_profile_endpoint upload_profile_pdf upload_profile_legacy
Reach-IsTidy (empty e) = no_profiles-IsTidy _ e
Reach-IsTidy (create r now skills_text name is_default) =
    create_profile-IsTidy now skills_text name is_default _ (Reach-IsTidy r)
Reach-IsTidy (upload r env file name skills_text is_default) =
    let t = Reach-IsTidy r in
    checked_upload-IsTidy env _ file (create_uploaded env name skills_text is_default) _ t
      (λ text pdf_bytes. create_uploaded-IsTidy env name skills_text is_default text pdf_bytes _ t)
Reach-IsTidy (upload_legacy r env file) =
    let t = Reach-IsTidy r in
    checked_upload-IsTidy env _ file (create_uploaded env none none false) _ t
      (λ text pdf_bytes. create_uploaded-IsTidy env none none false text pdf_bytes _ t)
Reach-IsTidy (put_structured r id body) = put_profile_structured-IsTidy id body _ (Reach-IsTidy r)
Reach-IsTidy (extract r env id between) =
    extract_profile_structured-IsTidy env id _ (Reach-IsTidy r) (Reach-IsTidy between)
Reach-IsTidy (update r now id body) =
    subst IsTidy (sym (update_profile_endpoint-db now id body _))
      (update_profile-IsTidy now id body _ (Reach-IsTidy r))
Reach-IsTidy (delete r id) =
    subst IsTidy (sym (delete_profile_endpoint-db id _))
      (delete_profile-IsTidy id _ (Reach-IsTidy r))
Reach-IsTidy (elsewhere r v) =
    let t = Reach-IsTidy r in record { sound = t.sound; one_default = t.one_default }
