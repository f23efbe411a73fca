-- ===== src/Profiles/Requests.antt =====
-- Each endpoint of backend/app/api/profile.py keeps the table of profiles tidy.
use resume_helper.Base.{
  subst, sym, ℕ, ◌≤◌, ◌≡◌, refl, inl, inr, Bool, true, false, Option, none, some, List, [], ◌∷◌,
  ◌++◌, length, arith, Bool-cases, Option-cases, Text,
}
use resume_helper.Json.{Payload}
use resume_helper.Tables.{BaselineProfile}
use resume_helper.JobQueue.Store.{Db}
use resume_helper.Profiles.{
  find_profile, set_only_default, remove_nul, create_profile, ProfileUpdate, get_profile,
  new_profile, update_profile, delete_profile,
}
use resume_helper.Profiles.Pdf.{UploadFile, extract_pdf_text, is_pdf_name, read_pdf_upload}
use resume_helper.Profiles.Endpoints.{
  UploadEnv, update_profile_endpoint, delete_profile_endpoint, save_pdf, put_profile_structured,
  persist_pdf_for_profile, checked_upload, create_uploaded, or_extracted,
}
use resume_helper.Profiles.Extract.{ExtractEnv, extract_profile_structured, store_extracted}
use resume_helper.Tables.{step_extract}
use resume_helper.Errors.{Attempt-cases}
use resume_helper.Settings.{prompt_version_for_step}
use resume_helper.Audit.{AuditEnv, AuditEntry, record_llm_audit_log}
use resume_helper.Evaluation.Results.{record_llm_audit_log-tables}
use resume_helper.Envelope.{Response}
use resume_helper.Profiles.Rows.{find_profile-id, All-find_profile}
use resume_helper.Profiles.Sound.{IsReadable, IsSound, IsTidy, find_profile-append}
use resume_helper.Profiles.Defaults.{defaults}
use resume_helper.Profiles.Tidy.{set_profile-IsTidy, create_profile-IsTidy}

pub put_profile_structured-IsTidy :
    (id : ℕ) (body : Payload) (db : Db) → IsTidy db → IsTidy (put_profile_structured id body db).0
unfolding put_profile_structured
put_profile_structured-IsTidy id body db t = elim (Option-cases (get_profile db id)) [
  | inl e ↦ rw (e, put_profile_structured) t
  | inr (old, e) ↦
      let found : find_profile id db.profiles ≡ some old = unfold get_profile in e in
      let same = find_profile-id id db.profiles old found in
      let own = subst (λ n. find_profile n db.profiles ≡ some old) (sym same) found in
      rw (e, put_profile_structured)
        (set_profile-IsTidy _ old db t own
          (All-find_profile IsReadable id db.profiles old t.sound.readable found) (inr refl))
]

audited-IsTidy :
    (env : AuditEnv) (entry : AuditEntry) (db : Db)
    → IsTidy db
    → IsTidy (record_llm_audit_log env entry db).0
audited-IsTidy env entry db t =
    subst IsTidy (sym (record_llm_audit_log-tables env entry db))
      (record { sound = t.sound; one_default = t.one_default })

store_extracted-IsTidy :
    (env : ExtractEnv) (id : ℕ) (entry : AuditEntry) (extracted : Payload) (db : Db)
    → IsTidy db
    → IsTidy (store_extracted env id entry extracted db).0
unfolding store_extracted
store_extracted-IsTidy env id entry extracted db t = elim (Option-cases (get_profile db id)) [
  | inl e ↦ rw (e, store_extracted) t
  | inr (old, e) ↦
      let found : find_profile id db.profiles ≡ some old = unfold get_profile in e in
      let same = find_profile-id id db.profiles old found in
      let own = subst (λ n. find_profile n db.profiles ≡ some old) (sym same) found in
      let readable = All-find_profile IsReadable id db.profiles old t.sound.readable found in
      rw (e, store_extracted)
        (audited-IsTidy env.audit _ _ (set_profile-IsTidy _ old db t own readable (inr refl)))
]

pub extract_profile_structured-IsTidy :
    (env : ExtractEnv) (id : ℕ) (db : Db)
    → IsTidy db
    → IsTidy (env.others db)
    → IsTidy (extract_profile_structured env id db).0
unfolding extract_profile_structured
extract_profile_structured-IsTidy env id db t o = elim (Option-cases (get_profile db id)) [
  | inl e ↦ rw (e, extract_profile_structured) t
  | inr (profile, e) ↦ elim (Option-cases env.extract_structured) [
    | inl f ↦ rw (e, f, extract_profile_structured) t
    | inr (call, f) ↦
        let version = prompt_version_for_step env.audit.settings step_extract none in
        elim (Attempt-cases (call profile.skills_text version)) [
          | inl (x, g) ↦
              rw (e, f, g, extract_profile_structured)
                (audited-IsTidy env.audit _ (env.others db) o)
          | inr (extracted, g) ↦
              rw (e, f, g, extract_profile_structured)
                (store_extracted-IsTidy env id _ extracted (env.others db) o)
        ]
  ]
]

find_profile-set_only_default :
    (id : ℕ) (profiles : List BaselineProfile) (p : BaselineProfile)
    → find_profile id profiles ≡ some p
    → p.is_default ≡ true
    → find_profile id (set_only_default id profiles) ≡ some p
unfolding find_profile set_only_default
find_profile-set_only_default id [] p found d = absurd (cc)
find_profile-set_only_default id (q ∷ profiles) p found d =
    ground (arith, find_profile-set_only_default id profiles p)

created_found :
    (now : ℕ) (skills_text : Text) (name : Option Text) (is_default : Bool) (db : Db)
    → IsTidy db
    → let (created, p) = create_profile now skills_text name is_default db in
      find_profile p.id created.profiles ≡ some p
unfolding create_profile
created_found now skills_text name true db t =
    let p = new_profile db.next_profile_id now (remove_nul skills_text) name true in
    unfold new_profile in
    find_profile-set_only_default db.next_profile_id (db.profiles ++ p ∷ []) p
      (find_profile-append db.profiles p t.sound.below) refl
created_found now skills_text name false db t =
    unfold new_profile in find_profile-append db.profiles _ t.sound.below

persist_pdf_for_profile-IsTidy :
    (env : UploadEnv) (p : BaselineProfile) (pdf_bytes : List ℕ) (db : Db)
    → IsTidy db
    → find_profile p.id db.profiles ≡ some p
    → IsTidy (persist_pdf_for_profile env p pdf_bytes db).0
unfolding persist_pdf_for_profile
persist_pdf_for_profile-IsTidy env p pdf_bytes db t found =
    elim (Option-cases (save_pdf env.files env.timestamp p.id pdf_bytes)) [
      | inl e ↦ rw (e, persist_pdf_for_profile) t
      | inr (path, e) ↦
          rw (e, persist_pdf_for_profile)
            (set_profile-IsTidy (record p { pdf_path = some path }) p db t found
              (All-find_profile IsReadable p.id db.profiles p t.sound.readable found) (inr refl))
    ]

pub checked_upload-IsTidy :
    {A : Type 0} (env : UploadEnv) (message : Text) (file : UploadFile)
    (next : Text → List ℕ → Db → Db × Response A) (db : Db)
    → IsTidy db
    → ((text : Text) (pdf_bytes : List ℕ) → IsTidy (next text pdf_bytes db).0)
    → IsTidy (checked_upload env message file next db).0
unfolding checked_upload
checked_upload-IsTidy env message file next db t h = elim (Bool-cases (is_pdf_name file.filename)) [
  | inr e ↦ rw (e, checked_upload) t
  | inl e ↦ elim (Option-cases (read_pdf_upload env.max_upload_bytes file)) [
    | inl f ↦ rw (e, f, checked_upload) t
    | inr (pdf_bytes, f) ↦ elim (Option-cases (extract_pdf_text env.reader pdf_bytes)) [
      | inl g ↦ rw (e, f, g, checked_upload) t
      | inr (text, g) ↦ rw (e, f, g, checked_upload) (h text pdf_bytes)
    ]
  ]
]

pub create_uploaded-IsTidy :
    (env : UploadEnv) (name skills_text : Option Text) (is_default : Bool) (extracted_text : Text)
    (pdf_bytes : List ℕ) (db : Db)
    → IsTidy db
    → IsTidy (create_uploaded env name skills_text is_default extracted_text pdf_bytes db).0
unfolding create_uploaded
create_uploaded-IsTidy env name skills_text is_default extracted_text pdf_bytes db t =
    let text = or_extracted skills_text extracted_text in
    let (created, p) = create_profile env.now text name is_default db in
    persist_pdf_for_profile-IsTidy env p pdf_bytes created
      (create_profile-IsTidy env.now text name is_default db t)
      (created_found env.now text name is_default db t)

pub update_profile_endpoint-db :
    (now id : ℕ) (body : ProfileUpdate) (db : Db)
    → (update_profile_endpoint now id body db).0 ≡ (update_profile now id body db).0
unfolding update_profile_endpoint
update_profile_endpoint-db now id body db = ground arith

pub delete_profile_endpoint-db :
    (id : ℕ) (db : Db) → (delete_profile_endpoint id db).0 ≡ (delete_profile id db).0
unfolding delete_profile_endpoint
delete_profile_endpoint-db id db = ground arith

pub no_profiles-IsTidy : (u : Db) → u.profiles ≡ [] → IsTidy u
no_profiles-IsTidy u e = record {
  sound =
      subst (λ rows. IsSound rows u.next_profile_id) (sym e)
        (record { below = tt; distinct = tt; readable = tt });
  one_default = subst (λ rows. length (defaults rows) ≤ 1) (sym e) (omega arith);
}
