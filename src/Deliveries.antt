-- ===== src/Deliveries.antt =====
-- The endpoints of backend/app/api/evaluate.py that store or export a generated resume: the callback of an
-- external pipeline, a revision by the user, and the download. One request is one step.
use resume_helper.Base.{
  ℕ, Bool, Option, none, some, List, [], ◌∷◌, ◌++◌, Text, text_of, get_or, nonempty, strip, ◌==◌,
  if◌then◌else◌,
}
use resume_helper.Uuid.{Uuid, uuid_str}
use resume_helper.Tables.{GeneratedResume}
use resume_helper.JobQueue.Store.{Db}
use resume_helper.Audit.{get_analysis, find_resume}
use resume_helper.Envelope.{Response, success, error, unhandled}
use resume_helper.Tailoring.{can_flush, set_can_submit}

pub record CallbackIn : Type 0 where
  pub job_analysis_id : Uuid
  pub resume_text : Text
  pub pdf_url : Option Text
  pub prompt_version : Option Text

-- The id and the time of a new row, whether the file of a resume is there, and the class of the exception
-- that writing it raises, if any.
pub record DeliveryEnv : Type 0 where
  pub new_id : Uuid
  pub now : ℕ
  pub pdf_exists : Uuid → Bool
  pub write_pdf : Uuid → Text → Option Text

abbrev pub resume_url : Uuid → Text
resume_url id = text_of "/api/generated-resumes/" ++ uuid_str id ++ text_of "/pdf"

-- The commit of a new resume and of `job.can_submit = True`; a job that is not there is left out.
unfoldable pub commit_delivery : GeneratedResume → Db → Db
unfolding set_can_submit
commit_delivery resume db = record db {
  resumes = db.resumes ++ resume ∷ [];
  analyses = set_can_submit resume.job_analysis_id db.analyses;
}

unfoldable pub callback_row : DeliveryEnv → CallbackIn → GeneratedResume
callback_row env body = record {
  id = env.new_id;
  job_analysis_id = body.job_analysis_id;
  resume_text = body.resume_text;
  pdf_url = body.pdf_url;
  prompt_version = body.prompt_version;
  llm_backend = none;
  llm_model = none;
  proof_point_ids = [];
  revision_source = text_of "ai_draft";
  exported_at = none;
  created_at = env.now;
}

-- From the flush of the new row on: its PDF is written, it gets its URL, and it is committed.
unfoldable pub deliver_written : DeliveryEnv → GeneratedResume → Db → Db × Response GeneratedResume
unfolding commit_delivery
deliver_written env resume db =
    if can_flush resume db
    then (elim (env.write_pdf resume.id resume.resume_text) [
      | some name ↦ (db, unhandled name)
      | none ↦
          let linked = record resume { pdf_url = some (resume_url resume.id) } in
          (commit_delivery linked db, success linked)
    ])
    else (db, unhandled (text_of "IntegrityError"))

-- The same with a URL that was delivered.
unfoldable pub deliver_linked : GeneratedResume → Db → Db × Response GeneratedResume
unfolding commit_delivery
deliver_linked resume db =
    if can_flush resume db
    then (commit_delivery resume db, success resume)
    else (db, unhandled (text_of "IntegrityError"))

-- Of the resume that is answered the endpoint shows the id.
unfoldable pub external_resume_callback :
    DeliveryEnv → CallbackIn → Db → Db × Response GeneratedResume
unfolding callback_row deliver_written deliver_linked
external_resume_callback env body db = elim (get_analysis db body.job_analysis_id) [
  | none ↦ (
    db,
    error (text_of "not_found")
        (text_of "job_analysis " ++ uuid_str body.job_analysis_id ++ text_of " not found") 404,
  )
  | some job ↦
      if nonempty (get_or body.pdf_url [])
      then deliver_linked (callback_row env body) db
      else deliver_written env (callback_row env body) db
]

abbrev pub missing_resume {ℓ} : {A : Type ℓ} → Uuid → Response A
missing_resume id =
    error (text_of "not_found") (text_of "generated_resume " ++ uuid_str id ++ text_of " not found")
      404

unfoldable pub revision_row : DeliveryEnv → GeneratedResume → Text → GeneratedResume
revision_row env source resume_text = record {
  id = env.new_id;
  job_analysis_id = source.job_analysis_id;
  resume_text = resume_text;
  pdf_url = none;
  prompt_version = some (text_of "user-edited");
  llm_backend = none;
  llm_model = none;
  proof_point_ids = source.proof_point_ids;
  revision_source = text_of "user_edited";
  exported_at = none;
  created_at = env.now;
}

unfoldable pub create_generated_resume_revision :
    DeliveryEnv → Uuid → Text → Db → Db × Response GeneratedResume
unfolding strip revision_row deliver_written
create_generated_resume_revision env resume_id resume_text db =
    elim (find_resume resume_id db.resumes) [
      | none ↦ (db, missing_resume resume_id)
      | some source ↦
          if nonempty (strip resume_text)
          then deliver_written env (revision_row env source (strip resume_text)) db
          else (
            db,
            error (text_of "invalid_resume_text") (text_of "resume_text must not be blank") 422,
          )
    ]

-- The UPDATE of an export, by the primary key.
unfoldable pub set_exported : ℕ → Uuid → List GeneratedResume → List GeneratedResume
set_exported now id [] = []
set_exported now id (r ∷ rows) =
    if r.id == id
    then record r { pdf_url = some (resume_url id); exported_at = some now } ∷ rows
    else r ∷ set_exported now id rows

unfoldable pub export_written : DeliveryEnv → Uuid → Option Text → Db → Db × Response Uuid
unfolding set_exported
export_written env id failure db = elim failure [
  | some name ↦ (db, unhandled name)
  | none ↦ (record db { resumes = set_exported env.now id db.resumes }, success id)
]

-- The answer is the file of the resume with the id.
unfoldable pub download_generated_resume_pdf : DeliveryEnv → Uuid → Db → Db × Response Uuid
unfolding export_written
download_generated_resume_pdf env resume_id db = elim (find_resume resume_id db.resumes) [
  | none ↦ (db, missing_resume resume_id)
  | some resume ↦
      let failure =
        if env.pdf_exists resume_id then none else env.write_pdf resume_id resume.resume_text in
      export_written env resume_id failure db
]
