-- ===== src/JobQueue/Keys.antt =====
-- The deduplication keys of backend/app/services/job_queue.py.
use resume_helper.Base.{ℕ, ◌++◌, ◌∷◌, Text, text_of}
use resume_helper.Uuid.{Uuid, uuid_str}
use resume_helper.Decimal.{decimal}
use resume_helper.Hashing.{Digest, jd_hash}

-- `f"{AI_JOB_KIND_TAILOR}:"`
abbrev pub tailor_prefix : Text
tailor_prefix = text_of "tailor:"

unfoldable pub tailor_dedupe_key : Uuid → Text
tailor_dedupe_key job_analysis_id = tailor_prefix ++ uuid_str job_analysis_id

abbrev pub evaluate_prefix : Text
evaluate_prefix = text_of "evaluate:"

unfoldable pub evaluate_dedupe_key : Digest → ℕ → Text → Text → Text
evaluate_dedupe_key d profile_id prompt_version jd_text =
    evaluate_prefix ++ (decimal profile_id ++ 58 ∷ (prompt_version ++ 58 ∷ jd_hash d jd_text))
