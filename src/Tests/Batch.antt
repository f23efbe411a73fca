-- ===== src/Tests/Batch.antt =====
-- A batch of backend/app/services/batch_evaluator.py at concrete inputs.
use resume_helper.Base.{
  ℕ, ◌+◌, Bool, true, false, Option, none, some, List, [], ◌∷◌, Text, text_of, ◌==◌, if◌then◌else◌,
}
use resume_helper.Batch.Guardrails.{GuardSettings, BatchEstimate}
use resume_helper.Batch.Listings.{
  Analysis, Evaluated, evaluated, refused, BatchSettings, ListingEvaluationSummary,
  evaluate_listing_ids,
}

abbrev guard : GuardSettings
guard = record {
  ai_provider_calls_enabled = true;
  llm_backend = text_of "fake";
  max_batch_estimated_tokens = 0;
  max_batch_estimated_cost = 0;
  llm_input_cost_per_million_tokens = 3_000_000;
  llm_output_cost_per_million_tokens = 15_000_000;
}

abbrev settings : BatchSettings
settings = record { guard = guard; max_jd_chars = 0; max_tailoring_jobs_per_batch = 1 }

-- Each evaluation makes an analysis with the next id.
abbrev evaluate : Text → ℕ → ℕ × Evaluated
evaluate jd_text n = (
  n + 1,
  evaluated (record { id = n; needs_tailoring = true; jd_full_text = jd_text; gaps = [] }) false,
)

-- The links are not read.
abbrev link : ℕ → ℕ → ℕ → ℕ
link listing_id job_id n = n

abbrev description : ℕ → Option Text
description id = if id == 3 then none else some (text_of "dev")

abbrev run : ℕ × Option (ListingEvaluationSummary × List (Analysis × Bool))
run = evaluate_listing_ids evaluate link description settings (text_of "Go") 20 (1 ∷ 2 ∷ 3 ∷ []) 7

-- Two listings are evaluated, of which one may be tailored, and the third is not there.
abbrev summary : ListingEvaluationSummary
summary = record {
  total = 3;
  succeeded = 2;
  failed = 1;
  skipped = 0;
  blocked = 1;
  results =
      (
        1,
        evaluated
            (record { id = 7; needs_tailoring = true; jd_full_text = text_of "dev"; gaps = [] })
            false,
      )
      ∷ (
        2,
        evaluated
            (record { id = 8; needs_tailoring = true; jd_full_text = text_of "dev"; gaps = [] })
            false,
      )
      ∷ (3, refused (text_of "Job listing not found."))
      ∷ [];
  tailoring_job_ids = 7 ∷ [];
  tailoring_blocked = 1;
  warnings = some (text_of "tailoring_job_limit_exceeded") ∷ [];
}

abbrev calls : List (Analysis × Bool)
calls =
    (record { id = 7; needs_tailoring = true; jd_full_text = text_of "dev"; gaps = [] }, false) ∷ []

abbrev estimate : BatchEstimate
estimate = record {
  items = 2;
  estimated_input_tokens = 1700;
  estimated_output_tokens = 2048;
  estimated_cost = some 35_820;
}

abbrev max_items : ℕ
max_items = 1
