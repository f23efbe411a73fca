-- ===== src/Batch/Listings.antt =====
-- backend/app/services/batch_evaluator.py. `evaluate_jd` with its tables of type `S`, the write of the
-- analysis of a listing, the descriptions of the listings and the text of the profile that was looked
-- up are arguments. The errors and warnings that the code words itself are shortened.
use resume_helper.Base.{
  ℕ, ◌+◌, ◌-◌, ltb, Bool, false, ◌&&◌, ◌||◌, not, Option, none, some, List, [], ◌∷◌, ◌++◌, length,
  take, keep, Text, text_of, strip, nonempty, ◌==◌, if◌then◌else◌,
}
use resume_helper.Uuid.{Uuid}
use resume_helper.Scraping.Filter.{is_in}
use resume_helper.Batch.Guardrails.{
  GuardSettings, TailoringInput, estimate_evaluation_batch, estimate_tailoring_batch,
  check_batch_guardrails,
}

-- The columns of a `JobAnalysis` that the batch reads.
pub record Analysis : Type 0 where
  pub id : Uuid
  pub needs_tailoring : Bool
  pub jd_full_text : Text
  pub gaps : List Text

-- An evaluation of a listing: its analysis and whether it was cached, or the text of the error.
pub data Evaluated : Type 0 where
  evaluated : Analysis → Bool → Evaluated
  refused : Text → Evaluated

pub record BatchSettings : Type 0 where
  pub guard : GuardSettings
  pub max_jd_chars : ℕ
  pub max_tailoring_jobs_per_batch : ℕ

pub record ListingEvaluationSummary : Type 0 where
  pub total : ℕ
  pub succeeded : ℕ
  pub failed : ℕ
  pub skipped : ℕ
  pub blocked : ℕ
  pub results : List (Uuid × Evaluated)
  pub tailoring_job_ids : List Uuid
  pub tailoring_blocked : ℕ
  pub warnings : List (Option Text)

-- The variables of the loop.
pub record BatchState : Type 0 where
  pub summary : ListingEvaluationSummary
  pub tailoring_inputs : List TailoringInput
  pub evaluated_jobs : List (Analysis × Bool)

abbrev pub new_summary : ℕ → ListingEvaluationSummary
new_summary total = record {
  total = total;
  succeeded = 0;
  failed = 0;
  skipped = 0;
  blocked = 0;
  results = [];
  tailoring_job_ids = [];
  tailoring_blocked = 0;
  warnings = [];
}

abbrev pub batch_start : ℕ → BatchState
batch_start total = record {
  summary = new_summary total;
  tailoring_inputs = [];
  evaluated_jobs = [];
}

-- `settings.max_jd_chars > 0 and len(jd_text) > settings.max_jd_chars`
abbrev pub is_too_long : BatchSettings → Text → Bool
is_too_long settings jd_text =
    ltb 0 settings.max_jd_chars && ltb settings.max_jd_chars (length jd_text)

-- "no job description text" or "limit is" in the error.
unfoldable pub is_skip : Text → Bool
unfolding is_in
is_skip error = is_in (text_of "no job description text") error || is_in (text_of "limit is") error

unfoldable pub is_fresh_need : Analysis → Bool → Bool
is_fresh_need job cached = job.needs_tailoring && not cached

-- What the loop does with the result of a listing.
unfoldable pub add_result : Uuid → Evaluated → BatchState → BatchState
unfolding is_skip is_fresh_need
add_result listing_id (refused error) st = record st {
  summary = record st.summary {
    results = st.summary.results ++ (listing_id, refused error) ∷ [];
    failed = st.summary.failed + 1;
    skipped = if is_skip error then st.summary.skipped + 1 else st.summary.skipped;
  };
}
add_result listing_id (evaluated job cached) st = record {
  summary = record st.summary {
    results = st.summary.results ++ (listing_id, evaluated job cached) ∷ [];
    succeeded = st.summary.succeeded + 1;
    tailoring_job_ids =
        if is_fresh_need job cached
        then st.summary.tailoring_job_ids ++ job.id ∷ []
        else st.summary.tailoring_job_ids;
  };
  tailoring_inputs =
      if is_fresh_need job cached
      then st.tailoring_inputs ++ record { jd_text = job.jd_full_text; gaps = job.gaps } ∷ []
      else st.tailoring_inputs;
  evaluated_jobs = st.evaluated_jobs ++ (job, cached) ∷ [];
}

-- The first cut, by the number of jobs.
unfoldable pub cut_tailoring : ℕ → ListingEvaluationSummary → ListingEvaluationSummary
cut_tailoring max_jobs summary =
    let over = length summary.tailoring_job_ids - max_jobs in
    if ltb 0 max_jobs && ltb max_jobs (length summary.tailoring_job_ids)
    then record summary {
      tailoring_blocked = summary.tailoring_blocked + over;
      blocked = summary.blocked + over;
      tailoring_job_ids = take max_jobs summary.tailoring_job_ids;
      warnings = summary.warnings ++ some (text_of "tailoring_job_limit_exceeded") ∷ [];
    }
    else summary

-- The second cut, where the guardrails refuse what is left.
unfoldable pub block_tailoring : Option Text → ListingEvaluationSummary → ListingEvaluationSummary
block_tailoring code summary = record summary {
  tailoring_blocked = summary.tailoring_blocked + length summary.tailoring_job_ids;
  blocked = summary.blocked + length summary.tailoring_job_ids;
  tailoring_job_ids = [];
  warnings = summary.warnings ++ code ∷ [];
}

unfoldable pub cut_inputs : ℕ → List Uuid → List TailoringInput → List TailoringInput
cut_inputs max_jobs ids inputs =
    if ltb 0 max_jobs && ltb max_jobs (length ids) then take max_jobs inputs else inputs

unfoldable pub apply_tailoring_guardrails :
    BatchSettings → Text → List TailoringInput → ListingEvaluationSummary → ListingEvaluationSummary
apply_tailoring_guardrails settings baseline_text inputs summary = elim summary.tailoring_job_ids [
  | [] ↦ summary
  | _ ∷ _ ↦
      let max_jobs = settings.max_tailoring_jobs_per_batch in
      let cut = cut_tailoring max_jobs summary in
      let estimate =
        estimate_tailoring_batch settings.guard baseline_text
          (cut_inputs max_jobs summary.tailoring_job_ids inputs) in
      let result = check_batch_guardrails settings.guard estimate max_jobs in
      if result.allowed then cut else block_tailoring result.code cut
]

unfoldable pub has_id : Uuid → List Uuid → Bool
has_id id [] = false
has_id id (u ∷ ids) = u == id || has_id id ids

-- The calls of `on_evaluated`.
unfoldable pub callbacks :
    ListingEvaluationSummary → List (Analysis × Bool) → List (Analysis × Bool)
unfolding has_id is_fresh_need
callbacks summary jobs =
    keep (λ job. not (is_fresh_need job.0 job.1 && not (has_id job.0.id summary.tailoring_job_ids)))
      jobs

module _ {ℓ} {S : Type ℓ} (evaluate_jd : Text → S → S × Evaluated) (link : Uuid → Uuid → S → S)
    (description : Uuid → Option Text) where
  -- `listing.job_analysis_id = job.id`, for an evaluation without an error.
  abbrev linked : Uuid → S × Evaluated → S × Evaluated
  linked listing_id (s, refused error) = (s, refused error)
  linked listing_id (s, evaluated job cached) = (link listing_id job.id s, evaluated job cached)

  -- `_evaluate_one_listing`
  unfoldable pub evaluate_one_listing : BatchSettings → Uuid → S → S × Evaluated
  evaluate_one_listing settings listing_id s = elim (description listing_id) [
    | none ↦ (s, refused (text_of "Job listing not found."))
    | some text ↦
        let jd_text = strip text in
        if not (nonempty jd_text)
        then (s, refused (text_of "Job listing has no job description text."))
        else if is_too_long settings jd_text
        then (s, refused (text_of "Job description too long; limit is reached."))
        else linked listing_id (evaluate_jd jd_text s)
  ]

  unfoldable pub evaluate_loop : BatchSettings → List Uuid → BatchState → S → S × BatchState
  evaluate_loop settings [] st s = (s, st)
  evaluate_loop settings (listing_id ∷ ids) st s =
      let (s', result) = evaluate_one_listing settings listing_id s in
      evaluate_loop settings ids (add_result listing_id result st) s'

  -- `guard_texts`
  unfoldable pub guard_texts : BatchSettings → List Uuid → List Text
  guard_texts settings [] = []
  guard_texts settings (listing_id ∷ ids) =
      let rest = guard_texts settings ids in
      elim (description listing_id) [
        | none ↦ rest
        | some text ↦
            if nonempty (strip text) && not (is_too_long settings (strip text))
            then strip text ∷ rest
            else rest
      ]

  -- The summary and the calls of `on_evaluated`, or the code of a `QuotaExceededError`.
  unfoldable pub evaluate_listing_ids :
      BatchSettings
      → Text
      → ℕ
      → List Uuid
      → S
      → S × Option (ListingEvaluationSummary × List (Analysis × Bool))
  evaluate_listing_ids settings profile_text max_items ids s =
      let estimate =
        estimate_evaluation_batch settings.guard profile_text (guard_texts settings ids) in
      let result = check_batch_guardrails settings.guard estimate max_items in
      if not result.allowed
      then (s, none)
      else let (s', st) = evaluate_loop settings ids (batch_start (length ids)) s in
        let summary =
          apply_tailoring_guardrails settings profile_text st.tailoring_inputs st.summary in
        (s', some (summary, callbacks summary st.evaluated_jobs))
