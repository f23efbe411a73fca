-- ===== src/Batch/Totals.antt =====
-- What `evaluate_listing_ids` of backend/app/services/batch_evaluator.py returns, and what
-- `check_batch_guardrails` of backend/app/services/ai_guardrails.py lets through.
use resume_helper.Base.{
  ℕ, ◌≤◌, true, false, Text, text_of, text_eq_iff, ◌≡◌, ◌↔◌, ◌⊎◌, arith, if◌then◌else◌,
}
use resume_helper.Uuid.{Uuid}
use resume_helper.Batch.Guardrails.{
  GuardSettings, BatchEstimate, GuardrailResult, estimated_total_tokens, costs_more,
  check_batch_guardrails, estimate_tailoring_batch,
}
use resume_helper.Batch.Listings.{
  BatchSettings, ListingEvaluationSummary, BatchState, cut_tailoring, cut_inputs, block_tailoring,
  apply_tailoring_guardrails,
}

-- A batch is allowed exactly if no limit that is set is passed, and it needs no provider, is empty or
-- may call one.
pub check_batch_guardrails_iff :
    (settings : GuardSettings) (e : BatchEstimate) (max_items : ℕ)
    → ((check_batch_guardrails settings e max_items).allowed ≡ true) ↔ (
        ((e.items ≡ 0)
          ⊎ (settings.ai_provider_calls_enabled ≡ true)
          ⊎ (settings.llm_backend ≡ text_of "fake"))
        × ((max_items ≡ 0) ⊎ (e.items ≤ max_items))
        × ((settings.max_batch_estimated_tokens ≡ 0)
            ⊎ (estimated_total_tokens e ≤ settings.max_batch_estimated_tokens))
        × ((settings.max_batch_estimated_cost ≡ 0)
            ⊎ (costs_more e.estimated_cost settings.max_batch_estimated_cost ≡ false)))
unfolding check_batch_guardrails
check_batch_guardrails_iff settings e max_items =
    ground (arith, text_eq_iff settings.llm_backend (text_of "fake"))

module _ (settings : BatchSettings) (text : Text) (st : BatchState) where
  abbrev cut : ListingEvaluationSummary
  cut = cut_tailoring settings.max_tailoring_jobs_per_batch st.summary

  abbrev after : ListingEvaluationSummary
  after = apply_tailoring_guardrails settings text st.tailoring_inputs st.summary

  abbrev verdict : GuardrailResult
  verdict =
      check_batch_guardrails settings.guard
        (estimate_tailoring_batch settings.guard text (
          cut_inputs settings.max_tailoring_jobs_per_batch st.summary.tailoring_job_ids
            st.tailoring_inputs))
        settings.max_tailoring_jobs_per_batch

  abbrev chosen : ListingEvaluationSummary
  chosen = if verdict.allowed then cut else block_tailoring verdict.code cut
