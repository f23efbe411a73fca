-- ===== src/Batch/Guardrails.antt =====
-- backend/app/services/ai_guardrails.py. A price is a count of millionths of a dollar, which is what
-- the code rounds a cost to; a setting below 0 stands as 0. The message and the details of a refusal
-- are left out.
use resume_helper.Base.{
  ℕ, ◌+◌, ◌*◌, ◌/◌, ◌%◌, max, Bool, true, false, ◌&&◌, not, Option, none, some, List, [], ◌∷◌, ◌++◌,
  length, map, Text, text_of, text_eq, ltb, ◌==◌, if◌then◌else◌,
}

-- The settings that the guardrails read.
pub record GuardSettings : Type 0 where
  pub ai_provider_calls_enabled : Bool
  pub llm_backend : Text
  pub max_batch_estimated_tokens : ℕ
  pub max_batch_estimated_cost : ℕ
  pub llm_input_cost_per_million_tokens : ℕ
  pub llm_output_cost_per_million_tokens : ℕ

pub record BatchEstimate : Type 0 where
  pub items : ℕ
  pub estimated_input_tokens : ℕ
  pub estimated_output_tokens : ℕ
  pub estimated_cost : Option ℕ

abbrev pub estimated_total_tokens : BatchEstimate → ℕ
estimated_total_tokens e = e.estimated_input_tokens + e.estimated_output_tokens

pub record GuardrailResult : Type 0 where
  pub allowed : Bool
  pub code : Option Text

-- `max(1, ceil(len(text) / 4))`
unfoldable pub estimate_tokens : Text → ℕ
estimate_tokens [] = 0
estimate_tokens (c ∷ s) = max 1 ((length (c ∷ s) + 3) / 4)

-- `quantize`, which rounds a half to the even neighbour.
unfoldable pub round_half_even : ℕ → ℕ → ℕ
round_half_even n d =
    let q = n / d in
    let twice = 2 * (n % d) in
    if ltb twice d then q else if ltb d twice then q + 1 else if q % 2 == 0 then q else q + 1

unfoldable pub estimate_batch_cost : GuardSettings → ℕ → ℕ → Option ℕ
unfolding round_half_even
estimate_batch_cost settings input_tokens output_tokens =
    let input_rate = settings.llm_input_cost_per_million_tokens in
    let output_rate = settings.llm_output_cost_per_million_tokens in
    if input_rate == 0 && output_rate == 0
    then none
    else some (round_half_even (input_tokens * input_rate + output_tokens * output_rate) 1_000_000)

abbrev pub sum : List ℕ → ℕ
sum [] = 0
sum (n ∷ numbers) = n + sum numbers

abbrev estimate_of : GuardSettings → ℕ → ℕ → ℕ → BatchEstimate
estimate_of settings items input_tokens output_tokens = record {
  items = items;
  estimated_input_tokens = input_tokens;
  estimated_output_tokens = output_tokens;
  estimated_cost = estimate_batch_cost settings input_tokens output_tokens;
}

unfoldable pub estimate_evaluation_batch : GuardSettings → Text → List Text → BatchEstimate
unfolding estimate_tokens estimate_batch_cost
estimate_evaluation_batch settings profile_text jd_texts =
    let profile_tokens = estimate_tokens profile_text in
    estimate_of settings (length jd_texts)
      (sum (map (λ jd_text. profile_tokens + estimate_tokens jd_text + 800) jd_texts))
      (length jd_texts * 1024)

-- `{"jd_text": …, "gaps": …}`
pub record TailoringInput : Type 0 where
  pub jd_text : Text
  pub gaps : List Text

unfoldable pub joined : List Text → Text
joined [] = []
joined (e ∷ []) = e
joined (e ∷ f ∷ gaps) = e ++ 10 ∷ joined (f ∷ gaps)

unfoldable pub estimate_tailoring_batch : GuardSettings → Text → List TailoringInput → BatchEstimate
unfolding estimate_tokens estimate_batch_cost joined
estimate_tailoring_batch settings baseline_text jobs =
    let baseline_tokens = estimate_tokens baseline_text in
    estimate_of settings (length jobs)
      (sum (
        map
          (λ job.
            baseline_tokens
            + estimate_tokens job.jd_text
            + estimate_tokens (joined job.gaps)
            + 1200)
          jobs))
      (length jobs * 4096)

abbrev blocked : Text → GuardrailResult
blocked code = record { allowed = false; code = some code }

-- `estimate.estimated_cost_usd is not None and estimate.estimated_cost_usd > limit`
abbrev pub costs_more : Option ℕ → ℕ → Bool
costs_more none limit = false
costs_more (some cost) limit = ltb limit cost

unfoldable pub check_batch_guardrails : GuardSettings → BatchEstimate → ℕ → GuardrailResult
check_batch_guardrails settings estimate max_items =
    if ltb 0 estimate.items
      && not settings.ai_provider_calls_enabled
      && not (text_eq settings.llm_backend (text_of "fake"))
    then blocked (text_of "ai_provider_calls_disabled")
    else if ltb 0 max_items && ltb max_items estimate.items
    then blocked (text_of "ai_batch_item_limit_exceeded")
    else if ltb 0 settings.max_batch_estimated_tokens
        && ltb settings.max_batch_estimated_tokens (estimated_total_tokens estimate)
    then blocked (text_of "ai_batch_token_limit_exceeded")
    else if ltb 0 settings.max_batch_estimated_cost
        && costs_more estimate.estimated_cost settings.max_batch_estimated_cost
    then blocked (text_of "ai_batch_cost_limit_exceeded")
    else record { allowed = true; code = none }
