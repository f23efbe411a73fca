-- ===== src/Settings.antt =====
-- The settings of backend/app/config.py that evaluation and tailoring read, and the versions of the
-- prompts of backend/app/services/llm/prompt_registry.py.
use resume_helper.Base.{ℤ, Option, none, some, Text, text_of, strip, or_none, or_else, get_or}
use resume_helper.Tables.{WorkflowStep, step_evaluate, step_tailor, step_extract, step_beautify}
use resume_helper.Batch.Guardrails.{GuardSettings}

pub record Settings : Type 0 where
  pub guard : GuardSettings
  pub llm_model : Text
  pub llm_prompt_version : Text
  pub llm_evaluate_prompt_version : Text
  pub llm_tailor_prompt_version : Text
  pub llm_extract_prompt_version : Text
  pub llm_beautify_prompt_version : Text
  pub resume_gen_threshold : ℤ

unfoldable pub clean_prompt_version : Option Text → Option Text
unfolding strip
clean_prompt_version none = none
clean_prompt_version (some value) = or_none (strip value)

abbrev configured : Settings → WorkflowStep → Option Text
unfolding clean_prompt_version
configured s step_evaluate =
    or_else (clean_prompt_version (some s.llm_evaluate_prompt_version))
      (clean_prompt_version (some s.llm_prompt_version))
configured s step_tailor = clean_prompt_version (some s.llm_tailor_prompt_version)
configured s step_extract = clean_prompt_version (some s.llm_extract_prompt_version)
configured s step_beautify = clean_prompt_version (some s.llm_beautify_prompt_version)

-- `DEFAULT_EVALUATE_PROMPT_VERSION` and the three others.
abbrev pub default_prompt_version : WorkflowStep → Text
default_prompt_version step_evaluate = text_of "resume-fit-v1"
default_prompt_version step_tailor = text_of "tailor-v1"
default_prompt_version step_extract = text_of "extract-v1"
default_prompt_version step_beautify = text_of "beautify-v1"

unfoldable pub prompt_version_for_step : Settings → WorkflowStep → Option Text → Text
unfolding clean_prompt_version
prompt_version_for_step s step override =
    get_or (or_else (clean_prompt_version override) (configured s step))
      (default_prompt_version step)
