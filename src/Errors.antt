-- ===== src/Errors.antt =====
-- The exceptions that a worker of backend/app/workers sees, as `_error_details` and
-- backend/app/services/llm/audit.py tell them apart.
use resume_helper.Base.{◌≡◌, ◌⊎◌, refl, inl, inr, Text, text_of, take}

-- A `JobExecutionError` or `TailoringError`, the two errors of the LLM clients by the name of their
-- class, and any other exception by its class and its text.
pub data WorkerError : Type 0 where
  coded : Text → Text → WorkerError
  llm_unavailable llm_invalid_output : Text → WorkerError
  unexpected : Text → Text → WorkerError

unfoldable pub error_code_for_exception : WorkerError → Text
error_code_for_exception (coded code message) = text_of "llm_error"
error_code_for_exception (llm_unavailable name) = text_of "llm_unavailable"
error_code_for_exception (llm_invalid_output name) = text_of "llm_invalid_output"
error_code_for_exception (unexpected name message) = text_of "llm_error"

-- `type(exc).__name__`
unfoldable pub class_name : WorkerError → Text
class_name (coded code message) = text_of "JobExecutionError"
class_name (llm_unavailable name) = name
class_name (llm_invalid_output name) = name
class_name (unexpected name message) = name

unfoldable pub error_message_for_exception : WorkerError → Text
unfolding class_name
error_message_for_exception e = take 240 (class_name e)

-- What a call that may raise gives.
pub data Attempt {ℓ} (A : Type ℓ) : Type ℓ where
  ok : A → Attempt A
  fails : WorkerError → Attempt A

pub Attempt-cases {ℓ} :
    {A : Type ℓ} (t : Attempt A) → ((e : WorkerError) × (t ≡ fails e)) ⊎ ((x : A) × (t ≡ ok x))
Attempt-cases (fails e) = inl (e, refl)
Attempt-cases (ok x) = inr (x, refl)
