-- ===== src/Tests/World.antt =====
-- Sample data for the evaluations and the worker of backend/app/workers.
use resume_helper.Base.{pos, true, false, none, some, [], ◌∷◌, Text, text_of}
use resume_helper.Tests.Samples.{digest, empty_db}
use resume_helper.Tables.{BaselineProfile, JobAnalysis}
use resume_helper.Errors.{ok}
use resume_helper.Settings.{Settings}
use resume_helper.JobQueue.Store.{Db}
use resume_helper.Profiles.{new_profile}
use resume_helper.Audit.{LlmClient, EvaluationResult, TailorCall, TailorOutput, AuditEnv}
use resume_helper.Evaluation.{EvaluateEnv}
use resume_helper.Evaluation.Results.{row_of}
use resume_helper.Tailoring.{TailorEnv}
use resume_helper.Handlers.{HandlerEnv}

abbrev pub settings : Settings
settings = record {
  guard = record {
    ai_provider_calls_enabled = true;
    llm_backend = text_of "fake";
    max_batch_estimated_tokens = 0;
    max_batch_estimated_cost = 0;
    llm_input_cost_per_million_tokens = 3_000_000;
    llm_output_cost_per_million_tokens = 15_000_000;
  };
  llm_model = text_of "m";
  llm_prompt_version = text_of "v1";
  llm_evaluate_prompt_version = [];
  llm_tailor_prompt_version = text_of "t1";
  llm_extract_prompt_version = text_of "e1";
  llm_beautify_prompt_version = text_of "b1";
  resume_gen_threshold = pos 60;
}

-- A client that gives every description the same score.
abbrev pub answer : EvaluationResult
answer = record {
  score = pos 70;
  explanation = text_of "fits";
  strengths = [];
  gaps = [];
  token_count_input = some 10;
  token_count_output = some 20;
}

abbrev pub resume_text : TailorCall → TailorOutput
resume_text call = record {
  tailoring_suggestions = [];
  tailored_resume = text_of "resume";
  token_count_input = none;
  token_count_output = none;
}

abbrev pub llm : LlmClient
llm = record {
  class_name = text_of "FakeLLMClient";
  model = none;
  private_model = none;
  evaluate = λ profile jd version. ok answer;
  tailor = some (λ call. ok (resume_text call));
}

abbrev pub audit : AuditEnv
audit = record {
  id = 50;
  now = 7;
  settings = settings;
  current_request_id = none;
  prompt_hash_for_step = λ step. none;
  stable_payload_hash = λ payload. [];
}

abbrev pub evaluation : EvaluateEnv
evaluation = record {
  digest = digest;
  audit = audit;
  new_id = 5;
  now = 6;
  latency_ms = 3;
  database_message = [];
  others = λ db. db;
}

abbrev pub tailoring_env : TailorEnv
tailoring_env = record {
  audit = record audit { id = 51 };
  new_id = 9;
  now = 8;
  latency_ms = 3;
  casefold = λ s. s;
  write_pdf = λ id text. none;
  deleted_message = [];
  others = λ n db. db;
}

abbrev pub handler_env : HandlerEnv
handler_env = record {
  settings = settings;
  llm = llm;
  evaluation = evaluation;
  tailoring = tailoring_env;
  enqueue_now = 30;
  enqueue_id = 12;
  enqueue_others = λ db. db;
  poll_raises = λ n. false;
  message = [];
  dump = λ out. [];
}

abbrev pub jd : Text
jd = text_of "Python"

abbrev pub version : Text
version = text_of "v1"

-- A database with a profile and no analysis.
abbrev pub profile : BaselineProfile
profile = new_profile 1 1 (text_of "Python") none true

abbrev pub started : Db
started = record empty_db { profiles = profile ∷ []; next_profile_id = 2 }

abbrev pub row : JobAnalysis
row = row_of evaluation llm 1 jd version (pos 60) answer

-- A database with an analysis that waits for its resume.
abbrev pub graded : Db
graded = record started { analyses = row ∷ [] }
