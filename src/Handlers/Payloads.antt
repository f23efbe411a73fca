-- ===== src/Handlers/Payloads.antt =====
-- How backend/app/workers/job_queue.py reads the payload of an evaluate job.
use resume_helper.Base.{
  ℕ, zero, suc, ◌+◌, ◌*◌, ◌-◌, ℤ, pos, negsuc, Bool, true, false, ◌&&◌, Option, none, some, [], ◌∷◌,
  ◌++◌, Text, String, text_of, strip, or_none, get_or, leb, ◌==◌, if◌then◌else◌,
}
use resume_helper.Json.{Json, null, bool, string, int, other, Payload, get, json_str}
use resume_helper.Tables.{step_tailor}
use resume_helper.Errors.{WorkerError, coded, Attempt, ok, fails}
use resume_helper.Settings.{Settings, prompt_version_for_step}

-- `_string_or_none`
unfoldable pub string_or_none : Json → Option Text
unfolding strip
string_or_none null = none
string_or_none value = or_none (strip (json_str value))

-- `_string_or_none(payload.get(key))`
unfoldable pub optional_string : Option Json → Option Text
unfolding string_or_none
optional_string none = none
optional_string (some value) = string_or_none value

abbrev invalid_payload : Text → WorkerError
invalid_payload message = coded (text_of "invalid_job_payload") message

abbrev missing : String → WorkerError
missing key = invalid_payload (text_of "missing " ++ text_of key)

unfoldable pub required_string : Payload → String → Attempt Text
unfolding optional_string
required_string payload key = elim (optional_string (get key payload)) [
  | none ↦ fails (missing key)
  | some value ↦ ok value
]

abbrev is_digit : ℕ → Bool
is_digit c = leb 48 c && leb c 57

-- The digits of `int(text)`, with single underscores between them; the flag says that a digit stands
-- before. Digits of other scripts are refused here.
digits : Bool → ℕ → Text → Option ℕ
digits after_digit acc [] = if after_digit then some acc else none
digits after_digit acc (c ∷ s) =
    let next = digits true (acc * 10 + (c - 48)) s in
    let skipped = digits false acc s in
    if is_digit c then next else if c == 95 && after_digit then skipped else none

abbrev negated : ℕ → ℤ
negated zero = pos 0
negated (suc n) = negsuc n

abbrev with_sign : Bool → Option ℕ → Option ℤ
with_sign negative none = none
with_sign negative (some n) = some (if negative then negated n else pos n)

unfoldable pub int_of_text : Text → Option ℤ
unfolding digits
int_of_text [] = none
int_of_text (c ∷ s) =
    if c == 45
    then with_sign true (digits false 0 s)
    else if c == 43
    then with_sign false (digits false 0 s)
    else with_sign false (digits false 0 (c ∷ s))

-- The part of a float's text before its point. A float in exponent form, whose value is above every id
-- or below one, is refused here.
before_point : Text → Text
before_point [] = []
before_point (c ∷ s) = let rest = before_point s in if c == 46 then [] else c ∷ rest

-- `int(value)`; `none` is the `TypeError` or `ValueError`.
unfoldable pub int_of : Json → Option ℤ
unfolding int_of_text strip before_point
int_of null = none
int_of (bool b) = some (pos (if b then 1 else 0))
int_of (int n) = some n
int_of (string s) = int_of_text (strip s)
int_of (other s) = int_of_text (before_point s)

unfoldable pub required_int : Payload → String → Attempt ℤ
unfolding int_of
required_int payload key = elim (get key payload) [
  | none ↦ fails (missing key)
  | some null ↦ fails (missing key)
  | some (bool b) ↦ fails (missing key)
  | some value ↦ elim (int_of value) [
    | none ↦ fails (invalid_payload (text_of "invalid " ++ text_of key))
    | some n ↦ ok n
  ]
]

-- What the handler reads before it starts.
pub record EvaluateRequest : Type 0 where
  pub jd_text : Text
  pub profile_id : ℤ
  pub prompt_version : Text
  pub request_id : Option Text
  pub tailor_prompt_version : Text

unfoldable pub evaluate_request : Settings → Payload → Attempt EvaluateRequest
unfolding required_string required_int optional_string
evaluate_request settings payload = elim (required_string payload "jd_text") [
  | fails e ↦ fails e
  | ok jd_text ↦ elim (required_int payload "profile_id") [
    | fails e ↦ fails e
    | ok profile_id ↦ elim (required_string payload "prompt_version") [
      | fails e ↦ fails e
      | ok prompt_version ↦ ok (record {
        jd_text = jd_text;
        profile_id = profile_id;
        prompt_version = prompt_version;
        request_id = optional_string (get "request_id" payload);
        tailor_prompt_version =
            get_or (optional_string (get "tailor_prompt_version" payload))
              (prompt_version_for_step settings step_tailor none);
      })
    ]
  ]
]
