-- ===== src/Handlers/RoundTrip.antt =====
-- What backend/app/services/job_queue.py writes into the payload of an evaluate job is what
-- backend/app/workers/job_queue.py reads from it.
use resume_helper.Base.{
  String, ℤ, pos, ◌≡◌, ◌∙◌, refl, Option, none, some, [], ◌∷◌, Text, strip, or_none,
}
use resume_helper.Json.{Payload, string, int, get, set_item, json_str}
use resume_helper.Errors.{ok}
use resume_helper.Settings.{Settings}
use resume_helper.JobQueue.Enqueue.{EvaluateIn, evaluate_payload, with_request_id}
use resume_helper.Handlers.Payloads.{
  evaluate_request, required_string, required_int, optional_string, string_or_none, int_of,
}

-- The items that every payload of an evaluate job has.
abbrev items : EvaluateIn → Payload
items a =
    ("jd_text", string a.jd_text)
    ∷ ("profile_id", int (pos a.profile_id))
    ∷ ("prompt_version", string a.prompt_version)
    ∷ ("tailor_prompt_version", string a.tailor_prompt_version)
    ∷ []

-- The request id is cleaned like the other texts, and an empty one is not sent.
abbrev cleaned : Option Text → Option Text
cleaned none = none
cleaned (some r) = or_none (strip r)

optional_string-get :
    (payload : Payload) (key : String) (t : Text)
    → get key payload ≡ some (string t)
    → optional_string (get key payload) ≡ or_none (strip t)
unfolding optional_string string_or_none json_str
optional_string-get payload key t e = rw e refl

required_string-get :
    (payload : Payload) (key : String) (t v : Text)
    → get key payload ≡ some (string t)
    → or_none (strip t) ≡ some v
    → required_string payload key ≡ ok v
unfolding required_string
required_string-get payload key t v e h =
    rw (optional_string-get payload key t e ∙ h, required_string) refl

required_int-get :
    (payload : Payload) (key : String) (n : ℤ)
    → get key payload ≡ some (int n)
    → required_int payload key ≡ ok n
unfolding required_int int_of
required_int-get payload key n e = rw (e, required_int) refl

-- What stands under each key.
record Sent (a : EvaluateIn) (payload : Payload) : Type 0 where
  jd : get "jd_text" payload ≡ some (string a.jd_text)
  profile : get "profile_id" payload ≡ some (int (pos a.profile_id))
  version : get "prompt_version" payload ≡ some (string a.prompt_version)
  tailor : get "tailor_prompt_version" payload ≡ some (string a.tailor_prompt_version)
  request : optional_string (get "request_id" payload) ≡ cleaned a.request_id

sent :
    (a : EvaluateIn) (r : Option Text)
    → Sent (record a { request_id = r }) (with_request_id r (items a))
unfolding get with_request_id set_item optional_string string_or_none json_str
sent a none = record { jd = refl; profile = refl; version = refl; tailor = refl; request = refl }
sent a (some []) = record {
  jd = refl;
  profile = refl;
  version = refl;
  tailor = refl;
  request = refl;
}
sent a (some (c ∷ r)) = record {
  jd = refl;
  profile = refl;
  version = refl;
  tailor = refl;
  request = refl;
}

-- Where the description and the two versions are not blank, the handler reads them without the white
-- space around them, and the profile and the request id, from the payload that the queue wrote for them.
pub evaluate_request-evaluate_payload :
    (settings : Settings) (a : EvaluateIn) (jd_text prompt_version tailor_version : Text)
    → or_none (strip a.jd_text) ≡ some jd_text
    → or_none (strip a.prompt_version) ≡ some prompt_version
    → or_none (strip a.tailor_prompt_version) ≡ some tailor_version
    → evaluate_request settings (evaluate_payload a)
      ≡ ok (record {
        jd_text = jd_text;
        profile_id = pos a.profile_id;
        prompt_version = prompt_version;
        request_id = cleaned a.request_id;
        tailor_prompt_version = tailor_version;
      })
unfolding evaluate_payload evaluate_request
evaluate_request-evaluate_payload settings a jd_text prompt_version tailor_version j p t =
    let payload = with_request_id a.request_id (items a) in
    let there = sent a a.request_id in
    rw
      (
        required_string-get payload "jd_text" a.jd_text jd_text there.jd j,
        required_int-get payload "profile_id" (pos a.profile_id) there.profile,
        required_string-get payload "prompt_version" a.prompt_version prompt_version there.version
            p,
        optional_string-get payload "tailor_prompt_version" a.tailor_prompt_version there.tailor
            ∙ t,
        there.request,
        evaluate_request,
      )
      refl
