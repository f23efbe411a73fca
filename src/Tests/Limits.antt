-- ===== src/Tests/Limits.antt =====
-- The rate limiter of backend/app/rate_limit.py at concrete inputs.
use resume_helper.Base.{
  ℕ, ◌≤◌, max, true, List, [], ◌∷◌, Text, Key, text_of, text_eq, key_eq, ◌≡◌, refl, inl, inr, some,
  arith,
}
use resume_helper.RateLimit.Limiter.{
  Check, Limiter, new_limiter, find_window, decide, current, check, check_all, is_over, retry_after,
}
use resume_helper.RateLimit.Rules.{
  client_identifier, RateLimitSettings, rate_limit_rule_for, rule, rstrip_slash,
}
use resume_helper.RateLimit.Buckets.{IsDict}
use resume_helper.RateLimit.Budget.{IsWithin, IsFree}
use resume_helper.RateLimit.Windows.{allowed_count, check_all_bounds}
use resume_helper.RateLimit.Retry.{check_retry}
use resume_helper.RateLimit.Requests.{Request, check_of, passed_count, limit_of, admit_all}
use resume_helper.RateLimit.Admission.{IsDuring, admit_all_bounds}

abbrev ask : Text → ℕ → Check
ask client now = record {
  now = now;
  route_key = text_of "evaluate";
  client_id = client;
  limit = 1;
  window_seconds = 60;
}

abbrev asks : List Check
asks = ask (text_of "a") 0 ∷ ask (text_of "b") 1 ∷ ask (text_of "a") 2 ∷ []

abbrev bucket_a : Key
bucket_a = (text_of "evaluate", text_of "a")

count_test : allowed_count bucket_a asks (check_all asks new_limiter).1 ≡ 1
unfolding allowed_count check_all check current decide find_window key_eq text_eq is_over
count_test = refl

check_all_bounds_example : allowed_count bucket_a asks (check_all asks new_limiter).1 ≤ max 1 1
check_all_bounds_example =
    check_all_bounds bucket_a 0 60 1 asks new_limiter
      (unfold IsWithin key_eq text_eq in
        (
          (omega arith, omega arith, inr (refl, refl)),
          (
            (omega arith, omega arith, inl refl),
            ((omega arith, omega arith, inr (refl, refl)), tt),
          ),
        ))
      (unfold IsDict in tt) (unfold IsFree find_window in inl refl)

abbrev after_first : Limiter
after_first = (check (ask (text_of "a") 0) new_limiter).0

check_retry_example :
    (1 ≤ (check (ask (text_of "a") 2) after_first).1.retry_after_seconds)
    × ((check (ask (text_of "a") 60_000_002) (check (ask (text_of "a") 2) after_first).0).1.allowed
        ≡ true)
unfolding check current decide find_window key_eq text_eq is_over
check_retry_example =
    check_retry (ask (text_of "a") 2) (ask (text_of "a") 60_000_002) after_first
      (unfold IsDict in (refl, tt)) refl refl refl (unfold retry_after in omega arith)

abbrev settings : RateLimitSettings
settings = record {
  evaluate_per_minute = 30;
  evaluate_bulk_per_minute = 5;
  evaluate_batch_per_minute = 5;
  scrape_run_per_minute = 0;
  beautify_per_minute = 10;
  callback_per_minute = 60;
}

rule_test :
    rate_limit_rule_for (text_of "POST") (text_of "/api/evaluate/") settings
    ≡ rule (text_of "evaluate") 30
unfolding rate_limit_rule_for text_eq rstrip_slash
rule_test = refl

abbrev ask_page : ℕ → Request
ask_page time = record {
  time = time;
  method = text_of "POST";
  path = text_of "/api/callback/";
  client = some (text_of "a");
}

abbrev requests : List Request
requests = ask_page 5 ∷ ask_page 9 ∷ []

admit_all_bounds_example :
    passed_count
      (text_of "callback")
      (text_of "a")
      requests
      (admit_all settings requests new_limiter).1
    ≤ limit_of (text_of "callback") settings
admit_all_bounds_example =
    admit_all_bounds settings (text_of "callback") (text_of "a") 0 requests new_limiter
      (unfold limit_of text_eq in omega arith)
      (unfold IsDuring in ((omega arith, omega arith), ((omega arith, omega arith), tt)))
      (unfold IsDict in tt) (unfold IsFree find_window in inl refl)

-- Both requests are of the route, so both are counted.
passed_count_test :
    passed_count
      (text_of "callback")
      (text_of "a")
      requests
      (admit_all settings requests new_limiter).1
    ≡ 2
unfolding passed_count admit_all rate_limit_rule_for text_eq client_identifier check_of check
    find_window key_eq
passed_count_test = refl
