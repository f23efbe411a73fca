-- ===== src/RateLimit/Rules.antt =====
-- `rate_limit_rule_for`, `_rule` and `client_identifier` of backend/app/rate_limit.py. The method is
-- given in upper case, and a limit below 0 stands as 0.
use resume_helper.Base.{
  ℕ, zero, suc, ◌==◌, Bool, ◌&&◌, ◌||◌, not, Option, none, some, [], ◌∷◌, Text, text_of, text_eq,
  nonempty, if◌then◌else◌,
}

pub record RateLimitRule : Type 0 where
  pub key : Text
  pub limit : ℕ
  pub window_seconds : ℕ

-- The settings that the rules read.
pub record RateLimitSettings : Type 0 where
  pub evaluate_per_minute : ℕ
  pub evaluate_bulk_per_minute : ℕ
  pub evaluate_batch_per_minute : ℕ
  pub scrape_run_per_minute : ℕ
  pub beautify_per_minute : ℕ
  pub callback_per_minute : ℕ

abbrev pub rule : Text → ℕ → Option RateLimitRule
rule key zero = none
rule key (suc limit) = some (record { key = key; limit = suc limit; window_seconds = 60 })

-- `path.rstrip("/")`
unfoldable pub rstrip_slash : Text → Text
rstrip_slash [] = []
rstrip_slash (c ∷ s) =
    let rest = rstrip_slash s in if c == 47 && not (nonempty rest) then [] else c ∷ rest

-- `path.endswith(suffix)`
unfoldable pub ends_with : Text → Text → Bool
ends_with suffix [] = text_eq suffix []
ends_with suffix (c ∷ s) = text_eq suffix (c ∷ s) || ends_with suffix s

abbrev is_path : Text → Text → Bool
is_path path p = text_eq path p

abbrev pub rule_of_path : Text → RateLimitSettings → Option RateLimitRule
rule_of_path path settings =
    if is_path path (text_of "/api/evaluate")
    then rule (text_of "evaluate") settings.evaluate_per_minute
    else if is_path path (text_of "/api/evaluate/bulk")
    then rule (text_of "evaluate_bulk") settings.evaluate_bulk_per_minute
    else if is_path path (text_of "/api/evaluate/by-listings")
        || is_path path (text_of "/api/evaluate/pending-listings")
    then rule (text_of "evaluate_batch") settings.evaluate_batch_per_minute
    else if is_path path (text_of "/api/scrape/run")
    then rule (text_of "scrape_run") settings.scrape_run_per_minute
    else if ends_with (text_of "/beautify") path
    then rule (text_of "beautify") settings.beautify_per_minute
    else if is_path path (text_of "/api/callback")
    then rule (text_of "callback") settings.callback_per_minute
    else none

unfoldable pub rate_limit_rule_for : Text → Text → RateLimitSettings → Option RateLimitRule
unfolding rstrip_slash ends_with
rate_limit_rule_for method path settings =
    if not (text_eq method (text_of "POST"))
    then none
    else rule_of_path (rstrip_slash path) settings

-- The host of the request, where there is a client with one.
unfoldable pub client_identifier : Option Text → Text
client_identifier none = text_of "unknown"
client_identifier (some []) = text_of "unknown"
client_identifier (some (c ∷ host)) = c ∷ host
