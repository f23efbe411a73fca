-- ===== src/RateLimit/Requests.antt =====
-- The rate limit of the middleware `attach_request_id` of backend/app/main.py, where the setting
-- `rate_limit_enabled` is on.
use resume_helper.Base.{
  ℕ, ◌+◌, Bool, true, false, ◌&&◌, Option, none, some, List, [], ◌∷◌, Text, Key, text_of, text_eq,
  key_eq, ◌≡◌, refl, inl, inr, Option-cases, if◌then◌else◌,
}
use resume_helper.RateLimit.Limiter.{RateLimitDecision, Limiter, Check, bucket, check, check_all}
use resume_helper.RateLimit.Rules.{
  RateLimitSettings, rstrip_slash, ends_with, rate_limit_rule_for, client_identifier,
}
use resume_helper.RateLimit.Windows.{allowed_count}

pub record Request : Type 0 where
  pub time : ℕ
  pub method : Text
  pub path : Text
  pub client : Option Text

-- The routes that have a limit, by their paths.
abbrev pub routes : List (Text × Text)
routes =
    (text_of "/api/evaluate", text_of "evaluate")
    ∷ (text_of "/api/evaluate/bulk", text_of "evaluate_bulk")
    ∷ (text_of "/api/evaluate/by-listings", text_of "evaluate_batch")
    ∷ (text_of "/api/evaluate/pending-listings", text_of "evaluate_batch")
    ∷ (text_of "/api/scrape/run", text_of "scrape_run")
    ∷ (text_of "/api/callback", text_of "callback")
    ∷ []

abbrev pub has_route : Text → Text → List (Text × Text) → Bool
has_route route path [] = ends_with (text_of "/beautify") path && text_eq (text_of "beautify") route
has_route route path ((p, key) ∷ rest) =
    let later = has_route route path rest in if text_eq path p then text_eq key route else later

-- The request is of a route, by its method and path only, and of a client.
abbrev pub is_of : Text → Text → Request → Bool
is_of route client request =
    text_eq request.method (text_of "POST")
    && has_route route (rstrip_slash request.path) routes
    && text_eq (client_identifier request.client) client

-- A request without a decision passes too.
abbrev pub passes : Option RateLimitDecision → Bool
passes none = true
passes (some d) = d.allowed

-- How many requests of a client for a route were let through, whatever the settings.
unfoldable pub passed_count : Text → Text → List Request → List (Option RateLimitDecision) → ℕ
passed_count route client (request ∷ requests) (d ∷ ds) =
    let rest = passed_count route client requests ds in
    if is_of route client request && passes d then rest + 1 else rest
passed_count route client _ _ = 0

-- The check that a request asks for, if a rule applies to it.
unfoldable pub check_of : RateLimitSettings → Request → Option Check
check_of settings request = elim (rate_limit_rule_for request.method request.path settings) [
  | none ↦ none
  | some r ↦ some (record {
    now = request.time;
    route_key = r.key;
    client_id = client_identifier request.client;
    limit = r.limit;
    window_seconds = r.window_seconds;
  })
]

-- The decision on a request; without a rule there is none, and the request passes.
unfoldable pub admit : RateLimitSettings → Request → Limiter → Limiter × Option RateLimitDecision
admit settings request limiter = elim (check_of settings request) [
  | none ↦ (limiter, none)
  | some c ↦ let (limiter', d) = check c limiter in (limiter', some d)
]

unfoldable pub admit_all :
    RateLimitSettings → List Request → Limiter → Limiter × List (Option RateLimitDecision)
unfolding admit
admit_all settings [] limiter = (limiter, [])
admit_all settings (request ∷ requests) limiter =
    let (limiter', d) = admit settings request limiter in
    let (limiter'', ds) = admit_all settings requests limiter' in (limiter'', d ∷ ds)

abbrev is_allowed : Key → Option Check → Option RateLimitDecision → Bool
is_allowed key (some c) (some d) = key_eq (bucket c) key && d.allowed
is_allowed key _ _ = false

-- How many checks of a bucket were allowed.
unfoldable pub checked_count :
    RateLimitSettings → Key → List Request → List (Option RateLimitDecision) → ℕ
checked_count settings key (request ∷ requests) (d ∷ ds) =
    let rest = checked_count settings key requests ds in
    if is_allowed key (check_of settings request) d then rest + 1 else rest
checked_count settings key _ _ = 0

-- The limit that the settings give a rule by its key.
unfoldable pub limit_of : Text → RateLimitSettings → ℕ
limit_of key settings =
    if text_eq key (text_of "evaluate")
    then settings.evaluate_per_minute
    else if text_eq key (text_of "evaluate_bulk")
    then settings.evaluate_bulk_per_minute
    else if text_eq key (text_of "evaluate_batch")
    then settings.evaluate_batch_per_minute
    else if text_eq key (text_of "scrape_run")
    then settings.scrape_run_per_minute
    else if text_eq key (text_of "beautify")
    then settings.beautify_per_minute
    else settings.callback_per_minute

-- The checks that the requests ask for, one after the other.
unfoldable pub checks_of : RateLimitSettings → List Request → List Check
checks_of settings [] = []
checks_of settings (request ∷ requests) =
    let rest = checks_of settings requests in
    elim (check_of settings request) [ none ↦ rest | some c ↦ c ∷ rest ]

pub checked_count-checks :
    (settings : RateLimitSettings) (key : Key) (requests : List Request) (limiter : Limiter)
    → checked_count settings key requests (admit_all settings requests limiter).1
      ≡ allowed_count key
          (checks_of settings requests)
          (check_all (checks_of settings requests) limiter).1
unfolding checked_count admit_all checks_of allowed_count check_all
checked_count-checks settings key [] limiter = refl
checked_count-checks settings key (request ∷ requests) limiter =
    elim (Option-cases (check_of settings request)) [
      | inl e ↦
          let step : admit settings request limiter ≡ (limiter, none) =
            (unfold admit in rw (admit, e) refl) in
          let left : checks_of settings (request ∷ requests) ≡ checks_of settings requests =
            rw (checks_of, e) refl in
          rw (e, step, left) (checked_count-checks settings key requests limiter)
      | inr (c, e) ↦
          let (limiter', d) = check c limiter in
          let step : admit settings request limiter ≡ (limiter', some d) =
            (unfold admit in rw (admit, e) refl) in
          let left : checks_of settings (request ∷ requests) ≡ c ∷ checks_of settings requests =
            rw (checks_of, e) refl in
          rw (e, step, left, checked_count-checks settings key requests limiter') refl
    ]
