-- ===== src/RateLimit/Admission.antt =====
-- The requests that the middleware of backend/app/main.py lets through, by the rules of
-- backend/app/rate_limit.py.
use resume_helper.Base.{
  ℕ, zero, suc, ◌+◌, ◌*◌, ◌≤◌, ◌<◌, max, ◌||◌, none, some, List, [], ◌∷◌, Text, All, text_of,
  text_eq, key_eq, key_eq_iff, ◌≡◌, refl, sym, ap, subst, ◌∙◌, inl, inr, arith, Bool-cases,
  Option-cases,
}
use resume_helper.RateLimit.Limiter.{Limiter, Check, check_all, second, bucket}
use resume_helper.RateLimit.Rules.{
  RateLimitRule, RateLimitSettings, rule, rule_of_path, rstrip_slash, ends_with,
  rate_limit_rule_for, client_identifier,
}
use resume_helper.RateLimit.Buckets.{IsDict}
use resume_helper.RateLimit.Budget.{IsWithin, IsFree}
use resume_helper.RateLimit.Routes.{passed_count-checked_count}
use resume_helper.RateLimit.Windows.{allowed_count, check_all_bounds}
use resume_helper.RateLimit.Requests.{
  Request, check_of, admit_all, passed_count, limit_of, checks_of, checked_count-checks,
}

IsRule : RateLimitSettings → RateLimitRule → Type 0
IsRule settings r = (r.limit ≡ limit_of r.key settings) × (r.window_seconds ≡ 60)

rule-IsRule :
    (settings : RateLimitSettings) (key : Text) (limit : ℕ) (r : RateLimitRule)
    → limit ≡ limit_of key settings
    → rule key limit ≡ some r
    → IsRule settings r
unfolding IsRule
rule-IsRule settings key zero r e h = absurd (cc h)
rule-IsRule settings key (suc n) r e h =
    let same : record { key = key; limit = suc n; window_seconds = 60 } ≡ r = cc h in
    subst (λ x. (x.limit ≡ limit_of x.key settings) × (x.window_seconds ≡ 60)) same (e, refl)

rule_of_path-IsRule :
    (settings : RateLimitSettings) (path : Text) (r : RateLimitRule)
    → rule_of_path path settings ≡ some r
    → IsRule settings r
rule_of_path-IsRule settings path r h = elim (Bool-cases (text_eq path (text_of "/api/evaluate"))) [
  | inl a ↦
      rule-IsRule settings (text_of "evaluate") settings.evaluate_per_minute r
        (unfold limit_of text_eq in refl) (rw a at h)
  | inr a ↦ elim (Bool-cases (text_eq path (text_of "/api/evaluate/bulk"))) [
    | inl b ↦
        rule-IsRule settings (text_of "evaluate_bulk") settings.evaluate_bulk_per_minute r
          (unfold limit_of text_eq in refl) (rw (a, b) at h)
    | inr b ↦
        elim (Bool-cases (
          text_eq path (text_of "/api/evaluate/by-listings")
          || text_eq path (text_of "/api/evaluate/pending-listings"))) [
            | inl c ↦
                rule-IsRule settings (text_of "evaluate_batch") settings.evaluate_batch_per_minute r
                  (unfold limit_of text_eq in refl) (rw (a, b, c) at h)
            | inr c ↦ elim (Bool-cases (text_eq path (text_of "/api/scrape/run"))) [
              | inl d ↦
                  rule-IsRule settings (text_of "scrape_run") settings.scrape_run_per_minute r
                    (unfold limit_of text_eq in refl) (rw (a, b, c, d) at h)
              | inr d ↦ elim (Bool-cases (ends_with (text_of "/beautify") path)) [
                | inl e ↦
                    rule-IsRule settings (text_of "beautify") settings.beautify_per_minute r
                      (unfold limit_of text_eq in refl) (rw (a, b, c, d, e) at h)
                | inr e ↦ elim (Bool-cases (text_eq path (text_of "/api/callback"))) [
                  | inl f ↦
                      rule-IsRule settings (text_of "callback") settings.callback_per_minute r
                        (unfold limit_of text_eq in refl) (rw (a, b, c, d, e, f) at h)
                  | inr f ↦ absurd (cc (rw (a, b, c, d, e, f) at h))
                ]
              ]
            ]
          ]
  ]
]

-- A rule has the limit of its key, and a window of a minute.
rate_limit_rule_for-IsRule :
    (settings : RateLimitSettings) (method path : Text) (r : RateLimitRule)
    → rate_limit_rule_for method path settings ≡ some r
    → IsRule settings r
rate_limit_rule_for-IsRule settings method path r h =
    elim (Bool-cases (text_eq method (text_of "POST"))) [
      | inl post ↦
          rule_of_path-IsRule settings (rstrip_slash path) r
            (unfold rate_limit_rule_for in rw (rate_limit_rule_for, post) at h)
      | inr differs ↦
          absurd (unfold rate_limit_rule_for in cc (rw (rate_limit_rule_for, differs) at h))
    ]

-- The request came in the minute from `start` on.
unfoldable pub IsDuring : ℕ → Request → Type 0
IsDuring start request = (start ≤ request.time) × (request.time < start + 60 * second)

module _ (settings : RateLimitSettings) (route client : Text) (start : ℕ) where
  abbrev Within : Check → Type 0
  Within = IsWithin (route, client) start 60 (limit_of route settings)

  abbrev check_by : Request → RateLimitRule → Check
  check_by request r = record {
    now = request.time;
    route_key = r.key;
    client_id = client_identifier request.client;
    limit = r.limit;
    window_seconds = r.window_seconds;
  }

  check_by-IsWithin :
      (request : Request) (r : RateLimitRule)
      → IsDuring start request
      → IsRule settings r
      → Within (check_by request r)
  unfolding IsDuring IsWithin IsRule
  check_by-IsWithin request r (from, to) (limit, seconds) =
      let c = check_by request r in
      (
        from,
        to,
        elim (Bool-cases (key_eq (bucket c) (route, client))) [
          | inr differs ↦ inl differs
          | inl same ↦
              let named : bucket c ≡ (route, client) =
                ground (arith, key_eq_iff (bucket c) (route, client), same) in
              let key : r.key ≡ route = ap (λ k. k.0) named in
              inr (limit ∙ ap (λ k. limit_of k settings) key, seconds)
        ],
      )

  check_of-IsWithin :
      (request : Request) (c : Check)
      → IsDuring start request
      → check_of settings request ≡ some c
      → Within c
  check_of-IsWithin request c during h =
      elim (Option-cases (rate_limit_rule_for request.method request.path settings)) [
        | inl e ↦
            let missing : check_of settings request ≡ none =
              (unfold check_of in rw (check_of, e) refl) in
            absurd (cc (h, missing))
        | inr (r, e) ↦
            let made : check_of settings request ≡ some (check_by request r) =
              (unfold check_of in rw (check_of, e) refl) in
            let same : check_by request r ≡ c = cc (h, made) in
            subst Within same (
              check_by-IsWithin request r during
                (rate_limit_rule_for-IsRule settings request.method request.path r e))
      ]

  checks_of-IsWithin :
      (requests : List Request)
      → All (IsDuring start) requests
      → All Within (checks_of settings requests)
  unfolding checks_of
  checks_of-IsWithin [] h = tt
  checks_of-IsWithin (request ∷ requests) (during, rest) =
      elim (Option-cases (check_of settings request)) [
        | inl e ↦
            let left : checks_of settings (request ∷ requests) ≡ checks_of settings requests =
              rw (checks_of, e) refl in
            subst (All Within) (sym left) (checks_of-IsWithin requests rest)
        | inr (c, e) ↦
            let left : checks_of settings (request ∷ requests) ≡ c ∷ checks_of settings requests =
              rw (checks_of, e) refl in
            subst (All Within) (sym left)
              (check_of-IsWithin request c during e, checks_of-IsWithin requests rest)
      ]

  -- Where the settings give the route a limit and not 0, a client whose bucket for the route is free at the
  -- start of a minute, in a limiter without double entries, has at most the limit of its requests of the
  -- route let through in the minute, however many requests there are.
  pub admit_all_bounds :
      (requests : List Request) (limiter : Limiter)
      → 0 < limit_of route settings
      → All (IsDuring start) requests
      → IsDict limiter.windows
      → IsFree (route, client) start 60 (limit_of route settings) limiter.windows
      → passed_count route client requests (admit_all settings requests limiter).1
        ≤ limit_of route settings
  admit_all_bounds requests limiter set during dict free =
      let checks = checks_of settings requests in
      let checked : allowed_count (route, client) checks (check_all checks limiter).1
          ≤ max (limit_of route settings) 1 =
        check_all_bounds (route, client) start 60 (limit_of route settings) checks limiter
          (checks_of-IsWithin requests during) dict free in
      rw
        (
          passed_count-checked_count settings route set client requests limiter,
          checked_count-checks settings (route, client) requests limiter,
        )
        (ground (arith, checked, set))
