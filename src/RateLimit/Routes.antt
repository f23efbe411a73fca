-- ===== src/RateLimit/Routes.antt =====
-- A route whose setting of backend/app/rate_limit.py is not 0 has its rule, whatever the other settings.
use resume_helper.Base.{
  Option, Bool, true, false, if◌then◌else◌, ◌&&◌, ℕ, zero, suc, ◌<◌, none, some, List, [], ◌∷◌,
  Text, text_of, text_eq, text_eq_iff, key_eq, ◌≡◌, refl, sym, ap, ◌∙◌, inl, inr, arith, Bool-cases,
  Option-cases,
}
use resume_helper.RateLimit.Limiter.{Limiter, Check, check}
use resume_helper.RateLimit.Rules.{
  RateLimitRule, RateLimitSettings, rule, rule_of_path, rstrip_slash, ends_with,
  rate_limit_rule_for, client_identifier,
}
use resume_helper.RateLimit.Requests.{
  Request, routes, has_route, check_of, admit, admit_all, passed_count, checked_count, limit_of,
}

abbrev has_key : Text → Option RateLimitRule → Bool
has_key route none = false
has_key route (some r) = text_eq r.key route

-- The path of a callback does not end like that of a beautification.
callback_path :
    (path : Text)
    → text_eq path (text_of "/api/callback") ≡ true
    → ends_with (text_of "/beautify") path ≡ false
unfolding ends_with text_eq
callback_path path h =
    let same : path ≡ text_of "/api/callback" = (text_eq_iff path (text_of "/api/callback")).0 h in
    ap (λ p. ends_with (text_of "/beautify") p) same

module _ (settings : RateLimitSettings) (route : Text) (set : 0 < limit_of route settings) where
  has_key-rule :
      (key : Text) (limit : ℕ)
      → limit ≡ limit_of key settings
      → has_key route (rule key limit) ≡ text_eq key route
  has_key-rule key (suc n) e = refl
  has_key-rule key zero e = elim (Bool-cases (text_eq key route)) [
    | inr differs ↦ sym differs
    | inl same ↦
        let named : key ≡ route = (text_eq_iff key route).0 same in
        let given : limit_of key settings ≡ limit_of route settings =
          ap (λ k. limit_of k settings) named in
        absurd (omega (arith, set, e, given))
  ]

  has_key-rule_of_beautify :
      (path : Text)
      → has_key route (
          if ends_with (text_of "/beautify") path
          then rule (text_of "beautify") settings.beautify_per_minute
          else if text_eq path (text_of "/api/callback")
          then rule (text_of "callback") settings.callback_per_minute
          else none)
        ≡ has_route route path ((text_of "/api/callback", text_of "callback") ∷ [])
  has_key-rule_of_beautify path = elim (Bool-cases (text_eq path (text_of "/api/callback"))) [
    | inl f ↦
        rw (f, callback_path path f)
          (has_key-rule (text_of "callback") settings.callback_per_minute
            (unfold limit_of text_eq in refl))
    | inr f ↦ elim (Bool-cases (ends_with (text_of "/beautify") path)) [
      | inl e ↦
          rw (f, e)
            (has_key-rule (text_of "beautify") settings.beautify_per_minute
              (unfold limit_of text_eq in refl))
      | inr e ↦ rw (f, e) refl
    ]
  ]

  has_key-rule_of_path :
      (path : Text) → has_key route (rule_of_path path settings) ≡ has_route route path routes
  has_key-rule_of_path path = elim (Bool-cases (text_eq path (text_of "/api/evaluate"))) [
    | inl a ↦ rw a (
        has_key-rule (text_of "evaluate") settings.evaluate_per_minute
          (unfold limit_of text_eq in refl))
    | inr a ↦ elim (Bool-cases (text_eq path (text_of "/api/evaluate/bulk"))) [
      | inl b ↦
          rw (a, b)
            (has_key-rule (text_of "evaluate_bulk") settings.evaluate_bulk_per_minute
              (unfold limit_of text_eq in refl))
      | inr b ↦ elim (Bool-cases (text_eq path (text_of "/api/evaluate/by-listings"))) [
        | inl c ↦
            rw (a, b, c)
              (has_key-rule (text_of "evaluate_batch") settings.evaluate_batch_per_minute
                (unfold limit_of text_eq in refl))
        | inr c ↦ elim (Bool-cases (text_eq path (text_of "/api/evaluate/pending-listings"))) [
          | inl d ↦
              rw (a, b, c, d)
                (has_key-rule (text_of "evaluate_batch") settings.evaluate_batch_per_minute
                  (unfold limit_of text_eq in refl))
          | inr d ↦ elim (Bool-cases (text_eq path (text_of "/api/scrape/run"))) [
            | inl e ↦
                rw (a, b, c, d, e)
                  (has_key-rule (text_of "scrape_run") settings.scrape_run_per_minute
                    (unfold limit_of text_eq in refl))
            | inr e ↦ rw (a, b, c, d, e) (has_key-rule_of_beautify path)
          ]
        ]
      ]
    ]
  ]

  has_key-rate_limit_rule_for :
      (method path : Text)
      → has_key route (rate_limit_rule_for method path settings)
        ≡ text_eq method (text_of "POST") && has_route route (rstrip_slash path) routes
  unfolding rate_limit_rule_for
  has_key-rate_limit_rule_for method path = elim (Bool-cases (text_eq method (text_of "POST"))) [
    | inl post ↦ rw post (has_key-rule_of_path (rstrip_slash path))
    | inr other ↦ rw other refl
  ]

  -- Where the setting of the route is not 0, only a checked request of the route passes.
  pub passed_count-checked_count :
      (client : Text) (requests : List Request) (limiter : Limiter)
      → passed_count route client requests (admit_all settings requests limiter).1
        ≡ checked_count settings (route, client) requests (admit_all settings requests limiter).1
  unfolding passed_count checked_count admit_all key_eq
  passed_count-checked_count client [] limiter = refl
  passed_count-checked_count client (request ∷ requests) limiter =
      let same = has_key-rate_limit_rule_for request.method request.path in
      elim (Option-cases (rate_limit_rule_for request.method request.path settings)) [
        | inl e ↦
            let asked : check_of settings request ≡ none =
              (unfold check_of in rw (check_of, e) refl) in
            let step : admit settings request limiter ≡ (limiter, none) =
              (unfold admit in rw (admit, asked) refl) in
            let free : text_eq request.method (text_of "POST")
                  && has_route route (rstrip_slash request.path) routes
                ≡ false =
              sym same ∙ ap (has_key route) e in
            rw (asked, step, free) (passed_count-checked_count client requests limiter)
        | inr (r, e) ↦
            let c : Check = record {
              now = request.time;
              route_key = r.key;
              client_id = client_identifier request.client;
              limit = r.limit;
              window_seconds = r.window_seconds;
            } in
            let asked : check_of settings request ≡ some c =
              (unfold check_of in rw (check_of, e) refl) in
            let (limiter', d) = check c limiter in
            let step : admit settings request limiter ≡ (limiter', some d) =
              (unfold admit in rw (admit, asked) refl) in
            let named : text_eq request.method (text_of "POST")
                  && has_route route (rstrip_slash request.path) routes
                ≡ text_eq r.key route =
              sym same ∙ ap (has_key route) e in
            rw (asked, step, named, passed_count-checked_count client requests limiter') refl
      ]
