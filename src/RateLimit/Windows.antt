-- ===== src/RateLimit/Windows.antt =====
-- What `FixedWindowRateLimiter.check` of backend/app/rate_limit.py lets through.
use resume_helper.Base.{
  ℕ, ◌+◌, ◌≤◌, max, ◌&&◌, List, [], ◌∷◌, Key, key_eq, All, refl, inl, inr, arith, Bool-cases,
  if◌then◌else◌,
}
use resume_helper.RateLimit.Limiter.{RateLimitDecision, Limiter, Check, bucket, check, check_all}
use resume_helper.RateLimit.Buckets.{IsDict, IsDict-check}
use resume_helper.RateLimit.Budget.{IsWithin, IsFree, Budget, Budget-check}

-- How many of the checks of a bucket were allowed.
unfoldable pub allowed_count : Key → List Check → List RateLimitDecision → ℕ
allowed_count key (c ∷ checks) (d ∷ decisions) =
    let rest = allowed_count key checks decisions in
    if key_eq (bucket c) key && d.allowed then rest + 1 else rest
allowed_count key _ _ = 0

module _ (key : Key) (start seconds limit : ℕ) where
  -- The budget bounds what the checks of the stretch can take.
  allowed_count-Budget :
      (checks : List Check) (limiter : Limiter) (left : ℕ)
      → All (IsWithin key start seconds limit) checks
      → IsDict limiter.windows
      → Budget key start seconds limit limiter.windows left
      → allowed_count key checks (check_all checks limiter).1 ≤ left
  unfolding allowed_count check_all
  allowed_count-Budget [] limiter left within dict b = omega arith
  allowed_count-Budget (c ∷ checks) limiter left (within, rest) dict b =
      let (limiter', d) = check c limiter in
      let (left', b', taken) = Budget-check key start seconds limit c limiter left within dict b in
      let later =
        allowed_count-Budget checks limiter' left' rest (IsDict-check c limiter dict) b' in
      elim (Bool-cases (key_eq (bucket c) key && d.allowed)) [
        | inl counted ↦ rw counted (omega (arith, later, rw counted at taken))
        | inr passed ↦ rw passed (omega (arith, later, rw passed at taken))
      ]

  -- In the stretch of one window from `start` on, a bucket that is free at the start, in a limiter
  -- without double entries, has no more checks allowed than its limit, or one where that is 0,
  -- however many checks of it, with this limit and window, and of other buckets there are.
  pub check_all_bounds :
      (checks : List Check) (limiter : Limiter)
      → All (IsWithin key start seconds limit) checks
      → IsDict limiter.windows
      → IsFree key start seconds limit limiter.windows
      → allowed_count key checks (check_all checks limiter).1 ≤ max limit 1
  unfolding Budget
  check_all_bounds checks limiter within dict free =
      allowed_count-Budget checks limiter (max limit 1) within dict (inl (free, refl))
