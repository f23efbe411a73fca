-- ===== src/RateLimit/Retry.antt =====
-- `retry_after_seconds` of backend/app/rate_limit.py.
use resume_helper.Base.{
  ℕ, ◌+◌, ◌*◌, ◌≤◌, ◌<◌, true, false, Option, none, some, key_eq_iff, ltb, leb, ◌≡◌, refl, ◌∙◌, inl,
  inr, arith, Bool-cases,
}
use resume_helper.RateLimit.Limiter.{
  Window, Limiter, Check, second, find_window, is_over, bucket, retry_after, decide, current, check,
}
use resume_helper.RateLimit.Buckets.{
  IsDict, IsDict-check, find_window-set_window, find_window-current,
}

-- A check is refused only by a window that is not over.
refused-cases :
    (c : Check) (o : Option Window)
    → (decide c o).1.allowed ≡ false
    → (w : Window) × (o ≡ some w)
      × (c.now < w.started_at + c.window_seconds * second)
      × ((decide c o).0 ≡ w)
      × ((decide c o).1.retry_after_seconds ≡ retry_after c w)
unfolding decide is_over
refused-cases c none h = absurd (cc h)
refused-cases c (some w) h =
    elim (Bool-cases (leb (w.started_at + c.window_seconds * second) c.now)) [
      | inl over ↦ absurd (ground (arith, over, h))
      | inr live ↦ elim (Bool-cases (ltb w.count c.limit)) [
        | inl more ↦ absurd (ground (arith, live, more, h))
        | inr full ↦ (w, refl, ground (arith, live), rw (live, full) refl, rw (live, full) refl)
      ]
    ]

retry_after_enough :
    (c : Check) (w : Window) (later : ℕ)
    → c.now < w.started_at + c.window_seconds * second
    → c.now + retry_after c w * second ≤ later
    → w.started_at + c.window_seconds * second ≤ later
unfolding retry_after
retry_after_enough c w later live h = omega (arith, live, h)

allowed-over :
    (c : Check) (w : Window)
    → w.started_at + c.window_seconds * second ≤ c.now
    → (decide c (some w)).1.allowed ≡ true
unfolding decide is_over
allowed-over c w h =
    let over : leb (w.started_at + c.window_seconds * second) c.now ≡ true = ground (arith, h) in
    rw over refl

-- After a check that is refused, by a limiter without double entries, the next check of the limiter,
-- if it is of the bucket and has the same window, is allowed once the seconds that the refusal names
-- have passed, and these are at least one.
pub check_retry :
    (c c' : Check) (limiter : Limiter)
    → IsDict limiter.windows
    → (check c limiter).1.allowed ≡ false
    → bucket c' ≡ bucket c
    → c'.window_seconds ≡ c.window_seconds
    → let (limiter', d) = check c limiter in
      c.now + d.retry_after_seconds * second ≤ c'.now
      → (1 ≤ (check c limiter).1.retry_after_seconds)
        × ((check c' (check c limiter).0).1.allowed ≡ true)
check_retry c c' limiter dict refused same long waited =
    let o = find_window (bucket c) (current c limiter) in
    let limiter' = (check c limiter).0 in
    let (w, found, live, left, named) = refused-cases c o (unfold check in refused) in
    let retry : (check c limiter).1.retry_after_seconds ≡ retry_after c w =
      (unfold check in named) in
    let there : find_window (bucket c') limiter'.windows ≡ some w =
      (unfold check in
        find_window-set_window (bucket c) (bucket c') (decide c o).0 (current c limiter)
        ∙ ground (arith, key_eq_iff (bucket c) (bucket c'), same, left)) in
    let over : w.started_at + c'.window_seconds * second ≤ c'.now =
      rw long (retry_after_enough c w c'.now live (rw retry at waited)) in
    let allowed : (check c' limiter').1.allowed ≡ true =
      (unfold check in
        elim (find_window-current c' (bucket c') limiter' (IsDict-check c limiter dict)) [
          | inl kept ↦ rw (kept, there) (allowed-over c' w over)
          | inr (_, _, _, gone) ↦ rw gone (unfold decide in refl)
        ]) in
    (rw retry (unfold retry_after in omega arith), allowed)
