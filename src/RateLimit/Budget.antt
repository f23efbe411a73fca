-- ===== src/RateLimit/Budget.antt =====
-- How many checks of one bucket `FixedWindowRateLimiter.check` of backend/app/rate_limit.py can still
-- let through in the stretch of one window.
use resume_helper.Base.{
  ℕ, ◌+◌, ◌-◌, ◌*◌, ◌≤◌, ◌<◌, max, true, false, ◌&&◌, Option, none, some, Key, key_eq, key_eq_iff,
  ltb, leb, ◌≡◌, refl, sym, subst, ◌∙◌, ◌⊎◌, inl, inr, arith, Bool-cases, if◌then◌else◌,
}
use resume_helper.RateLimit.Limiter.{
  Window, Windows, Limiter, Check, second, find_window, set_window, is_over, bucket, decide,
  current, check,
}
use resume_helper.RateLimit.Buckets.{IsDict, find_window-set_window, find_window-current}

module _ (key : Key) (start seconds limit : ℕ) where
  -- The check lies in the stretch of one window from `start` on, and a check of the bucket has the
  -- limit and the window of the bucket.
  unfoldable pub IsWithin : Check → Type 0
  IsWithin c =
      (start ≤ c.now)
      × (c.now < start + seconds * second)
      × ((key_eq (bucket c) key ≡ false) ⊎ ((c.limit ≡ limit) × (c.window_seconds ≡ seconds)))

  -- The bucket has no window, or one that is over at `start`.
  unfoldable pub IsFree : Windows → Type 0
  IsFree windows =
      (find_window key windows ≡ none)
      ⊎ ((w : Window) × (find_window key windows ≡ some w)
          × (w.window_seconds ≡ seconds)
          × (w.started_at + seconds * second ≤ start))

  -- `left` checks of the bucket can still be allowed.
  unfoldable pub Budget : Windows → ℕ → Type 0
  unfolding IsFree
  Budget windows left =
      (IsFree windows × (left ≡ max limit 1))
      ⊎ ((w : Window) × (find_window key windows ≡ some w)
          × (w.window_seconds ≡ seconds)
          × (start ≤ w.started_at)
          × (left ≡ limit - w.count))

  Budget-same :
      (windows windows' : Windows) (left : ℕ)
      → find_window key windows' ≡ find_window key windows
      → Budget windows left
      → Budget windows' left
  unfolding Budget IsFree
  Budget-same windows windows' left same (inl (inl missing, e)) = inl (inl (same ∙ missing), e)
  Budget-same windows windows' left same (inl (inr (w, found, s, o), e)) =
      inl (inr (w, same ∙ found, s, o), e)
  Budget-same windows windows' left same (inr (w, found, s, o, e)) = inr (w, same ∙ found, s, o, e)

  Budget-drops :
      (c : Check) (windows windows' : Windows) (left : ℕ) (w : Window)
      → IsWithin c
      → find_window key windows ≡ some w
      → is_over c.now w w.window_seconds ≡ true
      → find_window key windows' ≡ none
      → Budget windows left
      → Budget windows' left
  unfolding Budget IsFree IsWithin is_over
  Budget-drops c windows windows' left w within found over gone (inl (_, e)) = inl (inl gone, e)
  Budget-drops c windows windows' left w within found over gone (inr (v, found', s, o, e)) =
      let same : v ≡ w = cc (found, found') in
      let after : start ≤ w.started_at = subst (λ u. start ≤ u.started_at) same o in
      let long : w.window_seconds ≡ seconds = subst (λ u. u.window_seconds ≡ seconds) same s in
      absurd (ground (arith, over, after, long, within.0, within.1))

  -- Pruning within the stretch takes no window that counts.
  Budget-current :
      (c : Check) (limiter : Limiter) (left : ℕ)
      → IsWithin c
      → IsDict limiter.windows
      → Budget limiter.windows left
      → Budget (current c limiter) left
  Budget-current c limiter left within dict b = elim (find_window-current c key limiter dict) [
    | inl same ↦ Budget-same limiter.windows (current c limiter) left same b
    | inr (w, found, over, gone) ↦
        Budget-drops c limiter.windows (current c limiter) left w within found over gone b
  ]

  -- What a check of the bucket decides, and the window that it leaves.
  Takes : Check → Option Window → ℕ → Type 0
  Takes c o left =
      let (w, d) = decide c o in
      (w.window_seconds ≡ seconds)
      × (start ≤ w.started_at)
      × ((if d.allowed then limit - w.count + 1 else limit - w.count) ≤ left)

  IsTimed : Check → Type 0
  IsTimed c =
      (start ≤ c.now)
      × (c.now < start + seconds * second)
      × (c.limit ≡ limit)
      × (c.window_seconds ≡ seconds)

  Takes-none : (c : Check) → IsTimed c → Takes c none (max limit 1)
  unfolding Takes IsTimed decide
  Takes-none c (from, to, l, s) = (s, from, omega arith)

  Takes-over :
      (c : Check) (w : Window)
      → IsTimed c
      → w.started_at + seconds * second ≤ start
      → Takes c (some w) (max limit 1)
  unfolding Takes IsTimed decide is_over
  Takes-over c w (from, to, l, s) before =
      let over : leb (w.started_at + c.window_seconds * second) c.now ≡ true =
        ground (arith, from, s, before) in
      rw over (s, from, omega arith)

  Takes-live :
      (c : Check) (w : Window)
      → IsTimed c
      → w.window_seconds ≡ seconds
      → start ≤ w.started_at
      → Takes c (some w) (limit - w.count)
  unfolding Takes IsTimed decide is_over
  Takes-live c w (from, to, l, s) long after =
      let live : leb (w.started_at + c.window_seconds * second) c.now ≡ false =
        ground (arith, to, s, after) in
      elim (Bool-cases (ltb w.count c.limit)) [
        | inl more ↦ rw (live, more) (long, after, ground (arith, more, l))
        | inr full ↦ rw (live, full) (long, after, omega arith)
      ]

  Takes-Budget :
      (c : Check) (windows : Windows) (left : ℕ)
      → IsTimed c
      → Budget windows left
      → Takes c (find_window key windows) left
  unfolding Budget IsFree
  Takes-Budget c windows left timed (inl (inl missing, e)) = rw (missing, e) (Takes-none c timed)
  Takes-Budget c windows left timed (inl (inr (w, found, s, o), e)) =
      rw (found, e) (Takes-over c w timed o)
  Takes-Budget c windows left timed (inr (w, found, s, o, e)) =
      rw (found, e) (Takes-live c w timed s o)

  -- A check of another bucket leaves the budget, and one of the bucket that is allowed takes one.
  Budget-decide :
      (c : Check) (windows : Windows) (left : ℕ)
      → IsWithin c
      → Budget windows left
      → let (w, d) = decide c (find_window (bucket c) windows) in
        (left' : ℕ) × Budget (set_window (bucket c) w windows) left'
        × ((if key_eq (bucket c) key && d.allowed then left' + 1 else left') ≤ left)
  Budget-decide c windows left within b = elim (Bool-cases (key_eq (bucket c) key)) [
    | inr differs ↦ (
      left,
      Budget-same windows _ left (find_window-set_window (bucket c) key _ windows ∙ rw differs refl)
          b,
      rw differs (omega arith),
    )
    | inl same ↦ own same (ground (arith, key_eq_iff (bucket c) key, same))
  ]
    where
      own :
          key_eq (bucket c) key ≡ true
          → bucket c ≡ key
          → let (w, d) = decide c (find_window (bucket c) windows) in
            (left' : ℕ) × Budget (set_window (bucket c) w windows) left'
            × ((if key_eq (bucket c) key && d.allowed then left' + 1 else left') ≤ left)
      own same e =
          let timed : IsTimed c =
            (unfold IsWithin IsTimed in
              elim within.2 [
                | inl differs ↦ absurd (cc (same, differs))
                | inr (l, s) ↦ (within.0, within.1, l, s)
              ]) in
          let takes : Takes c (find_window (bucket c) windows) left =
            subst (λ k. Takes c (find_window k windows) left) (sym e)
              (Takes-Budget c windows left timed b) in
          let w = (decide c (find_window (bucket c) windows)).0 in
          unfold Takes Budget in
          (
            limit - w.count,
            inr (
              w,
              find_window-set_window (bucket c) key w windows ∙ rw same refl,
              takes.0,
              takes.1,
              refl,
            ),
            rw same takes.2,
          )

  pub Budget-check :
      (c : Check) (limiter : Limiter) (left : ℕ)
      → IsWithin c
      → IsDict limiter.windows
      → Budget limiter.windows left
      → let (limiter', d) = check c limiter in
        (left' : ℕ) × Budget limiter'.windows left'
        × ((if key_eq (bucket c) key && d.allowed then left' + 1 else left') ≤ left)
  unfolding check
  Budget-check c limiter left within dict b =
      Budget-decide c (current c limiter) left within (Budget-current c limiter left within dict b)
