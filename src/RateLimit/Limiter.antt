-- ===== src/RateLimit/Limiter.antt =====
-- `FixedWindowRateLimiter` of backend/app/rate_limit.py. A reading of `time.monotonic` is a count of
-- microseconds, and a lock makes each check one step.
use resume_helper.Base.{
  ℕ, ◌+◌, ◌-◌, ◌*◌, ◌/◌, ◌%◌, max, Bool, true, false, not, Option, none, some, List, [], ◌∷◌, keep,
  Text, Key, key_eq, ltb, leb, ◌==◌, if◌then◌else◌,
}

pub record RateLimitDecision : Type 0 where
  pub allowed : Bool
  pub limit : ℕ
  pub window_seconds : ℕ
  pub retry_after_seconds : ℕ

pub record Window : Type 0 where
  pub started_at : ℕ
  pub count : ℕ
  pub window_seconds : ℕ

abbrev pub Windows : Type 0
Windows = List (Key × Window)

pub record Limiter : Type 0 where
  pub windows : Windows
  pub checks : ℕ

abbrev pub new_limiter : Limiter
new_limiter = record { windows = []; checks = 0 }

abbrev pub second : ℕ
second = 1_000_000

-- `self._windows.get(bucket_key)`
unfoldable pub find_window : Key → Windows → Option Window
find_window key [] = none
find_window key ((k, w) ∷ windows) = if key_eq k key then some w else find_window key windows

-- `self._windows[bucket_key] = window`
unfoldable pub set_window : Key → Window → Windows → Windows
set_window key new [] = (key, new) ∷ []
set_window key new ((k, w) ∷ windows) =
    let later = set_window key new windows in
    if key_eq k key then (k, new) ∷ windows else (k, w) ∷ later

-- `now - window.started_at >= window_seconds`
unfoldable pub is_over : ℕ → Window → ℕ → Bool
is_over now w window_seconds = leb (w.started_at + window_seconds * second) now

unfoldable pub prune_expired : ℕ → Windows → Windows
unfolding is_over
prune_expired now windows = keep (λ entry. not (is_over now entry.1 entry.1.window_seconds)) windows

-- The arguments of `check`, with the time that it reads.
pub record Check : Type 0 where
  pub now : ℕ
  pub route_key : Text
  pub client_id : Text
  pub limit : ℕ
  pub window_seconds : ℕ

abbrev pub bucket : Check → Key
bucket c = (c.route_key, c.client_id)

-- `max(1, math.ceil(window_seconds - (now - window.started_at)))`
unfoldable pub retry_after : Check → Window → ℕ
retry_after c w = max 1 ((w.started_at + c.window_seconds * second + (second - 1) - c.now) / second)

abbrev allow : Check → RateLimitDecision
allow c = record {
  allowed = true;
  limit = c.limit;
  window_seconds = c.window_seconds;
  retry_after_seconds = 0;
}

abbrev fresh_window : Check → Window
fresh_window c = record { started_at = c.now; count = 1; window_seconds = c.window_seconds }

-- What `check` decides on the window of the bucket, and the window that it leaves.
unfoldable pub decide : Check → Option Window → Window × RateLimitDecision
unfolding is_over retry_after
decide c none = (fresh_window c, allow c)
decide c (some w) =
    if is_over c.now w c.window_seconds
    then (fresh_window c, allow c)
    else if ltb w.count c.limit
    then (record w { count = w.count + 1 }, allow c)
    else (
      w,
      record {
        allowed = false;
        limit = c.limit;
        window_seconds = c.window_seconds;
        retry_after_seconds = retry_after c w;
      },
    )

-- The windows that a check works on: each 256th check prunes them first.
unfoldable pub current : Check → Limiter → Windows
unfolding prune_expired
current c limiter =
    if (limiter.checks + 1) % 256 == 0 then prune_expired c.now limiter.windows else limiter.windows

unfoldable pub check : Check → Limiter → Limiter × RateLimitDecision
unfolding current decide set_window
check c limiter =
    let windows = current c limiter in
    let (w, decision) = decide c (find_window (bucket c) windows) in
    (record { windows = set_window (bucket c) w windows; checks = limiter.checks + 1 }, decision)

-- Checks one after the other, of any buckets.
unfoldable pub check_all : List Check → Limiter → Limiter × List RateLimitDecision
check_all [] limiter = (limiter, [])
check_all (c ∷ checks) limiter =
    let (limiter', decision) = check c limiter in
    let (limiter'', decisions) = check_all checks limiter' in (limiter'', decision ∷ decisions)
