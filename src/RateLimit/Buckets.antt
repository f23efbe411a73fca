-- ===== src/RateLimit/Buckets.antt =====
-- The windows of the buckets after a check of backend/app/rate_limit.py.
use resume_helper.Base.{
  ℕ, ◌+◌, true, none, some, [], ◌∷◌, Key, key_eq, key_eq_iff, ◌==◌, ◌%◌, ◌≡◌, refl, ◌∙◌, ◌⊎◌, inl,
  inr, arith, Bool-cases, Option-cases, if◌then◌else◌,
}
use resume_helper.RateLimit.Limiter.{
  Window, Windows, Limiter, Check, find_window, set_window, is_over, prune_expired, bucket, current,
  check,
}

pub find_window-set_window :
    (k j : Key) (w : Window) (windows : Windows)
    → find_window j (set_window k w windows)
      ≡ (if key_eq k j then some w else find_window j windows)
unfolding find_window set_window
find_window-set_window k j w [] = refl
find_window-set_window k j w ((i, v) ∷ windows) =
    ground
      (arith, find_window-set_window k j w windows, key_eq_iff i k, key_eq_iff i j, key_eq_iff k j)

-- No bucket has two windows.
unfoldable pub IsDict : Windows → Type 0
IsDict [] = Unit
IsDict ((k, w) ∷ windows) = (find_window k windows ≡ none) × IsDict windows

find_window-prune_none :
    (now : ℕ) (j : Key) (windows : Windows)
    → find_window j windows ≡ none
    → find_window j (prune_expired now windows) ≡ none
unfolding find_window prune_expired
find_window-prune_none now j [] h = refl
find_window-prune_none now j ((k, w) ∷ windows) h =
    ground (arith, h, find_window-prune_none now j windows (ground (arith, h)))

-- Pruning takes away the windows that are over, and no others.
pub find_window-prune_expired :
    (now : ℕ) (j : Key) (windows : Windows)
    → IsDict windows
    → find_window j (prune_expired now windows) ≡ elim (find_window j windows) [
      | none ↦ none
      | some w ↦ if is_over now w w.window_seconds then none else some w
    ]
unfolding find_window prune_expired IsDict
find_window-prune_expired now j [] h = refl
find_window-prune_expired now j ((k, w) ∷ windows) (free, rest) =
    let same = key_eq_iff k j in
    elim (Bool-cases (key_eq k j)) [
      | inl here ↦
          let gone : find_window j windows ≡ none = ground (arith, free, same) in
          let left = find_window-prune_none now j windows gone in
          rw here (ground (arith, left, here))
      | inr there ↦ rw there (ground (arith, there, find_window-prune_expired now j windows rest))
    ]

IsDict-prune_expired :
    (now : ℕ) (windows : Windows) → IsDict windows → IsDict (prune_expired now windows)
unfolding IsDict prune_expired
IsDict-prune_expired now [] h = tt
IsDict-prune_expired now ((k, w) ∷ windows) (free, rest) =
    elim (Bool-cases (is_over now w w.window_seconds)) [
      | inl over ↦ rw over (IsDict-prune_expired now windows rest)
      | inr live ↦
          rw live (find_window-prune_none now k windows free, IsDict-prune_expired now windows rest)
    ]

IsDict-set_window :
    (k : Key) (w : Window) (windows : Windows) → IsDict windows → IsDict (set_window k w windows)
unfolding IsDict set_window
IsDict-set_window k w [] h = (unfold find_window in refl, tt)
IsDict-set_window k w ((j, v) ∷ windows) (free, rest) = elim (Bool-cases (key_eq j k)) [
  | inl same ↦ rw same (free, rest)
  | inr differs ↦ rw differs (
    find_window-set_window k j w windows ∙ ground (arith, free, key_eq_iff j k, key_eq_iff k j),
    IsDict-set_window k w windows rest,
  )
]

pub IsDict-current :
    (c : Check) (limiter : Limiter) → IsDict limiter.windows → IsDict (current c limiter)
IsDict-current c limiter h = elim (Bool-cases ((limiter.checks + 1) % 256 == 0)) [
  | inl prunes ↦
      unfold current in rw (current, prunes) (IsDict-prune_expired c.now limiter.windows h)
  | inr keeps ↦ unfold current in rw (current, keeps) h
]

pub IsDict-check :
    (c : Check) (limiter : Limiter) → IsDict limiter.windows → IsDict (check c limiter).0.windows
unfolding check
IsDict-check c limiter h =
    IsDict-set_window (bucket c) _ (current c limiter) (IsDict-current c limiter h)

-- The windows that a check works on are those of the limiter, or those that are not over.
pub find_window-current :
    (c : Check) (j : Key) (limiter : Limiter)
    → IsDict limiter.windows
    → (find_window j (current c limiter) ≡ find_window j limiter.windows)
      ⊎ ((w : Window) × (find_window j limiter.windows ≡ some w)
          × (is_over c.now w w.window_seconds ≡ true)
          × (find_window j (current c limiter) ≡ none))
find_window-current c j limiter h = elim (Bool-cases ((limiter.checks + 1) % 256 == 0)) [
  | inr keeps ↦ inl (unfold current in rw (current, keeps) refl)
  | inl prunes ↦
      let e : current c limiter ≡ prune_expired c.now limiter.windows =
        (unfold current in rw (current, prunes) refl) in
      let pruned = find_window-prune_expired c.now j limiter.windows h in
      elim (Option-cases (find_window j limiter.windows)) [
        | inl missing ↦ inl (rw (e, missing) (pruned ∙ rw missing refl))
        | inr (w, found) ↦ elim (Bool-cases (is_over c.now w w.window_seconds)) [
          | inl over ↦ inr (w, found, over, rw e (pruned ∙ rw (found, over) refl))
          | inr live ↦ inl (rw (e, found) (pruned ∙ rw (found, live) refl))
        ]
      ]
]
