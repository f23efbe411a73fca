-- ===== src/Decimal.antt =====
-- `str(n)` of a natural number, as the f-strings of backend/app/services/job_queue.py write it, and
-- the value that its digits spell.
use native.Mathlib.Nat.{le_refl}
use resume_helper.Base.{
  ℕ, zero, suc, ◌+◌, ◌-◌, ◌*◌, ◌/◌, ◌%◌, ◌≤◌, ◌<◌, ◌≡◌, refl, ◌∙◌, [], ◌∷◌, ◌++◌, Text, All,
  All-append, inl, inr, Bool-cases, ltb, arith, if◌then◌else◌,
}

-- Each round drops a digit, so the number itself is fuel enough.
decimal_on : ℕ → ℕ → Text
decimal_on zero n = []
decimal_on (suc f) n =
    let rest = decimal_on f (n / 10) in
    if ltb n 10 then (48 + n) ∷ [] else rest ++ (48 + n % 10) ∷ []

unfoldable pub decimal : ℕ → Text
unfolding decimal_on
decimal n = decimal_on (suc n) n

abbrev pub IsDigit : ℕ → Type 0
IsDigit c = (48 ≤ c) × (c ≤ 57)

-- The number that a text of digits spells.
value : ℕ → Text → ℕ
value acc [] = acc
value acc (c ∷ s) = value (acc * 10 + (c - 48)) s

value-append : (acc c : ℕ) (s : Text) → value acc (s ++ c ∷ []) ≡ value acc s * 10 + (c - 48)
unfolding value
value-append acc c [] = refl
value-append acc c (x ∷ s) = value-append (acc * 10 + (x - 48)) c s

decimal_on-IsDigit : (f n : ℕ) → All IsDigit (decimal_on f n)
unfolding decimal_on
decimal_on-IsDigit zero n = tt
decimal_on-IsDigit (suc f) n = elim (Bool-cases (ltb n 10)) [
  | inl small ↦ ground arith
  | inr large ↦ rw large (
      All-append IsDigit (decimal_on f (n / 10)) _ (decimal_on-IsDigit f (n / 10))
        (omega arith, tt))
]

pub decimal-IsDigit : (n : ℕ) → All IsDigit (decimal n)
unfolding decimal
decimal-IsDigit n = decimal_on-IsDigit (suc n) n

value-decimal_on : (f n : ℕ) → n < f → value 0 (decimal_on f n) ≡ n
unfolding decimal_on
value-decimal_on zero n h = absurd (omega arith)
value-decimal_on (suc f) n h = elim (Bool-cases (ltb n 10)) [
  | inl small ↦ rw small (unfold value in omega arith)
  | inr large ↦ rw large (
      value-append 0 (48 + n % 10) (decimal_on f (n / 10))
      ∙ omega (arith, value-decimal_on f (n / 10) (ground arith)))
]

-- Two numbers with one text are one number.
pub decimal-injective : (m n : ℕ) → decimal m ≡ decimal n → m ≡ n
unfolding decimal
decimal-injective m n e =
    let read : (k : ℕ) → value 0 (decimal k) ≡ k = λ k. value-decimal_on (suc k) k (le_refl _) in
    cc (read m, read n)
