-- ===== src/Uuid/RoundTrip.antt =====
-- What `str` writes of an id, `uuid.UUID` reads back.
use native.Mathlib.Nat.{pow-suc}
use resume_helper.Base.{
  Option-cases, inl, inr, true, nonempty, ℕ, zero, suc, ◌+◌, ◌*◌, ◌/◌, ◌%◌, ◌^◌, ◌≤◌, ◌<◌, ◌≡◌,
  refl, ap, ◌∙◌, some, List, [], ◌∷◌, ◌++◌, Text, length, take, drop, All, All-append, All-take,
  All-drop, take-append-drop, length-append, arith,
}
use resume_helper.Uuid.{
  Uuid, hex_digit, digit_value, hex, hex_value, without_pattern, lstrip_braces, rstrip_braces,
  without_dashes, dashed, uuid_str, uuid_of,
}

-- A digit or a dash: below the letters and braces that `UUID` takes out.
abbrev IsPlain : ℕ → Type 0
IsPlain c = c ≤ 102

-- A digit.
abbrev IsHex : ℕ → Type 0
IsHex c = (48 ≤ c) × (c ≤ 102)

hex_digit-IsHex : (d : ℕ) → d < 16 → IsHex (hex_digit d)
unfolding hex_digit
hex_digit-IsHex d h = ground arith

digit_value-hex_digit : (d : ℕ) → d < 16 → digit_value (hex_digit d) ≡ some d
unfolding hex_digit digit_value
digit_value-hex_digit d h = ground arith

hex-IsHex : (k n : ℕ) → All IsHex (hex k n)
unfolding hex
hex-IsHex zero n = tt
hex-IsHex (suc k) n =
    All-append IsHex (hex k (n / 16)) _ (hex-IsHex k (n / 16))
      (hex_digit-IsHex (n % 16) (omega arith), tt)

length-hex : (k n : ℕ) → length (hex k n) ≡ k
unfolding hex
length-hex zero n = refl
length-hex (suc k) n = length-append (hex k (n / 16)) _ ∙ omega (arith, length-hex k (n / 16))

hex_value-append :
    (acc : ℕ) (s t : Text) (v : ℕ)
    → hex_value acc s ≡ some v
    → hex_value acc (s ++ t) ≡ hex_value v t
unfolding hex_value
hex_value-append acc [] t v h = cc
hex_value-append acc (c ∷ s) t v h = elim (Option-cases (digit_value c)) [
  | inl bad ↦ ground arith
  | inr (d, e) ↦ ground (arith, hex_value-append (acc * 16 + d) s t v)
]

last_digit : (a d n : ℕ) → d < 16 → a * 16 + d ≡ n → hex_value a (hex_digit d ∷ []) ≡ some n
unfolding hex_value
last_digit a d n h e = ground (arith, digit_value-hex_digit d h)

hex_value-hex : (k n : ℕ) → n < 16 ^ k → hex_value 0 (hex k n) ≡ some n
unfolding hex hex_value
hex_value-hex zero n h = ap some (omega arith)
hex_value-hex (suc k) n h =
    let small : n < 16 ^ k * 16 = rw pow-suc at h in
    hex_value-append 0 (hex k (n / 16)) _ (n / 16) (hex_value-hex k (n / 16) (omega arith))
    ∙ last_digit (n / 16) (n % 16) n (omega arith) (omega arith)

without_pattern_plain :
    (f p : ℕ) (ps s : Text) → 102 < p → All IsPlain s → without_pattern f (p ∷ ps) s ≡ s
unfolding without_pattern
without_pattern_plain zero p ps s hp h = refl
without_pattern_plain (suc f) p ps [] hp h = refl
without_pattern_plain (suc f) p ps (c ∷ s) hp h =
    ground (arith, without_pattern_plain f p ps s hp h.1)

lstrip_braces_plain : (s : Text) → All IsPlain s → lstrip_braces s ≡ s
unfolding lstrip_braces
lstrip_braces_plain [] h = refl
lstrip_braces_plain (c ∷ s) h = ground arith

rstrip_braces_plain : (s : Text) → All IsPlain s → rstrip_braces s ≡ s
unfolding rstrip_braces
rstrip_braces_plain [] h = refl
rstrip_braces_plain (c ∷ s) h = ground (arith, rstrip_braces_plain s h.1)

without_dashes-hex : (s : Text) → All IsHex s → without_dashes s ≡ s
unfolding without_dashes
without_dashes-hex [] h = refl
without_dashes-hex (c ∷ s) h = ground (arith, without_dashes-hex s h.1)

without_dashes-append :
    (s t : Text) → without_dashes (s ++ t) ≡ without_dashes s ++ without_dashes t
unfolding without_dashes
without_dashes-append [] t = refl
without_dashes-append (c ∷ s) t = ground (arith, without_dashes-append s t)

All-IsPlain : (s : Text) → All IsHex s → All IsPlain s
All-IsPlain [] h = tt
All-IsPlain (c ∷ s) h = (h.0.1, All-IsPlain s h.1)

dashed-IsPlain : (ns : List ℕ) (s : Text) → All IsHex s → All IsPlain (dashed ns s)
unfolding dashed
dashed-IsPlain [] s h = All-IsPlain s h
dashed-IsPlain (n ∷ ns) s h =
    All-append IsPlain (take n s) _ (All-IsPlain _ (All-take IsHex n s h))
      (omega arith, dashed-IsPlain ns (drop n s) (All-drop IsHex n s h))

without_dashes-dashed : (ns : List ℕ) (s : Text) → All IsHex s → without_dashes (dashed ns s) ≡ s
unfolding dashed without_dashes
without_dashes-dashed [] s h = without_dashes-hex s h
without_dashes-dashed (n ∷ ns) s h =
    without_dashes-append (take n s) _
    ∙ rw
        (
          without_dashes-hex _ (All-take IsHex n s h),
          without_dashes-dashed ns _ (All-drop IsHex n s h),
        )
        (take-append-drop n s)

uuid_of-dashed :
    (ns : List ℕ) (s : Text) (u : Uuid)
    → All IsHex s
    → length s ≡ 32
    → hex_value 0 s ≡ some u
    → uuid_of (dashed ns s) ≡ some u
unfolding uuid_of
uuid_of-dashed ns s u h len value =
    let plain = dashed-IsPlain ns s h in
    simp (
      without_pattern_plain _ 117 _ (dashed ns s) (omega arith) plain,
      lstrip_braces_plain _ plain,
      rstrip_braces_plain _ plain,
      without_dashes-dashed ns s h,
      len,
      value,
    )

-- For a number of 128 bits, `uuid.UUID(str(u))` is `u`.
pub uuid_of-uuid_str : (u : Uuid) → u < 2 ^ 128 → uuid_of (uuid_str u) ≡ some u
unfolding uuid_str
uuid_of-uuid_str u h =
    uuid_of-dashed (8 ∷ 4 ∷ 4 ∷ 4 ∷ []) (hex 32 u) u (hex-IsHex 32 u) (length-hex 32 u)
      (hex_value-hex 32 u h)

pub nonempty-uuid_str : (u : Uuid) → nonempty (uuid_str u) ≡ true
unfolding uuid_str dashed hex
nonempty-uuid_str u = refl
