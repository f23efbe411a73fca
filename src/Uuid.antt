-- ===== src/Uuid.antt =====
-- `uuid.UUID` as its 128-bit number, with `str(u)` and `uuid.UUID(text)`, by which
-- backend/app/services/job_queue.py writes an id into a payload or a key and reads it back.
-- `UUID(text)` is taken on hexadecimal digits: Python's `int(text, 16)` would also take a sign,
-- underscores and spaces among the 32 characters.
pub mod RoundTrip
use resume_helper.Base.{
  ℕ, zero, suc, ◌+◌, ◌-◌, ◌*◌, ◌/◌, ◌%◌, Bool, ◌&&◌, ◌||◌, not, Option, none, some, List, [], ◌∷◌,
  ◌++◌, Text, text_of, nonempty, strip_prefix, length, take, drop, leb, ◌==◌, if◌then◌else◌,
}

abbrev pub Uuid : Type 0
Uuid = ℕ

hex_digit : ℕ → ℕ
hex_digit d = if leb d 9 then 48 + d else 87 + d

-- The value of one digit, in either case.
digit_value : ℕ → Option ℕ
digit_value c =
    if leb 48 c && leb c 57
    then some (c - 48)
    else if leb 97 c && leb c 102
    then some (c - 87)
    else if leb 65 c && leb c 70
    then some (c - 55)
    else none

-- `n` as `k` digits, for `n < 16 ^ k`.
hex : ℕ → ℕ → Text
hex zero n = []
hex (suc k) n = hex k (n / 16) ++ hex_digit (n % 16) ∷ []

-- The number that the digits spell, after digits that spell `acc`.
hex_value : ℕ → Text → Option ℕ
hex_value acc [] = some acc
hex_value acc (c ∷ s) = elim (digit_value c) [ none ↦ none | some d ↦ hex_value (acc * 16 + d) s ]

-- `text.replace(p, "")`, on fuel: each round takes a character at least.
without_pattern : ℕ → Text → Text → Text
unfolding strip_prefix
without_pattern zero p s = s
without_pattern (suc f) p [] = []
without_pattern (suc f) p (c ∷ s) = elim (strip_prefix p (c ∷ s)) [
  | none ↦ c ∷ without_pattern f p s
  | some rest ↦ without_pattern f p rest
]

is_brace : ℕ → Bool
is_brace c = c == 123 || c == 125

-- `text.strip("{}")`
lstrip_braces : Text → Text
unfolding is_brace
lstrip_braces [] = []
lstrip_braces (c ∷ s) = if is_brace c then lstrip_braces s else c ∷ s

rstrip_braces : Text → Text
unfolding is_brace
rstrip_braces [] = []
rstrip_braces (c ∷ s) =
    let rest = rstrip_braces s in if is_brace c && not (nonempty rest) then [] else c ∷ rest

without_dashes : Text → Text
without_dashes [] = []
without_dashes (c ∷ s) = let rest = without_dashes s in if c == 45 then rest else c ∷ rest

-- A dash after each group of the given lengths.
dashed : List ℕ → Text → Text
dashed [] s = s
dashed (n ∷ ns) s = take n s ++ 45 ∷ dashed ns (drop n s)

-- `str(u)`
pub uuid_str : Uuid → Text
uuid_str u = dashed (8 ∷ 4 ∷ 4 ∷ 4 ∷ []) (hex 32 u)

-- `uuid.UUID(text)`; `none` is its `ValueError`.
pub uuid_of : Text → Option Uuid
uuid_of text =
    let bare = without_pattern (length text) (text_of "urn:") text in
    let bare' = without_pattern (length bare) (text_of "uuid:") bare in
    let digits = without_dashes (rstrip_braces (lstrip_braces bare')) in
    if length digits == 32 then hex_value 0 digits else none
