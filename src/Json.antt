-- ===== src/Json.antt =====
-- The values of a JSON column, and `dict` by key, as backend/app/services/job_queue.py and
-- backend/app/workers/job_queue.py use them.
use text.Mathlib.Text.{◌==◌ as str_eq}
use text.Mathlib.TextEquality.{eq_iff}
use resume_helper.Base.{
  zero, suc, ℤ, pos, negsuc, ◌≡◌, refl, Bool, true, false, Option, none, some, List, [], ◌∷◌,
  String, Text, text_of, nonempty, text_eq, or_else, not, ◌||◌, arith, if◌then◌else◌,
}
use resume_helper.Decimal.{decimal}

-- A list, an object or a float is only printed and tested by the code: `other` carries its text.
pub data Json : Type 0 where
  null : Json
  bool : Bool → Json
  int : ℤ → Json
  string : Text → Json
  other : Text → Json

-- `str(value)`
unfoldable pub json_str : Json → Text
unfolding decimal
json_str null = text_of "None"
json_str (bool true) = text_of "True"
json_str (bool false) = text_of "False"
json_str (int (pos n)) = decimal n
json_str (int (negsuc n)) = 45 ∷ decimal (suc n)
json_str (string s) = s
json_str (other s) = s

-- `bool(value)`
unfoldable pub truthy : Json → Bool
unfolding text_eq
truthy null = false
truthy (bool b) = b
truthy (int (pos zero)) = false
truthy (int _) = true
truthy (string s) = nonempty s
truthy (other s) = not (
    text_eq s (text_of "[]")
    || text_eq s (text_of "{}")
    || text_eq s (text_of "0.0")
    || text_eq s (text_of "-0.0"))

abbrev pub Payload : Type 0
Payload = List (String × Json)

-- `d.get(k)`
unfoldable pub get : String → Payload → Option Json
get key [] = none
get key (item ∷ rest) = if str_eq item.0 key then some item.1 else get key rest

-- `d[k] = v`: a key that is there keeps its place.
unfoldable pub set_item : String → Json → Payload → Payload
set_item key new [] = (key, new) ∷ []
set_item key new (item ∷ rest) =
    let later = set_item key new rest in
    if str_eq item.0 key then (item.0, new) ∷ rest else item ∷ later

-- `{**current, **payload}`
unfoldable pub merge : Payload → Payload → Payload
unfolding set_item
merge current [] = current
merge current ((k, v) ∷ payload) = merge (set_item k v current) payload

-- Only the key that was written reads differently.
pub get-set_item :
    (key asked : String) (new : Json) (d : Payload)
    → get asked (set_item key new d) ≡ (if str_eq key asked then some new else get asked d)
unfolding get set_item
get-set_item key asked new [] = refl
get-set_item key asked new (item ∷ rest) = ground (
  arith,
  get-set_item key asked new rest,
  eq_iff item.0 key,
  eq_iff item.0 asked,
  eq_iff key asked,
)

-- The keys of the second dict win, and the other keys of the first stay.
pub get-merge :
    (k : String) (a b : Payload) → get k (merge a b) ≡ or_else (get k (merge [] b)) (get k a)
unfolding merge get
get-merge k a [] = refl
get-merge k a ((j, v) ∷ b) =
    ground
      (arith, get-merge k (set_item j v a) b, get-merge k ((j, v) ∷ []) b, get-set_item j k v a)
