-- ===== src/Scraping/Filter.antt =====
-- `DescriptionFilter` of backend/app/services/scrapers/pipeline.py. `str.lower` and `re.search` are
-- the record `TextOps`.
use resume_helper.Base.{
  Bool, true, false, ◌&&◌, ◌||◌, Option, none, some, List, [], ◌∷◌, Text, text_of, text_eq, map,
  keep, nonempty, strip, strip_prefix, is_some, not, if◌then◌else◌,
}

-- `search` gives `none` where `re` raises its error; it ignores case.
pub record TextOps : Type 0 where
  pub lower : Text → Text
  pub search : Text → Text → Option Bool

pub record DescriptionFilter : Type 0 where
  pub terms : List Text
  pub mode : Text
  pub regex : Bool

abbrev all_mode : Text
all_mode = text_of "all"

-- What `DescriptionFilter.from_optional` does: it returns a filter or `None`, or raises `ValueError`.
pub data FilterResult : Type 0 where
  filtered_by : Option DescriptionFilter → FilterResult
  invalid_mode : FilterResult

-- `(t.strip() for t in terms)`, the empty ones left out.
unfoldable pub clean_terms : List Text → List Text
clean_terms terms = keep nonempty (map strip terms)

abbrev filter_of : List Text → Text → Bool → FilterResult
filter_of [] mode regex = filtered_by none
filter_of (t ∷ cleaned) mode regex =
    if not (text_eq mode all_mode || text_eq mode (text_of "any"))
    then invalid_mode
    else filtered_by (some (record { terms = t ∷ cleaned; mode = mode; regex = regex }))

unfoldable pub from_optional : Option (List Text) → Text → Bool → FilterResult
unfolding clean_terms
from_optional none mode regex = filtered_by none
from_optional (some terms) mode regex = filter_of (clean_terms terms) mode regex

-- `term in haystack`
unfoldable pub is_in : Text → Text → Bool
is_in term [] = is_some (strip_prefix term [])
is_in term (c ∷ s) = is_some (strip_prefix term (c ∷ s)) || is_in term s

abbrev all_of : List Bool → Bool
all_of [] = true
all_of (b ∷ checks) = b && all_of checks

abbrev any_of : List Bool → Bool
any_of [] = false
any_of (b ∷ checks) = b || any_of checks

abbrev combine : Text → List Bool → Bool
combine mode checks = if text_eq mode all_mode then all_of checks else any_of checks

-- The checks of the patterns, unless one of them is no pattern.
unfoldable pub search_all : TextOps → List Text → Text → Option (List Bool)
search_all ops [] description = some []
search_all ops (term ∷ terms) description = elim (ops.search term description) [
  | none ↦ none
  | some found ↦ elim (search_all ops terms description) [
    | none ↦ none
    | some checks ↦ some (found ∷ checks)
  ]
]

unfoldable pub matches : TextOps → DescriptionFilter → Text → Bool
unfolding search_all is_in
matches ops f [] = false
matches ops f (c ∷ s) = elim f.regex [
  | true ↦ elim (search_all ops f.terms (c ∷ s)) [
    | none ↦ false
    | some checks ↦ combine f.mode checks
  ]
  | false ↦
      let haystack = ops.lower (c ∷ s) in
      combine f.mode (map (λ term. is_in (ops.lower term) haystack) f.terms)
]
