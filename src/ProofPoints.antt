-- ===== src/ProofPoints.antt =====
-- backend/app/services/proof_points.py: which proof points a tailoring is given, and how they are written.
-- `str.casefold` is an argument.
pub mod Selected
use resume_helper.Base.{
  ℕ, zero, suc, ◌+◌, Bool, true, false, not, ◌&&◌, ◌||◌, Option, none, some, List, [], ◌∷◌, ◌++◌,
  Text, text_of, text_eq, strip, strip_prefix, nonempty, is_some, get_or, keep, map, take, length,
  ltb, leb, ◌==◌, if◌then◌else◌,
}
use resume_helper.Uuid.{Uuid, uuid_str}
use resume_helper.Tables.{ProofPoint}
use resume_helper.Decimal.{decimal}
use resume_helper.Profiles.Pdf.{join}

-- `[a-z0-9]` where the case is ignored: the letters of ASCII, and the four others that fold to one.
unfoldable pub starts_token : ℕ → Bool
starts_token c =
    (leb 48 c && leb c 57)
    || (leb 65 c && leb c 90)
    || (leb 97 c && leb c 122)
    || c == 0x130
    || c == 0x131
    || c == 0x17f
    || c == 0x212a

-- `[a-z0-9+#.-]`
unfoldable pub continues_token : ℕ → Bool
unfolding starts_token
continues_token c = starts_token c || c == 43 || c == 35 || c == 46 || c == 45

-- A match ends: it has a second character, or there is none.
unfoldable pub end_token : Text → List Text → List Text
end_token (c ∷ d ∷ s) rest = (c ∷ d ∷ s) ∷ rest
end_token _ rest = rest

-- `_TOKEN_RE.findall(text)`, after the characters of the match that is under way.
unfoldable pub find_tokens : Text → Text → List Text
unfolding continues_token end_token
find_tokens token [] = end_token token []
find_tokens [] (c ∷ s) =
    let inside = find_tokens (c ∷ []) s in
    let outside = find_tokens [] s in if starts_token c then inside else outside
find_tokens (t ∷ token) (c ∷ s) =
    let inside = find_tokens (t ∷ token ++ c ∷ []) s in
    let outside = find_tokens [] s in
    if continues_token c then inside else end_token (t ∷ token) outside

unfoldable pub has_text : Text → List Text → Bool
has_text t [] = false
has_text t (s ∷ texts) = text_eq s t || has_text t texts

-- `_STOPWORDS`
abbrev pub stopwords : List Text
stopwords =
    text_of "and"
    ∷ text_of "are"
    ∷ text_of "for"
    ∷ text_of "from"
    ∷ text_of "have"
    ∷ text_of "into"
    ∷ text_of "role"
    ∷ text_of "that"
    ∷ text_of "the"
    ∷ text_of "this"
    ∷ text_of "with"
    ∷ text_of "you"
    ∷ text_of "your"
    ∷ []

-- A set as a list without repetitions.
unfoldable pub distinct : List Text → List Text
unfolding has_text
distinct [] = []
distinct (t ∷ texts) = let rest = distinct texts in if has_text t rest then rest else t ∷ rest

abbrev pub intersection : List Text → List Text → List Text
intersection a b = keep (λ t. has_text t b) a

unfoldable pub is_within : Text → Text → Bool
unfolding strip_prefix
is_within part [] = not (nonempty part)
is_within part (c ∷ s) = is_some (strip_prefix part (c ∷ s)) || is_within part s

unfoldable pub sum_scores : (Text → ℕ) → List Text → ℕ
sum_scores score [] = 0
sum_scores score (t ∷ texts) = score t + sum_scores score texts

unfoldable pub proof_point_text : ProofPoint → Text
unfolding join
proof_point_text p = join (text_of " ") (
    p.title
    ∷ get_or p.context []
    ∷ get_or p.metrics []
    ∷ get_or p.situation []
    ∷ get_or p.task []
    ∷ get_or p.action []
    ∷ get_or p.result []
    ∷ (p.skills ++ p.tags))

-- `profile_id == …` or NULL.
unfoldable pub is_eligible : Option ℕ → ProofPoint → Bool
is_eligible none p = not (is_some p.profile_id)
is_eligible (some id) p = elim p.profile_id [ none ↦ true | some own ↦ own == id ]

unfoldable pub text_less : Text → Text → Bool
text_less s [] = false
text_less [] (d ∷ t) = true
text_less (c ∷ s) (d ∷ t) = ltb c d || (c == d && text_less s t)

module _ (casefold : Text → Text) where
  unfoldable pub tokens : Text → List Text
  unfolding find_tokens has_text distinct
  tokens text =
      distinct (keep (λ t. not (has_text t stopwords)) (map casefold (find_tokens [] text)))

  unfoldable pub phrase_score : Text → Text → List Text → ℕ → ℕ → ℕ
  unfolding is_within tokens strip
  phrase_score phrase folded_search search_tokens exact token =
      let value = casefold (strip phrase) in
      if not (nonempty value)
      then 0
      else if is_within value folded_search
      then exact
      else elim (intersection (tokens value) search_tokens) [ [] ↦ 0 | _ ∷ _ ↦ token ]

  unfoldable pub score_proof_point : ProofPoint → Text → ℕ
  unfolding tokens proof_point_text phrase_score sum_scores
  score_proof_point p search_text =
      let folded_search = casefold search_text in
      let search_tokens = tokens search_text in
      length (intersection search_tokens (tokens (proof_point_text p)))
      + sum_scores (λ skill. phrase_score skill folded_search search_tokens 8 4) p.skills
      + sum_scores (λ tag. phrase_score tag folded_search search_tokens 5 2) p.tags

  -- The order of the keys: the score and the time from high to low, and then the title.
  unfoldable pub ranks_before : ℕ × ProofPoint → ℕ × ProofPoint → Bool
  unfolding text_less
  ranks_before (m, p) (n, q) =
      ltb n m
      || (m == n
          && (ltb q.updated_at p.updated_at
              || (p.updated_at == q.updated_at && text_less (casefold p.title) (casefold q.title))))

  unfoldable pub insert_ranked : ℕ × ProofPoint → List (ℕ × ProofPoint) → List (ℕ × ProofPoint)
  unfolding ranks_before
  insert_ranked x [] = x ∷ []
  insert_ranked x (y ∷ ranked) =
      let rest = insert_ranked x ranked in if ranks_before y x then y ∷ rest else x ∷ y ∷ ranked

  unfoldable pub sort_ranked : List (ℕ × ProofPoint) → List (ℕ × ProofPoint)
  unfolding insert_ranked
  sort_ranked [] = []
  sort_ranked (x ∷ ranked) = insert_ranked x (sort_ranked ranked)

  unfoldable pub rank : Text → List ProofPoint → List (ℕ × ProofPoint)
  unfolding score_proof_point
  rank search_text [] = []
  rank search_text (p ∷ rows) =
      let rest = rank search_text rows in
      let score = score_proof_point p search_text in if ltb 0 score then (score, p) ∷ rest else rest

  -- A limit below 1 is 0 here.
  unfoldable pub select_relevant_proof_points :
      List ProofPoint → Option ℕ → Text → List Text → ℕ → List ProofPoint
  unfolding join is_eligible rank sort_ranked
  select_relevant_proof_points table profile_id jd_text gaps limit =
      let search_text = join (text_of " ") (jd_text ∷ gaps) in
      map (λ ranked. ranked.1)
        (take limit (sort_ranked (rank search_text (keep (is_eligible profile_id) table))))

-- The lines of `_append_field` and `_append_list_field`.
unfoldable pub field_line : Text → Option Text → List Text
unfolding strip
field_line label none = []
field_line label (some value) =
    if nonempty value then (text_of "   " ++ label ++ text_of ": " ++ strip value) ∷ [] else []

unfoldable pub list_line : Text → List Text → List Text
unfolding strip join
list_line label values = elim (keep nonempty (map strip values)) [
  | [] ↦ []
  | v ∷ cleaned ↦ (text_of "   " ++ label ++ text_of ": " ++ join (text_of ", ") (v ∷ cleaned)) ∷ []
]

unfoldable pub proof_point_lines : ℕ → List ProofPoint → List Text
unfolding field_line list_line
proof_point_lines index [] = []
proof_point_lines index (p ∷ points) =
    (decimal index ++ text_of ". id: " ++ uuid_str p.id)
    ∷ (text_of "   title: " ++ p.title)
    ∷ (field_line (text_of "context") p.context
        ++ field_line (text_of "metrics") p.metrics
        ++ list_line (text_of "skills") p.skills
        ++ list_line (text_of "tags") p.tags
        ++ field_line (text_of "situation") p.situation
        ++ field_line (text_of "task") p.task
        ++ field_line (text_of "action") p.action
        ++ field_line (text_of "result") p.result
        ++ proof_point_lines (index + 1) points)

unfoldable pub format_proof_points_for_prompt : List ProofPoint → Text
unfolding proof_point_lines join
format_proof_points_for_prompt [] = text_of "(none)"
format_proof_points_for_prompt (p ∷ points) = join (text_of "\n") (proof_point_lines 1 (p ∷ points))
