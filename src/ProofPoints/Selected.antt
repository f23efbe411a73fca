-- ===== src/ProofPoints/Selected.antt =====
-- The proof points that backend/app/services/proof_points.py selects.
use resume_helper.Base.{
  Elem, Elem-keep, subst, sym, ◌+◌, ◌⊎◌, none, some, nonempty, strip, text_eq, text_eq_iff, ℕ, ◌≤◌,
  ◌<◌, ◌≡◌, refl, inl, inr, true, Option, List, [], ◌∷◌, Text, text_of, keep, map, take, length,
  All, All-take, length-take, ltb, ltb→lt, arith, Bool-cases, text_of,
}
use resume_helper.Profiles.Pdf.{join}
use resume_helper.Tables.{ProofPoint}
use resume_helper.ProofPoints.{
  tokens, has_text, intersection, is_within, phrase_score, sum_scores, proof_point_text,
  score_proof_point, is_eligible, ranks_before, insert_ranked, sort_ranked, rank,
  select_relevant_proof_points,
}

module _ (casefold : Text → Text) where
  module _ (P : ℕ × ProofPoint → Type 0) where
    All-insert_ranked :
        (x : ℕ × ProofPoint) (ranked : List (ℕ × ProofPoint))
        → P x
        → All P ranked
        → All P (insert_ranked casefold x ranked)
    unfolding insert_ranked
    All-insert_ranked x [] h all = (h, tt)
    All-insert_ranked x (y ∷ ranked) h all = elim (Bool-cases (ranks_before casefold y x)) [
      | inl e ↦ rw (e, insert_ranked) (all.0, All-insert_ranked x ranked h all.1)
      | inr e ↦ rw (e, insert_ranked) (h, all)
    ]

    All-sort_ranked :
        (ranked : List (ℕ × ProofPoint)) → All P ranked → All P (sort_ranked casefold ranked)
    unfolding sort_ranked
    All-sort_ranked [] all = tt
    All-sort_ranked (x ∷ ranked) all =
        All-insert_ranked x (sort_ranked casefold ranked) all.0 (All-sort_ranked ranked all.1)

  -- A token of the proof point is one of the text.
  abbrev pub SharesToken : Text → Text → Type 0
  SharesToken text search_text =
      (t : Text) × Elem t (tokens casefold search_text) × Elem t (tokens casefold text)

  -- A skill or a tag that stands in the text, folded, or shares a token with it.
  abbrev pub SharesPhrase : Text → Text → Type 0
  SharesPhrase phrase search_text =
      let value = casefold (strip phrase) in
      (nonempty value ≡ true)
      × ((is_within value (casefold search_text) ≡ true) ⊎ SharesToken value search_text)

  -- The row is of the profile or of none, and has something in common with the text.
  pub record IsRelevant (profile_id : Option ℕ) (search_text : Text) (p : ProofPoint) : Type 0 where
    pub scope : (p.profile_id ≡ none) ⊎ (p.profile_id ≡ profile_id)
    pub shares :
        SharesToken (proof_point_text p) search_text
        ⊎ ((phrase : Text) × (Elem phrase p.skills ⊎ Elem phrase p.tags)
            × SharesPhrase phrase search_text)

  is_eligible-scope :
      (profile_id : Option ℕ) (p : ProofPoint)
      → is_eligible profile_id p ≡ true
      → (p.profile_id ≡ none) ⊎ (p.profile_id ≡ profile_id)
  unfolding is_eligible
  is_eligible-scope none p h = ground (arith, h)
  is_eligible-scope (some id) p h = ground (arith, h)

  has_text-Elem : (t : Text) (texts : List Text) → has_text t texts ≡ true → Elem t texts
  unfolding has_text
  has_text-Elem t [] h = absurd (cc)
  has_text-Elem t (s ∷ texts) h = elim (Bool-cases (text_eq s t)) [
    | inl e ↦ inl (sym ((text_eq_iff s t).0 e))
    | inr e ↦ inr (has_text-Elem t texts (ground (arith, h, e)))
  ]

  List-cases :
      {A : Type 0} (xs : List A) → (xs ≡ []) ⊎ ((x : A) × (rest : List A) × (xs ≡ x ∷ rest))
  List-cases [] = inl refl
  List-cases (x ∷ xs) = inr (x, xs, refl)

  -- What is in both of two sets is in each.
  intersection-Elem : (a b : List Text) (t : Text) → Elem t (intersection a b) → Elem t a × Elem t b
  intersection-Elem a b t m =
      let (here, there) = Elem-keep (λ t. has_text t b) a t m in (here, has_text-Elem t b there)

  phrase_score-SharesPhrase :
      (phrase search_text : Text) (exact token : ℕ)
      → 0
        < phrase_score casefold phrase
            (casefold search_text)
            (tokens casefold search_text)
            exact
            token
      → SharesPhrase phrase search_text
  unfolding phrase_score
  phrase_score-SharesPhrase phrase search_text exact token h =
      let value = casefold (strip phrase) in
      let both = intersection (tokens casefold value) (tokens casefold search_text) in
      elim (Bool-cases (nonempty value)) [
        | inr e ↦ absurd (omega (arith, rw (e, phrase_score) at h))
        | inl e ↦ elim (Bool-cases (is_within value (casefold search_text))) [
          | inl f ↦ (e, inl f)
          | inr f ↦ elim (List-cases both) [
            | inl g ↦ absurd (omega (arith, rw (e, f, g, phrase_score) at h))
            | inr (t, rest, g) ↦
                let m =
                  intersection-Elem (tokens casefold value) (tokens casefold search_text) t
                    (subst (Elem t) (sym g) (inl refl)) in
                (e, inr (t, m.1, m.0))
          ]
        ]
      ]

  sum_scores-Elem :
      (score : Text → ℕ) (texts : List Text)
      → 0 < sum_scores score texts
      → (t : Text) × Elem t texts × (0 < score t)
  unfolding sum_scores
  sum_scores-Elem score [] h = absurd (omega (arith, h))
  sum_scores-Elem score (t ∷ texts) h = elim (Bool-cases (ltb 0 (score t))) [
    | inl e ↦ (t, inl refl, ltb→lt _ _ e)
    | inr e ↦ let (u, m, k) = sum_scores-Elem score texts (ground (arith, h, e)) in (u, inr m, k)
  ]

  some_positive : (a b c : ℕ) → 0 < a + b + c → (0 < a) ⊎ ((0 < b) ⊎ (0 < c))
  some_positive a b c h = ground (arith, h)

  -- A score comes from a token or a phrase that is shared.
  score_proof_point-shares :
      (p : ProofPoint) (search_text : Text)
      → 0 < score_proof_point casefold p search_text
      → SharesToken (proof_point_text p) search_text
        ⊎ ((phrase : Text) × (Elem phrase p.skills ⊎ Elem phrase p.tags)
            × SharesPhrase phrase search_text)
  unfolding score_proof_point
  score_proof_point-shares p search_text h =
      let found = tokens casefold search_text in
      let both = intersection found (tokens casefold (proof_point_text p)) in
      let score = (λ (exact token : ℕ) (t : Text).
        phrase_score casefold t (casefold search_text) found exact token) in
      elim (some_positive (length both) (sum_scores (score 8 4) p.skills)
        (sum_scores (score 5 2) p.tags) h) [
          | inl a ↦ elim (List-cases both) [
            | inl e ↦ absurd (omega (arith, subst (λ xs. 0 < length xs) e a))
            | inr (t, rest, e) ↦
                let m =
                  intersection-Elem found (tokens casefold (proof_point_text p)) t
                    (subst (Elem t) (sym e) (inl refl)) in
                inl (t, m.0, m.1)
          ]
          | inr (inl b) ↦
              let (t, m, k) = sum_scores-Elem (score 8 4) p.skills b in
              inr (t, inl m, phrase_score-SharesPhrase t search_text 8 4 k)
          | inr (inr c) ↦
              let (t, m, k) = sum_scores-Elem (score 5 2) p.tags c in
              inr (t, inr m, phrase_score-SharesPhrase t search_text 5 2 k)
        ]

  All-rank :
      (profile_id : Option ℕ) (search_text : Text) (rows : List ProofPoint)
      → All
          (λ (x : ℕ × ProofPoint). IsRelevant profile_id search_text x.1)
          (rank casefold search_text (keep (is_eligible profile_id) rows))
  unfolding rank
  All-rank profile_id search_text [] = tt
  All-rank profile_id search_text (p ∷ rows) =
      let rest = All-rank profile_id search_text rows in
      elim (Bool-cases (is_eligible profile_id p)) [
        | inl e ↦ elim (Bool-cases (ltb 0 (score_proof_point casefold p search_text))) [
          | inl f ↦
              rw (e, rank, f)
                (
                  record {
                    scope = is_eligible-scope profile_id p e;
                    shares = score_proof_point-shares p search_text (ltb→lt _ _ f);
                  },
                  rest,
                )
          | inr f ↦ rw (e, rank, f) rest
        ]
        | inr e ↦ rw e rest
      ]

  All-second :
      (P : ProofPoint → Type 0) (ranked : List (ℕ × ProofPoint))
      → All (λ (x : ℕ × ProofPoint). P x.1) ranked
      → All P (map (λ (x : ℕ × ProofPoint). x.1) ranked)
  All-second P [] all = tt
  All-second P (x ∷ ranked) all = (all.0, All-second P ranked all.1)

  length-second :
      (ranked : List (ℕ × ProofPoint))
      → length (map (λ (x : ℕ × ProofPoint). x.1) ranked) ≡ length ranked
  length-second [] = refl
  length-second (x ∷ ranked) = omega (arith, length-second ranked)

  -- No more proof points are selected than the limit. Each is of the profile or of none, and a token of its
  -- text is one of the description and the gaps, or one of its skills or tags stands in them or shares a
  -- token with them.
  pub select_relevant_proof_points-IsRelevant :
      (table : List ProofPoint) (profile_id : Option ℕ) (jd_text : Text) (gaps : List Text)
      (limit : ℕ)
      → let chosen = select_relevant_proof_points casefold table profile_id jd_text gaps limit in
        All (IsRelevant profile_id (join (text_of " ") (jd_text ∷ gaps))) chosen
        × (length chosen ≤ limit)
  unfolding select_relevant_proof_points
  select_relevant_proof_points-IsRelevant table profile_id jd_text gaps limit =
      let search_text = join (text_of " ") (jd_text ∷ gaps) in
      let relevant = (λ (x : ℕ × ProofPoint). IsRelevant profile_id search_text x.1) in
      let ranked = rank casefold search_text (keep (is_eligible profile_id) table) in
      let sorted = All-sort_ranked relevant ranked (All-rank profile_id search_text table) in
      (
        All-second (IsRelevant profile_id search_text) _
            (All-take relevant limit (sort_ranked casefold ranked) sorted),
        omega (
          arith,
          length-second (take limit (sort_ranked casefold ranked)),
          length-take limit (sort_ranked casefold ranked),
        ),
      )
