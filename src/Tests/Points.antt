-- ===== src/Tests/Points.antt =====
-- The choice of backend/app/services/proof_points.py at a concrete input.
use resume_helper.Base.{
  ◌≡◌, ◌≤◌, refl, none, some, List, [], ◌∷◌, text_of, text_eq, strip, is_space, strip_prefix, All,
  length,
}
use resume_helper.Profiles.Pdf.{join}
use resume_helper.Tables.{ProofPoint}
use resume_helper.ProofPoints.{
  starts_token, continues_token, end_token, find_tokens, has_text, distinct, tokens, is_within,
  phrase_score, sum_scores, proof_point_text, score_proof_point, is_eligible, insert_ranked,
  sort_ranked, rank, select_relevant_proof_points,
}
use resume_helper.ProofPoints.Selected.{IsRelevant, select_relevant_proof_points-IsRelevant}

abbrev point : ProofPoint
point = record {
  id = 1;
  profile_id = none;
  title = text_of "api";
  context = none;
  metrics = none;
  skills = text_of "go" ∷ [];
  tags = [];
  situation = none;
  task = none;
  action = none;
  result = none;
  created_at = 1;
  updated_at = 1;
}

-- One of another profile, which is not eligible, and one that shares nothing.
abbrev points : List ProofPoint
points =
    record point { id = 2; profile_id = some 9 }
    ∷ record point { id = 3; title = text_of "ml"; skills = [] }
    ∷ point
    ∷ []

abbrev chosen : List ProofPoint
chosen = select_relevant_proof_points (λ s. s) points (some 4) (text_of "api in go") [] 2

selects : chosen ≡ point ∷ []
unfolding select_relevant_proof_points rank score_proof_point tokens find_tokens continues_token
    starts_token end_token has_text distinct proof_point_text phrase_score sum_scores is_within
    is_eligible sort_ranked insert_ranked join strip is_space strip_prefix text_eq
selects = refl

select_relevant_proof_points-IsRelevant_example :
    All (IsRelevant (λ s. s) (some 4) (text_of "api in go")) chosen × (length chosen ≤ 2)
unfolding join
select_relevant_proof_points-IsRelevant_example =
    select_relevant_proof_points-IsRelevant (λ s. s) points (some 4) (text_of "api in go") [] 2
