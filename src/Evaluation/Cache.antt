-- ===== src/Evaluation/Cache.antt =====
-- The cache of backend/app/services/evaluator_v2.py: what one evaluation stores the next one finds.
use resume_helper.Base.{
  pos, negsuc, subst, sym, ap, ℕ, ℤ, ◌≡◌, ◌∙◌, refl, inl, inr, Bool, true, Option, none, some, List,
  [], ◌∷◌, ◌++◌, Text, arith, Bool-cases, text_eq_iff,
}
use resume_helper.Tables.{BaselineProfile, JobAnalysis}
use resume_helper.Errors.{Attempt, ok}
use resume_helper.Hashing.{jd_hash}
use resume_helper.JobQueue.Store.{Db}
use resume_helper.Profiles.{get_profile, get_default_profile, get_latest_profile}
use resume_helper.Audit.{LlmClient, EvaluationResult}
use resume_helper.Evaluation.Results.{row_of, Evaluated, cached, scored, evaluate_jd-Evaluated, hit}
use resume_helper.Evaluation.{
  EvaluateEnv, resolve_profile, is_cached, first_cached, analysis_row, evaluate_jd, same_version,
}

row_of-is_cached :
    (env : EvaluateEnv) (llm : LlmClient) (profile_id : ℕ) (jd_text prompt_version : Text)
    (threshold : ℤ) (result : EvaluationResult)
    → is_cached
        (jd_hash env.digest jd_text)
        profile_id
        prompt_version
        (row_of env llm profile_id jd_text prompt_version threshold result)
      ≡ true
unfolding is_cached analysis_row
row_of-is_cached env llm profile_id jd_text prompt_version threshold result = ground (
  arith,
  text_eq_iff (jd_hash env.digest jd_text) (jd_hash env.digest jd_text),
  text_eq_iff prompt_version prompt_version,
)

first_cached-append :
    (jd_h : Text) (id : ℕ) (version : Text) (analyses : List JobAnalysis) (a : JobAnalysis)
    → is_cached jd_h id version a ≡ true
    → (b : JobAnalysis) × (first_cached jd_h id version (analyses ++ a ∷ []) ≡ some b)
      × (is_cached jd_h id version b ≡ true)
unfolding first_cached
first_cached-append jd_h id version [] a hit = (a, rw hit refl, hit)
first_cached-append jd_h id version (c ∷ analyses) a hit =
    elim (Bool-cases (is_cached jd_h id version c)) [
      | inl e ↦ (c, rw e refl, e)
      | inr e ↦
          let (b, found, same) = first_cached-append jd_h id version analyses a hit in
          (b, rw e found, same)
    ]

first_cached-is_cached :
    (jd_h : Text) (id : ℕ) (version : Text) (analyses : List JobAnalysis) (a : JobAnalysis)
    → first_cached jd_h id version analyses ≡ some a
    → is_cached jd_h id version a ≡ true
unfolding first_cached
first_cached-is_cached jd_h id version [] a e = absurd (cc)
first_cached-is_cached jd_h id version (c ∷ analyses) a e =
    elim (Bool-cases (is_cached jd_h id version c)) [
      | inl f ↦ subst (λ r. is_cached jd_h id version r ≡ true) (ground arith) f
      | inr f ↦ first_cached-is_cached jd_h id version analyses a (ground arith)
    ]

same_text : (o : Option Text) (v : Text) → same_version o v ≡ true → o ≡ some v
same_text none v e = absurd (cc)
same_text (some t) v e = ground (arith, text_eq_iff t v)

same_key :
    (jd_h : Text) (id : ℕ) (version : Text) (a : JobAnalysis)
    → is_cached jd_h id version a ≡ true
    → (a.jd_hash ≡ jd_h) × (a.profile_id ≡ some id) × (a.prompt_version ≡ some version)
unfolding is_cached
same_key jd_h id version a hit =
    ground (arith, text_eq_iff a.jd_hash jd_h, same_text a.prompt_version version)

resolve_profile-profiles :
    (profile_id : Option ℤ) (db db' : Db)
    → db'.profiles ≡ db.profiles
    → resolve_profile profile_id db' ≡ resolve_profile profile_id db
unfolding get_default_profile get_latest_profile get_profile resolve_profile
resolve_profile-profiles none db db' e = rw e refl
resolve_profile-profiles (some (pos id)) db db' e = rw e refl
resolve_profile-profiles (some (negsuc n)) db db' e = refl

-- What an evaluation returned is in the cache of the state that it left.
cached_after :
    (env : EvaluateEnv) (llm : LlmClient) (jd_text prompt_version : Text) (threshold : ℤ) (db : Db)
    (p : Db × Attempt (JobAnalysis × Bool)) (profile : BaselineProfile) (a : JobAnalysis)
    → (env.others db).profiles ≡ db.profiles
    → Evaluated env llm jd_text prompt_version threshold db p profile a
    → (p.0.profiles ≡ db.profiles)
      × (is_cached (jd_hash env.digest jd_text) profile.id prompt_version a ≡ true)
      × (b : JobAnalysis) × (first_cached
            (jd_hash env.digest jd_text)
            profile.id
            prompt_version
            p.0.analyses
          ≡ some b)
      × (is_cached (jd_hash env.digest jd_text) profile.id prompt_version b ≡ true)
cached_after env llm jd_text prompt_version threshold db p profile a quiet (cached found e) =
    let jd_h = jd_hash env.digest jd_text in
    let hit = first_cached-is_cached jd_h profile.id prompt_version db.analyses a found in
    (
      ap (λ q. q.0.profiles) e,
      hit,
      a,
      subst (λ q. first_cached jd_h profile.id prompt_version q.0.analyses ≡ some a) (sym e) found,
      hit,
    )
cached_after env llm jd_text prompt_version threshold db p profile a quiet
      (scored result row range state) =
    let jd_h = jd_hash env.digest jd_text in
    let hit =
      subst (λ r. is_cached jd_h profile.id prompt_version r ≡ true) (sym row)
        (row_of-is_cached env llm profile.id jd_text prompt_version threshold result) in
    let (b, found, same) =
      first_cached-append jd_h profile.id prompt_version (env.others db).analyses a hit in
    (
      ap (λ q. q.profiles) state ∙ quiet,
      hit,
      b,
      subst (λ q. first_cached jd_h profile.id prompt_version q.analyses ≡ some b) (sym state)
          found,
      same,
    )

-- After an evaluation that returned an analysis, the same description is not scored again for the same
-- profile and prompt version: whatever client and threshold the next evaluation has, it returns an
-- analysis with the same key from the cache and leaves the database as it is. Other sessions may do
-- anything to the database during the first evaluation but change its profiles; the two use the same
-- digest.
pub evaluate_jd-again :
    (env env2 : EvaluateEnv) (llm llm2 : LlmClient) (jd_text prompt_version : Text)
    (threshold threshold2 : ℤ) (profile_id : Option ℤ) (db : Db) (a : JobAnalysis) (flag : Bool)
    → env2.digest ≡ env.digest
    → (env.others db).profiles ≡ db.profiles
    → (evaluate_jd env llm jd_text prompt_version threshold profile_id db).1 ≡ ok (a, flag)
    → let after = (evaluate_jd env llm jd_text prompt_version threshold profile_id db).0 in
      (b : JobAnalysis) × (evaluate_jd env2 llm2 jd_text prompt_version threshold2 profile_id after
        ≡ (after, ok (b, true)))
      × (b.jd_hash ≡ a.jd_hash)
      × (b.profile_id ≡ a.profile_id)
      × (b.prompt_version ≡ a.prompt_version)
evaluate_jd-again env env2 llm llm2 jd_text prompt_version threshold threshold2 profile_id db a flag
      same quiet e =
    let p = evaluate_jd env llm jd_text prompt_version threshold profile_id db in
    let jd_h = jd_hash env.digest jd_text in
    let (profile, resolved, how) =
      evaluate_jd-Evaluated env llm jd_text prompt_version threshold profile_id db a flag e in
    let (profiles, own, b, found, key) =
      cached_after env llm jd_text prompt_version threshold db p profile a quiet how in
    let (jd_a, profile_a, version_a) = same_key jd_h profile.id prompt_version a own in
    let (jd_b, profile_b, version_b) = same_key jd_h profile.id prompt_version b key in
    (
      b,
      hit env2 llm2 jd_text prompt_version threshold2 profile_id p.0 profile b
          (resolve_profile-profiles profile_id db p.0 profiles ∙ resolved)
          (subst
            (λ d. first_cached (jd_hash d jd_text) profile.id prompt_version p.0.analyses ≡ some b)
            (sym same) found),
      cc,
      cc,
      cc,
    )
