-- ===== src/Evaluation/States.antt =====
-- What an evaluation of backend/app/services/evaluator_v2.py leaves, however it ends.
use resume_helper.Base.{
  ℕ, ℤ, ◌≡◌, refl, inl, inr, true, false, Option, [], ◌∷◌, ◌++◌, Text, Option-cases,
}
use resume_helper.Tables.{BaselineProfile}
use resume_helper.Errors.{Attempt-cases}
use resume_helper.Hashing.{jd_hash}
use resume_helper.JobQueue.Store.{Db}
use resume_helper.Audit.{LlmClient, EvaluationResult, llm_metadata}
use resume_helper.Evaluation.{
  EvaluateEnv, resolve_profile, first_cached, commit_analysis, store_score, score_jd, evaluate_jd,
  succeeded_entry, evaluate_entry, is_in_range,
}
use resume_helper.Evaluation.Results.{row_of, record_llm_audit_log-tables, store_score-row}

pub data EvaluateState (env : EvaluateEnv) (llm : LlmClient) (jd_text prompt_version : Text)
    (threshold : ℤ) (db : Db) (after : Db) : Type 0 where
  same : after ≡ db → EvaluateState env llm jd_text prompt_version threshold db after
  audited :
      after ≡ record (env.others db) { audits = after.audits }
      → EvaluateState env llm jd_text prompt_version threshold db after
  stored :
      (profile_id : ℕ) (result : EvaluationResult)
      → is_in_range (row_of env llm profile_id jd_text prompt_version threshold result).score ≡ true
      → after ≡ record (env.others db) {
        analyses =
            (env.others db).analyses
            ++ row_of env llm profile_id jd_text prompt_version threshold result ∷ [];
        audits = after.audits;
      }
      → EvaluateState env llm jd_text prompt_version threshold db after

score_jd-EvaluateState :
    (env : EvaluateEnv) (llm : LlmClient) (profile : BaselineProfile)
    (jd_text prompt_version : Text) (threshold : ℤ) (db : Db)
    → EvaluateState env llm jd_text prompt_version threshold db
        (score_jd env llm profile jd_text prompt_version threshold (env.others db)).0
unfolding score_jd store_score
score_jd-EvaluateState env llm profile jd_text prompt_version threshold db =
    let now = env.others db in
    elim (Attempt-cases (llm.evaluate profile.skills_text jd_text prompt_version)) [
      | inl (x, e) ↦ rw (e, score_jd) (audited (record_llm_audit_log-tables env.audit _ now))
      | inr (result, e) ↦
          let row = row_of env llm profile.id jd_text prompt_version threshold result in
          elim (Option-cases (commit_analysis row now)) [
            | inl f ↦ rw (e, f, score_jd, store_score) (audited refl)
            | inr (after, f) ↦
                let entry =
                  succeeded_entry env
                    (evaluate_entry env profile jd_text prompt_version
                      (llm_metadata env.audit.settings llm))
                    result row.id in
                let (own, fresh, range, state) =
                  store_score-row env row entry now row false (rw (f, store_score) refl) in
                rw (e, score_jd) (stored profile.id result range state)
          ]
    ]

pub evaluate_jd-EvaluateState :
    (env : EvaluateEnv) (llm : LlmClient) (jd_text prompt_version : Text) (threshold : ℤ)
    (profile_id : Option ℤ) (db : Db)
    → EvaluateState env llm jd_text prompt_version threshold db
        (evaluate_jd env llm jd_text prompt_version threshold profile_id db).0
unfolding evaluate_jd
evaluate_jd-EvaluateState env llm jd_text prompt_version threshold profile_id db =
    elim (Attempt-cases (resolve_profile profile_id db)) [
      | inl (x, e) ↦ rw (e, evaluate_jd) (same refl)
      | inr (profile, e) ↦
          let jd_h = jd_hash env.digest jd_text in
          elim (Option-cases (first_cached jd_h profile.id prompt_version db.analyses)) [
            | inr (a, f) ↦ rw (e, f, evaluate_jd) (same refl)
            | inl f ↦
                rw (e, f, evaluate_jd)
                  (score_jd-EvaluateState env llm profile jd_text prompt_version threshold db)
          ]
    ]
