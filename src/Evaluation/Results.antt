-- ===== src/Evaluation/Results.antt =====
-- What an evaluation of backend/app/services/evaluator_v2.py returns, and the state that it leaves.
use resume_helper.Base.{
  subst, sym, ap, ℕ, ℤ, ◌≡◌, ◌∙◌, refl, inl, inr, Bool, true, false, Option, some, [], ◌∷◌, ◌++◌,
  Text, arith, Bool-cases, Option-cases,
}
use resume_helper.Tables.{BaselineProfile, JobAnalysis}
use resume_helper.Errors.{Attempt-cases, Attempt, ok}
use resume_helper.Hashing.{jd_hash}
use resume_helper.JobQueue.Store.{Db}
use resume_helper.Audit.{
  LlmClient, EvaluationResult, AuditEnv, AuditEntry, llm_metadata, record_llm_audit_log, audit_row,
  is_insertable,
}
use resume_helper.Evaluation.{
  EvaluateEnv, resolve_profile, first_cached, analysis_row, commit_analysis, store_score, score_jd,
  evaluate_jd, succeeded_entry, evaluate_entry, is_in_range,
}

-- An audit row changes no other table.
pub record_llm_audit_log-tables :
    (env : AuditEnv) (entry : AuditEntry) (db : Db)
    → (record_llm_audit_log env entry db).0
      ≡ record db { audits = (record_llm_audit_log env entry db).0.audits }
unfolding record_llm_audit_log
record_llm_audit_log-tables env entry db =
    elim (Bool-cases (is_insertable (audit_row env entry) db)) [
      | inl e ↦ rw (e, record_llm_audit_log) refl
      | inr e ↦ rw (e, record_llm_audit_log) refl
    ]

-- A score that is stored is the last row of the table.
pub store_score-row :
    (env : EvaluateEnv) (row : JobAnalysis) (entry : AuditEntry) (db : Db) (a : JobAnalysis)
    (cached : Bool)
    → (store_score env row entry db).1 ≡ ok (a, cached)
    → (a ≡ row)
      × (cached ≡ false)
      × (is_in_range row.score ≡ true)
      × ((store_score env row entry db).0 ≡ record db {
        analyses = db.analyses ++ row ∷ [];
        audits = (store_score env row entry db).0.audits;
      })
unfolding store_score
store_score-row env row entry db a cached e = elim (Option-cases (commit_analysis row db)) [
  | inl f ↦ absurd (ground arith)
  | inr (stored, f) ↦
      let own : stored ≡ record db { analyses = db.analyses ++ row ∷ [] } =
        unfold commit_analysis in ground arith in
      let frame : (store_score env row entry db).0
          ≡ record stored { audits = (store_score env row entry db).0.audits } =
        rw (f, store_score) (record_llm_audit_log-tables env.audit entry stored) in
      let state =
        subst
          (λ s.
            (store_score env row entry db).0
            ≡ record s { audits = (store_score env row entry db).0.audits })
          own frame in
      (ground arith, ground arith, unfold commit_analysis in ground arith, state)
]

-- The row of a score, for the answer of the LLM.
abbrev pub row_of : EvaluateEnv → LlmClient → ℕ → Text → Text → ℤ → EvaluationResult → JobAnalysis
row_of env llm profile_id jd_text prompt_version threshold result =
    analysis_row env (jd_hash env.digest jd_text) profile_id jd_text prompt_version threshold
      (llm_metadata env.audit.settings llm) result

-- An evaluation that returns a new score returns the row of its LLM's answer, which is the last one of
-- the table.
pub score_jd-row :
    (env : EvaluateEnv) (llm : LlmClient) (profile : BaselineProfile)
    (jd_text prompt_version : Text) (threshold : ℤ) (db : Db) (a : JobAnalysis) (cached : Bool)
    → (score_jd env llm profile jd_text prompt_version threshold db).1 ≡ ok (a, cached)
    → (result : EvaluationResult) × (a
        ≡ row_of env llm profile.id jd_text prompt_version threshold result)
      × (cached ≡ false)
      × (is_in_range a.score ≡ true)
      × ((score_jd env llm profile jd_text prompt_version threshold db).0 ≡ record db {
        analyses = db.analyses ++ a ∷ [];
        audits = (score_jd env llm profile jd_text prompt_version threshold db).0.audits;
      })
unfolding score_jd
score_jd-row env llm profile jd_text prompt_version threshold db a cached e =
    elim (Attempt-cases (llm.evaluate profile.skills_text jd_text prompt_version)) [
      | inl (x, f) ↦ absurd (ground arith)
      | inr (result, f) ↦
          let row = row_of env llm profile.id jd_text prompt_version threshold result in
          let entry =
            succeeded_entry env
              (evaluate_entry env profile jd_text prompt_version
                (llm_metadata env.audit.settings llm))
              result row.id in
          let stored : score_jd env llm profile jd_text prompt_version threshold db
              ≡ store_score env row entry db =
            rw (f, score_jd) refl in
          let (same, fresh, range, state) =
            store_score-row env row entry db a cached (sym (ap (λ p. p.1) stored) ∙ e) in
          (
            result,
            same,
            fresh,
            subst (λ r. is_in_range r.score ≡ true) (sym same) range,
            subst (λ p. p.0 ≡ record db { analyses = db.analyses ++ a ∷ []; audits = p.0.audits })
                (sym stored)
                (subst
                  (λ r. (store_score env row entry db).0 ≡ record db {
                    analyses = db.analyses ++ r ∷ [];
                    audits = (store_score env row entry db).0.audits;
                  })
                  (sym same) state),
          )
    ]

pub hit :
    (env : EvaluateEnv) (llm : LlmClient) (jd_text prompt_version : Text) (threshold : ℤ)
    (profile_id : Option ℤ) (db : Db) (profile : BaselineProfile) (b : JobAnalysis)
    → resolve_profile profile_id db ≡ ok profile
    → first_cached (jd_hash env.digest jd_text) profile.id prompt_version db.analyses ≡ some b
    → evaluate_jd env llm jd_text prompt_version threshold profile_id db ≡ (db, ok (b, true))
unfolding evaluate_jd
hit env llm jd_text prompt_version threshold profile_id db profile b e f =
    rw (e, f, evaluate_jd) refl

-- The two ways in which an evaluation returns.
pub data Evaluated (env : EvaluateEnv) (llm : LlmClient) (jd_text prompt_version : Text)
    (threshold : ℤ) (db : Db) (p : Db × Attempt (JobAnalysis × Bool)) (profile : BaselineProfile)
    (a : JobAnalysis) : Type 0 where
  cached :
      first_cached (jd_hash env.digest jd_text) profile.id prompt_version db.analyses ≡ some a
      → p ≡ (db, ok (a, true))
      → Evaluated env llm jd_text prompt_version threshold db p profile a
  scored :
      (result : EvaluationResult)
      → a ≡ row_of env llm profile.id jd_text prompt_version threshold result
      → is_in_range a.score ≡ true
      → p.0 ≡ record (env.others db) {
        analyses = (env.others db).analyses ++ a ∷ [];
        audits = p.0.audits;
      }
      → Evaluated env llm jd_text prompt_version threshold db p profile a

pub evaluate_jd-Evaluated :
    (env : EvaluateEnv) (llm : LlmClient) (jd_text prompt_version : Text) (threshold : ℤ)
    (profile_id : Option ℤ) (db : Db) (a : JobAnalysis) (flag : Bool)
    → (evaluate_jd env llm jd_text prompt_version threshold profile_id db).1 ≡ ok (a, flag)
    → (profile : BaselineProfile) × (resolve_profile profile_id db ≡ ok profile)
      × Evaluated env llm jd_text prompt_version threshold db
          (evaluate_jd env llm jd_text prompt_version threshold profile_id db)
          profile
          a
unfolding evaluate_jd
evaluate_jd-Evaluated env llm jd_text prompt_version threshold profile_id db a flag e =
    elim (Attempt-cases (resolve_profile profile_id db)) [
      | inl (x, f) ↦ absurd (ground arith)
      | inr (profile, f) ↦
          let jd_h = jd_hash env.digest jd_text in
          elim (Option-cases (first_cached jd_h profile.id prompt_version db.analyses)) [
            | inr (c, g) ↦
                let now =
                  hit env llm jd_text prompt_version threshold profile_id db profile c f g in
                let same : c ≡ a = ground arith in
                (profile, f, cached (g ∙ ap some same) (now ∙ ap (λ r. (db, ok (r, true))) same))
            | inl g ↦
                let now : evaluate_jd env llm jd_text prompt_version threshold profile_id db
                    ≡ score_jd env llm profile jd_text prompt_version threshold (env.others db) =
                  rw (f, g, evaluate_jd) refl in
                let (result, row, fresh, range, state) =
                  score_jd-row env llm profile jd_text prompt_version threshold (env.others db) a
                    flag (sym (ap (λ p. p.1) now) ∙ e) in
                (
                  profile,
                  f,
                  subst (λ p. Evaluated env llm jd_text prompt_version threshold db p profile a)
                      (sym now) (scored result row range state),
                )
          ]
    ]
