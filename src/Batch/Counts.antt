-- ===== src/Batch/Counts.antt =====
-- The counts of a summary of backend/app/services/batch_evaluator.py, and what the guardrails of
-- backend/app/services/ai_guardrails.py let through.
use resume_helper.Base.{
  ℕ, zero, suc, ◌+◌, ◌≤◌, ◌<◌, ltb, ◌&&◌, Option, List, [], ◌∷◌, ◌++◌, length, length-append, take,
  Text, ◌≡◌, refl, ap, ◌⊎◌, inl, inr, arith, Bool-cases, if◌then◌else◌,
}
use resume_helper.Uuid.{Uuid}
use resume_helper.Batch.Listings.{
  Evaluated, evaluated, refused, BatchSettings, ListingEvaluationSummary, BatchState, is_fresh_need,
  add_result, cut_tailoring, block_tailoring,
}

-- The results that ask for a new resume.
unfoldable pub needs_count : List (Uuid × Evaluated) → ℕ
needs_count [] = 0
needs_count ((_, refused error) ∷ results) = needs_count results
needs_count ((_, evaluated job cached) ∷ results) =
    let rest = needs_count results in if is_fresh_need job cached then rest + 1 else rest

needs_count-append :
    (xs ys : List (Uuid × Evaluated)) → needs_count (xs ++ ys) ≡ needs_count xs + needs_count ys
unfolding needs_count
needs_count-append [] ys = omega arith
needs_count-append ((_, refused error) ∷ xs) ys = needs_count-append xs ys
needs_count-append ((_, evaluated job cached) ∷ xs) ys = ground (arith, needs_count-append xs ys)

-- The counts after `n` listings of a batch of `total`.
unfoldable pub IsCounted : ℕ → ℕ → ListingEvaluationSummary → Type 0
IsCounted total n s =
    ((s.succeeded + s.failed ≡ n) × (length s.results ≡ n) × (s.skipped ≤ s.failed))
    × ((length s.tailoring_job_ids ≡ needs_count s.results)
        × (s.tailoring_blocked ≡ 0)
        × (s.blocked ≡ 0)
        × (s.total ≡ total))

pub IsCounted-add_result :
    (total n : ℕ) (id : Uuid) (r : Evaluated) (st : BatchState)
    → IsCounted total n st.summary
    → IsCounted total (n + 1) (add_result id r st).summary
unfolding IsCounted add_result
IsCounted-add_result total n id (refused error) st ((sum, len, skip), (needs, b, b', t)) =
    let size = length-append st.summary.results ((id, refused error) ∷ []) in
    let same = needs_count-append st.summary.results ((id, refused error) ∷ []) in
    let one : needs_count ((id, refused error) ∷ []) ≡ 0 = (unfold needs_count in refl) in
    (
      (omega (arith, sum), omega (arith, size, len), ground (arith, skip)),
      (omega (arith, needs, same, one), b, b', t),
    )
IsCounted-add_result total n id (evaluated job cached) st ((sum, len, skip), (needs, b, b', t)) =
    let size = length-append st.summary.results ((id, evaluated job cached) ∷ []) in
    let same = needs_count-append st.summary.results ((id, evaluated job cached) ∷ []) in
    let more = length-append st.summary.tailoring_job_ids (job.id ∷ []) in
    elim (Bool-cases (is_fresh_need job cached)) [
      | inl need ↦
          let one : needs_count ((id, evaluated job cached) ∷ []) ≡ 1 =
            (unfold needs_count in rw need refl) in
          (
            (omega (arith, sum), omega (arith, size, len), skip),
            (rw need (omega (arith, needs, same, one, more)), b, b', t),
          )
      | inr none_needed ↦
          let one : needs_count ((id, evaluated job cached) ∷ []) ≡ 0 =
            (unfold needs_count in rw none_needed refl) in
          (
            (omega (arith, sum), omega (arith, size, len), skip),
            (rw none_needed (omega (arith, needs, same, one)), b, b', t),
          )
    ]

-- What the quotas leave of a counted summary: the counts stay, each tailoring is queued or blocked,
-- and no more are queued than the limit, where there is one.
unfoldable pub IsCut : BatchSettings → ListingEvaluationSummary → Type 0
IsCut settings s =
    ((s.succeeded + s.failed ≡ s.total) × (length s.results ≡ s.total) × (s.skipped ≤ s.failed))
    × ((length s.tailoring_job_ids + s.tailoring_blocked ≡ needs_count s.results)
        × (s.blocked ≡ s.tailoring_blocked)
        × ((settings.max_tailoring_jobs_per_batch ≡ 0)
            ⊎ (length s.tailoring_job_ids ≤ settings.max_tailoring_jobs_per_batch)))

length-take_least : (n : ℕ) (ids : List Uuid) → n < length ids → length (take n ids) ≡ n
length-take_least zero ids h = refl
length-take_least (suc n) [] h = absurd (omega arith)
length-take_least (suc n) (x ∷ ids) h = ap suc (length-take_least n ids (omega arith))

pub cut_tailoring-IsCut :
    (settings : BatchSettings) (s : ListingEvaluationSummary)
    → IsCounted s.total s.total s
    → IsCut settings (cut_tailoring settings.max_tailoring_jobs_per_batch s)
unfolding IsCounted IsCut cut_tailoring
cut_tailoring-IsCut settings s (counts, (needs, b, b', t)) =
    let limit = settings.max_tailoring_jobs_per_batch in
    elim (Bool-cases (ltb 0 limit && ltb limit (length s.tailoring_job_ids))) [
      | inl over ↦
          let long : limit < length s.tailoring_job_ids = ground (arith, over) in
          let size = length-take_least limit s.tailoring_job_ids long in
          rw over (
            counts,
            (omega (arith, size, needs, b, long), omega (arith, b, b'), inr (omega (arith, size))),
          )
      | inr fits ↦
          rw fits (counts, (omega (arith, needs, b), omega (arith, b, b'), ground (arith, fits)))
    ]

pub block_tailoring-IsCut :
    (settings : BatchSettings) (code : Option Text) (s : ListingEvaluationSummary)
    → IsCut settings s
    → IsCut settings (block_tailoring code s)
unfolding IsCut block_tailoring
block_tailoring-IsCut settings code s (counts, (needs, b, _)) =
    (counts, (omega (arith, needs), omega (arith, b), inr (omega arith)))
