-- ===== src/JobQueue/KeyLaws.antt =====
-- What the deduplication keys of backend/app/services/job_queue.py tell apart, and the analysis id
-- that a worker reads back from a claimed job.
use resume_helper.Base.{
  ℕ, ◌↔◌, ◌^◌, ◌<◌, ◌≡◌, ◌≢◌, refl, sym, ap, ◌∙◌, Option, none, some, [], ◌∷◌, ◌++◌, Text, length,
  drop, All, arith, length-append, strip_prefix-append,
}
use resume_helper.Uuid.{Uuid, uuid_str, uuid_of}
use resume_helper.Uuid.RoundTrip.{uuid_of-uuid_str, nonempty-uuid_str}
use resume_helper.Decimal.{decimal, IsDigit, decimal-IsDigit, decimal-injective}
use resume_helper.Hashing.{Digest, jd_hash, length-jd_hash}
use resume_helper.Json.{Payload, Json, string, get, merge, get-merge, truthy, json_str}
use resume_helper.JobQueue.Job.{AiJob}
use resume_helper.JobQueue.Fields.{payload_of, merge_payload}
use resume_helper.JobQueue.Keys.{tailor_prefix, tailor_dedupe_key, evaluate_dedupe_key}
use resume_helper.JobQueue.Enqueue.{TailorIn, tailor_payload, with_request_id, with_prompt_version}
use resume_helper.JobQueue.Claim.{start_job, claimed_job, job_analysis_id_from_claim}

-- A text before a colon, up to the first colon, where the text itself has none.
digits_before_colon :
    (s t u v : Text) → All IsDigit s → All IsDigit t → s ++ 58 ∷ u ≡ t ++ 58 ∷ v → (s ≡ t) × (u ≡ v)
digits_before_colon [] [] u v hs ht e = ground arith
digits_before_colon [] (c ∷ t) u v hs ht e = absurd (ground arith)
digits_before_colon (c ∷ s) [] u v hs ht e = absurd (ground arith)
digits_before_colon (c ∷ s) (d ∷ t) u v hs ht e =
    ground (arith, digits_before_colon s t u v hs.1 ht.1)

-- Two texts of one length behind two others: the parts agree.
same_tails : (s t u v : Text) → length u ≡ length v → s ++ u ≡ t ++ v → (s ≡ t) × (u ≡ v)
same_tails [] [] u v h e = (refl, e)
same_tails [] (c ∷ t) u v h e = absurd (omega (arith, ap length e, length-append {0} t v))
same_tails (c ∷ s) [] u v h e = absurd (omega (arith, ap length e, length-append {0} s u))
same_tails (c ∷ s) (d ∷ t) u v h e = ground (arith, same_tails s t u v h)

-- Two evaluations share a key exactly if they share the profile, the prompt version and the hash of
-- the job description.
pub evaluate_dedupe_key_iff :
    (d : Digest) (p q : ℕ) (v w : Text) (jd jd' : Text)
    → (evaluate_dedupe_key d p v jd ≡ evaluate_dedupe_key d q w jd')
      ↔ ((p ≡ q) × (v ≡ w) × (jd_hash d jd ≡ jd_hash d jd'))
unfolding evaluate_dedupe_key
evaluate_dedupe_key_iff d p q v w jd jd' = (split, λ h. cc (h.0, h.1, h.2))
  where
    split :
        evaluate_dedupe_key d p v jd ≡ evaluate_dedupe_key d q w jd'
        → (p ≡ q) × (v ≡ w) × (jd_hash d jd ≡ jd_hash d jd')
    split e =
        let bodies = ap (drop 9) e in
        let (numbers, rest) =
          digits_before_colon (decimal p) (decimal q) _ _ (decimal-IsDigit p) (decimal-IsDigit q)
            bodies in
        let (versions, hashes) =
          same_tails v w (58 ∷ jd_hash d jd) (58 ∷ jd_hash d jd')
            (omega (arith, length-jd_hash d jd, length-jd_hash d jd')) rest in
        (decimal-injective p q numbers, versions, ap (drop 1) hashes)

-- An evaluation and a tailoring never share a key.
pub evaluate-ne-tailor :
    (d : Digest) (p : ℕ) (v jd : Text) (u : Uuid)
    → evaluate_dedupe_key d p v jd ≢ tailor_dedupe_key u
unfolding evaluate_dedupe_key tailor_dedupe_key
evaluate-ne-tailor d p v jd u e = ground arith

-- Two tailorings share a key exactly if they are of one analysis.
pub tailor_dedupe_key-injective :
    (u v : Uuid) → u < 2 ^ 128 → v < 2 ^ 128 → tailor_dedupe_key u ≡ tailor_dedupe_key v → u ≡ v
unfolding tailor_dedupe_key
tailor_dedupe_key-injective u v hu hv e =
    let texts : uuid_str u ≡ uuid_str v = ap (drop 7) e in
    let same : some u ≡ some v =
      sym (uuid_of-uuid_str u hu) ∙ (ap uuid_of texts ∙ uuid_of-uuid_str v hv) in
    cc

-- The optional entries of the payload are under other keys.
get-with :
    (version request : Option Text) (v : Json)
    → get "job_analysis_id" (
        merge []
          (with_request_id request (with_prompt_version version (("job_analysis_id", v) ∷ []))))
      ≡ some v
unfolding with_request_id with_prompt_version get merge
get-with none none v = refl
get-with none (some []) v = refl
get-with none (some (c ∷ r)) v = refl
get-with (some []) none v = refl
get-with (some []) (some []) v = refl
get-with (some []) (some (c ∷ r)) v = refl
get-with (some (c ∷ s)) none v = refl
get-with (some (c ∷ s)) (some []) v = refl
get-with (some (c ∷ s)) (some (d ∷ r)) v = refl

get-tailor_payload :
    (a : TailorIn) (p : Payload)
    → get "job_analysis_id" (merge p (tailor_payload a))
      ≡ some (string (uuid_str a.job_analysis_id))
unfolding tailor_payload
get-tailor_payload a p =
    get-merge "job_analysis_id" p _
    ∙ rw (get-with a.prompt_version a.request_id (string (uuid_str a.job_analysis_id)))

-- Whatever the payload of the row held, a worker that claims it after a tailoring was enqueued reads
-- the analysis that was asked for.
pub job_analysis_id_from_claim-merge :
    (now : ℕ) (a : TailorIn) (job : AiJob)
    → a.job_analysis_id < 2 ^ 128
    → job_analysis_id_from_claim
        (claimed_job (start_job now (merge_payload (tailor_payload a) job)))
      ≡ some a.job_analysis_id
unfolding job_analysis_id_from_claim claimed_job start_job merge_payload truthy json_str
job_analysis_id_from_claim-merge now a job h = ground (
  arith,
  get-tailor_payload a (payload_of job.input_payload),
  nonempty-uuid_str a.job_analysis_id,
  uuid_of-uuid_str a.job_analysis_id h,
)

-- Without a usable payload the id is read from the key.
pub job_analysis_id_from_claim-key :
    (u : Uuid) (job : AiJob)
    → u < 2 ^ 128
    → get "job_analysis_id" (payload_of job.input_payload) ≡ none
    → job.dedupe_key ≡ some (tailor_dedupe_key u)
    → job_analysis_id_from_claim (claimed_job job) ≡ some u
unfolding job_analysis_id_from_claim claimed_job tailor_dedupe_key
job_analysis_id_from_claim-key u job h missing key =
    ground (arith, strip_prefix-append tailor_prefix (uuid_str u), uuid_of-uuid_str u h)
