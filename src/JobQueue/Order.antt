-- ===== src/JobQueue/Order.antt =====
-- The order in which `claim_next_job` of backend/app/services/job_queue.py serves the queue.
use resume_helper.Base.{
  subst, ℕ, ℤ, ◌≡◌, refl, inl, inr, Bool, true, false, none, some, List, [], ◌∷◌, All, arith, ltb_ℤ,
  ltb, Bool-cases, Option-cases,
}
use resume_helper.JobQueue.Job.{AiJob}
use resume_helper.JobQueue.Claim.{before, lex, first_in_order}

before_asymm : (a b : AiJob) → before a b ≡ true → before b a ≡ false
unfolding before
before_asymm a b h = ground arith

-- One column of the order, over a rest that has the property already.
lex_cotrans :
    (x y z : ℕ) (p q r : Bool)
    → (p ≡ false → q ≡ false → r ≡ false)
    → lex (ltb x y) (ltb y x) p ≡ false
    → lex (ltb y z) (ltb z y) q ≡ false
    → lex (ltb x z) (ltb z x) r ≡ false
lex_cotrans x y z p q r rest h k = ground arith

lex_cotrans_ℤ :
    (x y z : ℤ) (p q r : Bool)
    → (p ≡ false → q ≡ false → r ≡ false)
    → lex (ltb_ℤ y x) (ltb_ℤ x y) p ≡ false
    → lex (ltb_ℤ z y) (ltb_ℤ y z) q ≡ false
    → lex (ltb_ℤ z x) (ltb_ℤ x z) r ≡ false
lex_cotrans_ℤ x y z p q r rest h k = ground arith

before_cotrans : (a b c : AiJob) → before a b ≡ false → before b c ≡ false → before a c ≡ false
unfolding before
before_cotrans a b c = lex_cotrans_ℤ a.priority b.priority c.priority _ _ _ (
    lex_cotrans a.run_after b.run_after c.run_after _ _ _
      (lex_cotrans a.created_at b.created_at c.created_at _ _ _ (λ h k. ground arith)))

All-cotrans :
    (b c : AiJob) (jobs : List AiJob)
    → before b c ≡ false
    → All (λ k. before k b ≡ false) jobs
    → All (λ k. before k c ≡ false) jobs
All-cotrans b c [] h all = tt
All-cotrans b c (k ∷ ks) h all = (before_cotrans k b c all.0 h, All-cotrans b c ks h all.1)

first_in_order-none :
    (P : AiJob → Type 0) (jobs : List AiJob) → first_in_order jobs ≡ none → All P jobs
unfolding first_in_order
first_in_order-none P [] e = tt
first_in_order-none P (x ∷ xs) e = absurd (ground arith)

pub first_in_order_empty : (jobs : List AiJob) → first_in_order jobs ≡ none → jobs ≡ []
unfolding first_in_order
first_in_order_empty [] e = refl
first_in_order_empty (x ∷ xs) e = absurd (ground arith)

-- Nothing in the list goes before its first element.
pub first_in_order_least :
    (jobs : List AiJob) (job : AiJob)
    → first_in_order jobs ≡ some job
    → All (λ k. before k job ≡ false) jobs
unfolding first_in_order
first_in_order_least [] job e = cc
first_in_order_least (x ∷ xs) job e = elim (Option-cases (first_in_order xs)) [
  | inl empty ↦
      let only : x ≡ job = ground arith in
      subst (λ j. All (λ k. before k j ≡ false) (x ∷ xs)) only
        (ground (arith, before_asymm x x), first_in_order-none (λ k. before k x ≡ false) xs empty)
  | inr (k, some_first) ↦ elim (Bool-cases (before k x)) [
    | inl sooner ↦
        let same : k ≡ job = ground arith in
        subst (λ j. All (λ k. before k j ≡ false) (x ∷ xs)) same
          (before_asymm k x sooner, first_in_order_least xs k some_first)
    | inr not_sooner ↦
        let same : x ≡ job = ground arith in
        subst (λ j. All (λ k. before k j ≡ false) (x ∷ xs)) same
          (
            ground (arith, before_asymm x x),
            All-cotrans k x xs not_sooner (first_in_order_least xs k some_first),
          )
  ]
]
