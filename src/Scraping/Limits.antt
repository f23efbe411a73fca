-- ===== src/Scraping/Limits.antt =====
-- What `scrape_with_runner` of backend/app/services/scrapers/pipeline.py collects.
use resume_helper.Base.{
  ℕ, ◌+◌, ◌≤◌, ◌<◌, max, leb, Bool, true, false, Option, List, [], ◌∷◌, ◌++◌, length, length-append,
  Text, text_of, ◌≡◌, refl, sym, subst, ◌⊎◌, inl, inr, arith, Bool-cases,
}
use resume_helper.Scraping.Listing.{JobListingDraft}
use resume_helper.Scraping.Filter.{TextOps, DescriptionFilter}
use resume_helper.Scraping.Pipeline.{
  Scraper, Scraped, nothing_scraped, search_limit, is_wanted, add_failure, add_detail, add_skipped,
  scrape_loop, scrape_with_runner,
}

module _ (ops : TextOps) (scraper : Scraper) (limit : ℕ) (wanted : Option DescriptionFilter)
    (should_cancel : ℕ → Bool) where
  abbrev loop : ℕ → List JobListingDraft → Scraped → Scraped
  loop = scrape_loop ops scraper limit wanted should_cancel

  -- Induction along the loop: `P` holds of what it returns if every step keeps it, and a step that
  -- goes on keeps `Q` as well.
  pub loop_induction :
      (P Q : Scraped → Type 0)
      → ((acc : Scraped) → Q acc → P acc)
      → ((acc : Scraped) → Q acc → P (record acc { cancelled = true }))
      → ((acc : Scraped) (d : JobListingDraft) (m : Text)
          → scraper.fetch_detail d ≡ inl m
          → Q acc
          → Q (add_failure d m acc))
      → ((acc : Scraped) → Q acc → Q (add_skipped acc))
      → ((acc : Scraped) (d : JobListingDraft)
          → is_wanted ops wanted d ≡ true
          → Q acc
          → P (add_detail d acc))
      → ((acc : Scraped) (d : JobListingDraft)
          → is_wanted ops wanted d ≡ true
          → leb limit (length acc.enriched + 1) ≡ false
          → Q acc
          → Q (add_detail d acc))
      → (n : ℕ) (drafts : List JobListingDraft) (acc : Scraped) → Q acc
      → P (loop n drafts acc)
  loop_induction P Q end cancel fail skip stop more n [] acc q = unfold scrape_loop in end acc q
  loop_induction P Q end cancel fail skip stop more n (d ∷ ds) acc q =
      let again : (acc' : Scraped) → Q acc' → P (loop (n + 1) ds acc') =
        loop_induction P Q end cancel fail skip stop more (n + 1) ds in
      let ends : (x : Scraped) → loop n (d ∷ ds) acc ≡ x → P x → P (loop n (d ∷ ds) acc) =
        λ x e p. subst P (sym e) p in
      elim (Bool-cases (should_cancel n)) [
        | inl cancelled ↦
            ends (record acc { cancelled = true })
              (unfold scrape_loop in rw (scrape_loop, cancelled) refl) (cancel acc q)
        | inr running ↦ elim (fetched (scraper.fetch_detail d)) [
          | inl (m, failed) ↦
              ends (loop (n + 1) ds (add_failure d m acc))
                (unfold scrape_loop in rw (scrape_loop, running, failed) refl)
                (again (add_failure d m acc) (fail acc d m failed q))
          | inr (detail, got) ↦ elim (Bool-cases (is_wanted ops wanted detail)) [
            | inr unwanted ↦
                ends (loop (n + 1) ds (add_skipped acc))
                  (unfold scrape_loop in rw (scrape_loop, running, got, unwanted) refl)
                  (again (add_skipped acc) (skip acc q))
            | inl fits ↦ elim (Bool-cases (leb limit (length acc.enriched + 1))) [
              | inl full ↦
                  ends (add_detail detail acc)
                    (unfold scrape_loop in rw (scrape_loop, running, got, fits, full) refl)
                    (stop acc detail fits q)
              | inr free ↦
                  ends (loop (n + 1) ds (add_detail detail acc))
                    (unfold scrape_loop in rw (scrape_loop, running, got, fits, free) refl)
                    (again (add_detail detail acc) (more acc detail fits free q))
            ]
          ]
        ]
      ]
    where
      fetched :
          (r : Text ⊎ JobListingDraft)
          → ((m : Text) × (r ≡ inl m)) ⊎ ((detail : JobListingDraft) × (r ≡ inr detail))
      fetched (inl m) = inl (m, refl)
      fetched (inr detail) = inr (detail, refl)

  -- What the function returns is what the loop returns, unless it is cancelled at once.
  pub runner_cases :
      (keyword : Text) (out : Scraped)
      → scrape_with_runner ops scraper keyword limit should_cancel wanted ≡ inr out
      → (out ≡ nothing_scraped true)
        ⊎ ((drafts : List JobListingDraft) × (out ≡ loop 2 drafts (nothing_scraped false)))
  runner_cases keyword out h =
      let run = scrape_with_runner ops scraper keyword limit should_cancel wanted in
      elim (Bool-cases (should_cancel 0)) [
        | inl cancelled ↦
            let e : run ≡ inr (nothing_scraped true) =
              (unfold scrape_with_runner in rw (scrape_with_runner, cancelled) refl) in
            inl (cc (h, e))
        | inr running ↦ elim (searched (scraper.search keyword (search_limit wanted limit))) [
          | inl (m, broken) ↦
              let e : run ≡ inl m =
                (unfold scrape_with_runner in rw (scrape_with_runner, running, broken) refl) in
              absurd (cc (h, e))
          | inr (drafts, found) ↦ elim (Bool-cases (should_cancel 1)) [
            | inl cancelled ↦
                let e : run ≡ inr (nothing_scraped true) =
                  (unfold scrape_with_runner in
                    rw (scrape_with_runner, running, found, cancelled) refl) in
                inl (cc (h, e))
            | inr on ↦
                let e : run ≡ inr (loop 2 drafts (nothing_scraped false)) =
                  (unfold scrape_with_runner in rw (scrape_with_runner, running, found, on) refl) in
                inr (drafts, cc (h, e))
          ]
        ]
      ]
    where
      searched :
          (r : Text ⊎ List JobListingDraft)
          → ((m : Text) × (r ≡ inl m)) ⊎ ((drafts : List JobListingDraft) × (r ≡ inr drafts))
      searched (inl m) = inl (m, refl)
      searched (inr drafts) = inr (drafts, refl)

  IsCounted : Scraped → Type 0
  IsCounted acc = (length acc.errors ≡ acc.failed) × (acc.failed ≤ length acc.enriched)

  -- There is one error for each draft whose detail page failed, such a draft is kept, and beside
  -- these drafts no more than the limit are kept, or one where the limit is 0.
  pub scrape_with_runner_bounds :
      (keyword : Text) (out : Scraped)
      → scrape_with_runner ops scraper keyword limit should_cancel wanted ≡ inr out
      → (length out.errors ≡ out.failed)
        × (out.failed ≤ length out.enriched)
        × (length out.enriched ≤ max limit 1 + out.failed)
  unfolding IsCounted
  scrape_with_runner_bounds keyword out h = elim (runner_cases keyword out h) [
    | inl e ↦ rw e (refl, omega arith, omega arith)
    | inr (drafts, e) ↦
        let (counted, bound) : IsCounted (loop 2 drafts (nothing_scraped false))
            × (length (loop 2 drafts (nothing_scraped false)).enriched
                ≤ max limit 1 + (loop 2 drafts (nothing_scraped false)).failed) =
          loop_induction (λ acc. IsCounted acc × (length acc.enriched ≤ max limit 1 + acc.failed))
            (λ acc. IsCounted acc × (length acc.enriched < max limit 1 + acc.failed))
            (λ acc q. (q.0, omega (arith, q.1))) (λ acc q. (q.0, omega (arith, q.1)))
            (λ acc d m _ q.
              let e = length-append acc.errors ((d.source_id ++ text_of ": " ++ m) ∷ []) in
              let k = length-append acc.enriched (d ∷ []) in
              ((omega (arith, e, q.0.0), omega (arith, k, q.0.1)), omega (arith, k, q.1)))
            (λ acc q. q)
            (λ acc d _ q.
              let k = length-append acc.enriched (d ∷ []) in
              ((q.0.0, omega (arith, k, q.0.1)), omega (arith, k, q.1)))
            (λ acc d _ free q.
              let k = length-append acc.enriched (d ∷ []) in
              ((q.0.0, omega (arith, k, q.0.1)), ground (arith, k, free)))
            2 drafts (nothing_scraped false) ((refl, omega arith), omega arith) in
        rw e (counted.0, counted.1, bound)
  ]
