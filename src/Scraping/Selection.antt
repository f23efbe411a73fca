-- ===== src/Scraping/Selection.antt =====
-- Which drafts `scrape_with_runner` of backend/app/services/scrapers/pipeline.py returns.
use resume_helper.Base.{
  ℕ, suc, ◌+◌, ◌-◌, ◌≤◌, ◌<◌, leb, Bool, true, false, Option, List, [], ◌∷◌, ◌++◌, map, keep, take,
  All, All-append, length, length-append, append_nil, append_assoc, take_nil, Text, ◌≡◌, refl, sym,
  ap, subst, ◌∙◌, ◌⊎◌, inl, inr, arith, Bool-cases,
}
use resume_helper.Scraping.Listing.{JobListingDraft}
use resume_helper.Scraping.Filter.{TextOps, DescriptionFilter}
use resume_helper.Scraping.Pipeline.{
  Scraper, Scraped, nothing_scraped, search_limit, is_wanted, add_failure, add_detail, add_skipped,
  scrape_loop, scrape_with_runner,
}
use resume_helper.Scraping.Limits.{loop_induction, runner_cases}

-- The detail page of the draft failed, or the draft passes the filter.
unfoldable pub IsFit : TextOps → Scraper → Option DescriptionFilter → JobListingDraft → Type 0
IsFit ops scraper wanted d =
    ((m : Text) × (scraper.fetch_detail d ≡ inl m)) ⊎ (is_wanted ops wanted d ≡ true)

-- Every draft that is returned passes the filter, or is one whose detail page failed.
pub scrape_with_runner-IsFit :
    (ops : TextOps) (scraper : Scraper) (limit : ℕ) (wanted : Option DescriptionFilter)
    (should_cancel : ℕ → Bool) (keyword : Text) (out : Scraped)
    → scrape_with_runner ops scraper keyword limit should_cancel wanted ≡ inr out
    → All (IsFit ops scraper wanted) out.enriched
unfolding IsFit
scrape_with_runner-IsFit ops scraper limit wanted should_cancel keyword out h =
    let Fit : Scraped → Type 0 = λ acc. All (IsFit ops scraper wanted) acc.enriched in
    elim (runner_cases ops scraper limit wanted should_cancel keyword out h) [
      | inl e ↦ subst Fit (sym e) tt
      | inr (drafts, e) ↦ subst Fit (sym e) (
          loop_induction ops scraper limit wanted should_cancel Fit Fit (λ acc q. q) (λ acc q. q)
            (λ acc d m failed q.
              All-append (IsFit ops scraper wanted) acc.enriched _ q (inl (m, failed), tt))
            (λ acc q. q)
            (λ acc d fits q. All-append (IsFit ops scraper wanted) acc.enriched _ q (inr fits, tt))
            (λ acc d fits free q.
              All-append (IsFit ops scraper wanted) acc.enriched _ q (inr fits, tt))
            2 drafts (nothing_scraped false) tt)
    ]

module _ (ops : TextOps) (scraper : Scraper) (limit : ℕ) (wanted : Option DescriptionFilter)
    (should_cancel : ℕ → Bool) (on : (n : ℕ) → should_cancel n ≡ false) where
  abbrev run : ℕ → List JobListingDraft → Scraped → Scraped
  run = scrape_loop ops scraper limit wanted should_cancel

  runs_loop :
      (keyword : Text) (drafts : List JobListingDraft)
      → scraper.search keyword (search_limit wanted limit) ≡ inr drafts
      → scrape_with_runner ops scraper keyword limit should_cancel wanted
        ≡ inr (run 2 drafts (nothing_scraped false))
  unfolding scrape_with_runner
  runs_loop keyword drafts found = rw (scrape_with_runner, on 0, found, on 1) refl

  module _ (detail : JobListingDraft → JobListingDraft)
      (got : (d : JobListingDraft) → scraper.fetch_detail d ≡ inr (detail d)) where
    abbrev fitting : List JobListingDraft → List JobListingDraft
    fitting ds = keep (is_wanted ops wanted) (map detail ds)

    loop_take :
        (n : ℕ) (ds : List JobListingDraft) (acc : Scraped)
        → length acc.enriched < limit
        → (run n ds acc).enriched ≡ acc.enriched ++ take (limit - length acc.enriched) (fitting ds)
    unfolding scrape_loop
    loop_take n [] acc h =
        rw (take_nil {A = JobListingDraft} (limit - length acc.enriched))
          (sym (append_nil acc.enriched))
    loop_take n (d ∷ ds) acc h = elim (Bool-cases (is_wanted ops wanted (detail d))) [
      | inr unwanted ↦
          rw (scrape_loop, on n, got d, unwanted) (loop_take (n + 1) ds (add_skipped acc) h)
      | inl fits ↦ elim (Bool-cases (leb limit (length acc.enriched + 1))) [
        | inl full ↦
            let one : limit - length acc.enriched ≡ 1 = ground (arith, h, full) in
            rw (scrape_loop, on n, got d, fits, full, one) refl
        | inr free ↦
            let acc' = add_detail (detail d) acc in
            let size : length acc'.enriched ≡ length acc.enriched + 1 =
              length-append acc.enriched (detail d ∷ []) in
            let left : limit - length acc.enriched ≡ suc (limit - length acc'.enriched) =
              ground (arith, h, free, size) in
            let rest : (run (n + 1) ds acc').enriched
                ≡ acc'.enriched ++ take (limit - length acc'.enriched) (fitting ds) =
              loop_take (n + 1) ds acc' (ground (arith, free, size)) in
            rw (scrape_loop, on n, got d, fits, free, left)
              (rest
                ∙ append_assoc acc.enriched (detail d ∷ [])
                    (take (limit - length acc'.enriched) (fitting ds)))
      ]
    ]

    -- Without a failure and without a cancellation, and with a limit of at least one, the function
    -- returns the details of the drafts that it found, those that pass the filter, in their order
    -- and up to the limit.
    pub scrape_with_runner-take :
        (keyword : Text) (drafts : List JobListingDraft)
        → 1 ≤ limit
        → scraper.search keyword (search_limit wanted limit) ≡ inr drafts
        → (out : Scraped) × (scrape_with_runner ops scraper keyword limit should_cancel wanted
            ≡ inr out)
          × (out.enriched ≡ take limit (keep (is_wanted ops wanted) (map detail drafts)))
    scrape_with_runner-take keyword drafts some_limit found = (
      run 2 drafts (nothing_scraped false),
      runs_loop keyword drafts found,
      loop_take 2 drafts (nothing_scraped false) (omega (arith, some_limit))
          ∙ ap (λ k. take k (fitting drafts)) (omega arith),
    )

  module _ (message : JobListingDraft → Text)
      (broken : (d : JobListingDraft) → scraper.fetch_detail d ≡ inl (message d)) where
    loop_failing :
        (n : ℕ) (ds : List JobListingDraft) (acc : Scraped)
        → (run n ds acc).enriched ≡ acc.enriched ++ ds
    unfolding scrape_loop
    loop_failing n [] acc = sym (append_nil acc.enriched)
    loop_failing n (d ∷ ds) acc =
        rw (scrape_loop, on n, broken d)
          (loop_failing (n + 1) ds (add_failure d (message d) acc)
            ∙ append_assoc acc.enriched (d ∷ []) ds)

    -- Where every detail page fails and nothing is cancelled, the function returns every draft that
    -- it found, whatever the limit and the filter.
    pub scrape_with_runner_failing :
        (keyword : Text) (drafts : List JobListingDraft)
        → scraper.search keyword (search_limit wanted limit) ≡ inr drafts
        → (out : Scraped) × (scrape_with_runner ops scraper keyword limit should_cancel wanted
            ≡ inr out)
          × (out.enriched ≡ drafts)
    scrape_with_runner_failing keyword drafts found = (
      run 2 drafts (nothing_scraped false),
      runs_loop keyword drafts found,
      loop_failing 2 drafts (nothing_scraped false),
    )
