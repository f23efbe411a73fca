-- ===== src/Scraping/Pipeline.antt =====
-- `scrape_with_runner` of backend/app/services/scrapers/pipeline.py. A scraper of a site is the record
-- `Scraper`, whose methods may raise; `should_cancel n` is the answer of the call number n, and
-- `λ _. false` stands for `None`.
use resume_helper.Base.{
  ℕ, ◌+◌, ◌*◌, min, leb, Bool, true, false, Option, none, some, List, [], ◌∷◌, ◌++◌, length, Text,
  text_of, ◌⊎◌, inl, inr,
}
use resume_helper.Scraping.Listing.{JobListingDraft}
use resume_helper.Scraping.Filter.{TextOps, DescriptionFilter, matches}

-- An exception is its text.
pub record Scraper : Type 0 where
  pub search : Text → ℕ → Text ⊎ List JobListingDraft
  pub fetch_detail : JobListingDraft → Text ⊎ JobListingDraft

-- The variables of the loop, which are also what it returns.
pub record Scraped : Type 0 where
  pub enriched : List JobListingDraft
  pub failed : ℕ
  pub errors : List Text
  pub cancelled : Bool
  pub skipped_by_filter : ℕ

abbrev pub nothing_scraped : Bool → Scraped
nothing_scraped cancelled = record {
  enriched = [];
  failed = 0;
  errors = [];
  cancelled = cancelled;
  skipped_by_filter = 0;
}

-- `OVER_FETCH_MULTIPLIER` and `OVER_FETCH_CAP`
unfoldable pub search_limit : Option DescriptionFilter → ℕ → ℕ
search_limit none limit = limit
search_limit (some _) limit = min (limit * 3) 200

-- `description_filter is None or description_filter.matches(detail.description)`
unfoldable pub is_wanted : TextOps → Option DescriptionFilter → JobListingDraft → Bool
is_wanted ops none detail = true
is_wanted ops (some f) detail = matches ops f detail.description

abbrev pub add_failure : JobListingDraft → Text → Scraped → Scraped
add_failure draft message acc = record acc {
  enriched = acc.enriched ++ draft ∷ [];
  failed = acc.failed + 1;
  errors = acc.errors ++ (draft.source_id ++ text_of ": " ++ message) ∷ [];
}

abbrev pub add_detail : JobListingDraft → Scraped → Scraped
add_detail detail acc = record acc { enriched = acc.enriched ++ detail ∷ [] }

abbrev pub add_skipped : Scraped → Scraped
add_skipped acc = record acc { skipped_by_filter = acc.skipped_by_filter + 1 }

-- The loop over the drafts, which is at its call number n of `should_cancel`.
unfoldable pub scrape_loop :
    TextOps
    → Scraper
    → ℕ
    → Option DescriptionFilter
    → (ℕ → Bool)
    → ℕ
    → List JobListingDraft
    → Scraped
    → Scraped
scrape_loop ops scraper limit wanted should_cancel n [] acc = acc
scrape_loop ops scraper limit wanted should_cancel n (draft ∷ drafts) acc = elim (should_cancel n) [
  | true ↦ record acc { cancelled = true }
  | false ↦ elim (scraper.fetch_detail draft) [
    | inl message ↦
        scrape_loop ops scraper limit wanted should_cancel (n + 1) drafts
          (add_failure draft message acc)
    | inr detail ↦ elim (is_wanted ops wanted detail) [
      | false ↦ scrape_loop ops scraper limit wanted should_cancel (n + 1) drafts (add_skipped acc)
      | true ↦ elim (leb limit (length acc.enriched + 1)) [
        | true ↦ add_detail detail acc
        | false ↦
            scrape_loop ops scraper limit wanted should_cancel (n + 1) drafts
              (add_detail detail acc)
      ]
    ]
  ]
]

-- The left result is an exception of `search`, which the function does not catch.
unfoldable pub scrape_with_runner :
    TextOps → Scraper → Text → ℕ → (ℕ → Bool) → Option DescriptionFilter → Text ⊎ Scraped
unfolding search_limit
scrape_with_runner ops scraper keyword limit should_cancel wanted = elim (should_cancel 0) [
  | true ↦ inr (nothing_scraped true)
  | false ↦ elim (scraper.search keyword (search_limit wanted limit)) [
    | inl message ↦ inl message
    | inr drafts ↦ elim (should_cancel 1) [
      | true ↦ inr (nothing_scraped true)
      | false ↦
          inr (scrape_loop ops scraper limit wanted should_cancel 2 drafts (nothing_scraped false))
    ]
  ]
]
