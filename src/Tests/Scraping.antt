-- ===== src/Tests/Scraping.antt =====
-- The collection of job listings of backend/app/services/scrapers at concrete inputs.
use resume_helper.Base.{
  key_eq, ℕ, ◌+◌, Bool, false, Option, none, some, List, [], ◌∷◌, map, keep, take, All, Text,
  text_of, text_eq, strip_prefix, ◌≡◌, refl, ◌⊎◌, inl, inr, arith,
}
use resume_helper.Scraping.Listing.{
  JobListingDraft, JobListing, find_listing, seen_before, text_option_eq,
}
use resume_helper.Scraping.Upsert.{
  upsert_draft, is_skipped, is_changed, new_listing, upsert_drafts_with_stats,
}
use resume_helper.Scraping.Upserts.{upsert_drafts_with_stats_again}
use resume_helper.Scraping.Uniqueness.{IsUnique, upsert_drafts_with_stats-IsUnique}
use resume_helper.Scraping.Filter.{TextOps, matches, DescriptionFilter}
use resume_helper.Scraping.Pipeline.{Scraper, Scraped, is_wanted, scrape_loop, scrape_with_runner}
use resume_helper.Scraping.Selection.{
  IsFit, scrape_with_runner-IsFit, scrape_with_runner-take, scrape_with_runner_failing,
}

abbrev pub draft : Text → Text → JobListingDraft
draft source_id description = record {
  source = text_of "104";
  source_id = source_id;
  title = text_of "Engineer";
  company = text_of "Acme";
  url = text_of "https://a";
  location = none;
  description = description;
  raw_json = none;
}

abbrev pub drafts : List JobListingDraft
drafts =
    draft (text_of "1") (text_of "python")
    ∷ draft (text_of "2") (text_of "java")
    ∷ draft (text_of "1") (text_of "go")
    ∷ []

abbrev pub rows : List JobListing
rows = new_listing 7 1 (draft (text_of "2") (text_of "php")) ∷ []

abbrev pub ids : ℕ → ℕ
ids n = 100 + n

-- One draft is new, one changes a row, and one repeats a key.
stats_test :
    (upsert_drafts_with_stats 5 ids drafts rows).1
    ≡ record { inserted = 1; updated = 1; skipped = 1 }
unfolding upsert_drafts_with_stats new_listing upsert_draft is_skipped seen_before find_listing
    key_eq text_eq is_changed text_option_eq
stats_test = refl

upsert_drafts_with_stats_again_example :
    (upsert_drafts_with_stats 9 ids drafts (upsert_drafts_with_stats 5 ids drafts rows).0).1
    ≡ record { inserted = 0; updated = 0; skipped = 3 }
upsert_drafts_with_stats_again_example = upsert_drafts_with_stats_again 5 9 ids ids drafts rows

upsert_drafts_with_stats-IsUnique_example : IsUnique (upsert_drafts_with_stats 5 ids drafts rows).0
unfolding find_listing
upsert_drafts_with_stats-IsUnique_example =
    upsert_drafts_with_stats-IsUnique 5 ids drafts rows (unfold IsUnique in (refl, tt))

abbrev pub ops : TextOps
ops = record { lower = λ s. s; search = λ term description. none }

abbrev python : Option DescriptionFilter
python = some (record { terms = text_of "python" ∷ []; mode = text_of "all"; regex = false })

abbrev site_scraper : (JobListingDraft → Text ⊎ JobListingDraft) → Scraper
site_scraper fetch_detail = record {
  search = λ keyword limit. inr drafts;
  fetch_detail = fetch_detail;
}

abbrev pub working : Scraper
working = site_scraper (λ d. inr d)

abbrev broken : Scraper
broken = site_scraper (λ d. inl (text_of "HTTP 500"))

abbrev never : ℕ → Bool
never n = false

-- One draft passes the filter.
scraped : Scraped
scraped = record {
  enriched = draft (text_of "1") (text_of "python") ∷ [];
  failed = 0;
  errors = [];
  cancelled = false;
  skipped_by_filter = 2;
}

scrape_test : scrape_with_runner ops working (text_of "dev") 2 never python ≡ inr scraped
unfolding scrape_with_runner scrape_loop is_wanted scraped matches text_eq strip_prefix
scrape_test = refl

scrape_with_runner-IsFit_example : All (IsFit ops working python) scraped.enriched
scrape_with_runner-IsFit_example =
    scrape_with_runner-IsFit ops working 2 python never (text_of "dev") scraped scrape_test

scrape_with_runner-take_example :
    (out : Scraped) × (scrape_with_runner ops working (text_of "dev") 2 never python ≡ inr out)
    × (out.enriched ≡ take 2 (keep (is_wanted ops python) (map (λ d. d) drafts)))
scrape_with_runner-take_example =
    scrape_with_runner-take ops working 2 python never (λ n. refl) (λ d. d) (λ d. refl)
      (text_of "dev") drafts (omega arith) refl

-- Three drafts, whatever they say, with a limit of one.
scrape_with_runner_failing_example :
    (out : Scraped) × (scrape_with_runner ops broken (text_of "dev") 1 never python ≡ inr out)
    × (out.enriched ≡ drafts)
scrape_with_runner_failing_example =
    scrape_with_runner_failing ops broken 1 python never (λ n. refl) (λ d. text_of "HTTP 500")
      (λ d. refl) (text_of "dev") drafts refl
