-- ===== src/Tests/Runs.antt =====
-- The scrape runs of backend/app/services/scrapers/pipeline.py at concrete inputs.
use resume_helper.Base.{
  key_eq, ◌+◌, ◌≤◌, max, false, some, [], ◌∷◌, text_of, text_eq, strip_prefix, is_space, strip, ◌≡◌,
  refl,
}
use resume_helper.Scraping.Upsert.{
  upsert_drafts_with_stats, upsert_draft, is_skipped, is_changed, new_listing,
}
use resume_helper.Scraping.Listing.{find_listing, seen_before, text_option_eq}
use resume_helper.Scraping.Filter.{from_optional, matches}
use resume_helper.Scraping.Pipeline.{is_wanted, scrape_loop, scrape_with_runner}
use resume_helper.Scraping.Run.{
  ScrapeRun, ScrapeIn, running, cancelled, succeeded, find_run, new_run, request_cancel_active_runs,
}
use resume_helper.Scraping.Execute.{
  ScrapeDb, Site, returned, execute_scrape_run, scrape_run, after_scrape,
}
use resume_helper.Scraping.Executions.{execute_scrape_run_counts}
use resume_helper.Scraping.Cancels.{execute_scrape_run-cancel}
use resume_helper.Tests.Scraping.{ops, working, rows, ids}

abbrev request : ScrapeIn
request = record {
  source = text_of "104";
  keyword = text_of "dev";
  limit = 2;
  must_contain = some (text_of " python " ∷ text_of "" ∷ []);
  match_mode = text_of "all";
  regex = false;
}

abbrev waiting : ScrapeRun
waiting = new_run 3 10 request (text_of "104")

abbrev db : ScrapeDb
db = record { runs = waiting ∷ []; listings = rows }

abbrev site : Site
site = record {
  ops = ops;
  scraper = λ source. some working;
  start_time = 20;
  end_time = 30;
  new_id = ids;
  seen = λ n. some running;
  last = some running;
}

abbrev ended : ScrapeRun
ended = record waiting {
  status = succeeded;
  inserted = 1;
  skipped_by_filter = 2;
  started_at = 20;
  finished_at = some 30;
}

abbrev ended_db : ScrapeDb
ended_db = (execute_scrape_run site 3 db).0

execute_test : execute_scrape_run site 3 db ≡ (ended_db, returned ended)
unfolding execute_scrape_run find_run new_run scrape_run from_optional strip is_space text_eq
    scrape_with_runner after_scrape scrape_loop is_wanted matches strip_prefix
    upsert_drafts_with_stats upsert_draft is_skipped seen_before find_listing key_eq is_changed
    text_option_eq new_listing
execute_test = refl

execute_scrape_run_counts_example :
    (ended.failures ≤ ended.inserted + ended.updated + ended.skipped)
    × (ended.inserted + ended.updated + ended.skipped ≤ max ended.limit 1 + ended.failures)
execute_scrape_run_counts_example =
    execute_scrape_run_counts site 3 db ended_db ended execute_test refl

execute_scrape_run-cancel_example :
    let (runs, _) = request_cancel_active_runs 15 db.runs in
    (db' : ScrapeDb) × (run' : ScrapeRun) × (execute_scrape_run site 3 (record db { runs = runs })
      ≡ (db', returned run'))
    × (run'.status ≡ cancelled)
    × (db'.listings ≡ db.listings)
execute_scrape_run-cancel_example =
    execute_scrape_run-cancel site 3 15 db waiting (unfold find_run new_run in refl)
      (unfold new_run in refl)
