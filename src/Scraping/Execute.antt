-- ===== src/Scraping/Execute.antt =====
-- `execute_scrape_run`, `execute_scrape_runs`, `_apply_stats` and `_mark_cancelled` of
-- backend/app/services/scrapers/pipeline.py. `failures` is the column `failed`, and the texts of the
-- two exceptions that the code words itself are shortened.
use resume_helper.Base.{
  ℕ, zero, suc, max, Bool, true, false, ◌||◌, Option, none, some, List, [], ◌∷◌, ◌++◌, take, Text,
  text_of, or_none, inl, inr, if◌then◌else◌,
}
use resume_helper.Uuid.{Uuid}
use resume_helper.Scraping.Listing.{JobListing}
use resume_helper.Scraping.Upsert.{UpsertStats, upsert_drafts_with_stats}
use resume_helper.Scraping.Filter.{TextOps, from_optional, filtered_by, invalid_mode}
use resume_helper.Scraping.Pipeline.{Scraper, Scraped, scrape_with_runner}
use resume_helper.Scraping.Run.{
  ScrapeRun, ScrapeRunStatus, running, cancelled, succeeded, partial, failed, is_stopped, find_run,
  save_run,
}

pub record ScrapeDb : Type 0 where
  pub runs : List ScrapeRun
  pub listings : List JobListing

-- What an execution takes from outside: the scrapers by their source, the two times it reads, the ids
-- of new listings, and the status of the run that other sessions have written by the read number n
-- of `should_cancel` and by the last read; `none` says that the row is gone.
pub record Site : Type 0 where
  pub ops : TextOps
  pub scraper : Text → Option Scraper
  pub start_time : ℕ
  pub end_time : ℕ
  pub new_id : ℕ → Uuid
  pub seen : ℕ → Option ScrapeRunStatus
  pub last : Option ScrapeRunStatus

-- How a call ends; a left-over exception is its text.
pub data Ended : Type 0 where
  returned : ScrapeRun → Ended
  raised : Text → Ended

abbrev pub is_run_cancelled : Option ScrapeRunStatus → Bool
is_run_cancelled none = true
is_run_cancelled (some status) = is_stopped status

abbrev summary_or : Option Text → Text → Option Text
summary_or none message = some message
summary_or (some summary) message = some summary

unfoldable pub mark_cancelled : ℕ → ScrapeRun → ScrapeRun
mark_cancelled now run = record run {
  status = cancelled;
  finished_at = some now;
  error_summary = summary_or run.error_summary (text_of "Cancelled by user.");
}

-- `"\n".join(errors)`
unfoldable pub join_lines : List Text → Text
join_lines [] = []
join_lines (e ∷ []) = e
join_lines (e ∷ f ∷ errors) = e ++ 10 ∷ join_lines (f ∷ errors)

unfoldable pub apply_stats : ℕ → ScrapeRun → UpsertStats → Scraped → ScrapeRun
unfolding join_lines
apply_stats now run stats out = record run {
  inserted = stats.inserted;
  updated = stats.updated;
  skipped = stats.skipped;
  failures = out.failed;
  skipped_by_filter = out.skipped_by_filter;
  status = elim out.failed [ zero ↦ succeeded | suc _ ↦ partial ];
  error_summary = or_none (join_lines (take 10 out.errors));
  finished_at = some now;
}

unfoldable pub start_run : ℕ → ScrapeRun → ScrapeRun
start_run now run = record run { status = running; started_at = now; error_summary = none }

unfoldable pub fail_run : ℕ → Text → ScrapeRun → ScrapeRun
fail_run now message run = record run {
  status = failed;
  failures = max run.failures 1;
  error_summary = some message;
  finished_at = some now;
}

unfoldable pub keep_run : ScrapeRun → ScrapeDb → ScrapeDb × Ended
unfolding save_run
keep_run run db = (record db { runs = save_run run db.runs }, returned run)

-- The `except` branch: the exception goes on where the row is gone.
unfoldable pub after_error : Site → Text → ScrapeRun → ScrapeDb → ScrapeDb × Ended
unfolding fail_run keep_run
after_error site message run db = elim site.last [
  | none ↦ (db, raised message)
  | some _ ↦ keep_run (fail_run site.end_time message run) db
]

abbrev pub gone : Text
gone = text_of "scrape run not found"

-- What follows `scrape_with_runner`.
unfoldable pub after_scrape : Site → Scraped → ScrapeRun → ScrapeDb → ScrapeDb × Ended
unfolding mark_cancelled apply_stats keep_run
after_scrape site out run db =
    if out.cancelled || is_run_cancelled site.last
    then elim site.last [
      | none ↦ (db, raised gone)
      | some _ ↦ keep_run (mark_cancelled site.end_time run) db
    ]
    else let (listings, stats) =
        upsert_drafts_with_stats site.end_time site.new_id out.enriched db.listings in
      keep_run (apply_stats site.end_time run stats out) (record db { listings = listings })

-- The body of the `try`, on the run as it was started.
unfoldable pub scrape_run : Site → ScrapeRun → ScrapeDb → ScrapeDb × Ended
unfolding after_error
scrape_run site run db = elim (site.scraper run.source) [
  | none ↦ after_error site (text_of "'" ++ run.source ++ text_of "'") run db
  | some scraper ↦ elim (from_optional run.must_contain run.match_mode run.regex) [
    | invalid_mode ↦ after_error site (text_of "invalid match_mode") run db
    | filtered_by wanted ↦
        elim (scrape_with_runner site.ops scraper run.keyword run.limit
          (λ n. is_run_cancelled (site.seen n)) wanted) [
            | inl message ↦ after_error site message run db
            | inr out ↦ after_scrape site out run db
          ]
  ]
]

unfoldable pub execute_scrape_run : Site → Uuid → ScrapeDb → ScrapeDb × Ended
unfolding start_run mark_cancelled keep_run
execute_scrape_run site run_id db = elim (find_run run_id db.runs) [
  | none ↦ (db, raised gone)
  | some run ↦ elim (is_stopped run.status) [
    | true ↦ keep_run (mark_cancelled site.end_time run) db
    | false ↦
        let started = start_run site.start_time run in
        scrape_run site started (record db { runs = save_run started db.runs })
  ]
]

-- The runs one after the other, up to an exception.
unfoldable pub execute_scrape_runs : List (Site × Uuid) → ScrapeDb → ScrapeDb × List Ended
execute_scrape_runs [] db = (db, [])
execute_scrape_runs ((site, run_id) ∷ calls) db =
    let (db', end) = execute_scrape_run site run_id db in
    elim end [
      | raised message ↦ (db', raised message ∷ [])
      | returned run ↦
          let (db'', ends) = execute_scrape_runs calls db' in (db'', returned run ∷ ends)
    ]
