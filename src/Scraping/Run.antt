-- ===== src/Scraping/Run.antt =====
-- backend/app/models/scrape_run.py, `resolve_sources` of backend/app/services/scrapers/registry.py,
-- and the functions of backend/app/services/scrapers/pipeline.py that make and cancel runs.
use resume_helper.Base.{
  ℕ, Bool, true, false, ◌&&◌, ◌||◌, not, Option, none, some, List, [], ◌∷◌, ◌++◌, map, keep, Text,
  text_of, text_eq, ltb, ◌==◌, if◌then◌else◌,
}
use resume_helper.Uuid.{Uuid}
use resume_helper.Scraping.Filter.{clean_terms}

pub data ScrapeRunStatus : Type 0 where
  queued running cancel_requested cancelled succeeded partial failed : ScrapeRunStatus

-- `ACTIVE_SCRAPE_RUN_STATUSES`
abbrev pub is_active : ScrapeRunStatus → Bool
is_active queued = true
is_active running = true
is_active cancel_requested = true
is_active _ = false

-- `{"cancel_requested", "cancelled"}`
abbrev pub is_stopped : ScrapeRunStatus → Bool
is_stopped cancel_requested = true
is_stopped cancelled = true
is_stopped _ = false

pub record ScrapeRun : Type 0 where
  pub id : Uuid
  pub source : Text
  pub keyword : Text
  pub limit : ℕ
  pub status : ScrapeRunStatus
  pub inserted : ℕ
  pub updated : ℕ
  pub skipped : ℕ
  pub failures : ℕ
  pub skipped_by_filter : ℕ
  pub must_contain : Option (List Text)
  pub match_mode : Text
  pub regex : Bool
  pub error_summary : Option Text
  pub started_at : ℕ
  pub finished_at : Option ℕ

abbrev source_104 : Text
source_104 = text_of "104"

abbrev source_yourator : Text
source_yourator = text_of "yourator"

abbrev source_linkedin : Text
source_linkedin = text_of "linkedin"

-- `source in SCRAPERS`
abbrev pub is_source : Text → Bool
is_source s = text_eq s source_104 || text_eq s source_yourator || text_eq s source_linkedin

-- `none` is the `ValueError`.
unfoldable pub resolve_sources : Text → Option (List Text)
resolve_sources source =
    if text_eq source (text_of "all")
    then some (source_104 ∷ source_yourator ∷ [])
    else if text_eq source (text_of "all_with_linkedin")
    then some (source_104 ∷ source_yourator ∷ source_linkedin ∷ [])
    else if not (is_source source)
    then none
    else some (source ∷ [])

-- `None` where no term is left.
abbrev pub terms_or_none : List Text → Option (List Text)
terms_or_none [] = none
terms_or_none (t ∷ terms) = some (t ∷ terms)

unfoldable pub cleaned_terms : Option (List Text) → Option (List Text)
unfolding clean_terms
cleaned_terms none = none
cleaned_terms (some terms) = terms_or_none (clean_terms terms)

-- The keyword arguments of `create_scrape_runs`.
pub record ScrapeIn : Type 0 where
  pub source : Text
  pub keyword : Text
  pub limit : ℕ
  pub must_contain : Option (List Text)
  pub match_mode : Text
  pub regex : Bool

unfoldable pub new_run : Uuid → ℕ → ScrapeIn → Text → ScrapeRun
unfolding cleaned_terms
new_run id now a item = record {
  id = id;
  source = item;
  keyword = a.keyword;
  limit = a.limit;
  status = queued;
  inserted = 0;
  updated = 0;
  skipped = 0;
  failures = 0;
  skipped_by_filter = 0;
  must_contain = cleaned_terms a.must_contain;
  match_mode = elim (cleaned_terms a.must_contain) [ none ↦ text_of "all" | some _ ↦ a.match_mode ];
  regex = elim (cleaned_terms a.must_contain) [ none ↦ false | some _ ↦ a.regex ];
  error_summary = none;
  started_at = now;
  finished_at = none;
}

-- `new_id source` is the id of the run for a source. The rows are added to the table and returned.
unfoldable pub create_scrape_runs :
    ℕ → (Text → Uuid) → ScrapeIn → List ScrapeRun → Option (List ScrapeRun × List ScrapeRun)
unfolding resolve_sources new_run
create_scrape_runs now new_id a runs = elim (resolve_sources a.source) [
  | none ↦ none
  | some items ↦
      let made = map (λ item. new_run (new_id item) now a item) items in some (runs ++ made, made)
]

-- ORDER BY started_at DESC, id DESC
unfoldable pub insert_run : ScrapeRun → List ScrapeRun → List ScrapeRun
insert_run r [] = r ∷ []
insert_run r (x ∷ runs) =
    let later = insert_run r runs in
    if ltb x.started_at r.started_at || (x.started_at == r.started_at && ltb x.id r.id)
    then r ∷ x ∷ runs
    else x ∷ later

unfoldable pub newest_first : List ScrapeRun → List ScrapeRun
unfolding insert_run
newest_first [] = []
newest_first (r ∷ runs) = insert_run r (newest_first runs)

unfoldable pub active_scrape_runs : List ScrapeRun → List ScrapeRun
unfolding newest_first
active_scrape_runs runs = newest_first (keep (λ r. is_active r.status) runs)

-- The body of the loop of `request_cancel_active_runs`.
unfoldable pub cancel_run : ℕ → ScrapeRun → ScrapeRun
cancel_run now run = elim run.status [
  | queued ↦ record run { status = cancelled; finished_at = some now }
  | running ↦ record run { status = cancel_requested }
  | _ ↦ run
]

-- The table, and the rows that are returned. A row that is not active is left as it is.
unfoldable pub request_cancel_active_runs : ℕ → List ScrapeRun → List ScrapeRun × List ScrapeRun
unfolding cancel_run active_scrape_runs
request_cancel_active_runs now runs =
    (map (cancel_run now) runs, map (cancel_run now) (active_scrape_runs runs))

-- `db.get(ScrapeRun, run_id)`
unfoldable pub find_run : Uuid → List ScrapeRun → Option ScrapeRun
find_run id [] = none
find_run id (r ∷ runs) = if r.id == id then some r else find_run id runs

unfoldable pub save_run : ScrapeRun → List ScrapeRun → List ScrapeRun
save_run run [] = []
save_run run (r ∷ runs) =
    let later = save_run run runs in if r.id == run.id then run ∷ runs else r ∷ later
