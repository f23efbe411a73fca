-- ===== src/Scraping/Cancels.antt =====
-- A cancellation of the active runs before an execution: `request_cancel_active_runs` and
-- `execute_scrape_run` of backend/app/services/scrapers/pipeline.py.
use resume_helper.Base.{ℕ, true, some, List, [], ◌∷◌, map, ◌≡◌, refl, arith}
use resume_helper.Uuid.{Uuid}
use resume_helper.Scraping.Run.{
  ScrapeRun, ScrapeRunStatus, queued, running, cancel_requested, cancelled, succeeded, partial,
  failed, is_active, is_stopped, find_run, save_run, cancel_run, request_cancel_active_runs,
}
use resume_helper.Scraping.Execute.{
  ScrapeDb, Site, returned, mark_cancelled, keep_run, execute_scrape_run,
}

find_run-cancel :
    (now : ℕ) (id : Uuid) (run : ScrapeRun) (runs : List ScrapeRun)
    → find_run id runs ≡ some run
    → find_run id (map (cancel_run now) runs) ≡ some (cancel_run now run)
unfolding find_run
find_run-cancel now id run [] h = absurd (cc h)
find_run-cancel now id run (x ∷ runs) h =
    ground (arith, h, id-cancel_run now x, find_run-cancel now id run runs)
  where
    id-cancel_run : (now : ℕ) (x : ScrapeRun) → (cancel_run now x).id ≡ x.id
    id-cancel_run now x = go x.status refl
      where
        go : (s : ScrapeRunStatus) → x.status ≡ s → (cancel_run now x).id ≡ x.id
        go queued e = unfold cancel_run in rw (cancel_run, e) refl
        go running e = unfold cancel_run in rw (cancel_run, e) refl
        go cancel_requested e = unfold cancel_run in rw (cancel_run, e) refl
        go cancelled e = unfold cancel_run in rw (cancel_run, e) refl
        go succeeded e = unfold cancel_run in rw (cancel_run, e) refl
        go partial e = unfold cancel_run in rw (cancel_run, e) refl
        go failed e = unfold cancel_run in rw (cancel_run, e) refl

is_stopped-cancel_run :
    (now : ℕ) (run : ScrapeRun)
    → is_active run.status ≡ true
    → is_stopped (cancel_run now run).status ≡ true
is_stopped-cancel_run now run active = go run.status refl
  where
    go : (s : ScrapeRunStatus) → run.status ≡ s → is_stopped (cancel_run now run).status ≡ true
    go queued e = unfold cancel_run in rw (cancel_run, e) refl
    go running e = unfold cancel_run in rw (cancel_run, e) refl
    go cancel_requested e = unfold cancel_run in rw (cancel_run, e) (rw e refl)
    go cancelled e = unfold cancel_run in rw (cancel_run, e) (rw e refl)
    go succeeded e = absurd (cc (rw e at active))
    go partial e = absurd (cc (rw e at active))
    go failed e = absurd (cc (rw e at active))

-- After a cancellation of the active runs, the execution of a run that was active collects nothing:
-- it ends the run as cancelled and leaves the listings as they are.
pub execute_scrape_run-cancel :
    (site : Site) (id : Uuid) (now : ℕ) (db : ScrapeDb) (run : ScrapeRun)
    → find_run id db.runs ≡ some run
    → is_active run.status ≡ true
    → let (runs, _) = request_cancel_active_runs now db.runs in
      (db' : ScrapeDb) × (run' : ScrapeRun) × (execute_scrape_run site id
          (record db { runs = runs })
        ≡ (db', returned run'))
      × (run'.status ≡ cancelled)
      × (db'.listings ≡ db.listings)
execute_scrape_run-cancel site id now db run found active =
    let runs = map (cancel_run now) db.runs in
    let there = find_run-cancel now id run db.runs found in
    let ended = mark_cancelled site.end_time (cancel_run now run) in
    let stopped = is_stopped-cancel_run now run active in
    (
      record { runs = save_run ended runs; listings = db.listings },
      ended,
      (unfold execute_scrape_run keep_run request_cancel_active_runs in
          rw (execute_scrape_run, request_cancel_active_runs, there, stopped) refl),
      (unfold mark_cancelled in refl),
      refl,
    )
