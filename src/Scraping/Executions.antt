-- ===== src/Scraping/Executions.antt =====
-- How an `execute_scrape_run` of backend/app/services/scrapers/pipeline.py ends.
use resume_helper.Base.{
  ℕ, zero, suc, ◌+◌, ◌≤◌, max, Bool, true, false, ◌||◌, Option, some, List, [], ◌∷◌, ◌++◌, Text,
  text_of, length, ◌≡◌, refl, sym, ap, subst, ◌∙◌, ◌⊎◌, inl, inr, arith, Bool-cases, Option-cases,
}
use resume_helper.Uuid.{Uuid}
use resume_helper.Scraping.Upsert.{upsert_drafts_with_stats}
use resume_helper.Scraping.Totals.{upsert_drafts_with_stats-total}
use resume_helper.Scraping.Filter.{
  DescriptionFilter, FilterResult, from_optional, filtered_by, invalid_mode,
}
use resume_helper.Scraping.Pipeline.{Scraped, scrape_with_runner}
use resume_helper.Scraping.Limits.{scrape_with_runner_bounds}
use resume_helper.Scraping.Run.{
  ScrapeRun, ScrapeRunStatus, succeeded, partial, is_active, is_stopped, find_run, save_run,
}
use resume_helper.Scraping.Execute.{
  ScrapeDb, Site, Ended, returned, raised, is_run_cancelled, mark_cancelled, apply_stats, start_run,
  fail_run, keep_run, after_error, after_scrape, scrape_run, execute_scrape_run,
}

find_run-save_run :
    (run r : ScrapeRun) (runs : List ScrapeRun)
    → find_run run.id runs ≡ some r
    → find_run run.id (save_run run runs) ≡ some run
unfolding find_run save_run
find_run-save_run run r [] h = absurd (cc h)
find_run-save_run run r (x ∷ runs) h = ground (arith, h, find_run-save_run run r runs)

id-find_run :
    (id : Uuid) (r : ScrapeRun) (runs : List ScrapeRun) → find_run id runs ≡ some r → r.id ≡ id
unfolding find_run
id-find_run id r [] h = absurd (cc h)
id-find_run id r (x ∷ runs) h = ground (arith, h, id-find_run id r runs)

-- `succeeded` and `partial`, the ends of a run that wrote its listings.
abbrev pub is_done : ScrapeRunStatus → Bool
is_done succeeded = true
is_done partial = true
is_done _ = false

-- The run that is returned is over, stands in the table and counts its listings.
Over : Site → Uuid → ScrapeDb × Ended → Type 0
Over site id (db, raised message) = Unit
Over site id (db, returned run) =
    ((is_active run.status ≡ false) × (run.finished_at ≡ some site.end_time))
    × (find_run id db.runs ≡ some run)
    × (is_done run.status ≡ true
        → (run.failures ≤ run.inserted + run.updated + run.skipped)
          × (run.inserted + run.updated + run.skipped ≤ max run.limit 1 + run.failures))

module _ (site : Site) (run r : ScrapeRun) (db : ScrapeDb)
    (there : find_run run.id db.runs ≡ some r) where
  after_error-Over : (message : Text) → Over site run.id (after_error site message run db)
  unfolding Over after_error fail_run keep_run
  after_error-Over message = elim (Option-cases site.last) [
    | inl missing ↦ rw (after_error, missing) tt
    | inr (s, found) ↦
        rw (after_error, found)
          (
            (refl, refl),
            find_run-save_run (fail_run site.end_time message run) r db.runs there,
            λ done. absurd (cc done),
          )
  ]

  after_scrape-Over :
      (out : Scraped)
      → out.failed ≤ length out.enriched
      → length out.enriched ≤ max run.limit 1 + out.failed
      → Over site run.id (after_scrape site out run db)
  unfolding Over keep_run
  after_scrape-Over out low high = elim (Bool-cases (out.cancelled || is_run_cancelled site.last)) [
    | inl cancel ↦ elim (Option-cases site.last) [
      | inl missing ↦ unfold after_scrape in rw (after_scrape, cancel, missing) tt
      | inr (s, found) ↦
          unfold after_scrape mark_cancelled in
          rw (after_scrape, cancel, found)
            (
              (refl, refl),
              find_run-save_run (mark_cancelled site.end_time run) r db.runs there,
              λ done. absurd (cc done),
            )
    ]
    | inr on ↦
        let (listings, stats) =
          upsert_drafts_with_stats site.end_time site.new_id out.enriched db.listings in
        let total : stats.inserted + stats.updated + stats.skipped ≡ length out.enriched =
          upsert_drafts_with_stats-total site.end_time site.new_id out.enriched db.listings in
        unfold after_scrape apply_stats in
        rw (after_scrape, on)
          (
            (not_active out.failed, refl),
            find_run-save_run (apply_stats site.end_time run stats out) r db.runs there,
            λ done. (omega (arith, total, low), omega (arith, total, high)),
          )
  ]
    where
      not_active : (n : ℕ) → is_active (elim n [ zero ↦ succeeded | suc _ ↦ partial ]) ≡ false
      not_active zero = refl
      not_active (suc n) = refl

  scrape_run-Over : Over site run.id (scrape_run site run db)
  scrape_run-Over =
      let ends : (x : ScrapeDb × Ended)
          → scrape_run site run db ≡ x
          → Over site run.id x
          → Over site run.id (scrape_run site run db) =
        λ x e over. subst (Over site run.id) (sym e) over in
      let unknown_source = text_of "'" ++ run.source ++ text_of "'" in
      elim (Option-cases (site.scraper run.source)) [
        | inl unknown ↦
            ends (after_error site unknown_source run db)
              (unfold scrape_run in rw (scrape_run, unknown) refl) (after_error-Over unknown_source)
        | inr (scraper, known) ↦
            elim (filters (from_optional run.must_contain run.match_mode run.regex)) [
              | inl bad ↦
                  ends (after_error site (text_of "invalid match_mode") run db)
                    (unfold scrape_run in rw (scrape_run, known, bad) refl) (after_error-Over _)
              | inr (wanted, good) ↦
                  elim (runs (
                    scrape_with_runner site.ops scraper run.keyword run.limit
                      (λ n. is_run_cancelled (site.seen n)) wanted)) [
                        | inl (m, broken) ↦
                            ends (after_error site m run db)
                              (unfold scrape_run in rw (scrape_run, known, good, broken) refl)
                              (after_error-Over m)
                        | inr (out, scraped) ↦
                            let (_, low, high) =
                              scrape_with_runner_bounds site.ops scraper run.limit wanted
                                (λ n. is_run_cancelled (site.seen n)) run.keyword out scraped in
                            ends (after_scrape site out run db)
                              (unfold scrape_run in rw (scrape_run, known, good, scraped) refl)
                              (after_scrape-Over out low high)
                      ]
            ]
      ]
    where
      filters :
          (f : FilterResult)
          → (f ≡ invalid_mode) ⊎ ((wanted : Option DescriptionFilter) × (f ≡ filtered_by wanted))
      filters invalid_mode = inl refl
      filters (filtered_by wanted) = inr (wanted, refl)

      runs : (o : Text ⊎ Scraped) → ((m : Text) × (o ≡ inl m)) ⊎ ((out : Scraped) × (o ≡ inr out))
      runs (inl m) = inl (m, refl)
      runs (inr out) = inr (out, refl)

execute_scrape_run-Over :
    (site : Site) (id : Uuid) (db : ScrapeDb) → Over site id (execute_scrape_run site id db)
execute_scrape_run-Over site id db = elim (Option-cases (find_run id db.runs)) [
  | inl missing ↦ unfold Over execute_scrape_run in rw (execute_scrape_run, missing) tt
  | inr (run, found) ↦
      let same : run.id ≡ id = id-find_run id run db.runs found in
      let there : find_run run.id db.runs ≡ some run = ap (λ i. find_run i db.runs) same ∙ found in
      elim (Bool-cases (is_stopped run.status)) [
        | inl stopped ↦
            subst (λ i. Over site i (execute_scrape_run site id db)) same
              (unfold Over execute_scrape_run mark_cancelled keep_run in
                rw (execute_scrape_run, found, stopped)
                  (
                    (refl, refl),
                    find_run-save_run (mark_cancelled site.end_time run) run db.runs there,
                    λ done. absurd (cc done),
                  ))
        | inr going ↦
            let started = start_run site.start_time run in
            let db' = record db { runs = save_run started db.runs } in
            let kept : find_run started.id db'.runs ≡ some started =
              unfold start_run in find_run-save_run started run db.runs there in
            let e : execute_scrape_run site id db ≡ scrape_run site started db' =
              (unfold execute_scrape_run in rw (execute_scrape_run, found, going) refl) in
            let named : started.id ≡ id = (unfold start_run in same) in
            subst (λ i. Over site i (execute_scrape_run site id db)) named
              (subst (Over site started.id) (sym e) (scrape_run-Over site started started db' kept))
      ]
]

-- A run that is returned is no longer active, has the time of its end, and stands in the table.
pub execute_scrape_run_ends :
    (site : Site) (id : Uuid) (db db' : ScrapeDb) (run : ScrapeRun)
    → execute_scrape_run site id db ≡ (db', returned run)
    → (is_active run.status ≡ false)
      × (run.finished_at ≡ some site.end_time)
      × (find_run id db'.runs ≡ some run)
execute_scrape_run_ends site id db db' run e =
    let over : Over site id (db', returned run) =
      subst (Over site id) e (execute_scrape_run-Over site id db) in
    unfold Over in (over.0.0, over.0.1, over.1)

-- A run that succeeds, in part or as a whole, counts each of its listings once, as inserted, updated
-- or skipped: the drafts whose detail page failed and up to its limit others, or one other where the
-- limit is 0.
pub execute_scrape_run_counts :
    (site : Site) (id : Uuid) (db db' : ScrapeDb) (run : ScrapeRun)
    → execute_scrape_run site id db ≡ (db', returned run)
    → is_done run.status ≡ true
    → (run.failures ≤ run.inserted + run.updated + run.skipped)
      × (run.inserted + run.updated + run.skipped ≤ max run.limit 1 + run.failures)
execute_scrape_run_counts site id db db' run e done =
    let over : Over site id (db', returned run) =
      subst (Over site id) e (execute_scrape_run-Over site id db) in
    unfold Over in over.2 done
