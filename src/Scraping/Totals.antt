-- ===== src/Scraping/Totals.antt =====
-- The counts of `upsert_drafts_with_stats` of backend/app/services/scrapers/persistence.py.
use resume_helper.Base.{
  ℕ, ◌+◌, List, [], ◌∷◌, ◌≡◌, arith, length, Bool-cases, Option-cases, inl, inr,
}
use resume_helper.Uuid.{Uuid}
use resume_helper.Scraping.Listing.{JobListingDraft, JobListing, draft_key, find_listing}
use resume_helper.Scraping.Upsert.{
  UpsertStats, UpsertState, is_skipped, is_changed, upsert_draft, upsert_loop, upsert_start,
  upsert_drafts_with_stats,
}

total : UpsertStats → ℕ
total stats = stats.inserted + stats.updated + stats.skipped

total-upsert_draft :
    (now : ℕ) (new_id : ℕ → Uuid) (d : JobListingDraft) (st : UpsertState)
    → total (upsert_draft now new_id d st).stats ≡ total st.stats + 1
unfolding total
total-upsert_draft now new_id d st = elim (Bool-cases (is_skipped d st.seen)) [
  | inl skipped ↦ unfold upsert_draft in rw skipped (omega arith)
  | inr fresh ↦ elim (Option-cases (find_listing (draft_key d) st.rows)) [
    | inl missing ↦ unfold upsert_draft in rw (fresh, missing) (omega arith)
    | inr (l, found) ↦ elim (Bool-cases (is_changed d l)) [
      | inl changed ↦ unfold upsert_draft in rw (fresh, found, changed) (omega arith)
      | inr same ↦ unfold upsert_draft in rw (fresh, found, same) (omega arith)
    ]
  ]
]

total-upsert_loop :
    (now : ℕ) (new_id : ℕ → Uuid) (drafts : List JobListingDraft) (st : UpsertState)
    → total (upsert_loop now new_id drafts st).stats ≡ total st.stats + length drafts
unfolding upsert_loop
total-upsert_loop now new_id [] st = omega arith
total-upsert_loop now new_id (d ∷ drafts) st = omega (
  arith,
  total-upsert_loop now new_id drafts (upsert_draft now new_id d st),
  total-upsert_draft now new_id d st,
)

-- Each draft is counted once: as inserted, as updated or as skipped.
pub upsert_drafts_with_stats-total :
    (now : ℕ) (new_id : ℕ → Uuid) (drafts : List JobListingDraft) (rows : List JobListing)
    → let (_, stats) = upsert_drafts_with_stats now new_id drafts rows in
      stats.inserted + stats.updated + stats.skipped ≡ length drafts
unfolding upsert_drafts_with_stats
upsert_drafts_with_stats-total now new_id drafts rows =
    unfold total in omega (arith, total-upsert_loop now new_id drafts (upsert_start rows))
