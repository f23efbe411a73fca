-- ===== src/Scraping/Uniqueness.antt =====
-- `uq_job_listings_source` of backend/app/models/job_listing.py under the writes of
-- backend/app/services/scrapers/persistence.py.
use resume_helper.Base.{
  Key, key_eq, key_eq_iff, ℕ, none, List, [], ◌∷◌, ◌++◌, ◌≡◌, refl, ◌∙◌, arith, Bool-cases,
  Option-cases, inl, inr,
}
use resume_helper.Uuid.{Uuid}
use resume_helper.Scraping.Listing.{
  JobListingDraft, JobListing, listing_key, draft_key, find_listing, set_listing,
}
use resume_helper.Scraping.Upsert.{
  UpsertState, is_skipped, new_listing, update_listing, upsert_draft, upsert_loop, upsert_start,
  upsert_drafts_with_stats,
}
use resume_helper.Scraping.Lookups.{find_listing-append, listing_key-find_listing}

-- No two listings have one source and source id.
unfoldable pub IsUnique : List JobListing → Type 0
IsUnique [] = Unit
IsUnique (l ∷ rows) = (find_listing (listing_key l) rows ≡ none) × IsUnique rows

append-IsUnique :
    (rows : List JobListing) (new : JobListing)
    → IsUnique rows
    → find_listing (listing_key new) rows ≡ none
    → IsUnique (rows ++ new ∷ [])
unfolding IsUnique find_listing
append-IsUnique [] new h missing = (refl, tt)
append-IsUnique (l ∷ rows) new (free, rest) missing = (
  find_listing-append (listing_key l) rows new
      ∙ ground (
        arith,
        free,
        key_eq_iff (listing_key l) (listing_key new),
        key_eq_iff (listing_key new) (listing_key l),
        missing,
      ),
  append-IsUnique rows new rest (ground (arith, missing)),
)

set_listing-none :
    (k j : Key) (new : JobListing) (rows : List JobListing)
    → listing_key new ≡ k
    → find_listing j rows ≡ none
    → find_listing j (set_listing k new rows) ≡ none
unfolding find_listing set_listing
set_listing-none k j new [] e h = refl
set_listing-none k j new (l ∷ rows) e h = ground (
  arith,
  e,
  h,
  set_listing-none k j new rows e (ground (arith, h)),
  key_eq_iff (listing_key l) k,
  key_eq_iff k j,
  key_eq_iff (listing_key l) j,
)

set_listing-IsUnique :
    (k : Key) (new : JobListing) (rows : List JobListing)
    → listing_key new ≡ k
    → IsUnique rows
    → IsUnique (set_listing k new rows)
unfolding set_listing IsUnique
set_listing-IsUnique k new [] e h = tt
set_listing-IsUnique k new (l ∷ rows) e (free, rest) =
    elim (Bool-cases (key_eq (listing_key l) k)) [
      | inl same ↦ rw same (ground (arith, key_eq_iff (listing_key l) k, e, free), rest)
      | inr differs ↦ rw differs (
        set_listing-none k (listing_key l) new rows e free,
        set_listing-IsUnique k new rows e rest,
      )
    ]

upsert_draft-IsUnique :
    (now : ℕ) (new_id : ℕ → Uuid) (d : JobListingDraft) (st : UpsertState)
    → IsUnique st.rows
    → IsUnique (upsert_draft now new_id d st).rows
upsert_draft-IsUnique now new_id d st h = elim (Bool-cases (is_skipped d st.seen)) [
  | inl skipped ↦ unfold upsert_draft in rw skipped h
  | inr fresh ↦ elim (Option-cases (find_listing (draft_key d) st.rows)) [
    | inl missing ↦
        unfold upsert_draft in
        rw (fresh, missing)
          (append-IsUnique st.rows (new_listing (new_id st.stats.inserted) now d) h
            (unfold new_listing in missing))
    | inr (l, found) ↦
        unfold upsert_draft in
        rw (fresh, found)
          (set_listing-IsUnique (draft_key d) (update_listing now d l) st.rows
            (unfold update_listing in listing_key-find_listing (draft_key d) l st.rows found) h)
  ]
]

upsert_loop-IsUnique :
    (now : ℕ) (new_id : ℕ → Uuid) (drafts : List JobListingDraft) (st : UpsertState)
    → IsUnique st.rows
    → IsUnique (upsert_loop now new_id drafts st).rows
unfolding upsert_loop
upsert_loop-IsUnique now new_id [] st h = h
upsert_loop-IsUnique now new_id (d ∷ drafts) st h =
    upsert_loop-IsUnique now new_id drafts (upsert_draft now new_id d st)
      (upsert_draft-IsUnique now new_id d st h)

-- An upsert of any drafts keeps the sources and source ids of the listings unique.
pub upsert_drafts_with_stats-IsUnique :
    (now : ℕ) (new_id : ℕ → Uuid) (drafts : List JobListingDraft) (rows : List JobListing)
    → IsUnique rows
    → IsUnique (upsert_drafts_with_stats now new_id drafts rows).0
unfolding upsert_drafts_with_stats
upsert_drafts_with_stats-IsUnique now new_id drafts rows h =
    upsert_loop-IsUnique now new_id drafts (upsert_start rows) h
