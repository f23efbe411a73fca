-- ===== src/Scraping/Upsert.antt =====
-- backend/app/services/scrapers/persistence.py. One session writes the listings; the `or ""` of a
-- field changes nothing, since the fields of a draft are texts.
use resume_helper.Base.{
  Key, ℕ, ◌+◌, Bool, none, some, List, [], ◌∷◌, ◌++◌, text_eq, nonempty, ◌&&◌, ◌||◌, not,
  if◌then◌else◌,
}
use resume_helper.Uuid.{Uuid}
use resume_helper.Scraping.Listing.{
  JobListingDraft, JobListing, draft_key, find_listing, set_listing, seen_before, text_option_eq,
}

pub record UpsertStats : Type 0 where
  pub inserted : ℕ
  pub updated : ℕ
  pub skipped : ℕ

-- The variables of the loop.
pub record UpsertState : Type 0 where
  pub rows : List JobListing
  pub seen : List Key
  pub stats : UpsertStats

-- `not key[0] or not key[1] or key in seen`
unfoldable pub is_skipped : JobListingDraft → List Key → Bool
is_skipped d seen =
    not (nonempty d.source) || not (nonempty d.source_id) || seen_before (draft_key d) seen

unfoldable pub new_listing : Uuid → ℕ → JobListingDraft → JobListing
new_listing id now d = record {
  id = id;
  source = d.source;
  source_id = d.source_id;
  title = d.title;
  company = d.company;
  location = d.location;
  url = d.url;
  description = d.description;
  raw_json = d.raw_json;
  scraped_at = now;
  changed_at = some now;
  job_analysis_id = none;
}

unfoldable pub material_changed : JobListingDraft → JobListing → Bool
material_changed d l = not (
    text_eq l.title d.title
    && text_eq l.company d.company
    && text_option_eq l.location d.location
    && text_eq l.url d.url
    && text_eq l.description d.description)

unfoldable pub is_changed : JobListingDraft → JobListing → Bool
unfolding material_changed
is_changed d l = material_changed d l || not (text_option_eq l.raw_json d.raw_json)

-- A field that is equal to the draft's is written with the value that it has.
unfoldable pub update_listing : ℕ → JobListingDraft → JobListing → JobListing
update_listing now d l = record l {
  title = d.title;
  company = d.company;
  location = d.location;
  url = d.url;
  description = d.description;
  raw_json = d.raw_json;
  scraped_at = now;
  changed_at = if is_changed d l then some now else l.changed_at;
  job_analysis_id = if material_changed d l then none else l.job_analysis_id;
}

-- The body of the loop. `new_id` is the id that a row would get, by its number among the new ones.
unfoldable pub upsert_draft : ℕ → (ℕ → Uuid) → JobListingDraft → UpsertState → UpsertState
upsert_draft now new_id d st =
    if is_skipped d st.seen
    then record st { stats = record st.stats { skipped = st.stats.skipped + 1 } }
    else elim (find_listing (draft_key d) st.rows) [
      | none ↦ record st {
        seen = draft_key d ∷ st.seen;
        rows = st.rows ++ new_listing (new_id st.stats.inserted) now d ∷ [];
        stats = record st.stats { inserted = st.stats.inserted + 1 };
      }
      | some l ↦ record st {
        seen = draft_key d ∷ st.seen;
        rows = set_listing (draft_key d) (update_listing now d l) st.rows;
        stats =
            if is_changed d l
            then record st.stats { updated = st.stats.updated + 1 }
            else record st.stats { skipped = st.stats.skipped + 1 };
      }
    ]

unfoldable pub upsert_loop : ℕ → (ℕ → Uuid) → List JobListingDraft → UpsertState → UpsertState
upsert_loop now new_id [] st = st
upsert_loop now new_id (d ∷ drafts) st =
    upsert_loop now new_id drafts (upsert_draft now new_id d st)

abbrev pub upsert_start : List JobListing → UpsertState
upsert_start rows = record {
  rows = rows;
  seen = [];
  stats = record { inserted = 0; updated = 0; skipped = 0 };
}

unfoldable pub upsert_drafts_with_stats :
    ℕ → (ℕ → Uuid) → List JobListingDraft → List JobListing → List JobListing × UpsertStats
unfolding upsert_loop
upsert_drafts_with_stats now new_id drafts rows =
    let st = upsert_loop now new_id drafts (upsert_start rows) in (st.rows, st.stats)

unfoldable pub upsert_drafts :
    ℕ → (ℕ → Uuid) → List JobListingDraft → List JobListing → List JobListing × ℕ
upsert_drafts now new_id drafts rows =
    let (rows', stats) = upsert_drafts_with_stats now new_id drafts rows in (rows', stats.inserted)
