-- ===== src/Scraping/Lookups.antt =====
-- Looking up a listing after the writes of backend/app/services/scrapers/persistence.py.
use resume_helper.Base.{
  Key, key_eq, key_eq_iff, ℕ, true, false, none, some, List, [], ◌∷◌, ◌++◌, text_eq_iff, ◌≡◌, refl,
  ◌∙◌, if◌then◌else◌, arith, or_else, Bool-cases, Option-cases, inl, inr,
}
use resume_helper.Uuid.{Uuid}
use resume_helper.Scraping.Listing.{
  JobListingDraft, JobListing, draft_key, listing_key, find_listing, set_listing,
  text_option_eq_iff,
}
use resume_helper.Scraping.Upsert.{
  UpsertState, is_skipped, new_listing, is_changed, material_changed, update_listing, upsert_draft,
}

pub key_eq_refl : (k : Key) → key_eq k k ≡ true
key_eq_refl k = ground (arith, key_eq_iff k k)

pub find_listing-append :
    (k : Key) (rows : List JobListing) (l : JobListing)
    → find_listing k (rows ++ l ∷ [])
      ≡ or_else (find_listing k rows) (if key_eq (listing_key l) k then some l else none)
unfolding find_listing
find_listing-append k [] l = refl
find_listing-append k (x ∷ rows) l = ground (arith, find_listing-append k rows l)

pub find_listing-set_listing :
    (k j : Key) (l new : JobListing) (rows : List JobListing)
    → find_listing k rows ≡ some l
    → listing_key new ≡ k
    → find_listing j (set_listing k new rows)
      ≡ (if key_eq k j then some new else find_listing j rows)
unfolding find_listing set_listing
find_listing-set_listing k j l new [] h e = absurd (cc h)
find_listing-set_listing k j l new (x ∷ rows) h e = elim (Bool-cases (key_eq (listing_key x) k)) [
  | inl same ↦ ground (arith, key_eq_iff (listing_key x) k, e)
  | inr differs ↦ ground (
    arith,
    find_listing-set_listing k j l new rows (ground arith) e,
    key_eq_iff (listing_key x) j,
    key_eq_iff k j,
    key_eq_iff (listing_key x) k,
  )
]

pub listing_key-find_listing :
    (k : Key) (l : JobListing) (rows : List JobListing)
    → find_listing k rows ≡ some l
    → listing_key l ≡ k
unfolding find_listing
listing_key-find_listing k l [] h = absurd (cc h)
listing_key-find_listing k l (x ∷ rows) h = elim (Bool-cases (key_eq (listing_key x) k)) [
  | inl same ↦ ground (arith, key_eq_iff (listing_key x) k)
  | inr differs ↦ listing_key-find_listing k l rows (ground arith)
]

-- The listing says what the draft says.
pub is_changed-new_listing :
    (id : Uuid) (now : ℕ) (d : JobListingDraft) → is_changed d (new_listing id now d) ≡ false
unfolding is_changed material_changed new_listing
is_changed-new_listing id now d = ground (
  arith,
  text_eq_iff d.title d.title,
  text_eq_iff d.company d.company,
  text_option_eq_iff d.location d.location,
  text_eq_iff d.url d.url,
  text_eq_iff d.description d.description,
  text_option_eq_iff d.raw_json d.raw_json,
)

pub is_changed-update_listing :
    (now : ℕ) (d : JobListingDraft) (l : JobListing) → is_changed d (update_listing now d l) ≡ false
unfolding is_changed material_changed update_listing
is_changed-update_listing now d l = ground (
  arith,
  text_eq_iff d.title d.title,
  text_eq_iff d.company d.company,
  text_option_eq_iff d.location d.location,
  text_eq_iff d.url d.url,
  text_eq_iff d.description d.description,
  text_option_eq_iff d.raw_json d.raw_json,
)

module _ (now : ℕ) (new_id : ℕ → Uuid) (d : JobListingDraft) (st : UpsertState) where
  -- What the body of the loop leaves for the key of the draft.
  pub find_listing-upsert_draft :
      is_skipped d st.seen ≡ false
      → (l : JobListing) × (find_listing (draft_key d) (upsert_draft now new_id d st).rows ≡ some l)
        × (is_changed d l ≡ false)
  find_listing-upsert_draft fresh = elim (Option-cases (find_listing (draft_key d) st.rows)) [
    | inl missing ↦
        unfold upsert_draft in
        rw (fresh, missing)
          (let new = new_listing (new_id st.stats.inserted) now d in
            (
              new,
              find_listing-append (draft_key d) st.rows new
                  ∙ rw missing (unfold new_listing in rw (key_eq_refl (draft_key d)) refl),
              is_changed-new_listing (new_id st.stats.inserted) now d,
            ))
    | inr (l, found) ↦
        unfold upsert_draft in
        rw (fresh, found)
          (let new = update_listing now d l in
            (
              new,
              find_listing-set_listing (draft_key d) (draft_key d) l new st.rows found (
                    unfold update_listing in listing_key-find_listing (draft_key d) l st.rows found)
                  ∙ rw (key_eq_refl (draft_key d)) refl,
              is_changed-update_listing now d l,
            ))
  ]

  -- It leaves the other keys as they were.
  pub find_listing-upsert_draft_other :
      (j : Key)
      → is_skipped d st.seen ≡ false
      → key_eq (draft_key d) j ≡ false
      → find_listing j (upsert_draft now new_id d st).rows ≡ find_listing j st.rows
  find_listing-upsert_draft_other j fresh differs =
      elim (Option-cases (find_listing (draft_key d) st.rows)) [
        | inl missing ↦
            unfold upsert_draft in
            rw (fresh, missing)
              (find_listing-append j st.rows (new_listing (new_id st.stats.inserted) now d)
                ∙ unfold new_listing in rw differs (ground arith))
        | inr (l, found) ↦
            unfold upsert_draft in
            rw (fresh, found)
              (find_listing-set_listing (draft_key d) j l (update_listing now d l) st.rows found
                  (unfold update_listing in listing_key-find_listing (draft_key d) l st.rows found)
                ∙ rw differs refl)
      ]
