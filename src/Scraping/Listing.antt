-- ===== src/Scraping/Listing.antt =====
-- `JobListingDraft` of backend/app/services/scrapers/base.py and the rows of `job_listings`,
-- backend/app/models/job_listing.py. `raw_json` is the text of a JSON value in a normal form, so that
-- two values are equal where their texts are.
use resume_helper.Base.{
  Key, key_eq, ℕ, Bool, true, false, Option, none, some, List, [], ◌∷◌, Text, text_eq, text_eq_iff,
  ◌≡◌, ◌↔◌, if◌then◌else◌, arith,
}
use resume_helper.Uuid.{Uuid}

pub record JobListingDraft : Type 0 where
  pub source : Text
  pub source_id : Text
  pub title : Text
  pub company : Text
  pub url : Text
  pub location : Option Text
  pub description : Text
  pub raw_json : Option Text

pub record JobListing : Type 0 where
  pub id : Uuid
  pub source : Text
  pub source_id : Text
  pub title : Text
  pub company : Text
  pub location : Option Text
  pub url : Text
  pub description : Text
  pub raw_json : Option Text
  pub scraped_at : ℕ
  pub changed_at : Option ℕ
  pub job_analysis_id : Option Uuid

-- `None == None` and `str == str`.
unfoldable pub text_option_eq : Option Text → Option Text → Bool
text_option_eq none none = true
text_option_eq (some s) (some t) = text_eq s t
text_option_eq _ _ = false

pub text_option_eq_iff : (s t : Option Text) → (text_option_eq s t ≡ true) ↔ (s ≡ t)
unfolding text_option_eq
text_option_eq_iff none none = ground arith
text_option_eq_iff none (some t) = ground arith
text_option_eq_iff (some s) none = ground arith
text_option_eq_iff (some s) (some t) = ground (arith, text_eq_iff s t)

abbrev pub draft_key : JobListingDraft → Key
draft_key d = (d.source, d.source_id)

abbrev pub listing_key : JobListing → Key
listing_key l = (l.source, l.source_id)

-- `.filter(source == …, source_id == …).first()`
unfoldable pub find_listing : Key → List JobListing → Option JobListing
find_listing key [] = none
find_listing key (l ∷ rows) = if key_eq (listing_key l) key then some l else find_listing key rows

-- The UPDATE of the row that `find_listing` returns.
unfoldable pub set_listing : Key → JobListing → List JobListing → List JobListing
set_listing key new [] = []
set_listing key new (l ∷ rows) =
    let later = set_listing key new rows in
    if key_eq (listing_key l) key then new ∷ rows else l ∷ later

unfoldable pub seen_before : Key → List Key → Bool
seen_before key [] = false
seen_before key (k ∷ seen) = if key_eq k key then true else seen_before key seen
