-- ===== src/Applications/Pages.antt =====
-- `list_applications` of backend/app/api/applications.py. How the database compares texts and how it
-- orders rows are arguments.
use resume_helper.Base.{
  ℕ, ◌+◌, ltb_ℤ, Bool, true, false, ◌&&◌, ◌||◌, Option, none, some, List, [], ◌∷◌, ◌++◌, Text,
  text_of, or_else, nonempty, strip, keep, take, drop, length, min, ltb, if◌then◌else◌,
}
use resume_helper.Tables.{JobAnalysis}
use resume_helper.Audit.{get_analysis}
use resume_helper.Scraping.Listing.{JobListing}
use resume_helper.Applications.{
  ApplicationStatus, planned, applied, interviewing, rejected, offer, archived, Application, Board,
  get_listing, bind, map_some, ApplicationOut,
}
use resume_helper.Applications.Hydrate.{hydrate}
use resume_helper.Applications.Endpoints.{status_eq}

-- What the database does with texts: `lower`, the order of its collation and `ILIKE`.
pub record Collation : Type 0 where
  pub lower : Text → Text
  pub less : Text → Text → Bool
  pub ilike : Text → Text → Bool

pub data ApplicationSortBy : Type 0 where
  by_created_at by_updated_at by_follow_up_date by_score by_company by_title by_status :
      ApplicationSortBy

pub data SortDirection : Type 0 where
  asc desc : SortDirection

pub record ListQuery : Type 0 where
  pub q : Option Text
  pub status : Option ApplicationStatus
  pub sort_by : ApplicationSortBy
  pub sort_dir : SortDirection
  pub limit : ℕ
  pub offset : ℕ

abbrev pub status_name : ApplicationStatus → Text
status_name planned = text_of "planned"
status_name applied = text_of "applied"
status_name interviewing = text_of "interviewing"
status_name rejected = text_of "rejected"
status_name offer = text_of "offer"
status_name archived = text_of "archived"

-- `column.ilike(pattern)`, which a NULL never satisfies.
abbrev pub ilike_option : Collation → Text → Option Text → Bool
ilike_option c pattern none = false
ilike_option c pattern (some s) = c.ilike s pattern

-- The row of the outer join with `job_listings`.
abbrev pub joined_listing : Board → Application → Option JobListing
joined_listing board a = bind a.job_listing_id (λ id. get_listing id board.listings)

abbrev pub joined_analysis : Board → Application → Option JobAnalysis
joined_analysis board a = bind a.job_analysis_id (λ id. get_analysis board.db id)

unfoldable pub is_match : Collation → Board → Option Text → Application → Bool
is_match c board none a = true
is_match c board (some q) a =
    if nonempty (strip q)
    then (let pattern = text_of "%" ++ strip q ++ text_of "%" in
        let listing = joined_listing board a in
        ilike_option c pattern a.company
        || ilike_option c pattern a.title
        || ilike_option c pattern a.notes
        || ilike_option c pattern (map_some (λ l. l.title) listing)
        || ilike_option c pattern (map_some (λ l. l.company) listing))
    else true

unfoldable pub has_status : Option ApplicationStatus → Application → Bool
unfolding status_eq
has_status none a = true
has_status (some s) a = status_eq a.status s

-- A column of an ORDER BY: whether a row goes strictly before another.
abbrev pub Less : Type 0
Less = Application → Application → Bool

abbrev pub directed : SortDirection → Less → Less
directed asc less a b = less a b
directed desc less a b = less b a

-- `nullslast()` of a value that is less by `less`, in a direction.
unfoldable pub nulls_last {ℓ} :
    {A : Type ℓ} → SortDirection → (A → A → Bool) → Option A → Option A → Bool
nulls_last d less none b = false
nulls_last d less (some x) none = true
nulls_last asc less (some x) (some y) = less x y
nulls_last desc less (some x) (some y) = less y x

-- The columns of an ORDER BY in turn.
unfoldable pub goes_before : List Less → Less
goes_before [] a b = false
goes_before (less ∷ columns) a b =
    let rest = goes_before columns a b in
    if less a b then true else if less b a then false else rest

abbrev pub newer_first : Less
newer_first a b = ltb b.updated_at a.updated_at

abbrev pub lower_id_first : Less
lower_id_first a b = ltb a.id b.id

-- `func.lower(func.coalesce(column, listing_column))`
abbrev pub sort_text : Collation → Option Text → Option Text → Option Text
sort_text c column of_listing = map_some c.lower (or_else column of_listing)

unfoldable pub order_columns : Collation → Board → ApplicationSortBy → SortDirection → List Less
unfolding nulls_last
order_columns c board by_company d =
    let key = (λ (a : Application).
      sort_text c a.company (map_some (λ l. l.company) (joined_listing board a))) in
    (λ a b. nulls_last d c.less (key a) (key b)) ∷ newer_first ∷ lower_id_first ∷ []
order_columns c board by_title d =
    let key = (λ (a : Application).
      sort_text c a.title (map_some (λ l. l.title) (joined_listing board a))) in
    (λ a b. nulls_last d c.less (key a) (key b)) ∷ newer_first ∷ lower_id_first ∷ []
order_columns c board by_score d =
    let key = (λ (a : Application). bind (joined_analysis board a) (λ j. j.score)) in
    (λ a b. nulls_last d ltb_ℤ (key a) (key b)) ∷ newer_first ∷ lower_id_first ∷ []
order_columns c board by_follow_up_date d =
    (λ a b. nulls_last d ltb a.follow_up_date b.follow_up_date) ∷ newer_first ∷ lower_id_first ∷ []
order_columns c board by_status d =
    directed d (λ a b. c.less (status_name a.status) (status_name b.status))
    ∷ newer_first
    ∷ lower_id_first
    ∷ []
order_columns c board by_created_at d =
    directed d (λ a b. ltb a.created_at b.created_at) ∷ lower_id_first ∷ []
order_columns c board by_updated_at d =
    directed d (λ a b. ltb a.updated_at b.updated_at) ∷ lower_id_first ∷ []

-- How the database answers an ORDER BY of rows. Each query has its own answer: where the columns leave
-- rows tied, two queries may order them differently.
abbrev pub OrderBy : Type 0
OrderBy = List Less → List Application → List Application

-- The rows of the query before OFFSET and LIMIT.
unfoldable pub matching : Collation → ListQuery → Board → List Application
unfolding is_match has_status
matching c query board =
    keep (λ a. has_status query.status a && is_match c board query.q a) board.applications

unfoldable pub ordered : Collation → OrderBy → ListQuery → Board → List Application
unfolding order_columns matching
ordered c order query board =
    order (order_columns c board query.sort_by query.sort_dir) (matching c query board)

pub record ApplicationPage : Type 0 where
  pub rows : List ApplicationOut
  pub total : ℕ
  pub limit : ℕ
  pub offset : ℕ
  pub range_start : ℕ
  pub range_end : ℕ
  pub sort_by : ApplicationSortBy
  pub sort_dir : SortDirection
  pub status : Option ApplicationStatus

-- `0 if not rows else n`
abbrev pub or_zero {ℓ} : {A : Type ℓ} → List A → ℕ → ℕ
or_zero [] n = 0
or_zero (_ ∷ _) n = n

unfoldable pub list_applications : Collation → OrderBy → ListQuery → Board → ApplicationPage
unfolding ordered matching hydrate
list_applications c order query board =
    let total = length (matching c query board) in
    let rows = hydrate board (take query.limit (drop query.offset (ordered c order query board))) in
    record {
      rows = rows;
      total = total;
      limit = query.limit;
      offset = query.offset;
      range_start = or_zero rows (query.offset + 1);
      range_end = or_zero rows (min (query.offset + length rows) total);
      sort_by = query.sort_by;
      sort_dir = query.sort_dir;
      status = query.status;
    }
