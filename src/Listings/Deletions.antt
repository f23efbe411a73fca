-- ===== src/Listings/Deletions.antt =====
-- The deletions of listings by backend/app/services/listing_admin.py: what stays, and what they unlink.
use resume_helper.Base.{
  subst, ◌≡◌, ◌≢◌, refl, sym, ap, inl, inr, ◌⊎◌, Bool, true, false, not, Option, none, some, List,
  [], ◌∷◌, All, All-elem, Elem, Elem-keep, ◌∙◌, keep, map, is_some, ◌==◌, ==_iff, arith, Bool-cases,
}
use resume_helper.Uuid.{Uuid}
use resume_helper.Audit.{get_analysis}
use resume_helper.JobQueue.Claim.{contains}
use resume_helper.Scraping.Listing.{JobListing}
use resume_helper.Applications.{Application, Board, get_listing}
use resume_helper.Applications.Sound.{has_listing, IsLinked, IsSound, Distinct}
use resume_helper.Listings.Admin.{
  AdminEnv, JobListingBulkDeleteIn, unlink_listing, unlink_application, delete_listings,
  delete_backed_up, bulk_delete, write_backup, resolve_targets, is_target, is_deletable, is_refused,
  listing_ids,
}

-- The id of a listing that stays is found afterwards, and that of one that goes is unlinked.
get_listing-kept :
    (id : Uuid) (ids : List Uuid) (rows : List JobListing)
    → contains id ids ≡ false
    → is_some (get_listing id rows) ≡ true
    → is_some (get_listing id (keep (λ l. not (contains l.id ids)) rows)) ≡ true
unfolding get_listing
get_listing-kept id ids [] c h = absurd (cc)
get_listing-kept id ids (l ∷ rows) c h = elim (Bool-cases (l.id == id)) [
  | inl e ↦
      let same : l.id ≡ id = ground (arith, ==_iff l.id id) in
      let kept : contains l.id ids ≡ false = subst (λ i. contains i ids ≡ false) (sym same) c in
      ground (arith, kept, e)
  | inr e ↦ ground (arith, e, h, get_listing-kept id ids rows c)
]

unlinked-has_listing :
    (ids : List Uuid) (board : Board) (o : Option Uuid)
    → has_listing board o ≡ true
    → has_listing (delete_listings ids board) (unlink_listing ids o) ≡ true
unfolding unlink_listing delete_listings
unlinked-has_listing ids board none h = refl
unlinked-has_listing ids board (some id) h = elim (Bool-cases (contains id ids)) [
  | inl e ↦ rw (e, unlink_listing) refl
  | inr e ↦ rw (e, unlink_listing) (get_listing-kept id ids board.listings e h)
]

map-differs :
    (ids : List Uuid) (id : Uuid) (apps : List Application)
    → All (λ (b : Application). b.id ≢ id) apps
    → All (λ (b : Application). b.id ≢ id) (map (unlink_application ids) apps)
unfolding unlink_application
map-differs ids id [] all = tt
map-differs ids id (b ∷ rest) all = (all.0, map-differs ids id rest all.1)

map-Distinct :
    (ids : List Uuid) (apps : List Application)
    → Distinct apps
    → Distinct (map (unlink_application ids) apps)
unfolding unlink_application
map-Distinct ids [] d = tt
map-Distinct ids (a ∷ apps) d = (map-differs ids a.id apps d.0, map-Distinct ids apps d.1)

unlinked-All :
    (ids : List Uuid) (board : Board) (apps : List Application)
    → All (IsLinked board) apps
    → All (IsLinked (delete_listings ids board)) (map (unlink_application ids) apps)
unfolding unlink_application delete_listings get_analysis
unlinked-All ids board [] all = tt
unlinked-All ids board (a ∷ apps) all = (
  record {
    listing = unlinked-has_listing ids board a.job_listing_id all.0.listing;
    analysis = all.0.analysis;
    resume = all.0.resume;
  },
  unlinked-All ids board apps all.1,
)

delete_listings-IsSound :
    (ids : List Uuid) (board : Board) → IsSound board → IsSound (delete_listings ids board)
unfolding delete_listings
delete_listings-IsSound ids board s = record {
  linked = unlinked-All ids board board.applications s.linked;
  distinct = map-Distinct ids board.applications s.distinct;
}

List-cases : {A : Type 0} (xs : List A) → (xs ≡ []) ⊎ ((x : A) × (rest : List A) × (xs ≡ x ∷ rest))
List-cases [] = inl refl
List-cases (x ∷ xs) = inr (x, xs, refl)

sum-cases : {A B : Type 0} (r : A ⊎ B) → ((a : A) × (r ≡ inl a)) ⊎ ((b : B) × (r ≡ inr b))
sum-cases (inl a) = inl (a, refl)
sum-cases (inr b) = inr (b, refl)

-- A deletion leaves the tables, or deletes all that it may.
module _ (P : Board → Type 0) where
  delete_backed_up-either :
      (env : AdminEnv) (backup : Bool) (rows : List JobListing) (refused : List Uuid)
      (board : Board)
      → P board
      → P (delete_listings (listing_ids rows) board)
      → P (delete_backed_up env backup rows refused board).0
  unfolding delete_backed_up
  delete_backed_up-either env false rows refused board h h' = h'
  delete_backed_up-either env true rows refused board h h' =
      elim (sum-cases (write_backup env rows)) [ inl (e, f) ↦ rw f h | inr (path, f) ↦ rw f h' ]

  bulk_delete-either :
      (env : AdminEnv) (body : JobListingBulkDeleteIn) (board : Board)
      → P board
      → P (
          delete_listings
            (listing_ids (keep (is_deletable body.force) (resolve_targets env body board.listings)))
            board)
      → P (bulk_delete env body board).0
  unfolding bulk_delete
  bulk_delete-either env body board h h' =
      let rows = keep (is_deletable body.force) (resolve_targets env body board.listings) in
      elim (List-cases rows) [
        | inl e ↦ rw (e, bulk_delete) h
        | inr (l, rest, e) ↦
            let refused =
              listing_ids
                (keep (is_refused body.force) (resolve_targets env body board.listings)) in
            let one = subst (λ rows. P (delete_listings (listing_ids rows) board)) e h' in
            rw (e, bulk_delete)
              (delete_backed_up-either env body.backup (l ∷ rest) refused board h one)
      ]

pub bulk_delete-IsSound :
    (env : AdminEnv) (body : JobListingBulkDeleteIn) (board : Board)
    → IsSound board
    → IsSound (bulk_delete env body board).0
bulk_delete-IsSound env body board s =
    bulk_delete-either IsSound env body board s (delete_listings-IsSound _ board s)

-- The primary key.
abbrev pub ListingKeys : List JobListing → Type 0
ListingKeys [] = Unit
ListingKeys (l ∷ rows) = All (λ (k : JobListing). k.id ≢ l.id) rows × ListingKeys rows

abbrev pub is_analyzed : JobListing → Bool
is_analyzed l = is_some l.job_analysis_id

unique :
    (rows : List JobListing) (k l : JobListing)
    → ListingKeys rows
    → Elem k rows
    → Elem l rows
    → k.id ≡ l.id
    → k ≡ l
unique [] k l keys m n e = absurd m
unique (r ∷ rows) k l keys (inl m) (inl n) e = m ∙ sym n
unique (r ∷ rows) k l keys (inl m) (inr n) e =
    let other = All-elem (λ (k : JobListing). k.id ≢ r.id) rows l keys.0 n in
    absurd (other (sym e ∙ ap (λ (k : JobListing). k.id) m))
unique (r ∷ rows) k l keys (inr m) (inl n) e =
    let other = All-elem (λ (k : JobListing). k.id ≢ r.id) rows k keys.0 m in
    absurd (other (e ∙ ap (λ (k : JobListing). k.id) n))
unique (r ∷ rows) k l keys (inr m) (inr n) e = unique rows k l keys.1 m n e

listing_ids-Elem :
    (id : Uuid) (rows : List JobListing)
    → contains id (listing_ids rows) ≡ true
    → (l : JobListing) × Elem l rows × (l.id ≡ id)
unfolding contains
listing_ids-Elem id [] h = absurd (cc)
listing_ids-Elem id (l ∷ rows) h = elim (Bool-cases (l.id == id)) [
  | inl e ↦ (l, inl refl, (==_iff l.id id).0 e)
  | inr e ↦ let (k, m, f) = listing_ids-Elem id rows (ground (arith, h, e)) in (k, inr m, f)
]

keep-keep :
    {A : Type 0} (p q : A → Bool) (xs : List A)
    → ((x : A) → Elem x xs → p x ≡ true → q x ≡ true)
    → keep p (keep q xs) ≡ keep p xs
keep-keep p q [] h = refl
keep-keep p q (x ∷ xs) h =
    let rest = keep-keep p q xs (λ y m. h y (inr m)) in
    elim (Bool-cases (q x)) [
      | inl e ↦ elim (Bool-cases (p x)) [
        | inl f ↦ rw (e, f) (ap (λ ys. x ∷ ys) rest)
        | inr f ↦ rw (e, f) rest
      ]
      | inr e ↦ elim (Bool-cases (p x)) [
        | inl f ↦ absurd (ground (arith, h x (inl refl) f, e))
        | inr f ↦ rw (e, f) rest
      ]
    ]

-- Where no two listings have the same id, a deletion that is not forced leaves every listing with an
-- analysis, in its place among those.
pub bulk_delete_kept :
    (env : AdminEnv) (body : JobListingBulkDeleteIn) (board : Board)
    → ListingKeys board.listings
    → body.force ≡ false
    → keep is_analyzed (bulk_delete env body board).0.listings ≡ keep is_analyzed board.listings
unfolding delete_listings resolve_targets is_deletable
bulk_delete_kept env body board keys unforced =
    let targets = resolve_targets env body board.listings in
    let rows = keep (is_deletable body.force) targets in
    bulk_delete-either (λ b. keep is_analyzed b.listings ≡ keep is_analyzed board.listings) env body
      board refl
      (keep-keep is_analyzed (λ l. not (contains l.id (listing_ids rows))) board.listings
        (λ l m analyzed. elim (Bool-cases (contains l.id (listing_ids rows))) [
          | inl e ↦
              let (k, n, f) = listing_ids-Elem l.id rows e in
              let d = Elem-keep (is_deletable body.force) targets k n in
              let t = Elem-keep (is_target env body) board.listings k d.0 in
              let same = unique board.listings k l keys t.0 m f in
              let own = subst (λ l. is_deletable body.force l ≡ true) same d.1 in
              absurd (ground (arith, own, analyzed, unforced))
          | inr e ↦ rw e refl
        ]))
