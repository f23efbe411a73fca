-- ===== src/Applications/Loaded.antt =====
-- What `_load_links` of backend/app/api/applications.py returns: rows that the tables have.
use resume_helper.Base.{
  subst, ◌≡◌, refl, inl, inr, true, false, Bool, ◌||◌, Option, none, some, or_else, is_some, arith,
  Option-cases, Text, text_of,
}
use resume_helper.Uuid.{Uuid}
use resume_helper.Tables.{JobAnalysis, GeneratedResume}
use resume_helper.Audit.{find_resume, get_analysis, has_resume}
use resume_helper.Scraping.Listing.{JobListing}
use resume_helper.Envelope.{Response, success, error, unhandled, and_then}
use resume_helper.Applications.{
  Board, get_listing, latest_resume, bind, map_some, load, Links, complete_links, load_links,
  listing_id, analysis_id, resume_id,
}
use resume_helper.Applications.Own.{
  OwnListing, OwnAnalysis, OwnResume, own_listing, own_analysis, own_resume, analysis_of_row,
  own_either, ResumeKeys, find_resume-Elem, latest_resume-Elem, find_resume_unique,
}

and_then-success :
    {A B : Type 0} (r : Response A) (f : A → Response B) (b : B)
    → and_then r f ≡ success b
    → (a : A) × (r ≡ success a) × (f a ≡ success b)
and_then-success (success a) f b e = (a, refl, e)
and_then-success (error code message status_code) f b e = absurd (cc)
and_then-success (unhandled name) f b e = absurd (cc)

success-injective : {A : Type 0} {a b : A} → success a ≡ success b → a ≡ b
success-injective e = cc

load-bind :
    {A : Type 0} (name : Text) (get : Uuid → Option A) (o : Option Uuid) (row : Option A)
    → load name get o ≡ success row
    → bind o get ≡ row
unfolding load
load-bind name get none row e = ground (arith, e)
load-bind name get (some id) row e = elim (Option-cases (get id)) [
  | inl f ↦ absurd (ground (arith, e, f))
  | inr (a, f) ↦ ground (arith, e, f)
]

-- The rows that the links are, and the resume that there is where they have none.
pub record IsLoaded (board : Board) (links : Links) : Type 0 where
  pub listing : OwnListing board links.listing
  pub analysis : OwnAnalysis board links.analysis
  pub resume : has_resume board.db (resume_id links) ≡ true
  pub own_resume : ResumeKeys board.db.resumes → OwnResume board links.resume
  pub no_resume : links.resume ≡ none → latest_resume board.db (analysis_id links) ≡ none

own-has_resume :
    (board : Board) (row : Option GeneratedResume)
    → OwnResume board row
    → has_resume board.db (map_some (λ (r : GeneratedResume). r.id) row) ≡ true
own-has_resume board none own = refl
own-has_resume board (some r) own = ground (arith, own)

-- A resume that was given, or else the latest one of an analysis.
or_latest-has_resume :
    (board : Board) (resume : Option GeneratedResume) (o : Option Uuid)
    → OwnResume board resume
    → has_resume board.db
        (map_some (λ (r : GeneratedResume). r.id) (or_else resume (latest_resume board.db o)))
      ≡ true
or_latest-has_resume board (some r) o own = own-has_resume board (some r) own
or_latest-has_resume board none o own = elim (Option-cases (latest_resume board.db o)) [
  | inl e ↦ rw e refl
  | inr (r, e) ↦ rw e (find_resume-Elem board.db.resumes r (latest_resume-Elem board.db o r e))
]

or_latest-OwnResume :
    (board : Board) (resume : Option GeneratedResume) (o : Option Uuid)
    → OwnResume board resume
    → ResumeKeys board.db.resumes
    → OwnResume board (or_else resume (latest_resume board.db o))
or_latest-OwnResume board (some r) o own keys = own
or_latest-OwnResume board none o own keys = elim (Option-cases (latest_resume board.db o)) [
  | inl e ↦ rw e refl
  | inr (r, e) ↦
      rw e (find_resume_unique board.db.resumes r keys (latest_resume-Elem board.db o r e))
]

or_latest-none :
    (board : Board) (resume : Option GeneratedResume) (o : Option Uuid)
    → or_else resume (latest_resume board.db o) ≡ none
    → latest_resume board.db o ≡ none
or_latest-none board (some r) o e = absurd (cc)
or_latest-none board none o e = e

complete_links-IsLoaded :
    (board : Board) (listing : Option JobListing) (analysis : Option JobAnalysis)
    (resume : Option GeneratedResume)
    → OwnListing board listing
    → OwnAnalysis board analysis
    → OwnResume board resume
    → IsLoaded board (complete_links board listing analysis resume)
unfolding complete_links
complete_links-IsLoaded board listing analysis resume l a r =
    let of_listing = analysis_of_row board (λ (l : JobListing). l.job_analysis_id) listing in
    let of_resume =
      analysis_of_row board (λ (r : GeneratedResume). some r.job_analysis_id) resume in
    record {
      listing = l;
      analysis = own_either board _ _ (own_either board analysis _ a of_listing) of_resume;
      resume = or_latest-has_resume board resume _ r;
      own_resume = or_latest-OwnResume board resume _ r;
      no_resume = or_latest-none board resume _;
    }

-- What `load_links` has loaded where it succeeds.
record Loads (board : Board) (a b c : Option Uuid) (links : Links) : Type 0 where
  pub listing : Option JobListing
  pub analysis : Option JobAnalysis
  pub resume : Option GeneratedResume
  pub listing_loads :
      load (text_of "Job listing") (λ id. get_listing id board.listings) a ≡ success listing
  pub analysis_loads :
      load (text_of "Job analysis") (λ id. get_analysis board.db id) b ≡ success analysis
  pub resume_loads :
      load (text_of "Generated resume") (λ id. find_resume id board.db.resumes) c ≡ success resume
  pub completes : complete_links board listing analysis resume ≡ links

load_links-Loads :
    (board : Board) (a b c : Option Uuid) (links : Links)
    → load_links board a b c ≡ success links
    → Loads board a b c links
unfolding load_links
load_links-Loads board a b c links e =
    let last = (λ (l : Option JobListing) (a : Option JobAnalysis) (r : Option GeneratedResume).
      success (complete_links board l a r)) in
    let middle = (λ (l : Option JobListing) (a : Option JobAnalysis).
      and_then
        (load (text_of "Generated resume") (λ (id : Uuid). find_resume id board.db.resumes) c)
        (last l a)) in
    let first = (λ (l : Option JobListing).
      and_then (load (text_of "Job analysis") (λ (id : Uuid). get_analysis board.db id) b)
        (middle l)) in
    let (listing, le, e') = and_then-success _ first links e in
    let (analysis, ae, e'') = and_then-success _ (middle listing) links e' in
    let (resume, re, ended) = and_then-success _ (last listing analysis) links e'' in
    record {
      listing = listing;
      analysis = analysis;
      resume = resume;
      listing_loads = le;
      analysis_loads = ae;
      resume_loads = re;
      completes = success-injective ended;
    }

pub load_links-IsLoaded :
    (board : Board) (a b c : Option Uuid) (links : Links)
    → load_links board a b c ≡ success links
    → IsLoaded board links
load_links-IsLoaded board a b c links e =
    let l = load_links-Loads board a b c links e in
    subst (IsLoaded board) l.completes (
      complete_links-IsLoaded board l.listing l.analysis l.resume
        (own_listing board a l.listing (load-bind _ _ a l.listing l.listing_loads))
        (own_analysis board b l.analysis (load-bind _ _ b l.analysis l.analysis_loads))
        (own_resume board c l.resume (load-bind _ _ c l.resume l.resume_loads)))

load-some :
    {A : Type 0} (name : Text) (get : Uuid → Option A) (o : Option Uuid) (row : Option A)
    → load name get o ≡ success row
    → is_some o ≡ true
    → is_some row ≡ true
unfolding load
load-some name get none row e h = absurd (cc)
load-some name get (some id) row e h = elim (Option-cases (get id)) [
  | inl f ↦ absurd (ground (arith, e, f))
  | inr (a, f) ↦ ground (arith, e, f)
]

abbrev pub any_link : Links → Bool
any_link links =
    is_some (listing_id links) || is_some (analysis_id links) || is_some (resume_id links)

or_true : (b : Bool) → b || true ≡ true
or_true true = refl
or_true false = refl

complete_links-any :
    (board : Board) (listing : Option JobListing) (analysis : Option JobAnalysis)
    (resume : Option GeneratedResume)
    → (is_some listing || is_some analysis || is_some resume) ≡ true
    → any_link (complete_links board listing analysis resume) ≡ true
unfolding complete_links
complete_links-any board (some l) analysis resume h = refl
complete_links-any board none (some a) resume h = refl
complete_links-any board none none (some r) h = or_true _
complete_links-any board none none none h = absurd (cc)

-- A link that is given is loaded.
pub load_links-any :
    (board : Board) (a b c : Option Uuid) (links : Links)
    → load_links board a b c ≡ success links
    → (is_some a || is_some b || is_some c) ≡ true
    → any_link links ≡ true
load_links-any board a b c links e h =
    let l = load_links-Loads board a b c links e in
    subst (λ links. any_link links ≡ true) l.completes
      (complete_links-any board l.listing l.analysis l.resume (
        ground (
          arith,
          h,
          load-some _ _ a l.listing l.listing_loads,
          load-some _ _ b l.analysis l.analysis_loads,
          load-some _ _ c l.resume l.resume_loads,
        )))
