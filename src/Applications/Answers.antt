-- ===== src/Applications/Answers.antt =====
-- What the endpoints of backend/app/api/applications.py answer about an application.
use resume_helper.Base.{
  subst, Elem, All-elem, ◌≡◌, refl, sym, ap, inl, inr, some, List, [], ◌∷◌, All, map, or_else,
  Option-cases,
}
use resume_helper.Uuid.{Uuid}
use resume_helper.Tables.{GeneratedResume}
use resume_helper.Audit.{get_analysis, find_resume}
use resume_helper.Envelope.{success}
use resume_helper.Applications.{
  Application, Board, find_application, get_listing, bind, latest_resume, map_some, Links,
  resume_id, listing_id, analysis_id, application_out, ApplicationOut,
}
use resume_helper.Applications.Hydrate.{fetch, fetched_links, hydrate}
use resume_helper.Applications.Found.{own_links, HasResume, fetched_links-own}
use resume_helper.Applications.Endpoints.{get_application}
use resume_helper.Applications.Loaded.{IsLoaded}
use resume_helper.Applications.Own.{ResumeKeys}

map-Elem :
    {A B : Type 0} (f g : A → B) (xs : List A)
    → ((x : A) → Elem x xs → f x ≡ g x)
    → map f xs ≡ map g xs
map-Elem f g [] same = refl
map-Elem f g (x ∷ xs) same = λ i. same x (inl refl) i ∷ map-Elem f g xs (λ y m. same y (inr m)) i

abbrev pub own_answer : Board → Application → ApplicationOut
own_answer board app = application_out app (own_links board app)

-- Where the resume that each application of a page names is there, the page answers about each what the
-- queries for that application alone find: its listing, its analysis, and its own resume or else the
-- latest one of its analysis.
pub hydrate-own :
    (board : Board) (apps : List Application)
    → All (HasResume board) apps
    → hydrate board apps ≡ map (own_answer board) apps
unfolding hydrate
hydrate-own board apps h =
    map-Elem (λ app. application_out app (fetched_links (fetch board apps) app)) (own_answer board)
      apps
      (λ app m.
        ap (application_out app)
          (fetched_links-own board apps app m (All-elem (HasResume board) apps app h m)))

-- A row that is found is answered with its own links.
pub get_application-own :
    (id : Uuid) (app : Application) (board : Board)
    → find_application id board.applications ≡ some app
    → HasResume board app
    → get_application id board ≡ success (own_answer board app)
unfolding get_application
get_application-own id app board e h =
    let one = hydrate-own board (app ∷ []) (h, tt) in rw (e, get_application, one) refl

own_resume_of :
    (board : Board) (links : Links)
    → IsLoaded board links
    → ResumeKeys board.db.resumes
    → or_else
        (bind (resume_id links) (λ id. find_resume id board.db.resumes))
        (latest_resume board.db (analysis_id links))
      ≡ links.resume
own_resume_of board links loaded keys = elim (Option-cases links.resume) [
  | inl e ↦ rw (e, loaded.no_resume e) refl
  | inr (r, e) ↦
      let own = loaded.own_resume keys in
      let found : find_resume r.id board.db.resumes ≡ some r =
        subst
          (λ o.
            bind (map_some (λ (r : GeneratedResume). r.id) o)
              (λ id. find_resume id board.db.resumes)
            ≡ o)
          e own in
      rw (e, found) refl
]

-- The links of an application that was given loaded ones are those.
pub own_links-loaded :
    (board : Board) (links : Links) (app : Application)
    → IsLoaded board links
    → ResumeKeys board.db.resumes
    → app.job_listing_id ≡ listing_id links
    → app.job_analysis_id ≡ analysis_id links
    → app.generated_resume_id ≡ resume_id links
    → own_links board app ≡ links
unfolding own_links
own_links-loaded board links app loaded keys l a r =
    let listing =
      subst (λ o. bind o (λ id. get_listing id board.listings) ≡ links.listing) (sym l)
        loaded.listing in
    let analysis =
      subst (λ o. bind o (λ id. get_analysis board.db id) ≡ links.analysis) (sym a)
        loaded.analysis in
    let resume : or_else (bind app.generated_resume_id (λ id. find_resume id board.db.resumes))
          (latest_resume board.db app.job_analysis_id)
        ≡ links.resume =
      rw (r, a) (own_resume_of board links loaded keys) in
    λ i. record { listing = listing i; analysis = analysis i; resume = resume i }
