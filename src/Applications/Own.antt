-- ===== src/Applications/Own.antt =====
-- The rows that the tables have under their ids.
use resume_helper.Base.{
  subst, Elem, Elem-keep, All, All-elem, ◌≡◌, ◌≢◌, refl, sym, inl, inr, true, Option, none, some,
  List, [], ◌∷◌, or_else, is_some, arith, Option-cases,
}
use resume_helper.Uuid.{Uuid}
use resume_helper.Tables.{JobAnalysis, GeneratedResume}
use resume_helper.JobQueue.Store.{Db}
use resume_helper.Audit.{find_analysis, find_resume, get_analysis}
use resume_helper.Scraping.Listing.{JobListing}
use resume_helper.Applications.{
  Board, get_listing, newest, is_of, resume_time, latest_resume, bind, map_some,
}
use resume_helper.Applications.Found.{get_listing-id, find_analysis-id, find_resume-id}

-- A link that the tables have under its id.
abbrev pub OwnListing : Board → Option JobListing → Type 0
OwnListing board row =
    bind (map_some (λ (l : JobListing). l.id) row) (λ id. get_listing id board.listings) ≡ row

abbrev pub OwnAnalysis : Board → Option JobAnalysis → Type 0
OwnAnalysis board row =
    bind (map_some (λ (a : JobAnalysis). a.id) row) (λ id. get_analysis board.db id) ≡ row

abbrev pub OwnResume : Board → Option GeneratedResume → Type 0
OwnResume board row =
    bind (map_some (λ (r : GeneratedResume). r.id) row) (λ id. find_resume id board.db.resumes)
    ≡ row

pub own_listing :
    (board : Board) (o : Option Uuid) (row : Option JobListing)
    → bind o (λ id. get_listing id board.listings) ≡ row
    → OwnListing board row
own_listing board none row e = subst (OwnListing board) e refl
own_listing board (some id) none e = refl
own_listing board (some id) (some l) e =
    subst (λ i. get_listing i board.listings ≡ some l) (sym (get_listing-id id board.listings l e))
      e

pub own_analysis :
    (board : Board) (o : Option Uuid) (row : Option JobAnalysis)
    → bind o (λ id. get_analysis board.db id) ≡ row
    → OwnAnalysis board row
own_analysis board none row e = subst (OwnAnalysis board) e refl
own_analysis board (some id) none e = refl
own_analysis board (some id) (some a) e =
    let found : find_analysis id board.db.analyses ≡ some a = unfold get_analysis in e in
    subst (λ i. get_analysis board.db i ≡ some a)
      (sym (find_analysis-id id board.db.analyses a found)) e

pub own_resume :
    (board : Board) (o : Option Uuid) (row : Option GeneratedResume)
    → bind o (λ id. find_resume id board.db.resumes) ≡ row
    → OwnResume board row
own_resume board none row e = subst (OwnResume board) e refl
own_resume board (some id) none e = refl
own_resume board (some id) (some r) e =
    subst (λ i. find_resume i board.db.resumes ≡ some r)
      (sym (find_resume-id id board.db.resumes r e)) e

-- Where an analysis is found by way of another row, it is found under its own id.
pub analysis_of_row :
    {A : Type 0} (board : Board) (f : A → Option Uuid) (row : Option A)
    → OwnAnalysis board (bind row (λ x. bind (f x) (λ id. get_analysis board.db id)))
analysis_of_row board f none = refl
analysis_of_row board f (some x) = own_analysis board (f x) _ refl

pub own_either :
    (board : Board) (a b : Option JobAnalysis)
    → OwnAnalysis board a
    → OwnAnalysis board b
    → OwnAnalysis board (or_else a b)
own_either board none b own own' = own'
own_either board (some a) b own own' = own

-- The resumes' primary key.
abbrev pub ResumeKeys : List GeneratedResume → Type 0
ResumeKeys [] = Unit
ResumeKeys (r ∷ rows) = All (λ (s : GeneratedResume). s.id ≢ r.id) rows × ResumeKeys rows

pub find_resume-Elem :
    (rows : List GeneratedResume) (r : GeneratedResume)
    → Elem r rows
    → is_some (find_resume r.id rows) ≡ true
unfolding find_resume
find_resume-Elem [] r m = absurd m
find_resume-Elem (s ∷ rows) r (inl e) =
    subst (λ s. is_some (find_resume r.id (s ∷ rows)) ≡ true) e (ground arith)
find_resume-Elem (s ∷ rows) r (inr m) = ground (arith, find_resume-Elem rows r m)

pub newest-Elem :
    {A : Type 0} (time : A → _) (rows : List A) (x : A) → newest time rows ≡ some x → Elem x rows
unfolding newest
newest-Elem time [] x e = absurd (cc)
newest-Elem time (y ∷ rows) x e = elim (Option-cases (newest time rows)) [
  | inl f ↦ ground (arith, e, f)
  | inr (z, f) ↦ ground (arith, e, f, newest-Elem time rows z f)
]

pub find_resume_unique :
    (rows : List GeneratedResume) (r : GeneratedResume)
    → ResumeKeys rows
    → Elem r rows
    → find_resume r.id rows ≡ some r
unfolding find_resume
find_resume_unique [] r keys m = absurd m
find_resume_unique (s ∷ rows) r keys (inl e) =
    subst (λ s. find_resume r.id (s ∷ rows) ≡ some r) e (ground arith)
find_resume_unique (s ∷ rows) r keys (inr m) =
    let other = All-elem (λ (t : GeneratedResume). t.id ≢ s.id) rows r keys.0 m in
    ground (arith, other, find_resume_unique rows r keys.1 m)

pub latest_resume-Elem :
    (db : Db) (o : Option Uuid) (r : GeneratedResume)
    → latest_resume db o ≡ some r
    → Elem r db.resumes
unfolding latest_resume
latest_resume-Elem db none r e = absurd (cc)
latest_resume-Elem db (some id) r e =
    (Elem-keep (is_of id) db.resumes r (newest-Elem resume_time _ r e)).0
