-- ===== src/Applications/RoundTrip.antt =====
-- What is created or updated by backend/app/api/applications.py is what is read.
use resume_helper.Base.{
  subst, ◌≡◌, refl, sym, ◌∙◌, ap, inl, inr, true, false, not, ◌&&◌, Option, none, some, List, [],
  ◌∷◌, ◌++◌, is_some, get_or, arith, Bool-cases, Option-cases, ℕ, ==_iff, ◌==◌,
}
use resume_helper.Uuid.{Uuid}
use resume_helper.Audit.{has_resume}
use resume_helper.Envelope.{success, Response-cases}
use resume_helper.Applications.{
  Application, Board, find_application, Links, find_existing, load_links, resume_id, listing_id,
  analysis_id, application_out, ApplicationOut,
}
use resume_helper.Applications.Found.{own_links}
use resume_helper.Applications.Endpoints.{
  ApplicationCreateIn, ApplicationUpdateIn, with_applications, set_application, touched,
  is_unchanged, option_eq, new_application, insert_application, create_or_reuse, create_application,
  edit_application, update_links, update_application, has_link, has_manual_label, get_application,
}
use resume_helper.Applications.Loaded.{IsLoaded, load_links-IsLoaded}
use resume_helper.Applications.Own.{ResumeKeys}
use resume_helper.Applications.Sound.{
  find_application-id, find_application-append, find_application-set, touched-id,
}
use resume_helper.Applications.Requests.{edited-ids}
use resume_helper.Applications.Answers.{get_application-own, own_links-loaded}

-- A row with the ids of the loaded links is read with them.
module _ (board : Board) (links : Links) (app : Application) (loaded : IsLoaded board links)
    (keys : ResumeKeys board.db.resumes) (l : app.job_listing_id ≡ listing_id links)
    (a : app.job_analysis_id ≡ analysis_id links) (r : app.generated_resume_id ≡ resume_id links)
    (apps : List Application) where
  get_application-loaded :
      find_application app.id apps ≡ some app
      → get_application app.id (with_applications apps board) ≡ success (application_out app links)
  unfolding own_links
  get_application-loaded e =
      let h = subst (λ o. has_resume board.db o ≡ true) (sym r) loaded.resume in
      let own = own_links-loaded board links app loaded keys l a r in
      get_application-own app.id app (with_applications apps board) e h
      ∙ ap (λ links. success (application_out app links)) own

option_eq-equal : (a b : Option ℕ) → option_eq ◌==◌ a b ≡ true → a ≡ b
option_eq-equal none none h = refl
option_eq-equal none (some y) h = absurd (cc)
option_eq-equal (some x) none h = absurd (cc)
option_eq-equal (some x) (some y) h = ap some ((==_iff x y).0 h)

-- The links of a row after an update, whether or not it has changed.
touched-links :
    (now : ℕ) (old new : Application)
    → ((touched now old new).job_listing_id ≡ new.job_listing_id)
      × ((touched now old new).job_analysis_id ≡ new.job_analysis_id)
      × ((touched now old new).generated_resume_id ≡ new.generated_resume_id)
unfolding touched is_unchanged
touched-links now old new = elim (Bool-cases (is_unchanged old new)) [
  | inl e ↦
      rw (e, touched)
        (
          option_eq-equal _ _ (ground (arith, e)),
          option_eq-equal _ _ (ground (arith, e)),
          option_eq-equal _ _ (ground (arith, e)),
        )
  | inr e ↦ rw (e, touched) (refl, refl, refl)
]

insert_application-get :
    (app : Application) (links : Links) (board : Board) (out : ApplicationOut)
    → IsLoaded board links
    → ResumeKeys board.db.resumes
    → app.job_listing_id ≡ listing_id links
    → app.job_analysis_id ≡ analysis_id links
    → app.generated_resume_id ≡ resume_id links
    → (insert_application app links board).1 ≡ success (out, false)
    → get_application app.id (insert_application app links board).0 ≡ success out
unfolding insert_application
insert_application-get app links board out loaded keys l a r e =
    elim (Bool-cases (is_some (find_application app.id board.applications))) [
      | inl f ↦ absurd (ground (arith, e, f))
      | inr f ↦
          let apps = board.applications ++ app ∷ [] in
          let got =
            get_application-loaded board links app loaded keys l a r apps
              (find_application-append board.applications app f) in
          let same : application_out app links ≡ out = ground (arith, e, f) in
          rw (f, insert_application) (got ∙ ap success same)
    ]

create_or_reuse-get :
    (id : Uuid) (now : ℕ) (body : ApplicationCreateIn) (links : Links) (board : Board)
    (out : ApplicationOut)
    → IsLoaded board links
    → ResumeKeys board.db.resumes
    → (create_or_reuse id now body links board).1 ≡ success (out, false)
    → get_application id (create_or_reuse id now body links board).0 ≡ success out
unfolding create_or_reuse
create_or_reuse-get id now body links board out loaded keys e =
    elim (Option-cases (find_existing board links)) [
      | inl f ↦
          let app = new_application id now body links in
          let e' : (insert_application app links board).1 ≡ success (out, false) =
            ground (arith, e, f) in
          let got =
            insert_application-get app links board out loaded keys (unfold new_application in refl)
              (unfold new_application in refl) (unfold new_application in refl) e' in
          rw (f, create_or_reuse) (unfold new_application in got)
      | inr (a, f) ↦ absurd (ground (arith, e, f))
    ]

-- Where no two resumes have the same id, the application that a creation has added is read by its id as
-- the creation answered.
pub create_application-get_application :
    (id : Uuid) (now : ℕ) (body : ApplicationCreateIn) (board : Board) (out : ApplicationOut)
    → ResumeKeys board.db.resumes
    → (create_application id now body board).1 ≡ success (out, false)
    → get_application id (create_application id now body board).0 ≡ success out
unfolding create_application
create_application-get_application id now body board out keys e =
    let links =
      load_links board body.job_listing_id body.job_analysis_id body.generated_resume_id in
    elim (Bool-cases (not (has_link body) && not (has_manual_label body))) [
      | inl g ↦ absurd (ground (arith, e, g))
      | inr g ↦ elim (Response-cases links) [
        | inl (l, f) ↦
            let loaded = load_links-IsLoaded board _ _ _ l f in
            let e' : (create_or_reuse id now body l board).1 ≡ success (out, false) =
              ground (arith, e, f, g) in
            rw (g, f, create_application)
              (create_or_reuse-get id now body l board out loaded keys e')
        | inr (inl (code, message, status_code, f)) ↦ absurd (ground (arith, e, f, g))
        | inr (inr (name, f)) ↦ absurd (ground (arith, e, f, g))
      ]
    ]

update_links-get :
    (now : ℕ) (body : ApplicationUpdateIn) (app : Application) (links : Links) (board : Board)
    (out : ApplicationOut)
    → IsLoaded board links
    → ResumeKeys board.db.resumes
    → find_application app.id board.applications ≡ some app
    → (update_links now body app links board).1 ≡ success out
    → get_application app.id (update_links now body app links board).0 ≡ success out
unfolding update_links
update_links-get now body app links board out loaded keys found e =
    elim (Option-cases (edit_application body links app)) [
      | inl f ↦ absurd (ground (arith, e, f))
      | inr (edited, f) ↦
          let ids = edited-ids body links app edited f in
          let new = touched now app edited in
          let kept = touched-links now app edited in
          let same_id = touched-id now app edited ids.3 in
          let there : is_some (find_application new.id board.applications) ≡ true =
            subst (λ i. is_some (find_application i board.applications) ≡ true) (sym same_id)
              (subst (λ o. is_some o ≡ true) (sym found) refl) in
          let apps = set_application new board.applications in
          let got =
            get_application-loaded board links new loaded keys (kept.0 ∙ ids.0) (kept.1 ∙ ids.1)
              (kept.2 ∙ ids.2) apps (find_application-set board.applications new there) in
          let got' : get_application app.id (with_applications apps board)
              ≡ success (application_out new links) =
            subst
              (λ i.
                get_application i (with_applications apps board)
                ≡ success (application_out new links))
              same_id got in
          let same : application_out new links ≡ out = ground (arith, e, f) in
          rw (f, update_links) (got' ∙ ap success same)
    ]

-- Where no two resumes have the same id, an application is read after an update that succeeds as the update
-- answered.
pub update_application-get_application :
    (now : ℕ) (id : Uuid) (body : ApplicationUpdateIn) (board : Board) (out : ApplicationOut)
    → ResumeKeys board.db.resumes
    → (update_application now id body board).1 ≡ success out
    → get_application id (update_application now id body board).0 ≡ success out
unfolding update_application
update_application-get_application now id body board out keys e =
    elim (Option-cases (find_application id board.applications)) [
      | inl g ↦ absurd (ground (arith, e, g))
      | inr (app, g) ↦
          let links =
            load_links board (get_or body.job_listing_id app.job_listing_id)
              (get_or body.job_analysis_id app.job_analysis_id)
              (get_or body.generated_resume_id app.generated_resume_id) in
          elim (Response-cases links) [
            | inl (l, f) ↦
                let loaded = load_links-IsLoaded board _ _ _ l f in
                let e' : (update_links now body app l board).1 ≡ success out =
                  ground (arith, e, f, g) in
                let same = find_application-id id board.applications app g in
                let found =
                  subst (λ i. find_application i board.applications ≡ some app) (sym same) g in
                let got = update_links-get now body app l board out loaded keys found e' in
                rw (g, f, update_application)
                  (subst
                    (λ i. get_application i (update_links now body app l board).0 ≡ success out)
                    same got)
            | inr (inl (code, message, status_code, f)) ↦ absurd (ground (arith, e, f, g))
            | inr (inr (name, f)) ↦ absurd (ground (arith, e, f, g))
          ]
    ]
