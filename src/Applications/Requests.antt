-- ===== src/Applications/Requests.antt =====
-- Each endpoint of backend/app/api/applications.py keeps the table of applications sound.
use resume_helper.Base.{
  subst, Elem, Elem-keep, All-elem, ◌≡◌, refl, sym, inl, inr, true, not, ◌&&◌, some, List, [], ◌∷◌,
  ◌++◌, All, All-map, All-append, is_some, or_else, get_or, arith, Bool-cases, Option-cases, ℕ,
}
use resume_helper.Uuid.{Uuid}
use resume_helper.Audit.{has_resume}
use resume_helper.Envelope.{Response-cases}
use resume_helper.Applications.{
  Application, Board, find_application, application_time, shares_link, Links, find_existing,
  load_links, listing_id, analysis_id, resume_id,
}
use resume_helper.Applications.Endpoints.{
  ApplicationCreateIn, ApplicationUpdateIn, with_applications, set_application, touched,
  reuse_application, new_application, insert_application, create_or_reuse, create_application,
  edit_application, update_links, update_application, has_link, has_manual_label,
  remove_application, delete_application,
}
use resume_helper.Applications.Loaded.{IsLoaded, load_links-IsLoaded}
use resume_helper.Applications.Own.{newest-Elem}
use resume_helper.Applications.Sound.{
  IsLinked, IsSound, Distinct, loaded-IsLinked, touched-IsLinked, All-find_application,
  All-set_application, All-remove_application, Distinct-append, Distinct-set_application,
  Distinct-remove_application,
}

-- What an endpoint makes of a table is sound where its rows are.
IsSound-with :
    (board : Board) (apps : List Application)
    → All (IsLinked board) apps
    → Distinct apps
    → IsSound (with_applications apps board)
IsSound-with board apps linked distinct = record {
  linked =
      All-map apps (λ a h. record { listing = h.listing; analysis = h.analysis; resume = h.resume })
        linked;
  distinct = distinct;
}

pub find_existing-Elem :
    (board : Board) (links : Links) (a : Application)
    → find_existing board links ≡ some a
    → Elem a board.applications × (shares_link links a ≡ true)
unfolding find_existing
find_existing-Elem board links a e =
    Elem-keep (shares_link links) board.applications a (newest-Elem application_time _ a e)

reused-IsLinked :
    (board : Board) (body : ApplicationCreateIn) (links : Links) (a : Application)
    → IsLoaded board links
    → IsLinked board a
    → IsLinked board (reuse_application body links a)
unfolding reuse_application
reused-IsLinked board body links a loaded h = record {
  listing = h.listing;
  analysis = h.analysis;
  resume = elim (Option-cases a.generated_resume_id) [
    | inl e ↦ rw e loaded.resume
    | inr (id, e) ↦
        subst (λ o. has_resume board.db (or_else o (resume_id links)) ≡ true) (sym e)
          (subst (λ o. has_resume board.db o ≡ true) e h.resume)
  ];
}

insert_application-IsSound :
    (app : Application) (links : Links) (board : Board)
    → IsSound board
    → IsLinked board app
    → IsSound (insert_application app links board).0
unfolding insert_application
insert_application-IsSound app links board s h =
    elim (Bool-cases (is_some (find_application app.id board.applications))) [
      | inl e ↦ rw (e, insert_application) s
      | inr e ↦
          rw (e, insert_application)
            (IsSound-with board (board.applications ++ app ∷ [])
              (All-append (IsLinked board) board.applications (app ∷ []) s.linked (h, tt))
              (Distinct-append board.applications app s.distinct e))
    ]

create_or_reuse-IsSound :
    (id : Uuid) (now : ℕ) (body : ApplicationCreateIn) (links : Links) (board : Board)
    → IsSound board
    → IsLoaded board links
    → IsSound (create_or_reuse id now body links board).0
unfolding create_or_reuse
create_or_reuse-IsSound id now body links board s loaded =
    elim (Option-cases (find_existing board links)) [
      | inl e ↦
          rw (e, create_or_reuse)
            (insert_application-IsSound (new_application id now body links) links board s (
              loaded-IsLinked board links _ loaded (unfold new_application in refl)
                (unfold new_application in refl) (unfold new_application in refl)))
      | inr (a, e) ↦
          let found = find_existing-Elem board links a e in
          let old = All-elem (IsLinked board) board.applications a s.linked found.0 in
          let app = touched now a (reuse_application body links a) in
          let new =
            touched-IsLinked board now a (reuse_application body links a) old
              (reused-IsLinked board body links a loaded old) in
          rw (e, create_or_reuse)
            (IsSound-with board (set_application app board.applications)
              (All-set_application (IsLinked board) app board.applications new s.linked)
              (Distinct-set_application app board.applications s.distinct))
    ]

pub create_application-IsSound :
    (id : Uuid) (now : ℕ) (body : ApplicationCreateIn) (board : Board)
    → IsSound board
    → IsSound (create_application id now body board).0
unfolding create_application
create_application-IsSound id now body board s =
    let links =
      load_links board body.job_listing_id body.job_analysis_id body.generated_resume_id in
    elim (Bool-cases (not (has_link body) && not (has_manual_label body))) [
      | inl e ↦ rw (e, create_application) s
      | inr e ↦ elim (Response-cases links) [
        | inl (l, f) ↦
            let loaded = load_links-IsLoaded board _ _ _ l f in
            rw (e, f, create_application) (create_or_reuse-IsSound id now body l board s loaded)
        | inr (inl (code, message, status_code, f)) ↦ rw (e, f, create_application) s
        | inr (inr (name, f)) ↦ rw (e, f, create_application) s
      ]
    ]

pub edited-ids :
    (body : ApplicationUpdateIn) (links : Links) (app edited : Application)
    → edit_application body links app ≡ some edited
    → (edited.job_listing_id ≡ listing_id links)
      × (edited.job_analysis_id ≡ analysis_id links)
      × (edited.generated_resume_id ≡ resume_id links)
      × (edited.id ≡ app.id)
unfolding edit_application
edited-ids body links app edited e = elim (Option-cases (get_or body.status (some app.status))) [
  | inl f ↦ absurd (ground (arith, e, f))
  | inr (status, f) ↦ ground (arith, e, f)
]

pub update_links-IsSound :
    (now : ℕ) (body : ApplicationUpdateIn) (app : Application) (links : Links) (board : Board)
    → IsSound board
    → IsLoaded board links
    → IsLinked board app
    → IsSound (update_links now body app links board).0
unfolding update_links
update_links-IsSound now body app links board s loaded h =
    elim (Option-cases (edit_application body links app)) [
      | inl e ↦ rw (e, update_links) s
      | inr (edited, e) ↦
          let ids = edited-ids body links app edited e in
          let new = touched now app edited in
          let linked =
            touched-IsLinked board now app edited h
              (loaded-IsLinked board links edited loaded ids.0 ids.1 ids.2) in
          rw (e, update_links)
            (IsSound-with board (set_application new board.applications)
              (All-set_application (IsLinked board) new board.applications linked s.linked)
              (Distinct-set_application new board.applications s.distinct))
    ]

pub update_application-IsSound :
    (now : ℕ) (id : Uuid) (body : ApplicationUpdateIn) (board : Board)
    → IsSound board
    → IsSound (update_application now id body board).0
unfolding update_application
update_application-IsSound now id body board s =
    elim (Option-cases (find_application id board.applications)) [
      | inl e ↦ rw (e, update_application) s
      | inr (app, e) ↦
          let links =
            load_links board (get_or body.job_listing_id app.job_listing_id)
              (get_or body.job_analysis_id app.job_analysis_id)
              (get_or body.generated_resume_id app.generated_resume_id) in
          elim (Response-cases links) [
            | inl (l, f) ↦
                let loaded = load_links-IsLoaded board _ _ _ l f in
                let h =
                  All-find_application (IsLinked board) id board.applications app s.linked e in
                rw (e, f, update_application) (update_links-IsSound now body app l board s loaded h)
            | inr (inl (code, message, status_code, f)) ↦ rw (e, f, update_application) s
            | inr (inr (name, f)) ↦ rw (e, f, update_application) s
          ]
    ]

pub delete_application-IsSound :
    (id : Uuid) (board : Board) → IsSound board → IsSound (delete_application id board).0
unfolding delete_application
delete_application-IsSound id board s =
    elim (Option-cases (find_application id board.applications)) [
      | inl e ↦ rw (e, delete_application) s
      | inr (app, e) ↦
          rw (e, delete_application)
            (IsSound-with board (remove_application id board.applications)
              (All-remove_application (IsLinked board) id board.applications s.linked)
              (Distinct-remove_application id board.applications s.distinct))
    ]
