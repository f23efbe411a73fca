-- ===== src/Applications/Again.antt =====
-- A creation that is repeated, of backend/app/api/applications.py: it finds the application that is there.
use resume_helper.Base.{
  subst, Elem, ◌≡◌, refl, sym, ap, ◌∙◌, inl, inr, Bool, true, Option, none, some, List, [], ◌∷◌,
  ◌++◌, keep, length, is_some, or_else, arith, Bool-cases, Option-cases, ℕ, ◌==◌,
}
use resume_helper.Uuid.{Uuid}
use resume_helper.Envelope.{Response, success, Response-cases}
use resume_helper.Applications.{
  Application, Board, find_application, newest, application_time, names, shares_link, Links,
  find_existing, load_links, complete_links, resume_id, listing_id, analysis_id, application_out,
  ApplicationOut,
}
use resume_helper.Applications.Endpoints.{
  ApplicationCreateIn, with_applications, set_application, touched, is_unchanged, Created,
  reuse_application, new_application, insert_application, create_or_reuse, create_application,
  has_link,
}
use resume_helper.Applications.Loaded.{load_links-any, any_link}
use resume_helper.Applications.Sound.{touched-id}
use resume_helper.Applications.Requests.{find_existing-Elem}

newest-some :
    {A : Type 0} (time : A → ℕ) (rows : List A) (x : A)
    → Elem x rows
    → is_some (newest time rows) ≡ true
unfolding newest
newest-some time [] x m = absurd m
newest-some time (y ∷ rows) x m = elim (Option-cases (newest time rows)) [
  | inl e ↦ ground (arith, e)
  | inr (z, e) ↦ ground (arith, e)
]

keep-Elem :
    {A : Type 0} (p : A → Bool) (rows : List A) (x : A)
    → Elem x rows
    → p x ≡ true
    → Elem x (keep p rows)
keep-Elem p [] x m h = absurd m
keep-Elem p (y ∷ rows) x (inl e) h =
    let own : p y ≡ true = subst (λ z. p z ≡ true) e h in rw own (inl e)
keep-Elem p (y ∷ rows) x (inr m) h = elim (Bool-cases (p y)) [
  | inl e ↦ rw e (inr (keep-Elem p rows x m h))
  | inr e ↦ rw e (keep-Elem p rows x m h)
]

append-Elem : {A : Type 0} (rows : List A) (x : A) → Elem x (rows ++ x ∷ [])
append-Elem [] x = inl refl
append-Elem (y ∷ rows) x = inr (append-Elem rows x)

set_application-Elem :
    (app old : Application) (apps : List Application)
    → Elem old apps
    → old.id ≡ app.id
    → Elem app (set_application app apps)
unfolding set_application
set_application-Elem app old [] m e = absurd m
set_application-Elem app old (a ∷ apps) m e = elim (Bool-cases (a.id == app.id)) [
  | inl f ↦ rw f (inl refl)
  | inr f ↦ rw f (
      inr (elim m [
        | inl same ↦ absurd (ground (arith, ap (λ (b : Application). b.id) same, e, f))
        | inr m' ↦ set_application-Elem app old apps m' e
      ]))
]

length-set_application :
    (app : Application) (apps : List Application) → length (set_application app apps) ≡ length apps
unfolding set_application
length-set_application app [] = refl
length-set_application app (a ∷ apps) = ground (arith, length-set_application app apps)

-- An application with the links that were loaded is found by them.
find_existing-some :
    (board : Board) (links : Links) (app : Application)
    → Elem app board.applications
    → shares_link links app ≡ true
    → is_some (find_existing board links) ≡ true
unfolding find_existing
find_existing-some board links app m h =
    newest-some application_time _ app (keep-Elem (shares_link links) board.applications app m h)

names_self : (o : Option Uuid) → names o o ≡ is_some o
names_self none = refl
names_self (some id) = ground arith

new_application-shares :
    (id : Uuid) (now : ℕ) (body : ApplicationCreateIn) (links : Links)
    → any_link links ≡ true
    → shares_link links (new_application id now body links) ≡ true
unfolding shares_link new_application
new_application-shares id now body links h =
    rw (names_self (listing_id links), names_self (analysis_id links), names_self (resume_id links))
      h

names-or_else : (o id : Option Uuid) → names o id ≡ true → names (or_else o id) id ≡ true
names-or_else none id h = absurd (cc)
names-or_else (some c) id h = h

reused-shares :
    (now : ℕ) (body : ApplicationCreateIn) (links : Links) (a : Application)
    → shares_link links a ≡ true
    → shares_link links (touched now a (reuse_application body links a)) ≡ true
unfolding shares_link touched reuse_application
reused-shares now body links a h =
    elim (Bool-cases (is_unchanged a (reuse_application body links a))) [
      | inl e ↦ rw (e, touched) h
      | inr e ↦
          rw (e, touched) (ground (arith, h, names-or_else a.generated_resume_id (resume_id links)))
    ]

-- The answer is about an application that was there, and the table has no more rows.
abbrev pub FindsAgain : Board → Board × Response Created → Type 0
FindsAgain board r =
    ((out : ApplicationOut) × (r.1 ≡ success (out, true)))
    × (length r.0.applications ≡ length board.applications)

-- A creation that finds one with its links answers with it, and adds none.
reused :
    (id : Uuid) (now : ℕ) (body : ApplicationCreateIn) (links : Links) (board : Board)
    → is_some (find_existing board links) ≡ true
    → FindsAgain board (create_or_reuse id now body links board)
unfolding create_or_reuse
reused id now body links board h = elim (Option-cases (find_existing board links)) [
  | inl e ↦ absurd (ground (arith, e, h))
  | inr (a, e) ↦
      let app = touched now a (reuse_application body links a) in
      rw (e, create_or_reuse)
        ((application_out app links, refl), length-set_application app board.applications)
]

-- After a creation its links lead to an application.
find_existing-created :
    (id : Uuid) (now : ℕ) (body : ApplicationCreateIn) (links : Links) (board : Board)
    (out : ApplicationOut) (flag : Bool)
    → any_link links ≡ true
    → (create_or_reuse id now body links board).1 ≡ success (out, flag)
    → is_some (find_existing (create_or_reuse id now body links board).0 links) ≡ true
unfolding create_or_reuse insert_application
find_existing-created id now body links board out flag h e =
    elim (Option-cases (find_existing board links)) [
      | inl f ↦
          let app = new_application id now body links in
          elim (Bool-cases (is_some (find_application app.id board.applications))) [
            | inl g ↦ absurd (ground (arith, e, f, g))
            | inr g ↦
                rw (f, g, create_or_reuse, insert_application)
                  (find_existing-some (with_applications (board.applications ++ app ∷ []) board)
                    links app (append-Elem board.applications app)
                    (new_application-shares id now body links h))
          ]
      | inr (a, f) ↦
          let app = touched now a (reuse_application body links a) in
          let found = find_existing-Elem board links a f in
          let same : app.id ≡ a.id =
            touched-id now a (reuse_application body links a) (unfold reuse_application in refl) in
          rw (f, create_or_reuse)
            (find_existing-some (with_applications (set_application app board.applications) board)
              links app (set_application-Elem app a board.applications found.0 (sym same))
              (reused-shares now body links a found.1))
    ]

-- A creation changes nothing that the links are loaded from.
load_links-created :
    (id : Uuid) (now : ℕ) (body : ApplicationCreateIn) (links : Links) (board : Board)
    (a b c : Option Uuid)
    → load_links (create_or_reuse id now body links board).0 a b c ≡ load_links board a b c
unfolding create_or_reuse insert_application load_links complete_links
load_links-created id now body links board a b c = elim (Option-cases (find_existing board links)) [
  | inl f ↦
      let app = new_application id now body links in
      elim (Bool-cases (is_some (find_application app.id board.applications))) [
        | inl g ↦ rw (f, g, create_or_reuse, insert_application) refl
        | inr g ↦ rw (f, g, create_or_reuse, insert_application) refl
      ]
  | inr (x, f) ↦ rw (f, create_or_reuse) refl
]

create_application_linked :
    (id : Uuid) (now : ℕ) (body : ApplicationCreateIn) (links : Links) (board : Board)
    → has_link body ≡ true
    → load_links board body.job_listing_id body.job_analysis_id body.generated_resume_id
      ≡ success links
    → create_application id now body board ≡ create_or_reuse id now body links board
unfolding create_application
create_application_linked id now body links board h e = rw (h, e, create_application) refl

-- After a creation with a link that succeeds, the same creation again answers about an application that
-- was there, and adds none.
pub create_application_again :
    (id id' : Uuid) (now now' : ℕ) (body : ApplicationCreateIn) (board : Board)
    (out : ApplicationOut) (flag : Bool)
    → has_link body ≡ true
    → (create_application id now body board).1 ≡ success (out, flag)
    → let board' = (create_application id now body board).0 in
      FindsAgain board' (create_application id' now' body board')
unfolding create_application has_link
create_application_again id id' now now' body board out flag h e =
    let links =
      load_links board body.job_listing_id body.job_analysis_id body.generated_resume_id in
    elim (Response-cases links) [
      | inl (l, f) ↦
          let any = load_links-any board _ _ _ l f h in
          let e' : (create_or_reuse id now body l board).1 ≡ success (out, flag) =
            ground (arith, e, f, h) in
          let found = find_existing-created id now body l board out flag any e' in
          let board' = (create_or_reuse id now body l board).0 in
          let loads = load_links-created id now body l board _ _ _ ∙ f in
          let first = create_application_linked id now body l board h f in
          let second = create_application_linked id' now' body l board' h loads in
          subst (λ r. FindsAgain r.0 (create_application id' now' body r.0)) (sym first)
            (subst (FindsAgain board') (sym second) (reused id' now' body l board' found))
      | inr (inl (code, message, status_code, f)) ↦ absurd (ground (arith, e, f, h))
      | inr (inr (name, f)) ↦ absurd (ground (arith, e, f, h))
    ]
