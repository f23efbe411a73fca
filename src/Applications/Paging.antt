-- ===== src/Applications/Paging.antt =====
-- The pages of `list_applications` of backend/app/api/applications.py.
use resume_helper.Base.{
  Elem, Elem-keep, All-elem, inl, inr, sym, ap, ◌∙◌, refl, ℕ, zero, suc, ◌+◌, ◌≡◌, refl, sym, ap,
  ◌∙◌, inl, inr, List, [], ◌∷◌, ◌++◌, All, All-take, All-drop, map, take, take_nil, drop, arith,
}
use resume_helper.Applications.{Board}
use resume_helper.Applications.Found.{HasResume}
use resume_helper.Applications.Sound.{IsLinked, IsSound}
use resume_helper.Applications.Answers.{own_answer, hydrate-own}
use resume_helper.Applications.Pages.{
  Collation, ListQuery, OrderBy, matching, ordered, list_applications,
}
use resume_helper.Applications.Ordering.{
  IsOrderBy, columns_of, order_columns-IsTotal, IsOrderBy-unique,
}

drop_nil : {A : Type 0} (n : ℕ) → ◌≡◌ {A = List A} (drop n []) []
drop_nil zero = refl
drop_nil (suc n) = refl

take_add : {A : Type 0} (m n : ℕ) (xs : List A) → take (m + n) xs ≡ take m xs ++ take n (drop m xs)
take_add zero n xs = let e : 0 + n ≡ n = omega arith in ap (λ k. take k xs) e
take_add (suc m) n [] = take_nil (suc m + n) ∙ sym (take_nil n)
take_add (suc m) n (x ∷ xs) =
    let e : suc m + n ≡ suc (m + n) = omega arith in
    ap (λ k. take k (x ∷ xs)) e ∙ ap (λ ys. x ∷ ys) (take_add m n xs)

drop_add : {A : Type 0} (m n : ℕ) (xs : List A) → drop (m + n) xs ≡ drop n (drop m xs)
drop_add zero n xs = let e : 0 + n ≡ n = omega arith in ap (λ k. drop k xs) e
drop_add (suc m) n [] = drop_nil (suc m + n) ∙ sym (drop_nil n)
drop_add (suc m) n (x ∷ xs) =
    let e : suc m + n ≡ suc (m + n) = omega arith in ap (λ k. drop k (x ∷ xs)) e ∙ drop_add m n xs

map-append : {A B : Type 0} (f : A → B) (xs ys : List A) → map f (xs ++ ys) ≡ map f xs ++ map f ys
map-append f [] ys = refl
map-append f (x ∷ xs) ys = ap (λ zs. f x ∷ zs) (map-append f xs ys)

All-members : {A : Type 0} (P : A → Type 0) (xs : List A) → ((x : A) → Elem x xs → P x) → All P xs
All-members P [] h = tt
All-members P (x ∷ xs) h = (h x (inl refl), All-members P xs (λ y m. h y (inr m)))

ordered-HasResume :
    (c : Collation) (order : OrderBy) (query : ListQuery) (board : Board)
    → IsSound board
    → IsOrderBy (columns_of c query board) (matching c query board) (ordered c order query board)
    → All (HasResume board) (ordered c order query board)
unfolding matching
ordered-HasResume c order query board s o =
    All-members (HasResume board) (ordered c order query board) (λ a m.
      let row = (Elem-keep _ board.applications a ((o.members a).0 m)).0 in
      (All-elem (IsLinked board) board.applications a s.linked row).resume)

-- The rows of a page, in a sound table.
page_rows :
    (c : Collation) (order : OrderBy) (query : ListQuery) (board : Board)
    → IsSound board
    → IsOrderBy (columns_of c query board) (matching c query board) (ordered c order query board)
    → (list_applications c order query board).rows
      ≡ map (own_answer board) (take query.limit (drop query.offset (ordered c order query board)))
unfolding list_applications
page_rows c order query board s o =
    hydrate-own board (take query.limit (drop query.offset (ordered c order query board))) (
      All-take (HasResume board) query.limit _
        (All-drop (HasResume board) query.offset _ (ordered-HasResume c order query board s o)))

-- A page and the page after it are together the page from the first offset with both limits together, in
-- a sound table that does not change between the three requests. The database may answer each of the
-- three ORDER BYs differently, so long as each answer has every matching row once, and none before
-- one that goes first.
pub list_applications-append :
    (c : Collation) (first second whole : OrderBy) (query : ListQuery) (more : ℕ) (board : Board)
    → IsSound board
    → IsOrderBy (columns_of c query board) (matching c query board) (ordered c first query board)
    → IsOrderBy (columns_of c query board) (matching c query board) (ordered c second query board)
    → IsOrderBy (columns_of c query board) (matching c query board) (ordered c whole query board)
    → (list_applications c whole (record query { limit = query.limit + more }) board).rows
      ≡ (list_applications c first query board).rows
        ++ (list_applications c second
            (record query { offset = query.offset + query.limit; limit = more })
            board).rows
unfolding ordered matching
list_applications-append c first second whole query more board s one two all =
    let next = record query { offset = query.offset + query.limit; limit = more } in
    let both = record query { limit = query.limit + more } in
    let rows = ordered c whole query board in
    let total = order_columns-IsTotal c board query.sort_by query.sort_dir in
    let same =
      IsOrderBy-unique (columns_of c query board) total (matching c query board)
        (ordered c first query board) rows one all in
    let same' =
      IsOrderBy-unique (columns_of c query board) total (matching c query board)
        (ordered c second query board) rows two all in
    let page =
      page_rows c first query board s one
      ∙ ap (λ xs. map (own_answer board) (take query.limit (drop query.offset xs))) same in
    let page' =
      page_rows c second next board s two
      ∙ (ap (λ xs. map (own_answer board) (take more (drop (query.offset + query.limit) xs))) same'
          ∙ ap (λ xs. map (own_answer board) (take more xs))
              (drop_add query.offset query.limit rows)) in
    page_rows c whole both board s all
    ∙ (ap (map (own_answer board)) (take_add query.limit more (drop query.offset rows))
        ∙ (map-append (own_answer board) _ _ ∙ (λ i. sym page i ++ sym page' i)))
