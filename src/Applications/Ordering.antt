-- ===== src/Applications/Ordering.antt =====
-- What the ORDER BY of `list_applications` of backend/app/api/applications.py decides: with the id as its
-- last column, the whole order.
use resume_helper.Base.{
  subst, sym, ap, Elem, ◌≡◌, ◌≢◌, ◌↔◌, refl, inl, inr, false, List, [], ◌∷◌, All, All-elem, arith,
  Bool-cases,
}
use resume_helper.Applications.{Application, Board}
use resume_helper.Applications.Sound.{Distinct}
use resume_helper.Applications.Pages.{
  Collation, ListQuery, Less, goes_before, newer_first, lower_id_first, order_columns,
  ApplicationSortBy, by_created_at, by_updated_at, by_follow_up_date, by_score, by_company,
  by_title, by_status, SortDirection,
}

-- No row goes before an earlier one.
abbrev pub IsSorted : List Less → List Application → Type 0
IsSorted columns [] = Unit
IsSorted columns (a ∷ apps) =
    All (λ b. goes_before columns b a ≡ false) apps × IsSorted columns apps

-- What an ORDER BY promises of its answer: the rows, each once, sorted by the columns.
pub record IsOrderBy (columns : List Less) (rows out : List Application) : Type 0 where
  pub members : (a : Application) → Elem a out ↔ Elem a rows
  pub distinct : Distinct out
  pub sorted : IsSorted columns out

abbrev pub columns_of : Collation → ListQuery → Board → List Less
columns_of c query board = order_columns c board query.sort_by query.sort_dir

-- Rows that are tied in every column have one id.
abbrev pub IsTotal : List Less → Type 0
IsTotal columns =
    (a b : Application)
    → goes_before columns a b ≡ false
    → goes_before columns b a ≡ false
    → a.id ≡ b.id

lower_id_first-IsTotal : IsTotal (lower_id_first ∷ [])
unfolding goes_before
lower_id_first-IsTotal a b h k = ground (arith, h, k)

cons-IsTotal : (less : Less) (columns : List Less) → IsTotal columns → IsTotal (less ∷ columns)
unfolding goes_before
cons-IsTotal less columns total a b h k = elim (Bool-cases (less a b)) [
  | inl e ↦ absurd (ground (arith, h, e))
  | inr e ↦ elim (Bool-cases (less b a)) [
    | inl f ↦ absurd (ground (arith, k, e, f))
    | inr f ↦ total a b (ground (arith, h, e, f)) (ground (arith, k, e, f))
  ]
]

pub order_columns-IsTotal :
    (c : Collation) (board : Board) (sort_by : ApplicationSortBy) (d : SortDirection)
    → IsTotal (order_columns c board sort_by d)
unfolding order_columns
order_columns-IsTotal c board by_company d =
    cons-IsTotal _ _ (cons-IsTotal newer_first _ lower_id_first-IsTotal)
order_columns-IsTotal c board by_title d =
    cons-IsTotal _ _ (cons-IsTotal newer_first _ lower_id_first-IsTotal)
order_columns-IsTotal c board by_score d =
    cons-IsTotal _ _ (cons-IsTotal newer_first _ lower_id_first-IsTotal)
order_columns-IsTotal c board by_follow_up_date d =
    cons-IsTotal _ _ (cons-IsTotal newer_first _ lower_id_first-IsTotal)
order_columns-IsTotal c board by_status d =
    cons-IsTotal _ _ (cons-IsTotal newer_first _ lower_id_first-IsTotal)
order_columns-IsTotal c board by_created_at d = cons-IsTotal _ _ lower_id_first-IsTotal
order_columns-IsTotal c board by_updated_at d = cons-IsTotal _ _ lower_id_first-IsTotal

module _ (columns : List Less) (total : IsTotal columns) where
  -- Two sorted lists of the same rows start with the same row.
  same_first :
      (x y : Application) (xs ys : List Application)
      → Distinct (y ∷ ys)
      → IsSorted columns (x ∷ xs)
      → IsSorted columns (y ∷ ys)
      → Elem x (y ∷ ys)
      → Elem y (x ∷ xs)
      → x ≡ y
  same_first x y xs ys d s t (inl e) n = e
  same_first x y xs ys d s t (inr m) (inl e) = sym e
  same_first x y xs ys d s t (inr m) (inr n) =
      let later = All-elem (λ b. goes_before columns b y ≡ false) ys x t.0 m in
      let earlier = All-elem (λ b. goes_before columns b x ≡ false) xs y s.0 n in
      absurd (All-elem (λ (b : Application). b.id ≢ y.id) ys x d.0 m (total x y later earlier))

  rest_member :
      (x a : Application) (xs ys : List Application)
      → Distinct (x ∷ xs)
      → Elem a xs
      → Elem a (x ∷ ys)
      → Elem a ys
  rest_member x a xs ys d m (inl e) =
      absurd
        (All-elem (λ (b : Application). b.id ≢ x.id) xs a d.0 m (ap (λ (b : Application). b.id) e))
  rest_member x a xs ys d m (inr n) = n

  sorted_unique :
      (xs ys : List Application)
      → Distinct xs
      → Distinct ys
      → IsSorted columns xs
      → IsSorted columns ys
      → ((a : Application) → Elem a xs ↔ Elem a ys)
      → xs ≡ ys
  sorted_unique [] [] d e s t h = refl
  sorted_unique [] (y ∷ ys) d e s t h = absurd ((h y).1 (inl refl))
  sorted_unique (x ∷ xs) [] d e s t h = absurd ((h x).0 (inl refl))
  sorted_unique (x ∷ xs) (y ∷ ys) d e s t h =
      let same = same_first x y xs ys e s t ((h x).0 (inl refl)) ((h y).1 (inl refl)) in
      let e' = subst (λ z. Distinct (z ∷ ys)) (sym same) e in
      let h' = subst (λ z. (a : Application) → Elem a (x ∷ xs) ↔ Elem a (z ∷ ys)) (sym same) h in
      let rest = sorted_unique xs ys d.1 e.1 s.1 t.1 (λ a. (
        (λ m. rest_member x a xs ys d m ((h' a).0 (inr m))),
        (λ m. rest_member x a ys xs e' m ((h' a).1 (inr m))),
      )) in
      λ i. same i ∷ rest i

  -- The database has only one answer.
  pub IsOrderBy-unique :
      (rows out out' : List Application)
      → IsOrderBy columns rows out
      → IsOrderBy columns rows out'
      → out ≡ out'
  IsOrderBy-unique rows out out' o o' =
      sorted_unique out out' o.distinct o'.distinct o.sorted o'.sorted (λ a.
        ((λ m. (o'.members a).1 ((o.members a).0 m)), (λ m. (o.members a).1 ((o'.members a).0 m))))
