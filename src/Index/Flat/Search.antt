-- ===== src/Index/Flat/Search.antt =====
-- `search` of flat.rs: the scores are sorted, and the first ones are the best there are.
use mathlib.Core.List.{Perm}
use mathlib.Core.List.Perm
use embeddb.Base.{
  ℕ, suc, Bool, true, false, List, [], ◌∷◌, ◌++◌, min, ◌==◌, ◌≡◌, refl, ap, sym, ◌∙◌, if◌then◌else◌,
  inl, inr, length, take, drop, arith, Bool-cases, ==_refl, ==_ne, length-take, take-nil,
  take-append-drop,
}
use embeddb.Base.Outcome.{Outcome, ok}
use embeddb.Index.{IndexError, SearchResult}
use embeddb.Index.Flat.{FlatIndex, sort_insert, sort_results, score_all, search}

-- The `<` of the scores is a strict weak order, as that of f32 is without NaN.
pub record IsOrder {F : Type 0} (lt : F → F → Bool) : Type 0 where
  pub asym : (a b : F) → lt a b ≡ true → lt b a ≡ false
  pub trans : (a b c : F) → lt b a ≡ false → lt c b ≡ false → lt c a ≡ false

module _ {F : Type 0} (compute : List F → List F → F) (lt : F → F → Bool) where
  -- No result of the list is better than this score.
  abbrev pub AtLeast : F → List (SearchResult F) → Type 0
  AtLeast s [] = Unit
  AtLeast s (y ∷ ys) = (lt y.score s ≡ false) × AtLeast s ys

  abbrev pub Sorted : List (SearchResult F) → Type 0
  Sorted [] = Unit
  Sorted (x ∷ xs) = AtLeast x.score xs × Sorted xs

  sort_insert-perm :
      (x : SearchResult F) (ys : List (SearchResult F))
      → Perm (sort_insert compute lt x ys) (x ∷ ys)
  unfolding sort_insert
  sort_insert-perm x [] = Perm.refl (x ∷ [])
  sort_insert-perm x (y ∷ ys) = elim (Bool-cases (lt y.score x.score)) [
    | inl later ↦ rw later (Perm.trans (Perm.cons y (sort_insert-perm x ys)) (Perm.swap x y ys))
    | inr here ↦ rw here (Perm.refl (x ∷ (y ∷ ys)))
  ]

  sort_results-perm : (xs : List (SearchResult F)) → Perm (sort_results compute lt xs) xs
  unfolding sort_results
  sort_results-perm [] = Perm.refl []
  sort_results-perm (x ∷ xs) =
      Perm.trans (sort_insert-perm x (sort_results compute lt xs))
        (Perm.cons x (sort_results-perm xs))

  length-score_all :
      (query : List F) (m : List (ℕ × List F)) → length (score_all compute lt query m) ≡ length m
  unfolding score_all
  length-score_all query [] = refl
  length-score_all query ((id, v) ∷ m) = ap suc (length-score_all query m)

  pub length-sort_insert :
      (x : SearchResult F) (ys : List (SearchResult F))
      → length (sort_insert compute lt x ys) ≡ suc (length ys)
  unfolding sort_insert
  length-sort_insert x [] = refl
  length-sort_insert x (y ∷ ys) = ground (arith, length-sort_insert x ys)

  length-sort_results :
      (xs : List (SearchResult F)) → length (sort_results compute lt xs) ≡ length xs
  unfolding sort_results
  length-sort_results [] = refl
  length-sort_results (x ∷ xs) =
      length-sort_insert x (sort_results compute lt xs) ∙ ap suc (length-sort_results xs)

  scored : FlatIndex F → List F → List (SearchResult F)
  scored index query = sort_results compute lt (score_all compute lt query index.vectors)

  length-scored :
      (index : FlatIndex F) (query : List F) → length (scored index query) ≡ length index.vectors
  unfolding scored
  length-scored index query =
      length-sort_results (score_all compute lt query index.vectors)
      ∙ length-score_all query index.vectors

  scored-perm :
      (index : FlatIndex F) (query : List F)
      → Perm (scored index query) (score_all compute lt query index.vectors)
  unfolding scored
  scored-perm index query = sort_results-perm (score_all compute lt query index.vectors)

  start_of :
      (query : List F) (k : ℕ) (m : List (ℕ × List F))
      → if◌then◌else◌ {A = Outcome IndexError (List (SearchResult F))}
          (length m == 0)
          (ok [])
          (ok (take (min k (length m)) (sort_results compute lt (score_all compute lt query m))))
        ≡ ok (take (min k (length m)) (sort_results compute lt (score_all compute lt query m)))
  unfolding score_all sort_results
  start_of query k [] = ap ok (sym (take-nil (min k 0)))
  start_of query k (x ∷ m) = rw (==_ne (suc (length m)) 0 (omega arith)) refl

  search-scored :
      (index : FlatIndex F) (query : List F) (k : ℕ)
      → length query ≡ index.dimension
      → search compute lt index query k
        ≡ ok (take (min k (length index.vectors)) (scored index query))
  unfolding search scored
  search-scored index query k fit =
      rw (fit, ==_refl index.dimension) (start_of query k index.vectors)

  module _ (order : IsOrder lt) where
    AtLeast-trans :
        (a b : F) (ys : List (SearchResult F)) → lt b a ≡ false → AtLeast b ys → AtLeast a ys
    AtLeast-trans a b [] h all = tt
    AtLeast-trans a b (y ∷ ys) h (first, rest) =
        (order.trans a b y.score h first, AtLeast-trans a b ys h rest)

    sort_insert-AtLeast :
        (s : F) (x : SearchResult F) (ys : List (SearchResult F))
        → lt x.score s ≡ false
        → AtLeast s ys
        → AtLeast s (sort_insert compute lt x ys)
    unfolding sort_insert
    sort_insert-AtLeast s x [] h all = (h, tt)
    sort_insert-AtLeast s x (y ∷ ys) h (first, rest) =
        ground (arith, h, first, rest, sort_insert-AtLeast s x ys h rest)

    pub sort_insert-Sorted :
        (x : SearchResult F) (ys : List (SearchResult F))
        → Sorted ys
        → Sorted (sort_insert compute lt x ys)
    unfolding sort_insert
    sort_insert-Sorted x [] sorted = (tt, tt)
    sort_insert-Sorted x (y ∷ ys) (least, sorted) = elim (Bool-cases (lt y.score x.score)) [
      | inl later ↦ rw later (
        sort_insert-AtLeast y.score x ys (order.asym y.score x.score later) least,
        sort_insert-Sorted x ys sorted,
      )
      | inr here ↦ rw here ((here, AtLeast-trans x.score y.score ys here least), (least, sorted))
    ]

    sort_results-Sorted : (xs : List (SearchResult F)) → Sorted (sort_results compute lt xs)
    unfolding sort_results
    sort_results-Sorted [] = tt
    sort_results-Sorted (x ∷ xs) =
        sort_insert-Sorted x (sort_results compute lt xs) (sort_results-Sorted xs)

    scored-Sorted : (index : FlatIndex F) (query : List F) → Sorted (scored index query)
    unfolding scored
    scored-Sorted index query = sort_results-Sorted (score_all compute lt query index.vectors)

    -- A query of the index's dimension is answered with min k (number of vectors) results, which
    -- start a sorted list of the scores of all vectors, so none left out is better than one that is
    -- in; the order of scores is a strict weak order.
    pub search-best :
        (index : FlatIndex F) (query : List F) (k : ℕ)
        → length query ≡ index.dimension
        → (best : List (SearchResult F)) × (rest : List (SearchResult F)) × (search compute lt index
              query k
            ≡ ok best)
          × (length best ≡ min k (length index.vectors))
          × Perm (best ++ rest) (score_all compute lt query index.vectors)
          × Sorted (best ++ rest)
    search-best index query k fit = (
      take n (scored index query),
      drop n (scored index query),
      search-scored index query k fit,
      omega (arith, length-take n (scored index query), length-scored index query),
      rw (take-append-drop n (scored index query)) (scored-perm index query),
      rw (take-append-drop n (scored index query)) (scored-Sorted index query),
    )
      where
        n : ℕ
        n = min k (length index.vectors)
