-- ===== src/Index/Flat.antt =====
-- crates/vexra-index/src/flat.rs: exact search over every vector. The f32 type, the distance
-- `compute` of the metric and the order `lt` of scores are arguments. `sort_by` of the Rust library is
-- a stable sort, and `swap_remove` moves the last element to the hole.
pub mod Search
pub mod Updates
use mathlib.Core.Option
use embeddb.Base.{
  ℕ, zero, suc, Bool, not, Option, none, some, List, [], ◌∷◌, ◌++◌, map, min, ◌==◌, if◌then◌else◌,
  length, take, get_elem?,
}
use embeddb.Base.Outcome.{Outcome, ok, err}
use embeddb.Index.{IndexError, dimension_mismatch, vector_not_found, SearchResult}

pub record FlatIndex (F : Type 0) : Type 0 where
  pub vectors : List (ℕ × List F)
  pub dimension : ℕ

module _ {F : Type 0} where
  unfoldable pub new : ℕ → FlatIndex F
  new dimension = record { vectors = []; dimension = dimension }

  unfoldable pub position : ℕ → List (ℕ × List F) → Option ℕ
  position id [] = none
  position id ((vid, v) ∷ rest) = if vid == id then some 0 else Option.map suc (position id rest)

  unfoldable pub find_idx : FlatIndex F → ℕ → Option ℕ
  find_idx index id = position id index.vectors

  unfoldable pub all_vectors : FlatIndex F → List (ℕ × List F)
  all_vectors index = index.vectors

  unfoldable pub get_by_idx : FlatIndex F → ℕ → Option (ℕ × List F)
  get_by_idx index i = get_elem? index.vectors i

  unfoldable pub len : FlatIndex F → ℕ
  len index = length index.vectors

  unfoldable pub set_at : ℕ → ℕ × List F → List (ℕ × List F) → List (ℕ × List F)
  set_at i x [] = []
  set_at zero x (y ∷ ys) = x ∷ ys
  set_at (suc i) x (y ∷ ys) = y ∷ set_at i x ys

  abbrev pub last_of : ℕ × List F → List (ℕ × List F) → ℕ × List F
  last_of y [] = y
  last_of y (z ∷ zs) = last_of z zs

  abbrev pub butlast : ℕ × List F → List (ℕ × List F) → List (ℕ × List F)
  butlast y [] = []
  butlast y (z ∷ zs) = y ∷ butlast z zs

  unfoldable pub swap_remove : ℕ → List (ℕ × List F) → List (ℕ × List F)
  swap_remove i [] = []
  swap_remove zero (x ∷ []) = []
  swap_remove zero (x ∷ (y ∷ ys)) = last_of y ys ∷ butlast y ys
  swap_remove (suc i) (x ∷ xs) = x ∷ swap_remove i xs

  abbrev pub put : ℕ → List F → List (ℕ × List F) → Option ℕ → List (ℕ × List F)
  put id v vectors (some i) = set_at i (id, v) vectors
  put id v vectors none = vectors ++ (id, v) ∷ []

  unfoldable pub insert : FlatIndex F → ℕ → List F → Outcome IndexError (Unit {0}) × FlatIndex F
  insert index id v =
      if not (length v == index.dimension)
      then (err (dimension_mismatch index.dimension (length v)), index)
      else (ok tt, record index { vectors = put id v index.vectors (find_idx index id) })

  abbrev pub remove_at : FlatIndex F → ℕ → Option ℕ → Outcome IndexError (Unit {0}) × FlatIndex F
  remove_at index id none = (err (vector_not_found id), index)
  remove_at index id (some i) = (ok tt, record index { vectors = swap_remove i index.vectors })

  unfoldable pub remove : FlatIndex F → ℕ → Outcome IndexError (Unit {0}) × FlatIndex F
  remove index id = remove_at index id (find_idx index id)

  module _ (compute : List F → List F → F) (lt : F → F → Bool) where
    unfoldable pub sort_insert : SearchResult F → List (SearchResult F) → List (SearchResult F)
    sort_insert x [] = x ∷ []
    sort_insert x (y ∷ ys) =
        let rest = sort_insert x ys in if lt y.score x.score then y ∷ rest else x ∷ (y ∷ ys)

    unfoldable pub sort_results : List (SearchResult F) → List (SearchResult F)
    sort_results [] = []
    sort_results (x ∷ xs) = sort_insert x (sort_results xs)

    unfoldable pub score_all : List F → List (ℕ × List F) → List (SearchResult F)
    score_all query [] = []
    score_all query ((id, v) ∷ rest) =
        record { id = id; score = compute query v } ∷ score_all query rest

    unfoldable pub search : FlatIndex F → List F → ℕ → Outcome IndexError (List (SearchResult F))
    search index query k =
        if not (length query == index.dimension)
        then err (dimension_mismatch index.dimension (length query))
        else if length index.vectors == 0
        then ok []
        else ok (take (min k (length index.vectors)) (sort_results (score_all query index.vectors)))
