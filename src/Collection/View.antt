-- ===== src/Collection/View.antt =====
-- collection.rs: a collection in memory as a map from documents' ids to vectors and metadata.
use mathlib.Core.Option
use embeddb.Base.{
  ℕ, suc, ◌≡◌, refl, ap, sym, ◌∙◌, Bool, Option, none, some, List, [], ◌∷◌, if◌then◌else◌, ◌==◌,
  length, inl, inr, Bool-cases, get_elem?,
}
use embeddb.Base.Assoc.{nat_key, string_key, lookup}
use embeddb.Index.Flat
use embeddb.Index.Flat.{FlatIndex, position}
use embeddb.Index.Flat.Updates.{vector_of, insert-view, insert-dimension}
use embeddb.Index.Hnsw.Beam.Rank.{Orders}
use embeddb.Index.Hnsw.Graph
use embeddb.Index.Hnsw.Graph.{HnswGraph}
use embeddb.Index.Hnsw.Graph.View.{vector_at, WellFormed}
use embeddb.Index.Hnsw.Graph.Inserts.{insert-returns}
use embeddb.Collection.Backend
use embeddb.Collection.Backend.{
  IndexBackend, flat_index, hnsw_graph, Answer, answered, of_outcome, graph_change, vector_at_idx,
}

-- The vector of an internal id.
abbrev pub index_vector : IndexBackend → ℕ → Option (List ℕ)
index_vector (flat_index idx) n = vector_of idx n
index_vector (hnsw_graph graph) n = vector_at graph n

-- The index takes vectors of this dimension.
abbrev pub IndexFits : IndexBackend → ℕ → Type 0
IndexFits (flat_index idx) dimension = idx.dimension ≡ dimension
IndexFits (hnsw_graph graph) dimension = WellFormed graph × (graph.dimension ≡ dimension)

vector_behind : List (ℕ × List ℕ) → Option ℕ → Option (List ℕ)
vector_behind vectors none = none
vector_behind vectors (some i) = Option.map (λ entry. entry.1) (get_elem? vectors i)

behind-suc :
    (x : ℕ × List ℕ) (vectors : List (ℕ × List ℕ)) (o : Option ℕ)
    → vector_behind (x ∷ vectors) (Option.map suc o) ≡ vector_behind vectors o
unfolding vector_behind
behind-suc x vectors none = refl
behind-suc x vectors (some i) = refl

behind-position :
    (vectors : List (ℕ × List ℕ)) (id : ℕ)
    → vector_behind vectors (position id vectors) ≡ lookup id vectors
unfolding vector_behind position lookup
behind-position [] id = refl
behind-position ((k, v) ∷ vectors) id = elim (Bool-cases (k == id)) [
  | inl here ↦ rw here refl
  | inr there ↦
      rw there (behind-suc (k, v) vectors (position id vectors) ∙ behind-position vectors id)
]

at_idx-behind :
    (idx : FlatIndex ℕ) (o : Option ℕ) → vector_at_idx idx o ≡ vector_behind idx.vectors o
unfolding vector_behind Flat.get_by_idx
at_idx-behind idx none = refl
at_idx-behind idx (some i) = refl

-- `get_vector` of either index answers with the vector of the id.
pub get_vector-view : (b : IndexBackend) (id : ℕ) → Backend.get_vector b id ≡ index_vector b id
unfolding Backend.get_vector Flat.find_idx Graph.get_node
get_vector-view (flat_index idx) id =
    at_idx-behind idx (position id idx.vectors) ∙ behind-position idx.vectors id
get_vector-view (hnsw_graph graph) id = refl

module _ (compute : List ℕ → List ℕ → ℕ) (lt total_lt : ℕ → ℕ → Bool)
    (orders : Orders lt total_lt) where
  abbrev BackendInserted : IndexBackend → ℕ → List ℕ → ℕ → Answer (Unit {0}) × IndexBackend → Type 0
  BackendInserted b n v dimension r =
      (b' : IndexBackend) × (r ≡ (answered tt, b'))
      × IndexFits b' dimension
      × ((j : ℕ) → index_vector b' j ≡ (if n == j then some v else index_vector b j))

  -- `insert` of either index.
  pub backend-insert :
      (b : IndexBackend) (n : ℕ) (v : List ℕ) (level dimension : ℕ)
      → IndexFits b dimension
      → length v ≡ dimension
      → (b' : IndexBackend) × (Backend.insert compute lt total_lt b n v level ≡ (answered tt, b'))
        × IndexFits b' dimension
        × ((j : ℕ) → index_vector b' j ≡ (if n == j then some v else index_vector b j))
  unfolding Backend.insert
  backend-insert (flat_index idx) n v level dimension fits long =
      let view = λ (j : ℕ). insert-view idx n v j (long ∙ sym fits) in
      (
        flat_index (Flat.insert idx n v).1,
        ap (λ o. (of_outcome o, flat_index (Flat.insert idx n v).1)) (view 0).0,
        insert-dimension idx n v ∙ fits,
        λ j. (view j).1,
      )
  backend-insert (hnsw_graph graph) n v level dimension (wf, fits) long =
      let (h, returns, well, same, view) =
        insert-returns compute lt total_lt orders graph n v level wf (long ∙ sym fits) in
      (hnsw_graph h, ap (graph_change graph) returns, (well, same ∙ fits), view)
