-- ===== src/Collection/Backend.antt =====
-- crates/vexra-core/src/collection.rs: the index of a collection, flat or HNSW. The levels of HNSW nodes
-- are arguments of `insert`. A failed HNSW call leaves the graph as it was: it fails before it changes
-- anything, except that `insert` may have removed the id from a graph whose entry point is missing.
use mathlib.Core.Option
use embeddb.Base.{ℕ, Bool, Option, none, some, List}
use embeddb.Base.Outcome.{Outcome, ok, err, panic}
use embeddb.Index.{IndexError, SearchResult}
use embeddb.Index.Flat
use embeddb.Index.Flat.{FlatIndex}
use embeddb.Index.Hnsw.Run.{Run, done, failed, out_of_fuel}
use embeddb.Index.Hnsw.Node.{HnswNode}
use embeddb.Index.Hnsw.Graph
use embeddb.Index.Hnsw.Graph.{HnswGraph, HnswConfig}

pub data IndexType : Type 0 where
  flat : IndexType
  hnsw : IndexType

-- The numbers are f32 bits.
pub data IndexBackend : Type 0 where
  flat_index : FlatIndex ℕ → IndexBackend
  hnsw_graph : HnswGraph ℕ → IndexBackend

-- What a call on the index does.
pub data Answer (A : Type 0) : Type 0 where
  answered : A → Answer A
  refused : IndexError → Answer A
  panicked : Answer A
  endless : Answer A

-- `HnswConfig::default()`.
abbrev pub default_config : HnswConfig
default_config = record { m = 16; m_max = 32; ef_construction = 200; ef_search = 64 }

unfoldable pub new : ℕ → IndexType → IndexBackend
new dimension flat = flat_index (Flat.new dimension)
new dimension hnsw = hnsw_graph (Graph.new dimension default_config)

abbrev pub vector_at_idx : FlatIndex ℕ → Option ℕ → Option (List ℕ)
vector_at_idx idx none = none
vector_at_idx idx (some pos) = Option.map (λ entry. entry.1) (Flat.get_by_idx idx pos)

unfoldable pub get_vector : IndexBackend → ℕ → Option (List ℕ)
get_vector (flat_index idx) id = vector_at_idx idx (Flat.find_idx idx id)
get_vector (hnsw_graph graph) id = Option.map HnswNode.vector (Graph.get_node graph id)

abbrev pub of_outcome : {A : Type 0} → Outcome IndexError A → Answer A
of_outcome (ok a) = answered a
of_outcome (err e) = refused e
of_outcome panic = panicked

abbrev pub of_run : {A : Type 0} → Run A → Answer A
of_run (done a) = answered a
of_run (failed e) = refused e
of_run out_of_fuel = endless

-- A change of the graph.
abbrev pub graph_change : HnswGraph ℕ → Run (HnswGraph ℕ) → Answer (Unit {0}) × IndexBackend
graph_change graph (done g) = (answered tt, hnsw_graph g)
graph_change graph (failed e) = (refused e, hnsw_graph graph)
graph_change graph out_of_fuel = (endless, hnsw_graph graph)

unfoldable pub remove : IndexBackend → ℕ → Answer (Unit {0}) × IndexBackend
remove (flat_index idx) id = let r = Flat.remove idx id in (of_outcome r.0, flat_index r.1)
remove (hnsw_graph graph) id = graph_change graph (Graph.remove graph id)

unfoldable pub len : IndexBackend → ℕ
len (flat_index idx) = Flat.len idx
len (hnsw_graph graph) = Graph.len graph

module _ (compute : List ℕ → List ℕ → ℕ) (lt total_lt : ℕ → ℕ → Bool) where
  unfoldable pub search : IndexBackend → List ℕ → ℕ → Answer (List (SearchResult ℕ))
  search (flat_index idx) query k = of_outcome (Flat.search compute lt idx query k)
  search (hnsw_graph graph) query k = of_run (Graph.search compute lt total_lt graph query k)

  unfoldable pub insert : IndexBackend → ℕ → List ℕ → ℕ → Answer (Unit {0}) × IndexBackend
  insert (flat_index idx) id vector level =
      let r = Flat.insert idx id vector in (of_outcome r.0, flat_index r.1)
  insert (hnsw_graph graph) id vector level =
      graph_change graph (Graph.insert compute lt total_lt graph id vector level)
