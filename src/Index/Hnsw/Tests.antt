-- ===== src/Index/Hnsw/Tests.antt =====
-- The graph at concrete inputs, with numbers for f32 and the first components' distance.
use embeddb.Base.{
  subst, ℕ, ◌+◌, ◌-◌, ◌≤◌, ◌≡◌, refl, ◌⊎◌, inl, inr, false, none, some, List, [], ◌∷◌, ltb, ◌==◌,
  if◌then◌else◌, length, arith, Bool-cases,
}
use embeddb.Base.Assoc.{nat_key, lookup}
use embeddb.Base.Assoc.{insert as assoc_insert}
use embeddb.Index.{SearchResult, vector_not_found}
use embeddb.Index.Flat.{sort_insert}
use embeddb.Index.Flat.Search.{Sorted}
use embeddb.Index.Hnsw.Run.{done, failed}
use embeddb.Index.Hnsw.Node
use embeddb.Index.Hnsw.Node.{HnswNode, neighbors_at}
use embeddb.Index.Hnsw.Beam.{search_layer, search_loop, explore, offer}
use embeddb.Index.Hnsw.Beam.Rank.{Orders, NodeScore}
use embeddb.Index.Hnsw.Beam.Offers.{AllScored}
use embeddb.Index.Hnsw.Beam.Loop.{Answers, search_layer-Answers}
use embeddb.Index.Hnsw.Graph.{
  max_connections, HnswConfig, HnswGraph, insert, remove, search, descend,
}
use embeddb.Index.Hnsw.Graph.Pages.{load_from_page}
use embeddb.Index.Hnsw.Graph.Loads.{load_from_page-search}
use embeddb.Storage.Cache
use embeddb.Storage.Format
use embeddb.Index.Hnsw.Graph.Pages
use embeddb.Index.Hnsw.Graph
use embeddb.Storage.Cache.{PageCache, get_page}
use embeddb.Base.Outcome.{ok}
use embeddb.Index.Hnsw.Graph.View.{vector_at, WellFormed}
use embeddb.Index.Hnsw.Graph.Removes.{Removed, remove-returns}
use embeddb.Index.Hnsw.Links.{LayersFit}
use embeddb.Index.Hnsw.Graph.Degrees.{NodesFit, insert-NodesFit}
use embeddb.Index.Hnsw.Graph.Inserts.{insert-returns}
use embeddb.Index.Hnsw.Graph.Searches.{search-Found}
use embeddb.Index.Hnsw.Graph.Nearest.{search-nearest}

distance : List ℕ → List ℕ → ℕ
distance (a ∷ v) (b ∷ w) = (a - b) + (b - a)
distance _ _ = 0

ltb-Orders : Orders ltb ltb
ltb-Orders = record {
  order = record { asym = λ a b h. ground arith; trans = λ a b c h k. ground arith };
  within = λ a b h. h;
}

abbrev node_a : HnswNode ℕ
node_a = record {
  id = 1;
  vector = 10 ∷ [];
  max_layer = 1;
  neighbors = (2 ∷ []) ∷ ([] ∷ []);
  tombstone = false;
}

abbrev node_b : HnswNode ℕ
node_b = record {
  id = 2;
  vector = 20 ∷ [];
  max_layer = 0;
  neighbors = (1 ∷ []) ∷ [];
  tombstone = false;
}

abbrev small_config : HnswConfig
small_config = record { m = 2; m_max = 4; ef_construction = 4; ef_search = 4 }

-- Two nodes with a link between them.
abbrev pair : HnswGraph ℕ
pair = record {
  nodes = (1, node_a) ∷ (2, node_b) ∷ [];
  entry_point = some 1;
  max_layer = 1;
  config = small_config;
  dimension = 1;
}

pair-vector : (j : ℕ) (v : List ℕ) → vector_at pair j ≡ some v → length v ≡ 1
unfolding lookup
pair-vector j v h = elim (Bool-cases (1 == j)) [
  | inl first ↦ of_some (10 ∷ []) v refl (rw first at h)
  | inr others ↦ elim (Bool-cases (2 == j)) [
    | inl second ↦ of_some (20 ∷ []) v refl (rw (others, second) at h)
    | inr beyond ↦ cc (rw (others, beyond) at h)
  ]
]
  where
    of_some : (w v : List ℕ) → length w ≡ 1 → some w ≡ some v → length v ≡ 1
    of_some w v e h = rw (same h) at e
      where
        same : some w ≡ some v → w ≡ v
        same h = cc

pair-WellFormed : WellFormed pair
unfolding lookup
pair-WellFormed = record {
  entry = λ e h. (10 ∷ [], rw (same e h) refl);
  empty = λ h. cc;
  dimensions = pair-vector;
}
  where
    same : (e : ℕ) → some 1 ≡ some e → e ≡ 1
    same e h = cc

search_layer-Answers_example :
    (rs : List (SearchResult ℕ)) × (search_layer distance ltb ltb pair.nodes (18 ∷ []) 2 0 1
      ≡ done rs)
    × Answers distance ltb ltb ltb-Orders pair.nodes (18 ∷ []) 2 0 rs
unfolding lookup
search_layer-Answers_example =
    search_layer-Answers distance ltb ltb ltb-Orders pair.nodes (18 ∷ []) 2 0 1 node_a refl

remove-returns_example :
    ((lookup 1 pair.nodes ≡ none) × (remove pair 1 ≡ failed (vector_not_found 1)))
    ⊎ ((n : HnswNode ℕ) × (lookup 1 pair.nodes ≡ some n) × Removed pair 1)
remove-returns_example = remove-returns pair 1 pair-WellFormed

insert-returns_example :
    (h : HnswGraph ℕ) × (insert distance ltb ltb pair 2 (25 ∷ []) 1 ≡ done h)
    × WellFormed h
    × (h.dimension ≡ 1)
    × ((j : ℕ) → vector_at h j ≡ (if 2 == j then some (25 ∷ []) else vector_at pair j))
insert-returns_example =
    insert-returns distance ltb ltb ltb-Orders pair 2 (25 ∷ []) 1 pair-WellFormed refl

node_a-LayersFit : LayersFit (max_connections small_config) node_a
unfolding neighbors_at Node.contains Node.layer_of
node_a-LayersFit = record { distinct = λ j. ground arith; bounded = λ j. ground arith }

node_b-LayersFit : LayersFit (max_connections small_config) node_b
unfolding neighbors_at Node.contains Node.layer_of
node_b-LayersFit = record { distinct = λ j. ground arith; bounded = λ j. ground arith }

pair-NodesFit : NodesFit small_config pair.nodes
unfolding lookup
pair-NodesFit j n h = elim (Bool-cases (1 == j)) [
  | inl first ↦ of_some node_a n node_a-LayersFit (rw first at h)
  | inr others ↦ elim (Bool-cases (2 == j)) [
    | inl second ↦ of_some node_b n node_b-LayersFit (rw (others, second) at h)
    | inr beyond ↦ cc (rw (others, beyond) at h)
  ]
]
  where
    of_some :
        (m n : HnswNode ℕ)
        → LayersFit (max_connections small_config) m
        → some m ≡ some n
        → LayersFit (max_connections small_config) n
    of_some m n fit h = subst (LayersFit (max_connections small_config)) (same h) fit
      where
        same : some m ≡ some n → m ≡ n
        same h = cc

insert-NodesFit_example :
    (h : HnswGraph ℕ) × (insert distance ltb ltb pair 2 (25 ∷ []) 1 ≡ done h)
    × (h.config ≡ small_config)
    × NodesFit h.config h.nodes
insert-NodesFit_example =
    insert-NodesFit distance ltb ltb ltb-Orders pair 2 (25 ∷ []) 1 pair-WellFormed pair-NodesFit
      refl

search-Found_example :
    (rs : List (SearchResult ℕ)) × (search distance ltb ltb pair (18 ∷ []) 2 ≡ done rs)
    × AllScored distance ltb ltb ltb-Orders pair.nodes (18 ∷ []) rs
    × Sorted distance ltb rs
    × (length rs ≤ 2)
search-Found_example =
    search-Found distance ltb ltb ltb-Orders pair (18 ∷ []) 2 pair-WellFormed refl

search-nearest_example :
    (r : SearchResult ℕ) × (rest : List (SearchResult ℕ)) × (search distance ltb ltb pair
        (18 ∷ [])
        2
      ≡ done (r ∷ rest))
    × NodeScore distance ltb ltb ltb-Orders pair.nodes (18 ∷ []) r.id r.score
    × (ltb (distance (18 ∷ []) node_a.vector) r.score ≡ false)
unfolding lookup
search-nearest_example =
    search-nearest distance ltb ltb ltb-Orders (18 ∷ []) pair 2 1 node_a refl refl refl
      (omega arith)

-- A node is found more than once: a visited neighbour is offered again.
search-pair :
    search distance ltb ltb pair (18 ∷ []) 3
    ≡ done (
        record { id = 2; score = 2 }
        ∷ record { id = 2; score = 2 }
        ∷ record { id = 1; score = 8 }
        ∷ [])
unfolding search descend search_layer search_loop explore offer sort_insert lookup assoc_insert
    neighbors_at distance Node.layer_of
search-pair = refl

-- Page 5 is an edge page with the cell of the entry point 7.
abbrev edge_cache : PageCache
edge_cache = record {
  page_size = 40;
  max_pages = 4;
  pages =
      (
        5,
        record {
          page_id = 5;
          bytes =
              2 ∷ 0 ∷ 0 ∷ 0 ∷ 0 ∷ 36 ∷ 0 ∷ 1 ∷ 0 ∷ 0 ∷ 0 ∷ 0 ∷ 0 ∷ 0 ∷ 0 ∷ 0 ∷ 20 ∷ 0 ∷ 16 ∷ 0 ∷ 7
              ∷ 0 ∷ 0 ∷ 0 ∷ 0 ∷ 0 ∷ 0 ∷ 0 ∷ 0 ∷ 0 ∷ 0 ∷ 0 ∷ 1 ∷ 0 ∷ 0 ∷ 0 ∷ 0 ∷ 0 ∷ 0 ∷ 0 ∷ [];
          dirty = false;
        },
      )
      ∷ [];
  file = [];
}

abbrev loaded : HnswGraph ℕ
loaded = record {
  nodes = [];
  entry_point = some 7;
  max_layer = 0;
  config = small_config;
  dimension = 1;
}

load_edge : load_from_page 5 1 small_config edge_cache ≡ (ok loaded, edge_cache)
unfolding load_from_page get_page lookup Cache.header Format.read_page_header Pages.load_nodes
    Cache.cell_data_under Format.read_cell_pointers Format.read_cell_data Graph.new
load_edge = refl

load_from_page-search_example :
    (loaded.nodes ≡ [])
    × (loaded.dimension ≡ 1)
    × ((search distance ltb ltb loaded (18 ∷ []) 2 ≡ done [])
        ⊎ ((e : ℕ) × (search distance ltb ltb loaded (18 ∷ []) 2 ≡ failed (vector_not_found e))))
load_from_page-search_example =
    load_from_page-search ℕ distance ltb ltb 5 small_config edge_cache edge_cache loaded (18 ∷ []) 2
      load_edge
