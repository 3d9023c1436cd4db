-- ===== src/Index/Hnsw/Graph/Moves.antt =====
-- The walks of `insert` and `search` of graph.rs through the layers: from a node they reach a node.

use embeddb.Base.{ℕ, ◌≡◌, refl, ◌∙◌, some, List, [], ◌∷◌, inl, inr, Option-cases, Bool}
use embeddb.Base.Assoc.{nat_key, lookup}
use embeddb.Index.{SearchResult}
use embeddb.Index.Hnsw.Run.{done}
use embeddb.Index.Hnsw.Node.{HnswNode}
use embeddb.Index.Hnsw.Beam.{search_layer}
use embeddb.Index.Hnsw.Beam.Rank.{Orders}
use embeddb.Index.Hnsw.Beam.Offers.{AllScored}
use embeddb.Index.Hnsw.Beam.Loop.{Answers, search_layer-Answers}
use embeddb.Index.Hnsw.Graph.{
  HnswGraph, with_nodes, best_id, descend, connect, link, select_neighbors, max_connections,
}
use embeddb.Index.Hnsw.Graph.View.{vector_in, link-vector}

-- An id that has a vector.
abbrev pub Present : {F : Type 0} → List (ℕ × HnswNode F) → ℕ → Type 0
Present {F} nodes e = (v : List F) × (vector_in nodes e ≡ some v)

pub Present-node :
    {F : Type 0} (nodes : List (ℕ × HnswNode F)) (e : ℕ)
    → Present nodes e
    → (n : HnswNode F) × (lookup e nodes ≡ some n)
Present-node nodes e (v, h) = elim (Option-cases (lookup e nodes)) [
  | inl missing ↦ cc (rw missing at h)
  | inr (n, found) ↦ (n, found)
]

pub node-Present :
    {F : Type 0} (nodes : List (ℕ × HnswNode F)) (e : ℕ) (n : HnswNode F)
    → lookup e nodes ≡ some n
    → Present nodes e
node-Present nodes e n found = (n.vector, rw found refl)

pub Present-same :
    {F : Type 0} (ns ms : List (ℕ × HnswNode F)) (e : ℕ)
    → ((j : ℕ) → vector_in ms j ≡ vector_in ns j)
    → Present ns e
    → Present ms e
Present-same ns ms e same (v, h) = (v, same e ∙ h)

module _ {F : Type 0} (compute : List F → List F → F) (lt total_lt : F → F → Bool)
    (orders : Orders lt total_lt) where
  pub best-Present :
      (nodes : List (ℕ × HnswNode F)) (query : List F) (curr : ℕ) (rs : List (SearchResult F))
      → AllScored compute lt total_lt orders nodes query rs
      → Present nodes curr
      → Present nodes (best_id curr rs)
  best-Present nodes query curr [] all p = p
  best-Present nodes query curr (r ∷ rs) ((n, found, score), rest) p =
      node-Present nodes r.id n found

  pub layer-Answers :
      (nodes : List (ℕ × HnswNode F)) (query : List F) (ef layer curr : ℕ)
      → Present nodes curr
      → (rs : List (SearchResult F)) × (search_layer compute lt total_lt nodes query ef layer curr
          ≡ done rs)
        × Answers compute lt total_lt orders nodes query ef layer rs
        × Present nodes (best_id curr rs)
  layer-Answers nodes query ef layer curr p =
      let (n, found) = Present-node nodes curr p in
      let (rs, returns, answers) =
        search_layer-Answers compute lt total_lt orders nodes query ef layer curr n found in
      (rs, returns, answers, best-Present nodes query curr rs answers.scored p)

  pub descend-done :
      (g : HnswGraph F) (query : List F) (layers : List ℕ) (curr : ℕ)
      → Present g.nodes curr
      → (c : ℕ) × (descend compute lt total_lt g query layers curr ≡ done c) × Present g.nodes c
  unfolding descend
  descend-done g query [] curr p = (curr, refl, p)
  descend-done g query (layer ∷ layers) curr p =
      let (rs, returns, answers, q) = layer-Answers g.nodes query 1 layer curr p in
      let (c, rest, r) = descend-done g query layers (best_id curr rs) q in (c, rw returns rest, r)

  -- The layers of a new node: it keeps its vector, and the graph its vectors.
  pub connect-done :
      (g : HnswGraph F) (id : ℕ) (v : List F) (layers : List ℕ) (curr : ℕ) (node : HnswNode F)
      → Present g.nodes curr
      → (n : HnswNode F) × (nodes : List (ℕ × HnswNode F)) × (connect compute lt total_lt g id v
            layers curr node
          ≡ done (n, with_nodes g nodes))
        × (n.vector ≡ node.vector)
        × ((j : ℕ) → vector_in nodes j ≡ vector_in g.nodes j)
  unfolding connect
  connect-done g id v [] curr node p = (node, g.nodes, refl, refl, λ j. refl)
  connect-done g id v (layer ∷ layers) curr node p =
      let (rs, returns, answers, q) =
        layer-Answers g.nodes v g.config.ef_construction layer curr p in
      let selected =
        select_neighbors compute lt total_lt g.nodes rs (max_connections g.config layer) in
      let linked = link g.config layer id selected node g.nodes in
      let (same_vector, same) = link-vector g.config layer id selected node g.nodes in
      let (n, nodes, rest, vector, views) =
        connect-done (with_nodes g linked.1) id v layers (best_id curr rs) linked.0
          (Present-same g.nodes linked.1 (best_id curr rs) same q) in
      (n, nodes, rw returns rest, vector ∙ same_vector, λ j. views j ∙ same j)
