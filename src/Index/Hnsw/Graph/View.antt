-- ===== src/Index/Hnsw/Graph/View.antt =====
-- The graph as a map from ids to vectors: links change nothing of it.
use mathlib.Core.Option
use embeddb.Base.{
  ℕ, ◌≡◌, refl, sym, ◌∙◌, Option, none, some, List, [], ◌∷◌, ◌==◌, if◌then◌else◌, length, inl, inr,
  Bool-cases, arith, ==_iff,
}
use embeddb.Base.Assoc.{nat_key, lookup, lookup-insert}
use embeddb.Index.{SearchResult}
use embeddb.Index.Hnsw.Node.{HnswNode, neighbors_at, add_neighbor, remove_neighbor}
use embeddb.Index.Hnsw.Graph.{
  HnswGraph, HnswConfig, change, unlink_layer, unlink, link, max_connections,
}

module _ {F : Type 0} where
  abbrev pub vector_in : List (ℕ × HnswNode F) → ℕ → Option (List F)
  vector_in nodes j = Option.map HnswNode.vector (lookup j nodes)

  -- The vector of an id.
  abbrev pub vector_at : HnswGraph F → ℕ → Option (List F)
  vector_at g j = vector_in g.nodes j

  -- The entry point is a node, there is none in an empty graph only, and every vector has the graph's
  -- dimension.
  pub record WellFormed (g : HnswGraph F) : Type 0 where
    pub entry : (e : ℕ) → g.entry_point ≡ some e → (v : List F) × (vector_at g e ≡ some v)
    pub empty : g.entry_point ≡ none → (j : ℕ) → vector_at g j ≡ none
    pub dimensions : (j : ℕ) (v : List F) → vector_at g j ≡ some v → length v ≡ g.dimension

  change-vector :
      (f : HnswNode F → HnswNode F) (id : ℕ) (nodes : List (ℕ × HnswNode F))
      (o : Option (HnswNode F)) (j : ℕ)
      → ((n : HnswNode F) → (f n).vector ≡ n.vector)
      → lookup id nodes ≡ o
      → vector_in (change f id nodes o) j ≡ vector_in nodes j
  change-vector f id nodes none j same e = refl
  change-vector f id nodes (some n) j same e =
      rw (lookup-insert id j (f n) nodes) (elim (Bool-cases (id == j)) [
        | inl here ↦ rw (here, sym ((==_iff id j).0 here), e, same n) refl
        | inr there ↦ rw there refl
      ])

  pub add_neighbor-vector :
      (node : HnswNode F) (layer n k : ℕ) → (add_neighbor node layer n k).1.vector ≡ node.vector
  unfolding add_neighbor
  add_neighbor-vector node layer n k = ground arith

  remove_neighbor-vector :
      (node : HnswNode F) (layer n : ℕ) → (remove_neighbor node layer n).vector ≡ node.vector
  unfolding remove_neighbor
  remove_neighbor-vector node layer n = ground arith

  unlink_layer-vector :
      (id layer : ℕ) (ns : List ℕ) (nodes : List (ℕ × HnswNode F)) (j : ℕ)
      → vector_in (unlink_layer id layer ns nodes) j ≡ vector_in nodes j
  unfolding unlink_layer
  unlink_layer-vector id layer [] nodes j = refl
  unlink_layer-vector id layer (n ∷ ns) nodes j =
      unlink_layer-vector id layer ns _ j
      ∙ change-vector (λ m. remove_neighbor m layer id) n nodes (lookup n nodes) j
          (λ m. remove_neighbor-vector m layer id) refl

  pub unlink-vector :
      (id : ℕ) (node : HnswNode F) (layers : List ℕ) (nodes : List (ℕ × HnswNode F)) (j : ℕ)
      → vector_in (unlink id node layers nodes) j ≡ vector_in nodes j
  unfolding unlink
  unlink-vector id node [] nodes j = refl
  unlink-vector id node (layer ∷ layers) nodes j =
      unlink-vector id node layers _ j
      ∙ unlink_layer-vector id layer (neighbors_at node layer) nodes j

  link_one :
      (c : HnswConfig) (layer id k : ℕ) (nodes : List (ℕ × HnswNode F)) (j : ℕ)
      → vector_in
          (if k == id
            then nodes
            else change
                (λ m. (add_neighbor m layer id (max_connections c layer)).1)
                k
                nodes
                (lookup k nodes))
          j
        ≡ vector_in nodes j
  link_one c layer id k nodes j = elim (Bool-cases (k == id)) [
    | inl self ↦ rw self refl
    | inr other ↦ rw other (
        change-vector (λ m. (add_neighbor m layer id (max_connections c layer)).1) k nodes
          (lookup k nodes) j (λ m. add_neighbor-vector m layer id (max_connections c layer)) refl)
  ]

  link_node :
      (c : HnswConfig) (layer id k : ℕ) (node : HnswNode F)
      → (if k == id then node else (add_neighbor node layer k (max_connections c layer)).1).vector
        ≡ node.vector
  link_node c layer id k node = elim (Bool-cases (k == id)) [
    | inl self ↦ rw self refl
    | inr other ↦ rw other (add_neighbor-vector node layer k (max_connections c layer))
  ]

  pub link-vector :
      (c : HnswConfig) (layer id : ℕ) (ss : List (SearchResult F)) (node : HnswNode F)
      (nodes : List (ℕ × HnswNode F))
      → ((link c layer id ss node nodes).0.vector ≡ node.vector)
        × ((j : ℕ) → vector_in (link c layer id ss node nodes).1 j ≡ vector_in nodes j)
  unfolding link
  link-vector c layer id [] node nodes = (refl, λ j. refl)
  link-vector c layer id (s ∷ ss) node nodes =
      let rest =
        link-vector c layer id ss
          (if s.id == id then node else (add_neighbor node layer s.id (max_connections c layer)).1)
          (if s.id == id
            then nodes
            else change (λ m. (add_neighbor m layer id (max_connections c layer)).1) s.id nodes
                (lookup s.id nodes)) in
      (rest.0 ∙ link_node c layer id s.id node, λ j. rest.1 j ∙ link_one c layer id s.id nodes j)
