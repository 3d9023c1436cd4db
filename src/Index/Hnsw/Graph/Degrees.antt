-- ===== src/Index/Hnsw/Graph/Degrees.antt =====
-- The degrees of the nodes of a graph: what `insert` and `remove` of graph.rs keep of them.
use embeddb.Base.{
  ℕ, zero, suc, ◌+◌, ◌≡◌, subst, refl, sym, ◌∙◌, inl, inr, Bool, true, false, Option, none, some,
  List, [], ◌∷◌, ltb, ◌==◌, if◌then◌else◌, length, arith, Bool-cases, Option-cases, replicate, min,
}
use embeddb.Base.Assoc.{nat_key, lookup, lookup-insert, lookup-remove}
use embeddb.Base.Assoc.{insert as assoc_insert, remove as assoc_remove}
use embeddb.Index.{SearchResult}
use embeddb.Index.Hnsw.Run.{Run, done, failed, out_of_fuel, ◌>>=◌}
use embeddb.Index.Hnsw.Node
use embeddb.Index.Hnsw.Node.{HnswNode, neighbors_at, layer_of, add_neighbor, remove_neighbor}
use embeddb.Index.Hnsw.Beam.{search_layer}
use embeddb.Index.Hnsw.Beam.Rank.{Orders}
use embeddb.Index.Hnsw.Links.{LayersFit, add_neighbor-LayersFit, remove_neighbor-LayersFit}
use embeddb.Index.Hnsw.Graph.{
  HnswGraph, HnswConfig, max_connections, with_nodes, change, unlink_layer, unlink, up_to, remove,
  link, enter, cleared, best_id, descend, connect, select_neighbors, insert_at, insert, down_to,
  is_entry,
}
use embeddb.Index.Hnsw.Graph.View.{WellFormed}
use embeddb.Index.Hnsw.Graph.Inserts.{insert-returns}

-- Where the run returns, its value has the property.
abbrev Returns : {A : Type 0} → (A → Type 0) → Run A → Type 0
Returns P (done a) = P a
Returns P (failed e) = Unit
Returns P out_of_fuel = Unit

>>=-Returns :
    {A B : Type 0} (P : A → Type 0) (Q : B → Type 0) (r : Run A) (next : A → Run B)
    → Returns P r
    → ((a : A) → P a → Returns Q (next a))
    → Returns Q (r >>= next)
>>=-Returns P Q (done a) next h step = step a h
>>=-Returns P Q (failed e) next h step = tt
>>=-Returns P Q out_of_fuel next h step = tt

any : {A : Type 0} (r : Run A) → Returns (λ a. Unit) r
any (done a) = tt
any (failed e) = tt
any out_of_fuel = tt

choice : {A : Type 0} (P : A → Type 0) (b : Bool) (x y : A) → P x → P y → P (if b then x else y)
choice P true x y p q = p
choice P false x y p q = q

layer_of-replicate : (n j : ℕ) → layer_of j (replicate n []) ≡ []
unfolding layer_of
layer_of-replicate zero j = refl
layer_of-replicate (suc n) zero = refl
layer_of-replicate (suc n) (suc j) = layer_of-replicate n j

module _ {F : Type 0} where
  -- Every node keeps to the limits of the graph's configuration: on layer 0 to m_max neighbours, above it
  -- to m, and none of them twice.
  abbrev pub NodesFit : HnswConfig → List (ℕ × HnswNode F) → Type 0
  NodesFit c nodes =
      (j : ℕ) (n : HnswNode F) → lookup j nodes ≡ some n → LayersFit (max_connections c) n

  insert-fits :
      (c : HnswConfig) (id : ℕ) (n : HnswNode F) (nodes : List (ℕ × HnswNode F))
      → NodesFit c nodes
      → LayersFit (max_connections c) n
      → NodesFit c (assoc_insert id n nodes)
  insert-fits c id n nodes all fit j m found =
      let here : (if id == j then some n else lookup j nodes) ≡ some m =
        sym (lookup-insert id j n nodes) ∙ found in
      elim (Bool-cases (id == j)) [
        | inl same ↦
            let e : n ≡ m = cc (rw same at here) in subst (LayersFit (max_connections c)) e fit
        | inr other ↦ all j m (rw other at here)
      ]

  remove-fits :
      (c : HnswConfig) (id : ℕ) (nodes : List (ℕ × HnswNode F))
      → NodesFit c nodes
      → NodesFit c (assoc_remove id nodes)
  remove-fits c id nodes all j m found =
      let here : (if id == j then none else lookup j nodes) ≡ some m =
        sym (lookup-remove id j nodes) ∙ found in
      elim (Bool-cases (id == j)) [
        | inl same ↦ cc (rw same at here)
        | inr other ↦ all j m (rw other at here)
      ]

  change-fits :
      (c : HnswConfig) (f : HnswNode F → HnswNode F) (id : ℕ) (nodes : List (ℕ × HnswNode F))
      (o : Option (HnswNode F))
      → ((n : HnswNode F) → LayersFit (max_connections c) n → LayersFit (max_connections c) (f n))
      → lookup id nodes ≡ o
      → NodesFit c nodes
      → NodesFit c (change f id nodes o)
  change-fits c f id nodes none keeps e all = all
  change-fits c f id nodes (some n) keeps e all =
      insert-fits c id (f n) nodes all (keeps n (all id n e))

  unlink_layer-fits :
      (c : HnswConfig) (id layer : ℕ) (ns : List ℕ) (nodes : List (ℕ × HnswNode F))
      → NodesFit c nodes
      → NodesFit c (unlink_layer id layer ns nodes)
  unfolding unlink_layer
  unlink_layer-fits c id layer [] nodes all = all
  unlink_layer-fits c id layer (n ∷ ns) nodes all = unlink_layer-fits c id layer ns _ (
      change-fits c (λ m. remove_neighbor m layer id) n nodes (lookup n nodes)
        (λ m fit. remove_neighbor-LayersFit m layer id (max_connections c) fit) refl all)

  unlink-fits :
      (c : HnswConfig) (id : ℕ) (node : HnswNode F) (layers : List ℕ)
      (nodes : List (ℕ × HnswNode F))
      → NodesFit c nodes
      → NodesFit c (unlink id node layers nodes)
  unfolding unlink
  unlink-fits c id node [] nodes all = all
  unlink-fits c id node (layer ∷ layers) nodes all =
      unlink-fits c id node layers _
        (unlink_layer-fits c id layer (neighbors_at node layer) nodes all)

  -- A graph with this configuration whose nodes keep to its limits.
  Fitting : HnswConfig → HnswGraph F → Type 0
  Fitting c g = (g.config ≡ c) × NodesFit c g.nodes

  cleared-Fitting :
      (c : HnswConfig) (g : HnswGraph F) (id : ℕ)
      → Fitting c g
      → Returns (Fitting c) (cleared g id (lookup id g.nodes))
  unfolding remove Fitting
  cleared-Fitting c g id (same, all) = elim (Option-cases (lookup id g.nodes)) [
    | inl missing ↦ rw missing (same, all)
    | inr (node, found) ↦
        let left =
          remove-fits c id (unlink id node (up_to node.max_layer) g.nodes)
            (unlink-fits c id node (up_to node.max_layer) g.nodes all) in
        rw (found, found)
          (choice {A = HnswGraph F} (λ h. (h.config ≡ c) × NodesFit c h.nodes)
            (is_entry g.entry_point id) _ _ (same, left) (same, left))
  ]

  link-fits :
      (c : HnswConfig) (layer id : ℕ) (ss : List (SearchResult F)) (node : HnswNode F)
      (nodes : List (ℕ × HnswNode F))
      → LayersFit (max_connections c) node
      → NodesFit c nodes
      → LayersFit (max_connections c) (link c layer id ss node nodes).0
        × NodesFit c (link c layer id ss node nodes).1
  unfolding link
  link-fits c layer id [] node nodes fit all = (fit, all)
  link-fits c layer id (s ∷ ss) node nodes fit all =
      link-fits c layer id ss _ _
        (choice (LayersFit (max_connections c)) (s.id == id) node _ fit
          (add_neighbor-LayersFit node layer s.id (max_connections c) fit))
        (choice (NodesFit c) (s.id == id) nodes _ all (
          change-fits c (λ m. (add_neighbor m layer id (max_connections c layer)).1) s.id nodes
            (lookup s.id nodes) (λ m f. add_neighbor-LayersFit m layer id (max_connections c) f)
            refl all))

  new-neighbors : (id : ℕ) (v : List F) (level j : ℕ) → neighbors_at (Node.new id v level) j ≡ []
  unfolding Node.new neighbors_at
  new-neighbors id v level j =
      choice (λ l. l ≡ []) (ltb j (length (replicate {A = List ℕ} (level + 1) [])))
        (layer_of j (replicate (level + 1) [])) [] (layer_of-replicate (level + 1) j) refl

  new-LayersFit :
      (limit : ℕ → ℕ) (id : ℕ) (v : List F) (level : ℕ) → LayersFit limit (Node.new id v level)
  new-LayersFit limit id v level = record {
    distinct = λ j. rw (new-neighbors id v level j) tt;
    bounded = λ j. rw (new-neighbors id v level j) (omega arith);
  }

  enter-Fitting :
      (c : HnswConfig) (id level : ℕ) (node : HnswNode F) (g : HnswGraph F)
      → LayersFit (max_connections c) node
      → Fitting c g
      → Fitting c (enter id level (node, g))
  unfolding Fitting
  enter-Fitting c id level node g fit (same, all) =
      let entered = insert-fits c id node g.nodes all fit in
      choice {A = HnswGraph F} (λ h. (h.config ≡ c) × NodesFit c h.nodes) (ltb g.max_layer level) _
        _ (same, entered) (same, entered)

  -- A new node and the graph that it is linked to.
  Linked : HnswConfig → HnswNode F × HnswGraph F → Type 0
  Linked c (node, g) = LayersFit (max_connections c) node × Fitting c g

  module _ (compute : List F → List F → F) (lt total_lt : F → F → Bool) where
    connect-Linked :
        (c : HnswConfig) (g : HnswGraph F) (id : ℕ) (v : List F) (layers : List ℕ) (curr : ℕ)
        (node : HnswNode F)
        → LayersFit (max_connections c) node
        → Fitting c g
        → Returns (Linked c) (connect compute lt total_lt g id v layers curr node)
    unfolding connect Linked Fitting
    connect-Linked c g id v [] curr node fit good = (fit, good)
    connect-Linked c g id v (layer ∷ layers) curr node fit (same, all) =
        >>=-Returns (λ rs. Unit) (Linked c)
          (search_layer compute lt total_lt g.nodes v g.config.ef_construction layer curr) _ (any _)
          (λ rs _.
            let selected =
              select_neighbors compute lt total_lt g.nodes rs (max_connections g.config layer) in
            let linked =
              subst
                (λ d.
                  LayersFit (max_connections c) (link d layer id selected node g.nodes).0
                  × NodesFit c (link d layer id selected node g.nodes).1)
                (sym same) (link-fits c layer id selected node g.nodes fit all) in
            connect-Linked c (with_nodes g (link g.config layer id selected node g.nodes).1) id v
              layers (best_id curr rs) (link g.config layer id selected node g.nodes).0 linked.0
              (same, linked.1))

    insert_at-Fitting :
        (c : HnswConfig) (g : HnswGraph F) (id : ℕ) (v : List F) (level : ℕ) (o : Option ℕ)
        → Fitting c g
        → Returns (Fitting c) (insert_at compute lt total_lt g id v level o)
    unfolding Fitting Linked
    insert_at-Fitting c g id v level none (same, all) =
        (same, insert-fits c id (Node.new id v level) g.nodes all (new-LayersFit _ id v level))
    insert_at-Fitting c g id v level (some entry) good =
        >>=-Returns (λ curr. Unit) (Fitting c)
          (descend compute lt total_lt g v (down_to (level + 1) g.max_layer) entry) _ (any _)
          (λ curr _.
            >>=-Returns (Linked c) (Fitting c)
              (connect compute lt total_lt g id v (down_to 0 (min level g.max_layer)) curr
                (Node.new id v level))
              _
              (connect-Linked c g id v (down_to 0 (min level g.max_layer)) curr
                (Node.new id v level) (new-LayersFit _ id v level) good)
              (λ linked h. enter-Fitting c id level linked.0 linked.1 h.0 h.1))

    insert-Fitting :
        (c : HnswConfig) (g : HnswGraph F) (id : ℕ) (v : List F) (level : ℕ)
        → Fitting c g
        → Returns (Fitting c) (insert compute lt total_lt g id v level)
    unfolding insert
    insert-Fitting c g id v level good = choice (Returns (Fitting c)) _ (failed _) _ tt (
        >>=-Returns (Fitting c) (Fitting c) (cleared g id (lookup id g.nodes)) _
          (cleared-Fitting c g id good)
          (λ h fits. insert_at-Fitting c h id v level h.entry_point fits))

    -- On a well-formed graph whose nodes keep to the limits of its configuration, m_max neighbours on layer
    -- 0 and m above it, none of them twice, `insert` of a vector of the graph's dimension returns a graph of
    -- the same configuration whose nodes all keep to these limits, the new one included. This holds for
    -- every level and also where a node of that id is replaced, for a total order of scores that `<` is
    -- part of.
    pub insert-NodesFit :
        (orders : Orders lt total_lt) (g : HnswGraph F) (id : ℕ) (v : List F) (level : ℕ)
        → WellFormed g
        → NodesFit g.config g.nodes
        → length v ≡ g.dimension
        → (h : HnswGraph F) × (insert compute lt total_lt g id v level ≡ done h)
          × (h.config ≡ g.config)
          × NodesFit h.config h.nodes
    unfolding Fitting
    insert-NodesFit orders g id v level wf all fits =
        let (h, returns, well, dim, view) =
          insert-returns compute lt total_lt orders g id v level wf fits in
        let (same, kept) : Fitting g.config h =
          rw returns at (insert-Fitting g.config g id v level (refl, all)) in
        (h, returns, same, subst (λ c. NodesFit c h.nodes) (sym same) kept)
