-- ===== src/Index/Hnsw/Graph.antt =====
-- crates/vexra-index/src/hnsw/graph.rs: the graph. The map of nodes is a list in the order in which
-- `keys()` and `values()` go through it. The level that `random_level` draws is an argument of
-- `insert`, and the metric is the argument `compute`.
pub mod View
pub mod Moves
pub mod Inserts
pub mod Degrees
pub mod Searches
pub mod Nearest
pub mod Pages
pub mod Loads
pub mod Removes
use mathlib.Core.Option
use embeddb.Base.{
  ℕ, zero, suc, ◌+◌, ◌*◌, Bool, true, false, not, ◌&&◌, Option, none, some, List, [], ◌∷◌, ◌++◌,
  ltb, leb, ◌==◌, if◌then◌else◌, length, take, min, max,
}
use embeddb.Base.Assoc.{nat_key, lookup}
use embeddb.Base.Assoc.{insert as assoc_insert, remove as assoc_remove}
use embeddb.Index.{IndexError, vector_not_found, dimension_mismatch, SearchResult}
use embeddb.Index.Hnsw.Run.{Run, done, failed, out_of_fuel, ◌>>=◌}
use embeddb.Index.Hnsw.Node
use embeddb.Index.Hnsw.Node.{
  HnswNode, neighbors_at, add_neighbor, remove_neighbor, mark_deleted, is_active,
}
use embeddb.Index.Hnsw.Beam.{search_layer}

-- The fields that are numbers; `ml` is only used to draw levels.
pub record HnswConfig : Type 0 where
  pub m : ℕ
  pub m_max : ℕ
  pub ef_construction : ℕ
  pub ef_search : ℕ

pub record HnswGraph (F : Type 0) : Type 0 where
  pub nodes : List (ℕ × HnswNode F)
  pub entry_point : Option ℕ
  pub max_layer : ℕ
  pub config : HnswConfig
  pub dimension : ℕ

-- `(lo..=hi).rev()`.
abbrev pub down_to : ℕ → ℕ → List ℕ
down_to lo zero = if lo == 0 then 0 ∷ [] else []
down_to lo (suc hi) = if leb lo (suc hi) then suc hi ∷ down_to lo hi else []

-- `0..=hi`.
abbrev pub up_to : ℕ → List ℕ
up_to zero = 0 ∷ []
up_to (suc hi) = up_to hi ++ suc hi ∷ []

abbrev pub is_entry : Option ℕ → ℕ → Bool
is_entry none id = false
is_entry (some e) id = e == id

abbrev pub max_connections : HnswConfig → ℕ → ℕ
max_connections c layer = if layer == 0 then c.m_max else c.m

abbrev pub best_id : {F : Type 0} → ℕ → List (SearchResult F) → ℕ
best_id curr [] = curr
best_id curr (r ∷ rs) = r.id

module _ {F : Type 0} where
  unfoldable pub new : ℕ → HnswConfig → HnswGraph F
  new dimension config = record {
    nodes = [];
    entry_point = none;
    max_layer = 0;
    config = config;
    dimension = dimension;
  }

  abbrev pub with_nodes : HnswGraph F → List (ℕ × HnswNode F) → HnswGraph F
  with_nodes g nodes = record g { nodes = nodes }

  -- A change of a node by `get_mut`, if there is one.
  abbrev pub change :
      (HnswNode F → HnswNode F)
      → ℕ
      → List (ℕ × HnswNode F)
      → Option (HnswNode F)
      → List (ℕ × HnswNode F)
  change f id nodes none = nodes
  change f id nodes (some n) = assoc_insert id (f n) nodes

  unfoldable pub get_node : HnswGraph F → ℕ → Option (HnswNode F)
  get_node g id = lookup id g.nodes

  -- `remove`, its loops: the node is taken out of its neighbours' lists.
  unfoldable pub unlink_layer : ℕ → ℕ → List ℕ → List (ℕ × HnswNode F) → List (ℕ × HnswNode F)
  unlink_layer id layer [] nodes = nodes
  unlink_layer id layer (n ∷ ns) nodes =
      unlink_layer id layer ns (change (λ m. remove_neighbor m layer id) n nodes (lookup n nodes))

  unfoldable pub unlink : ℕ → HnswNode F → List ℕ → List (ℕ × HnswNode F) → List (ℕ × HnswNode F)
  unlink id node [] nodes = nodes
  unlink id node (layer ∷ layers) nodes =
      unlink id node layers (unlink_layer id layer (neighbors_at node layer) nodes)

  abbrev pub first_key : List (ℕ × HnswNode F) → Option ℕ
  first_key [] = none
  first_key ((id, n) ∷ rest) = some id

  abbrev pub highest : List (ℕ × HnswNode F) → ℕ
  highest [] = 0
  highest ((id, n) ∷ rest) = max n.max_layer (highest rest)

  abbrev pub without_node : HnswGraph F → ℕ → List (ℕ × HnswNode F) → HnswGraph F
  without_node g id nodes =
      if is_entry g.entry_point id
      then record g { nodes = nodes; entry_point = first_key nodes; max_layer = highest nodes }
      else record g { nodes = nodes }

  abbrev pub remove_node : HnswGraph F → ℕ → Option (HnswNode F) → Run (HnswGraph F)
  remove_node g id none = failed (vector_not_found id)
  remove_node g id (some node) =
      done (without_node g id (assoc_remove id (unlink id node (up_to node.max_layer) g.nodes)))

  unfoldable pub remove : HnswGraph F → ℕ → Run (HnswGraph F)
  remove g id = remove_node g id (lookup id g.nodes)

  abbrev pub soft_delete_node : HnswGraph F → ℕ → Option (HnswNode F) → Run (HnswGraph F)
  soft_delete_node g id none = failed (vector_not_found id)
  soft_delete_node g id (some node) =
      done (with_nodes g (assoc_insert id (mark_deleted node) g.nodes))

  unfoldable pub soft_delete : HnswGraph F → ℕ → Run (HnswGraph F)
  soft_delete g id = soft_delete_node g id (lookup id g.nodes)

  abbrev pub count_active : List (ℕ × HnswNode F) → ℕ
  count_active [] = 0
  count_active ((id, n) ∷ rest) = (if is_active n then 1 else 0) + count_active rest

  unfoldable pub len : HnswGraph F → ℕ
  len g = count_active g.nodes

  -- Links between the new node, which is not yet in the graph, and a selected one.
  unfoldable pub link :
      HnswConfig
      → ℕ
      → ℕ
      → List (SearchResult F)
      → HnswNode F
      → List (ℕ × HnswNode F)
      → HnswNode F × List (ℕ × HnswNode F)
  link c layer id [] node nodes = (node, nodes)
  link c layer id (s ∷ ss) node nodes =
      link c layer id ss
        (if s.id == id then node else (add_neighbor node layer s.id (max_connections c layer)).1)
        (if s.id == id
          then nodes
          else change (λ m. (add_neighbor m layer id (max_connections c layer)).1) s.id nodes
              (lookup s.id nodes))

  -- The end of `insert`.
  abbrev pub enter : ℕ → ℕ → HnswNode F × HnswGraph F → HnswGraph F
  enter id level (node, g) =
      if ltb g.max_layer level
      then record g {
        nodes = assoc_insert id node g.nodes;
        entry_point = some id;
        max_layer = level;
      }
      else record g { nodes = assoc_insert id node g.nodes }

  -- A node that is there is removed first.
  abbrev pub cleared : HnswGraph F → ℕ → Option (HnswNode F) → Run (HnswGraph F)
  cleared g id none = done g
  cleared g id (some node) = remove g id

  module _ (compute : List F → List F → F) (lt total_lt : F → F → Bool) where
    -- Greedy descent: the best result of each layer is where the next one starts.
    unfoldable pub descend : HnswGraph F → List F → List ℕ → ℕ → Run ℕ
    descend g query [] curr = done curr
    descend g query (layer ∷ layers) curr =
        search_layer compute lt total_lt g.nodes query 1 layer curr >>= λ rs.
        descend g query layers (best_id curr rs)

    abbrev pub search_at : HnswGraph F → List F → ℕ → Option ℕ → Run (List (SearchResult F))
    search_at g query k none = done []
    search_at g query k (some entry) = descend g query (down_to 1 g.max_layer) entry >>= λ curr.
        search_layer compute lt total_lt g.nodes query (max g.config.ef_search k) 0 curr >>= λ rs.
        done (take (min k (length rs)) rs)

    unfoldable pub search : HnswGraph F → List F → ℕ → Run (List (SearchResult F))
    search g query k =
        if not (length query == g.dimension)
        then failed (dimension_mismatch g.dimension (length query))
        else search_at g query k g.entry_point

    -- Whether a candidate is at least as close to the query as to each selected node.
    abbrev pub diverse_to : List F → F → Option (HnswNode F) → Bool
    diverse_to v d none = true
    diverse_to v d (some n) = not (lt (compute v n.vector) d)

    unfoldable pub is_diverse : List (ℕ × HnswNode F) → List F → F → List (SearchResult F) → Bool
    is_diverse nodes v d [] = true
    is_diverse nodes v d (s ∷ ss) = diverse_to v d (lookup s.id nodes) && is_diverse nodes v d ss

    abbrev pub candidate_diverse :
        List (ℕ × HnswNode F) → SearchResult F → List (SearchResult F) → Option (HnswNode F) → Bool
    candidate_diverse nodes c selected none = true
    candidate_diverse nodes c selected (some n) = is_diverse nodes n.vector c.score selected

    unfoldable pub select_loop :
        List (ℕ × HnswNode F)
        → ℕ
        → List (SearchResult F)
        → List (SearchResult F)
        → List (SearchResult F)
    select_loop nodes max_conn selected [] = selected
    select_loop nodes max_conn selected (c ∷ cs) =
        select_loop nodes max_conn
          (if leb max_conn (length selected)
            then selected
            else if candidate_diverse nodes c selected (lookup c.id nodes)
            then selected ++ c ∷ []
            else selected)
          cs

    unfoldable pub select_neighbors :
        List (ℕ × HnswNode F) → List (SearchResult F) → ℕ → List (SearchResult F)
    select_neighbors nodes candidates max_conn =
        if leb (length candidates) max_conn
        then candidates
        else select_loop nodes max_conn [] candidates

    -- The layers of the new node, from the top: its neighbours by a beam search.
    unfoldable pub connect :
        HnswGraph F → ℕ → List F → List ℕ → ℕ → HnswNode F → Run (HnswNode F × HnswGraph F)
    connect g id v [] curr node = done (node, g)
    connect g id v (layer ∷ layers) curr node =
        search_layer compute lt total_lt g.nodes v g.config.ef_construction layer curr >>= λ rs.
        let linked =
          link g.config layer id (select_neighbors g.nodes rs (max_connections g.config layer)) node
            g.nodes in
        connect (with_nodes g linked.1) id v layers (best_id curr rs) linked.0

    abbrev pub insert_at : HnswGraph F → ℕ → List F → ℕ → Option ℕ → Run (HnswGraph F)
    insert_at g id v level none = done (record g {
      nodes = assoc_insert id (Node.new id v level) g.nodes;
      entry_point = some id;
      max_layer = level;
    })
    insert_at g id v level (some entry) =
        descend g v (down_to (level + 1) g.max_layer) entry >>= λ curr.
        connect g id v (down_to 0 (min level g.max_layer)) curr (Node.new id v level) >>= λ linked.
        done (enter id level linked)

    unfoldable pub insert : HnswGraph F → ℕ → List F → ℕ → Run (HnswGraph F)
    insert g id v level =
        if not (length v == g.dimension)
        then failed (dimension_mismatch g.dimension (length v))
        else cleared g id (lookup id g.nodes) >>= λ h. insert_at h id v level h.entry_point
