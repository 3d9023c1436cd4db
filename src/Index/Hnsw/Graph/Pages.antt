-- ===== src/Index/Hnsw/Graph/Pages.antt =====
-- `save_to_page` and `load_from_page` of graph.rs. A position in a cell is the bytes from there on. The
-- texts of the errors are left out.
use embeddb.Base.{
  ℕ, zero, suc, ◌+◌, ◌-◌, ◌%◌, ◌^◌, true, false, Option, none, some, List, [], ◌∷◌, ◌++◌, ltb, ◌==◌,
  if◌then◌else◌, length, take, drop, replicate,
}
use embeddb.Base.Bytes.{slice, to_le, from_le}
use embeddb.Base.Outcome.{Outcome, ok, err, panic}
use embeddb.Base.Assoc.{nat_key, lookup}
use embeddb.Base.Assoc.{insert as assoc_insert}
use embeddb.Storage.Error.{StorageError}
use embeddb.Storage.Format.{PageHeader}
use embeddb.Storage.Cache.{
  PageCache, CachedPage, M, ◌>>=◌, ◌>>◌, pure, get_page, header, cell_data_under, or_panic,
}
use embeddb.Storage.Cache.Write.{write_cell}
use embeddb.Index.Hnsw.Node.{HnswNode, layer_of, set_layer}
use embeddb.Index.Hnsw.Graph
use embeddb.Index.Hnsw.Graph.{HnswGraph, HnswConfig, with_nodes}

pub data PageError : Type 0 where
  invalid_page : PageError
  storage : StorageError → PageError

abbrev pub page_result :
    {A : Type 0} → Outcome StorageError A × PageCache → Outcome PageError A × PageCache
page_result (ok a, c) = (ok a, c)
page_result (err e, c) = (err (storage e), c)
page_result (panic, c) = (panic, c)

-- `unwrap_or(0)`.
abbrev pub or_zero : Option ℕ → ℕ
or_zero none = 0
or_zero (some e) = e

unfoldable pub id_bytes : List ℕ → List ℕ
id_bytes [] = []
id_bytes (n ∷ ns) = to_le 8 n ++ id_bytes ns

-- A layer's number and its neighbours, if there are any.
abbrev pub layer_entry : ℕ → List ℕ → List ℕ → List ℕ
layer_entry layer [] rest = rest
layer_entry layer (n ∷ ns) rest =
    to_le 4 (layer % 2 ^ 32) ++ (to_le 4 (length (n ∷ ns) % 2 ^ 32) ++ (id_bytes (n ∷ ns) ++ rest))

unfoldable pub layer_bytes : ℕ → List (List ℕ) → List ℕ
layer_bytes layer [] = []
layer_bytes layer (l ∷ ls) = layer_entry layer l (layer_bytes (layer + 1) ls)

unfoldable pub push_at : ℕ → ℕ → List (List ℕ) → List (List ℕ)
push_at layer nid neighbors =
    if ltb layer (length neighbors)
    then set_layer layer (layer_of layer neighbors ++ nid ∷ []) neighbors
    else neighbors

-- The inner loop, and the bytes behind it.
unfoldable pub decode_ids : ℕ → ℕ → List ℕ → List (List ℕ) → List (List ℕ) × List ℕ
decode_ids zero layer bytes neighbors = (neighbors, bytes)
decode_ids (suc n_count) layer bytes neighbors =
    let rest =
      decode_ids n_count layer (drop 8 bytes) (push_at layer (from_le (take 8 bytes)) neighbors) in
    if ltb (length bytes) 8 then (neighbors, bytes) else rest

unfoldable pub decode_layers : ℕ → List ℕ → List (List ℕ) → List (List ℕ)
decode_layers zero bytes neighbors = neighbors
decode_layers (suc layer_count) bytes neighbors =
    let ids =
      decode_ids (from_le (slice 4 4 bytes)) (from_le (take 4 bytes)) (drop 8 bytes) neighbors in
    let rest = decode_layers layer_count ids.1 ids.0 in
    if ltb (length bytes) 8 then neighbors else rest

unfoldable pub decode_node_edge_cell : List ℕ → ℕ × List (List ℕ)
decode_node_edge_cell bytes = if ltb (length bytes) 16 then (0, []) else (
  from_le (take 8 bytes),
  decode_layers (from_le (slice 12 4 bytes)) (drop 16 bytes)
      (replicate (from_le (slice 8 4 bytes) + 1) []),
)

-- The `+=` of a u16, which panics where it overflows.
abbrev pub add_u16 : ℕ → ℕ → M ℕ
add_u16 a b = or_panic (if ltb (a + b) (2 ^ 16) then some (a + b) else none)

abbrev pub entry_of : ℕ → Option ℕ
entry_of ep = if ltb 0 ep then some ep else none

module _ {F : Type 0} where
  unfoldable pub entry_cell : HnswGraph F → List ℕ
  entry_cell g =
      to_le 8 (or_zero g.entry_point)
      ++ (to_le 4 (g.max_layer % 2 ^ 32) ++ to_le 4 (length g.nodes % 2 ^ 32))

  unfoldable pub node_cell : HnswNode F → List ℕ
  node_cell n =
      to_le 8 n.id
      ++ (to_le 4 (n.max_layer % 2 ^ 32)
          ++ (to_le 4 (length n.neighbors % 2 ^ 32) ++ layer_bytes 0 n.neighbors))

  -- The loop over the nodes from a cell index on. It gives the index behind the last cell.
  unfoldable pub save_nodes : ℕ → ℕ → List (ℕ × HnswNode F) → M ℕ
  save_nodes page_id cell_idx [] = pure cell_idx
  save_nodes page_id cell_idx ((id, n) ∷ rest) = elim n.tombstone [
    | true ↦ save_nodes page_id cell_idx rest
    | false ↦ do
      write_cell page_id (node_cell n) (some cell_idx)
      next ← add_u16 cell_idx 1
      save_nodes page_id next rest
  ]

  unfoldable pub save_to_page : HnswGraph F → ℕ → PageCache → Outcome PageError ℕ × PageCache
  save_to_page g page_id c =
      if page_id == 0
      then (err invalid_page, c)
      else page_result (
          (do
            write_cell page_id (entry_cell g) (some 0)
            cell_idx ← save_nodes page_id 1 g.nodes
            pure (cell_idx - 1))
            c)

  abbrev pub load_entry : HnswGraph F → Option (List ℕ) → HnswGraph F
  load_entry g none = g
  load_entry g (some bytes) = if ltb (length bytes) 16 then g else record g {
    entry_point = entry_of (from_le (take 8 bytes));
    max_layer = from_le (slice 8 4 bytes);
  }

  -- The neighbours go to a node that is there.
  abbrev pub attach : ℕ → List (List ℕ) → HnswGraph F → Option (HnswNode F) → HnswGraph F
  attach id neighbors g none = g
  attach id neighbors g (some n) = with_nodes g (
      assoc_insert id (record n { neighbors = neighbors; max_layer = length neighbors - 1 })
        g.nodes)

  abbrev pub load_node : HnswGraph F → Option (List ℕ) → HnswGraph F
  load_node g none = g
  load_node g (some bytes) =
      let cell = decode_node_edge_cell bytes in attach cell.0 cell.1 g (lookup cell.0 g.nodes)

  -- The loop over a number of cells, from an index on.
  unfoldable pub load_nodes : PageHeader → List ℕ → ℕ → ℕ → HnswGraph F → HnswGraph F
  load_nodes h bytes zero i g = g
  load_nodes h bytes (suc n) i g =
      load_nodes h bytes n (i + 1) (load_node g (cell_data_under h bytes i))

  abbrev pub load_page : ℕ → HnswConfig → CachedPage → M (HnswGraph F)
  load_page dimension config pg = do
    h ← or_panic (header pg)
    pure (
        load_nodes h pg.bytes (h.num_cells - 1) 1
          (load_entry (Graph.new dimension config) (cell_data_under h pg.bytes 0)))

  unfoldable pub load_from_page :
      ℕ → ℕ → HnswConfig → PageCache → Outcome PageError (HnswGraph F) × PageCache
  load_from_page page_id dimension config c =
      if page_id == 0
      then (ok (Graph.new dimension config), c)
      else page_result ((get_page page_id >>= load_page dimension config) c)
