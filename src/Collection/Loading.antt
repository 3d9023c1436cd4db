-- ===== src/Collection/Loading.antt =====
-- crates/vexra-core/src/collection.rs: making a collection and loading it from its pages.
use Prim.Native.String.{String}
use embeddb.Base.{
  ℕ, zero, suc, ◌+◌, Bool, true, false, not, ◌&&◌, Option, none, some, List, [], ◌∷◌, if◌then◌else◌,
  ◌==◌,
}
use embeddb.Base.Assoc.{nat_key, string_key}
use embeddb.Base.Bytes.{slice, from_le}
use embeddb.Base.Outcome.{Outcome, ok, err, panic}
use embeddb.Storage.Format.{PageHeader, PageType}
use embeddb.Storage.Cache.{CachedPage, get_page, header, cell_data_under, allocate_page}
use embeddb.Index.Hnsw.Graph.{HnswGraph}
use embeddb.Index.Hnsw.Graph.Pages.{PageError, load_from_page}
use embeddb.Metadata.Store
use embeddb.Metadata.Filter.{mem_values}
use embeddb.Collection.Cells.{decode_vector_cell, cell_is_tombstone, decode_metadata_cell}
use embeddb.Collection.Config.{CollectionConfig}
use embeddb.Collection.Backend
use embeddb.Collection.Backend.{
  IndexType, flat, hnsw, IndexBackend, flat_index, hnsw_graph, default_config,
}
use embeddb.Collection.Session.{
  Collection, Op, returned, panics, other, ◌>>=◌, ◌>>◌, pure, fail, change, ignore, on_cache,
}
use embeddb.Collection.Methods.{Platform, index_insert, store_metadata, with_ids}

abbrev pub is_text : Option String → Bool
is_text none = false
is_text (some s) = true

-- The cells of a page that its header counts, from an index on.
unfoldable pub cells_from : PageHeader → List ℕ → ℕ → ℕ → List (Option (List ℕ))
cells_from h bytes zero i = []
cells_from h bytes (suc n) i = cell_data_under h bytes i ∷ cells_from h bytes n (i + 1)

module _ {J D : Type 0} (p : Platform J D) where
  -- `header` panics on a page that is shorter than a header.
  abbrev pub page_cells : CachedPage → Option PageHeader → Op J (List (Option (List ℕ)))
  page_cells pg none s = (panics, s)
  page_cells pg (some h) s = (returned (cells_from h pg.bytes h.num_cells 0), s)

  abbrev pub read_cells : ℕ → Op J (List (Option (List ℕ)))
  read_cells page_id = on_cache (get_page page_id) >>= λ pg. page_cells pg (header pg)

  abbrev pub tombstone_id : Option (List ℕ) → Option String
  tombstone_id none = none
  tombstone_id (some bytes) =
      if cell_is_tombstone bytes
      then p.from_utf8 (slice 4 (from_le (slice 0 4 bytes)) bytes)
      else none

  abbrev pub with_tombstone : Option String → List String → List String
  with_tombstone none ids = ids
  with_tombstone (some id) ids = id ∷ ids

  -- The set of ids as a list.
  unfoldable pub collect_tombstones : List (Option (List ℕ)) → List String
  collect_tombstones [] = []
  collect_tombstones (cell ∷ cells) = with_tombstone (tombstone_id cell) (collect_tombstones cells)

  abbrev pub utf8 : List ℕ → Bool
  utf8 bytes = is_text (p.from_utf8 bytes)

  abbrev pub load_vector : List String → ℕ → List ℕ → Option String → Op J (Unit {0})
  load_vector tombstones internal_id vector none s = (returned tt, s)
  load_vector tombstones internal_id vector (some doc_id) s =
      (if mem_values doc_id tombstones
          then pure tt
          else (ignore (index_insert p internal_id vector)
              >> change (with_ids p doc_id internal_id)))
        s

  abbrev pub load_decoded : List String → Option (List ℕ × ℕ × List ℕ) → Op J (Unit {0})
  load_decoded tombstones none s = (returned tt, s)
  load_decoded tombstones (some (id, internal_id, vector)) s =
      load_vector tombstones internal_id vector (p.from_utf8 id) s

  abbrev pub load_vector_cell : List String → Option (List ℕ) → Op J (Unit {0})
  load_vector_cell tombstones none s = (returned tt, s)
  load_vector_cell tombstones (some bytes) s =
      (if cell_is_tombstone bytes
          then pure tt
          else load_decoded tombstones (decode_vector_cell utf8 bytes))
        s

  unfoldable pub load_vector_cells : List String → List (Option (List ℕ)) → Op J (Unit {0})
  load_vector_cells tombstones [] = pure tt
  load_vector_cells tombstones (cell ∷ cells) =
      load_vector_cell tombstones cell >> load_vector_cells tombstones cells

  abbrev pub load_page : List (Option (List ℕ)) → Op J (Unit {0})
  load_page cells = load_vector_cells (collect_tombstones cells) cells

  unfoldable pub load_vector_pages : List ℕ → Op J (Unit {0})
  load_vector_pages [] = pure tt
  load_vector_pages (page_id ∷ page_ids) =
      read_cells page_id >>= load_page >> load_vector_pages page_ids

  unfoldable pub load_vectors : Op J (Unit {0})
  load_vectors s =
      (if s.collection.persistent && not (s.collection.config.data_root_page == 0)
          then load_vector_pages
              (s.collection.config.data_root_page ∷ s.collection.config.data_pages)
          else pure tt)
        s

  abbrev pub load_entry : List ℕ → J → Option String → Op J (Unit {0})
  load_entry id m none s = (returned tt, s)
  load_entry id m (some doc_id) s = ignore (store_metadata p doc_id m) s

  abbrev pub load_metadata_decoded : Option (List ℕ × J) → Op J (Unit {0})
  load_metadata_decoded none s = (returned tt, s)
  load_metadata_decoded (some (id, m)) s = load_entry id m (p.from_utf8 id) s

  abbrev pub load_metadata_cell : Option (List ℕ) → Op J (Unit {0})
  load_metadata_cell none s = (returned tt, s)
  load_metadata_cell (some bytes) s =
      load_metadata_decoded (decode_metadata_cell p.to_vec p.from_slice utf8 bytes) s

  unfoldable pub load_metadata_cells : List (Option (List ℕ)) → Op J (Unit {0})
  load_metadata_cells [] = pure tt
  load_metadata_cells (cell ∷ cells) = load_metadata_cell cell >> load_metadata_cells cells

  unfoldable pub load_metadata_pages : List ℕ → Op J (Unit {0})
  load_metadata_pages [] = pure tt
  load_metadata_pages (page_id ∷ page_ids) =
      read_cells page_id >>= load_metadata_cells >> load_metadata_pages page_ids

  unfoldable pub load_metadata : Op J (Unit {0})
  load_metadata s =
      (if s.collection.persistent && not (s.collection.config.metadata_root_page == 0)
          then load_metadata_pages
              (s.collection.config.metadata_root_page ∷ s.collection.config.metadata_pages)
          else pure tt)
        s

  -- An in-memory collection.
  unfoldable pub with_index : CollectionConfig → IndexType → Collection J
  with_index config index_type = record {
    config = config;
    index = Backend.new config.dimension index_type;
    metadata = Store.new config.name;
    id_map = [];
    reverse_id_map = [];
    persistent = false;
  }

  abbrev pub ensure_page : PageType → ℕ → Op J ℕ
  ensure_page page_type root s =
      (if root == 0 then on_cache (allocate_page page_type 0) else pure root) s

  abbrev pub edge_page : IndexType → ℕ → Op J ℕ
  edge_page flat root = pure 0
  edge_page hnsw root = ensure_page PageType.hnsw_edge root

  abbrev pub opened : CollectionConfig → IndexType → ℕ → ℕ → ℕ → Collection J
  opened config index_type data_root metadata_root edge =
      record (with_index
        (record config {
          data_root_page = data_root;
          metadata_root_page = metadata_root;
          hnsw_edge_page = edge;
        })
        index_type) { persistent = true }

  abbrev pub take_graph : Outcome PageError (HnswGraph ℕ) → Op J (Unit {0})
  take_graph (ok graph) = change (λ c. record c { index = hnsw_graph graph })
  take_graph (err e) = fail other
  take_graph panic = λ s. (panics, s)

  -- The graph of the edge page takes the place of the one that `load_vectors` filled.
  abbrev pub load_edges : IndexType → ℕ → Op J (Unit {0})
  load_edges flat edge s = (returned tt, s)
  load_edges hnsw edge s =
      let r = load_from_page edge s.collection.config.dimension default_config s.cache in
      (if edge == 0 then pure tt else take_graph r.0)
        (if edge == 0 then s else record s { cache = r.1 })

  -- The session's collection becomes the new one.
  unfoldable pub new_persistent : CollectionConfig → IndexType → Op J (Unit {0})
  new_persistent config index_type =
      ensure_page PageType.vector config.data_root_page >>= λ data_root.
      ensure_page PageType.metadata config.metadata_root_page >>= λ metadata_root.
      edge_page index_type config.hnsw_edge_page >>= λ edge.
      change (λ c. opened config index_type data_root metadata_root edge)
      >> load_vectors
      >> load_metadata
      >> load_edges index_type edge
