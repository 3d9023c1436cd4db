-- ===== src/Collection/Methods.antt =====
-- crates/vexra-core/src/collection.rs: `insert`, `delete` and `search` of a collection. What the code takes
-- from outside of its crates, the metrics' arithmetic, the text of numbers, and what the parser of
-- filters needs are the fields of `Platform`; an id's bytes are read back by `from_utf8`.
use Prim.Native.String.{String}
use mathlib.Core.Option
use embeddb.Base.{
  ℕ, ◌+◌, Bool, true, false, not, ◌&&◌, Option, none, some, List, if◌then◌else◌, ◌==◌, length,
}
use embeddb.Base.Assoc.{nat_key, string_key, lookup}
use embeddb.Base.Assoc.{insert as assoc_insert, remove as assoc_remove}
use embeddb.Base.Outcome.{Outcome, ok, err, panic}
use embeddb.Index.Hnsw.Graph.Pages.{PageError, save_to_page}
use embeddb.Metadata.{MetadataError}
use embeddb.Metadata.Store
use embeddb.Metadata.Store.{MetadataEntry, MetadataStore}
use embeddb.Metadata.Filter.{JsonOps}
use embeddb.Metadata.Parser.{ParseOps}
use embeddb.Collection.Cells.{encode_vector_cell, make_tombstone_cell, encode_metadata_cell}
use embeddb.Collection.Config.{DistanceMetric, Document}
use embeddb.Collection.Backend
use embeddb.Collection.Backend.{
  IndexType, IndexBackend, flat_index, hnsw_graph, Answer, answered, refused, panicked, endless,
}
use embeddb.Collection.Session.{
  Collection, Op, Reply, returned, failed, panics, dimension_mismatch, other, metadata_error, ◌>>=◌,
  ◌>>◌, pure, fail, change, ignore, next_id, reply_index, write_vector_cell, write_metadata_cell,
}

pub record Platform (J D : Type 0) : Type 0 where
  pub as_bytes : String → List ℕ
  pub from_utf8 : List ℕ → Option String
  pub doc_name : ℕ → String
  pub unknown_name : ℕ → String
  pub to_vec : J → List ℕ
  pub from_slice : List ℕ → Option J
  pub compute : DistanceMetric → List ℕ → List ℕ → ℕ
  pub lt : ℕ → ℕ → Bool
  pub total_lt : ℕ → ℕ → Bool
  pub level : ℕ → ℕ
  pub json : JsonOps J D
  pub parser : ParseOps J D

abbrev pub is_hnsw : IndexBackend → Bool
is_hnsw (flat_index idx) = false
is_hnsw (hnsw_graph graph) = true

abbrev pub save_reply : Outcome PageError ℕ → Reply (Unit {0})
save_reply (ok n) = returned tt
save_reply (err e) = returned tt
save_reply panic = panics

abbrev pub metadata_reply : Outcome MetadataError (Unit {0}) → Reply (Unit {0})
metadata_reply (ok x) = returned tt
metadata_reply (err e) = failed (metadata_error e)
metadata_reply panic = panics

module _ {J D : Type 0} (p : Platform J D) where
  abbrev pub with_ids : String → ℕ → Collection J → Collection J
  with_ids doc_id n c = record c {
    id_map = assoc_insert doc_id n c.id_map;
    reverse_id_map = assoc_insert n doc_id c.reverse_id_map;
  }

  abbrev pub pick_id : Option String → Op J String
  pick_id (some id) = pure id
  pick_id none = next_id >>= λ n. pure (p.doc_name n)

  abbrev pub pick_internal : String → Option ℕ → Op J ℕ
  pick_internal doc_id (some existing) = pure existing
  pick_internal doc_id none = next_id >>= λ n. change (with_ids doc_id n) >> pure n

  unfoldable pub index_insert : ℕ → List ℕ → Op J (Unit {0})
  index_insert internal_id vector s =
      let r =
        Backend.insert (p.compute s.collection.config.distance) p.lt p.total_lt s.collection.index
          internal_id vector (p.level s.draws) in
      (
        reply_index r.0,
        record s { collection = record s.collection { index = r.1 }; draws = s.draws + 1 },
      )

  abbrev pub save_graph : ℕ → IndexBackend → Op J (Unit {0})
  save_graph page (flat_index idx) s = (returned tt, s)
  save_graph page (hnsw_graph graph) s =
      let r = save_to_page graph page s.cache in (save_reply r.0, record s { cache = r.1 })

  unfoldable pub save_edges : Op J (Unit {0})
  save_edges s =
      (if not (s.collection.config.hnsw_edge_page == 0) && s.collection.persistent
          then save_graph s.collection.config.hnsw_edge_page s.collection.index
          else pure tt)
        s

  abbrev pub persist_vector : List ℕ → Op J Bool
  persist_vector cell s = (if s.collection.persistent then write_vector_cell cell else pure true) s

  abbrev pub persist_metadata : List ℕ → Op J Bool
  persist_metadata cell s =
      (if s.collection.persistent then write_metadata_cell cell else pure true) s

  unfoldable pub store_metadata : String → J → Op J (Unit {0})
  store_metadata doc_id m s =
      let r = Store.insert s.collection.metadata doc_id m in
      (metadata_reply r.0, record s { collection = record s.collection { metadata = r.1 } })

  abbrev pub insert_vector : String → ℕ → Option (List ℕ) → Op J (Unit {0})
  insert_vector doc_id internal_id none s = (returned tt, s)
  insert_vector doc_id internal_id (some vector) s =
      (if not (length vector == s.collection.config.dimension)
          then fail (dimension_mismatch s.collection.config.dimension (length vector))
          else persist_vector (encode_vector_cell (p.as_bytes doc_id) internal_id vector)
            >>= λ written.
                if not written then fail other else (index_insert internal_id vector >> save_edges))
        s

  abbrev pub insert_metadata : String → Option J → Op J (Unit {0})
  insert_metadata doc_id none = pure tt
  insert_metadata doc_id (some m) =
      persist_metadata (encode_metadata_cell p.to_vec p.from_slice (p.as_bytes doc_id) m)
      >>= λ written. if not written then fail other else store_metadata doc_id m

  abbrev pub insert_with : String → Document J → Op J String
  insert_with doc_id doc s =
      (pick_internal doc_id (lookup doc_id s.collection.id_map) >>= λ internal_id.
      insert_vector doc_id internal_id doc.vector
      >> insert_metadata doc_id doc.metadata
      >> pure doc_id)
        s

  unfoldable pub insert : Document J → Op J String
  insert doc = pick_id doc.id >>= λ doc_id. insert_with doc_id doc

  unfoldable pub index_remove : ℕ → Op J (Unit {0})
  index_remove internal_id s =
      let r = Backend.remove s.collection.index internal_id in
      (reply_index r.0, record s { collection = record s.collection { index = r.1 } })

  abbrev pub without_reverse : ℕ → Collection J → Collection J
  without_reverse internal_id c = record c {
    reverse_id_map = assoc_remove internal_id c.reverse_id_map;
  }

  abbrev pub without_id : String → Collection J → Collection J
  without_id id c = record c { id_map = assoc_remove id c.id_map }

  abbrev pub tombstone : String → List ℕ
  tombstone id = make_tombstone_cell (p.as_bytes id)

  unfoldable pub delete_vector : String → Option ℕ → Op J (Unit {0})
  delete_vector id none = pure tt
  delete_vector id (some internal_id) =
      ignore (index_remove internal_id) >> change (without_reverse internal_id) >> (λ s.
        (if s.collection.persistent then ignore (write_vector_cell (tombstone id)) else pure tt) s)

  unfoldable pub metadata_remove : String → Op J (Unit {0})
  metadata_remove id s =
      let r = Store.remove s.collection.metadata id in
      (metadata_reply r.0, record s { collection = record s.collection { metadata = r.1 } })

  unfoldable pub delete_metadata : String → Op J (Unit {0})
  delete_metadata id = ignore (metadata_remove id) >> (λ s.
      (if s.collection.persistent && not (s.collection.config.metadata_root_page == 0)
          then ignore (write_metadata_cell (tombstone id))
          else pure tt)
        s)

  unfoldable pub delete : String → Op J (Unit {0})
  delete id s =
      (delete_vector id (lookup id s.collection.id_map)
          >> change (without_id id)
          >> delete_metadata id)
        s

  unfoldable pub get_metadata : Collection J → String → Option J
  get_metadata c id = Option.map MetadataEntry.metadata (Store.get c.metadata id)

  unfoldable pub list_ids : Collection J → List String
  list_ids c = Store.all_ids c.metadata
