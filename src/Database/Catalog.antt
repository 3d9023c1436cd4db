-- ===== src/Database/Catalog.antt =====
-- crates/vexra-core/src/db.rs: the catalog of collections, and opening a database.
use Prim.Native.String.{String}
use embeddb.Base.{ℕ, ◌+◌, not, Option, none, some, List, [], ◌∷◌, if◌then◌else◌, ◌==◌, max}
use embeddb.Base.Assoc.{string_key, lookup}
use embeddb.Base.Assoc.{insert as assoc_insert, remove as assoc_remove}
use embeddb.Base.Outcome.{Outcome, ok, err, panic}
use embeddb.Storage.Error.{StorageError}
use embeddb.Storage.Format.{PageType, PageHeader}
use embeddb.Storage.Cache.{CachedPage, get_page, header, db_header, allocate_page}
use embeddb.Storage.Cache.Write.{write_cell, flush_page, open_cache}
use embeddb.Storage.Wal
use embeddb.Storage.Wal.{WalManager, checkpoint, needs_checkpoint, remove_wal, recover, open_wal}
use embeddb.Collection.Config.{CollectionConfig, Document, SearchQuery, SearchHit}
use embeddb.Collection.Backend
use embeddb.Collection.Backend.{IndexType, flat, hnsw}
use embeddb.Collection.Session.{
  Collection, Reply, returned, failed, panics, storage, other, collection_not_found,
  collection_already_exists, ignored,
}
use embeddb.Collection.Methods.{Platform}
use embeddb.Collection.Methods
use embeddb.Collection.Searching
use embeddb.Collection.Loading.{with_index, new_persistent, cells_from}
use embeddb.Database.{
  Database, Op, then_do, ◌>>=◌, ◌>>◌, pure, fail, on_cache, run_on, put_collection, index_type_of,
  is_found, with_catalog, ensure_catalog_page, unless_full, maybe_checkpoint, file_after,
  reply_dropped, reply_other,
}

-- The text of a configuration is what the serde_json crate's `to_vec` gives and `from_slice` reads.
module _ {J D : Type 0} (p : Platform J D) (crc : List ℕ → ℕ)
    (to_vec : CollectionConfig → Option (List ℕ))
    (from_slice : List ℕ → Option CollectionConfig) where
  abbrev pub write_config : ℕ → Option (List ℕ) → Op J (Unit {0})
  write_config page none db = (failed other, db)
  write_config page (some json) db = (on_cache (write_cell page json none) >>= unless_full) db

  unfoldable pub persist_collection : CollectionConfig → Op J (Unit {0})
  persist_collection config = ensure_catalog_page >>= λ page.
      write_config page (to_vec config)
      >> on_cache (flush_page page)
      >> (λ db. (ignored (maybe_checkpoint crc db).0, (maybe_checkpoint crc db).1))

  -- A new collection, loaded from its pages, goes to the map.
  abbrev pub add_collection : CollectionConfig → Op J CollectionConfig
  add_collection config db =
      let r =
        run_on (with_index p config (index_type_of config))
          (new_persistent p config (index_type_of config)) db in
      then_do r.0 (λ x. put_collection config.name r.1 >> pure r.1.config) r.2

  unfoldable pub create_collection : CollectionConfig → Op J (Unit {0})
  create_collection config db =
      (if is_found (lookup config.name db.collections)
          then fail (collection_already_exists config.name)
          else (add_collection config >>= persist_collection))
        db

  unfoldable pub decode_configs : List (Option (List ℕ)) → List CollectionConfig
  decode_configs [] = []
  decode_configs (none ∷ cells) = decode_configs cells
  decode_configs (some bytes ∷ cells) = elim (from_slice bytes) [
    | none ↦ decode_configs cells
    | some config ↦ config ∷ decode_configs cells
  ]

  abbrev pub page_configs : CachedPage → Option PageHeader → Op J (List CollectionConfig)
  page_configs pg none db = (panics, db)
  page_configs pg (some h) db =
      (returned (decode_configs (cells_from h pg.bytes h.num_cells 0)), db)

  unfoldable pub read_catalog_configs : ℕ → Op J (List CollectionConfig)
  read_catalog_configs page_id = on_cache (get_page page_id) >>= λ pg. page_configs pg (header pg)

  unfoldable pub without_name : String → List CollectionConfig → List CollectionConfig
  without_name name [] = []
  without_name name (c ∷ cs) =
      let rest = without_name name cs in if not (string_key.beq c.name name) then c ∷ rest else rest

  unfoldable pub write_configs : ℕ → List CollectionConfig → Op J (Unit {0})
  write_configs page [] = pure tt
  write_configs page (c ∷ cs) = write_config page (to_vec c) >> write_configs page cs

  abbrev pub rebuild_catalog : String → ℕ → Op J (Unit {0})
  rebuild_catalog name old_page = read_catalog_configs old_page >>= λ configs.
      on_cache (allocate_page PageType.catalog 0) >>= λ new_page.
      write_configs new_page (without_name name configs)
      >> with_catalog new_page
      >> on_cache (flush_page new_page)

  -- `free_page` does nothing.
  unfoldable pub remove_collection_from_catalog : String → Op J (Unit {0})
  remove_collection_from_catalog name = on_cache db_header >>= λ h.
      if h.catalog_root_page == 0 then pure tt else rebuild_catalog name h.catalog_root_page

  abbrev pub drop_found : String → Option (Collection J) → Op J (Unit {0})
  drop_found name none db = (failed (collection_not_found name), db)
  drop_found name (some c) db =
      remove_collection_from_catalog name
        (record db { collections = assoc_remove name db.collections })

  unfoldable pub drop_collection : String → Op J (Unit {0})
  drop_collection name db = drop_found name (lookup name db.collections) db

  unfoldable pub load_configs : List CollectionConfig → Op J (Unit {0})
  load_configs [] = pure tt
  load_configs (c ∷ cs) = add_collection c >> load_configs cs

  unfoldable pub load_catalog : Op J (Unit {0})
  load_catalog = on_cache db_header >>= λ h.
      if h.catalog_root_page == 0
      then pure tt
      else (read_catalog_configs h.catalog_root_page >>= load_configs)

  abbrev pub most_vectors : List (String × Collection J) → ℕ
  most_vectors [] = 0
  most_vectors ((name, c) ∷ rest) = max (Backend.len c.index) (most_vectors rest)

  unfoldable pub init_id_counter : Op J (Unit {0})
  init_id_counter db =
      (returned tt, record db { next_doc_id = most_vectors db.collections + 10000 })

  abbrev pub insert_into : String → Document J → Option (Collection J) → Op J String
  insert_into name doc none db = (failed (collection_not_found name), db)
  insert_into name doc (some c) db =
      let r = run_on c (Methods.insert p doc) db in
      (r.0, record r.2 { collections = assoc_insert name r.1 r.2.collections })

  unfoldable pub insert : String → Document J → Op J String
  insert name doc db = insert_into name doc (lookup name db.collections) db

  abbrev pub search_in : String → SearchQuery → Option (Collection J) → Reply (List (SearchHit J))
  search_in name query none = failed (collection_not_found name)
  search_in name query (some c) = Searching.search p c query

  unfoldable pub search : Database J → String → SearchQuery → Reply (List (SearchHit J))
  search db name query = search_in name query (lookup name db.collections)

  unfoldable pub recover_log : Op J (Unit {0})
  recover_log db =
      let r = recover crc db.wal (some db.cache.file) in
      (reply_dropped r.0, record db { cache = file_after r.2 db.cache; wal = r.1 })

  unfoldable pub open_log : Op J (Unit {0})
  open_log db = let r = open_wal crc db.wal in (reply_other r.0, record db { wal = r.1 })

  abbrev pub open_cached : Outcome StorageError (Unit {0}) → Op J (Unit {0})
  open_cached (ok x) = recover_log >> open_log >> load_catalog >> init_id_counter
  open_cached (err e) = fail (storage e)
  open_cached panic = λ db. (panics, db)

  -- `open_with_config` on a file and a log that may not be there, with the clock, the salts and the
  -- counters of the process.
  unfoldable pub open_with_config :
      ℕ → ℕ → ℕ → ℕ → ℕ → ℕ → Option (List ℕ) → Option (List ℕ) → Reply (Unit {0}) × Database J
  open_with_config now page_size max_pages salt1 salt2 next file log =
      let r = open_cache now page_size max_pages file in
      open_cached r.0 (record {
        cache = r.1;
        wal = Wal.new page_size salt1 salt2 log;
        collections = [];
        next_doc_id = next;
        draws = 0;
      })
