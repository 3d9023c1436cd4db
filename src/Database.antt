-- ===== src/Database.antt =====
-- crates/vexra-core/src/db.rs: the database, its collections by name, and its catalog page. The CRC of
-- the log's frames is an argument. Calls on a collection run on a session of the database's page cache and
-- counters.
pub mod Catalog
pub mod Names
mod Tests
use Prim.Native.String.{String}
use mathlib.Core.Option
use embeddb.Base.{
  ℕ, zero, suc, ◌+◌, Bool, true, false, not, Option, none, some, List, [], ◌∷◌, map, if◌then◌else◌,
  ◌==◌, max,
}
use embeddb.Base.Assoc.{string_key, lookup}
use embeddb.Base.Assoc.{insert as assoc_insert, remove as assoc_remove}
use embeddb.Base.Outcome.{Outcome, ok, err, panic}
use embeddb.Storage.Error.{StorageError}
use embeddb.Storage.Format.{PageType, PageHeader}
use embeddb.Storage.Format.DbHeader.{DbHeader}
use embeddb.Storage.Cache.{
  PageCache, CachedPage, get_page, header, db_header, update_db_header, allocate_page,
}
use embeddb.Storage.Cache.Write.{write_cell, flush_page, flush_all, open_cache}
use embeddb.Storage.Wal
use embeddb.Storage.Wal.{WalManager, checkpoint, needs_checkpoint, remove_wal, recover, open_wal}
use embeddb.Collection.Config.{CollectionConfig, Document, SearchQuery, SearchHit}
use embeddb.Collection.Backend
use embeddb.Collection.Backend.{IndexType, flat, hnsw}
use embeddb.Collection.Session.{
  Collection, Session, Reply, returned, failed, panics, runs_on, Error, storage, other,
  collection_not_found, collection_already_exists, reply_of, ignored,
}
use embeddb.Collection.Methods.{Platform}
use embeddb.Collection.Methods
use embeddb.Collection.Searching
use embeddb.Collection.Loading.{with_index, new_persistent, cells_from}

pub record Database (J : Type 0) : Type 0 where
  pub cache : PageCache
  pub wal : WalManager
  pub collections : List (String × Collection J)
  pub next_doc_id : ℕ
  pub draws : ℕ

abbrev pub Op : Type 0 → Type 0 → Type 0
Op J A = Database J → Reply A × Database J

abbrev pub index_type_of : CollectionConfig → IndexType
index_type_of config = if string_key.beq config.index_type "hnsw" then hnsw else flat

-- The file of a log's effect, if it is there.
abbrev pub file_after : Option (List ℕ) → PageCache → PageCache
file_after none c = c
file_after (some file) c = record c { file = file }

abbrev pub is_found : {A : Type 0} → Option A → Bool
is_found none = false
is_found (some a) = true

-- The outcome of a call whose error is dropped or replaced.
abbrev pub reply_dropped : {A : Type 0} → Outcome StorageError A → Reply (Unit {0})
reply_dropped (ok a) = returned tt
reply_dropped (err e) = returned tt
reply_dropped panic = panics

abbrev pub reply_other : {A : Type 0} → Outcome StorageError A → Reply (Unit {0})
reply_other (ok a) = returned tt
reply_other (err e) = failed other
reply_other panic = panics

module _ {J : Type 0} where
  abbrev pub then_do : {A B : Type 0} → Reply A → (A → Op J B) → Op J B
  then_do (returned a) f db = f a db
  then_do (failed e) f db = (failed e, db)
  then_do panics f db = (panics, db)
  then_do runs_on f db = (runs_on, db)

  infixl 5 ◌>>=◌ ◌>>◌
  abbrev pub ◌>>=◌ : {A B : Type 0} → Op J A → (A → Op J B) → Op J B
  ◌>>=◌ m f db = then_do (m db).0 f (m db).1

  abbrev pub ◌>>◌ : {A B : Type 0} → Op J A → Op J B → Op J B
  m >> k = m >>= λ _. k

  abbrev pub pure : {A : Type 0} → A → Op J A
  pure a db = (returned a, db)

  abbrev pub fail : {A : Type 0} → Error → Op J A
  fail e db = (failed e, db)

  abbrev pub on_cache : {A : Type 0} → (PageCache → Outcome StorageError A × PageCache) → Op J A
  on_cache m db = (reply_of (m db.cache).0, record db { cache = (m db.cache).1 })

  -- A call on a collection: the reply, the collection and the database behind it.
  abbrev pub run_on :
      {A : Type 0}
      → Collection J
      → (Session J → Reply A × Session J)
      → Database J
      → Reply A × Collection J × Database J
  run_on c m db =
      let r = m (record {
        collection = c;
        cache = db.cache;
        next_doc_id = db.next_doc_id;
        draws = db.draws;
      }) in
      (
        r.0,
        r.1.collection,
        record db { cache = r.1.cache; next_doc_id = r.1.next_doc_id; draws = r.1.draws },
      )

  abbrev pub put_collection : String → Collection J → Op J (Unit {0})
  put_collection name c db =
      (returned tt, record db { collections = assoc_insert name c db.collections })

  abbrev pub found : String → Option (Collection J) → Op J (Collection J)
  found name none = fail (collection_not_found name)
  found name (some c) = pure c

  unfoldable pub get_collection : String → Op J (Collection J)
  get_collection name db = found name (lookup name db.collections) db

  unfoldable pub collection_exists : Database J → String → Bool
  collection_exists db name = is_found (lookup name db.collections)

  unfoldable pub list_collections : Database J → List String
  list_collections db = map (λ e. e.0) db.collections

  abbrev pub with_catalog : ℕ → Op J ℕ
  with_catalog page_id = on_cache db_header >>= λ h.
      on_cache (update_db_header (record h { catalog_root_page = page_id })) >> pure page_id

  unfoldable pub ensure_catalog_page : Op J ℕ
  ensure_catalog_page = on_cache db_header >>= λ h.
      if not (h.catalog_root_page == 0)
      then pure h.catalog_root_page
      else (on_cache (allocate_page PageType.catalog 0) >>= with_catalog)

  abbrev pub unless_full : Bool → Op J (Unit {0})
  unless_full written = if written then pure tt else fail other

  abbrev pub take_file :
      Outcome StorageError (Unit {0}) × WalManager × Option (List ℕ) → Op J (Unit {0})
  take_file (o, wal, file) db =
      (reply_other o, record db { cache = file_after file db.cache; wal = wal })

  module _ (crc : List ℕ → ℕ) where
    unfoldable pub maybe_checkpoint : Op J (Unit {0})
    maybe_checkpoint db =
        (if needs_checkpoint db.wal
            then take_file (checkpoint crc db.wal (some db.cache.file))
            else pure tt)
          db

    unfoldable pub close : Op J (Unit {0})
    close =
        on_cache flush_all
        >> (λ db. take_file (checkpoint crc db.wal (some db.cache.file)) db)
        >> (λ db. (returned tt, record db { wal = remove_wal db.wal }))
