-- ===== src/Collection/Session.antt =====
-- crates/vexra-core/src/collection.rs: the state that a collection's methods work on, and the cells
-- that they write. The page cache, the counter of internal ids and the draws of HNSW levels, which the
-- program shares between collections, stand beside the collection. The counter stays below 2^64.
use Prim.Native.String.{String}
use embeddb.Base.{ℕ, ◌+◌, Bool, true, false, none, List, [], ◌∷◌, ◌++◌, if◌then◌else◌}
use embeddb.Base.Outcome.{Outcome, ok, err, panic}
use embeddb.Storage.Error.{StorageError}
use embeddb.Storage.Format.{PageType}
use embeddb.Storage.Cache.{PageCache, allocate_page}
use embeddb.Storage.Cache.Write.{write_cell}
use embeddb.Index.{IndexError}
use embeddb.Metadata.{MetadataError}
use embeddb.Metadata.Store.{MetadataStore}
use embeddb.Collection.Config.{CollectionConfig}
use embeddb.Collection.Backend.{IndexBackend, Answer, answered, refused, panicked, endless}

-- crates/vexra-core/src/error.rs, without texts.
pub data Error : Type 0 where
  storage : StorageError → Error
  index : IndexError → Error
  metadata_error : MetadataError → Error
  collection_not_found : String → Error
  collection_already_exists : String → Error
  invalid_config : Error
  dimension_mismatch : ℕ → ℕ → Error
  database_closed : Error
  other : Error

-- `persistent` tells whether there is a page cache.
pub record Collection (J : Type 0) : Type 0 where
  pub config : CollectionConfig
  pub index : IndexBackend
  pub metadata : MetadataStore J
  pub id_map : List (String × ℕ)
  pub reverse_id_map : List (ℕ × String)
  pub persistent : Bool

pub record Session (J : Type 0) : Type 0 where
  pub collection : Collection J
  pub cache : PageCache
  pub next_doc_id : ℕ
  pub draws : ℕ

-- What a method does.
pub data Reply (A : Type 0) : Type 0 where
  returned : A → Reply A
  failed : Error → Reply A
  panics : Reply A
  runs_on : Reply A

abbrev pub Op : Type 0 → Type 0 → Type 0
Op J A = Session J → Reply A × Session J

abbrev pub reply_of : {A : Type 0} → Outcome StorageError A → Reply A
reply_of (ok a) = returned a
reply_of (err e) = failed (storage e)
reply_of panic = panics

abbrev pub reply_index : {A : Type 0} → Answer A → Reply A
reply_index (answered a) = returned a
reply_index (refused e) = failed (index e)
reply_index panicked = panics
reply_index endless = runs_on

-- `let _ = ...` drops an error.
abbrev pub ignored : {A : Type 0} → Reply A → Reply (Unit {0})
ignored (returned a) = returned tt
ignored (failed e) = returned tt
ignored panics = panics
ignored runs_on = runs_on

abbrev pub last_page : ℕ → List ℕ → ℕ
last_page root [] = root
last_page root (p ∷ ps) = last_page p ps

-- Whether the cell was written, and the overflow pages behind the call.
module _ {J : Type 0} where
  abbrev pub then_do : {A B : Type 0} → Reply A → (A → Op J B) → Op J B
  then_do (returned a) f s = f a s
  then_do (failed e) f s = (failed e, s)
  then_do panics f s = (panics, s)
  then_do runs_on f s = (runs_on, s)

  infixl 5 ◌>>=◌ ◌>>◌
  abbrev pub ◌>>=◌ : {A B : Type 0} → Op J A → (A → Op J B) → Op J B
  ◌>>=◌ m f s = then_do (m s).0 f (m s).1

  abbrev pub ◌>>◌ : {A B : Type 0} → Op J A → Op J B → Op J B
  m >> k = m >>= λ _. k

  abbrev pub pure : {A : Type 0} → A → Op J A
  pure a s = (returned a, s)

  abbrev pub fail : {A : Type 0} → Error → Op J A
  fail e s = (failed e, s)

  -- A change of the collection.
  abbrev pub change : (Collection J → Collection J) → Op J (Unit {0})
  change f s = (returned tt, record s { collection = f s.collection })

  -- A call of the page cache, its errors by `map_err(Error::Storage)`.
  abbrev pub on_cache : {A : Type 0} → (PageCache → Outcome StorageError A × PageCache) → Op J A
  on_cache m s = (reply_of (m s.cache).0, record s { cache = (m s.cache).1 })

  abbrev pub ignore : {A : Type 0} → Op J A → Op J (Unit {0})
  ignore m s = (ignored (m s).0, (m s).1)

  -- `fetch_add` on the counter of ids.
  unfoldable pub next_id : Op J ℕ
  next_id s = (returned s.next_doc_id, record s { next_doc_id = s.next_doc_id + 1 })

  unfoldable pub write_cell_with_overflow : PageType → ℕ → List ℕ → List ℕ → Op J (Bool × List ℕ)
  write_cell_with_overflow page_type root_page overflow_pages cell =
      on_cache (write_cell (last_page root_page overflow_pages) cell none) >>= λ written.
      if written
      then pure (true, overflow_pages)
      else (on_cache (allocate_page page_type 0) >>= λ new_page.
          on_cache (write_cell new_page cell none) >>= λ written_new. pure (
            if written_new
            then (true, overflow_pages ++ new_page ∷ [])
            else (false, overflow_pages)))

  abbrev pub with_data_pages : List ℕ → Collection J → Collection J
  with_data_pages pages c = record c { config = record c.config { data_pages = pages } }

  abbrev pub with_metadata_pages : List ℕ → Collection J → Collection J
  with_metadata_pages pages c = record c { config = record c.config { metadata_pages = pages } }

  unfoldable pub write_vector_cell : List ℕ → Op J Bool
  write_vector_cell cell s =
      (write_cell_with_overflow PageType.vector s.collection.config.data_root_page
            s.collection.config.data_pages cell
          >>= λ r. change (with_data_pages r.1) >> pure r.0)
        s

  unfoldable pub write_metadata_cell : List ℕ → Op J Bool
  write_metadata_cell cell s =
      (write_cell_with_overflow PageType.metadata s.collection.config.metadata_root_page
            s.collection.config.metadata_pages cell
          >>= λ r. change (with_metadata_pages r.1) >> pure r.0)
        s
