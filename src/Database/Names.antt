-- ===== src/Database/Names.antt =====
-- db.rs: the map of collections under `create_collection` and `drop_collection`.
use Prim.Native.String.{String}
use embeddb.Base.{
  ℕ, ◌≡◌, refl, ap, ◌∙◌, ◌⊎◌, inl, inr, Bool, true, false, not, Option, none, some, List, [], ◌∷◌,
  if◌then◌else◌, Bool-cases, Option-cases, ◌==◌,
}
use embeddb.Base.Assoc.{string_key, lookup, lookup-insert, lookup-remove, beq_self}
use embeddb.Base.Assoc.{insert as assoc_insert, remove as assoc_remove}
use embeddb.Base.Outcome.{Outcome}
use embeddb.Storage.Error.{StorageError}
use embeddb.Storage.Format.{PageType, PageHeader}
use embeddb.Storage.Cache.{
  PageCache, CachedPage, get_page, header, db_header, update_db_header, allocate_page,
}
use embeddb.Storage.Cache.Write.{write_cell, flush_page}
use embeddb.Storage.Wal.{needs_checkpoint}
use embeddb.Collection.Config.{CollectionConfig}
use embeddb.Collection.Session.{
  Collection, Reply, returned, failed, panics, runs_on, collection_not_found,
  collection_already_exists,
}
use embeddb.Collection.Methods.{Platform}
use embeddb.Collection.Loading.{with_index, new_persistent}
use embeddb.Database.{
  Database, Op, then_do, ◌>>=◌, ◌>>◌, pure, on_cache, run_on, put_collection, index_type_of,
  with_catalog, ensure_catalog_page, unless_full, maybe_checkpoint,
}
use embeddb.Database.Catalog.{
  write_config, persist_collection, add_collection, create_collection, page_configs,
  read_catalog_configs, without_name, write_configs, rebuild_catalog,
  remove_collection_from_catalog, drop_found, drop_collection,
}

module _ {J D : Type 0} (p : Platform J D) (crc : List ℕ → ℕ)
    (to_vec : CollectionConfig → Option (List ℕ))
    (from_slice : List ℕ → Option CollectionConfig) where
  -- The map of collections stays as it is, whatever the reply.
  Keeps : {A : Type 0} → Op J A → Type 0
  Keeps m = (db : Database J) → (m db).1.collections ≡ db.collections

  bind-Keeps :
      {A B : Type 0} (m : Op J A) (f : A → Op J B)
      → Keeps m
      → ((a : A) → Keeps (f a))
      → Keeps (m >>= f)
  unfolding Keeps
  bind-Keeps {A = A} m f first next db = after (m db).0 (m db).1 ∙ first db
    where
      after : (r : Reply A) (d : Database J) → (then_do r f d).1.collections ≡ d.collections
      after (returned a) d = next a d
      after (failed e) d = refl
      after panics d = refl
      after runs_on d = refl

  if-Keeps : {A : Type 0} (b : Bool) (m k : Op J A) → Keeps m → Keeps k → Keeps (if b then m else k)
  if-Keeps true m k first second = first
  if-Keeps false m k first second = second

  pure-Keeps : {A : Type 0} (a : A) → Keeps (pure a)
  unfolding Keeps
  pure-Keeps a db = refl

  cache-Keeps :
      {A : Type 0} (m : PageCache → Outcome StorageError A × PageCache) → Keeps (on_cache m)
  unfolding Keeps
  cache-Keeps m db = refl

  with_catalog-Keeps : (page : ℕ) → Keeps (with_catalog page)
  with_catalog-Keeps page = bind-Keeps (on_cache db_header) _ (cache-Keeps db_header) (λ h.
      bind-Keeps (on_cache (update_db_header (record h { catalog_root_page = page })))
        (λ x. pure page) (cache-Keeps (update_db_header (record h { catalog_root_page = page })))
        (λ x. pure-Keeps page))

  ensure-Keeps : Keeps ensure_catalog_page
  unfolding ensure_catalog_page
  ensure-Keeps = bind-Keeps (on_cache db_header) _ (cache-Keeps db_header) (λ h.
      if-Keeps (not (h.catalog_root_page == 0)) (pure h.catalog_root_page) _
        (pure-Keeps h.catalog_root_page)
        (bind-Keeps (on_cache (allocate_page PageType.catalog 0)) with_catalog
          (cache-Keeps (allocate_page PageType.catalog 0)) with_catalog-Keeps))

  unless_full-Keeps : (written : Bool) → Keeps (unless_full written)
  unfolding Keeps
  unless_full-Keeps true db = refl
  unless_full-Keeps false db = refl

  write_config-Keeps :
      (page : ℕ) (o : Option (List ℕ)) → Keeps (write_config p crc to_vec from_slice page o)
  unfolding Keeps
  write_config-Keeps page none = λ db. refl
  write_config-Keeps page (some json) =
      bind-Keeps (on_cache (write_cell page json none)) unless_full
        (cache-Keeps (write_cell page json none)) unless_full-Keeps

  checkpoint-Keeps : (db : Database J) → (maybe_checkpoint crc db).1.collections ≡ db.collections
  unfolding maybe_checkpoint
  checkpoint-Keeps db = elim (Bool-cases (needs_checkpoint db.wal)) [
    | inl due ↦ rw due refl
    | inr not_due ↦ rw not_due refl
  ]

  persist-Keeps :
      (config : CollectionConfig) → Keeps (persist_collection p crc to_vec from_slice config)
  unfolding persist_collection Keeps
  persist-Keeps config = bind-Keeps ensure_catalog_page _ ensure-Keeps (λ page.
      bind-Keeps
        (write_config p crc to_vec from_slice page (to_vec config) >> on_cache (flush_page page)) _
        (bind-Keeps (write_config p crc to_vec from_slice page (to_vec config))
          (λ x. on_cache (flush_page page)) (write_config-Keeps page (to_vec config))
          (λ x. cache-Keeps (flush_page page)))
        (λ x db. checkpoint-Keeps db))

  page_configs-Keeps :
      (pg : CachedPage) (o : Option PageHeader) → Keeps (page_configs p crc to_vec from_slice pg o)
  unfolding Keeps
  page_configs-Keeps pg none db = refl
  page_configs-Keeps pg (some h) db = refl

  read-Keeps : (page : ℕ) → Keeps (read_catalog_configs p crc to_vec from_slice page)
  unfolding read_catalog_configs
  read-Keeps page =
      bind-Keeps (on_cache (get_page page)) _ (cache-Keeps (get_page page))
        (λ pg. page_configs-Keeps pg (header pg))

  write_configs-Keeps :
      (page : ℕ) (cs : List CollectionConfig)
      → Keeps (write_configs p crc to_vec from_slice page cs)
  unfolding write_configs
  write_configs-Keeps page [] = pure-Keeps tt
  write_configs-Keeps page (c ∷ cs) =
      bind-Keeps (write_config p crc to_vec from_slice page (to_vec c))
        (λ x. write_configs p crc to_vec from_slice page cs) (write_config-Keeps page (to_vec c))
        (λ x. write_configs-Keeps page cs)

  rebuild-Keeps :
      (name : String) (page : ℕ) → Keeps (rebuild_catalog p crc to_vec from_slice name page)
  rebuild-Keeps name page =
      bind-Keeps (read_catalog_configs p crc to_vec from_slice page) _ (read-Keeps page) (λ configs.
        bind-Keeps (on_cache (allocate_page PageType.catalog 0)) _
          (cache-Keeps (allocate_page PageType.catalog 0))
          (λ new_page.
            let kept = without_name p crc to_vec from_slice name configs in
            bind-Keeps
              (write_configs p crc to_vec from_slice new_page kept >> with_catalog new_page)
              (λ x. on_cache (flush_page new_page))
              (bind-Keeps (write_configs p crc to_vec from_slice new_page kept)
                (λ x. with_catalog new_page) (write_configs-Keeps new_page kept)
                (λ x. with_catalog-Keeps new_page))
              (λ x. cache-Keeps (flush_page new_page))))

  remove-Keeps :
      (name : String) → Keeps (remove_collection_from_catalog p crc to_vec from_slice name)
  unfolding remove_collection_from_catalog
  remove-Keeps name = bind-Keeps (on_cache db_header) _ (cache-Keeps db_header) (λ h.
      if-Keeps (h.catalog_root_page == 0) (pure tt) _ (pure-Keeps tt)
        (rebuild-Keeps name h.catalog_root_page))

  -- drop_collection of a name that is not there fails with it and changes nothing; of one that is there
  -- it takes its collection out of the map and no other, also where the catalog could not be rebuilt.
  pub drop_collection-view :
      (name : String) (db : Database J)
      → ((lookup name db.collections ≡ none)
          × (drop_collection p crc to_vec from_slice name db
              ≡ (failed (collection_not_found name), db)))
        ⊎ ((c : Collection J) × (lookup name db.collections ≡ some c)
            × ((j : String)
                → lookup j (drop_collection p crc to_vec from_slice name db).1.collections
                  ≡ (if string_key.beq name j then none else lookup j db.collections)))
  unfolding drop_collection Keeps
  drop_collection-view name db = elim (Option-cases (lookup name db.collections)) [
    | inl missing ↦ inl (missing, ap (λ o. drop_found p crc to_vec from_slice name o db) missing)
    | inr (c, there) ↦ inr (
      c,
      there,
      λ j.
          ap (λ o. lookup j (drop_found p crc to_vec from_slice name o db).1.collections) there
          ∙ ap (lookup j)
              (remove-Keeps name (record db { collections = assoc_remove name db.collections }))
          ∙ lookup-remove name j db.collections,
    )
  ]

  -- What a new collection does to the map: it is in it under its name, or the map stays and the reply is
  -- no return.
  Added : String → Database J → Reply CollectionConfig × Database J → Type 0
  Added name db r =
      ((config : CollectionConfig) × (c : Collection J) × (r.0 ≡ returned config)
        × (r.1.collections ≡ assoc_insert name c db.collections))
      ⊎ (((config : CollectionConfig) → r.0 ≡ returned config → ⊥)
          × (r.1.collections ≡ db.collections))

  then-Added :
      (config : CollectionConfig) (c : Collection J) (db : Database J) (r : Reply (Unit {0}))
      (d : Database J)
      → d.collections ≡ db.collections
      → Added config.name db (then_do r (λ x. put_collection config.name c >> pure c.config) d)
  unfolding Added
  then-Added config c db (returned a) d same =
      inl (c.config, c, refl, ap (assoc_insert config.name c) same)
  then-Added config c db (failed e) d same = inr ((λ k h. cc), same)
  then-Added config c db panics d same = inr ((λ k h. cc), same)
  then-Added config c db runs_on d same = inr ((λ k h. cc), same)

  add-Added :
      (config : CollectionConfig) (db : Database J)
      → Added config.name db (add_collection p crc to_vec from_slice config db)
  add-Added config db =
      let r =
        run_on (with_index p config (index_type_of config))
          (new_persistent p config (index_type_of config)) db in
      then-Added config r.1 db r.0 r.2 refl

  -- The map behind `create_collection` of a new name.
  Created : String → Database J → Reply (Unit {0}) × Database J → Type 0
  Created name db r =
      ((j : String)
        → string_key.beq name j ≡ false
        → lookup j r.1.collections ≡ lookup j db.collections)
      × (r.0 ≡ returned tt → (c : Collection J) × (lookup name r.1.collections ≡ some c))

  inserted-Created :
      (name : String) (c : Collection J) (db : Database J) (r : Reply (Unit {0}) × Database J)
      → r.1.collections ≡ assoc_insert name c db.collections
      → Created name db r
  unfolding Created
  inserted-Created name c db r e = (
    (λ j differs. ap (lookup j) e ∙ lookup-insert name j c db.collections ∙ at_other j differs),
    (λ h. (c, ap (lookup name) e ∙ lookup-insert name name c db.collections ∙ at_self)),
  )
    where
      at_other :
          (j : String)
          → string_key.beq name j ≡ false
          → (if string_key.beq name j then some c else lookup j db.collections)
            ≡ lookup j db.collections
      at_other j differs = rw differs refl

      at_self : (if string_key.beq name name then some c else lookup name db.collections) ≡ some c
      at_self = rw (beq_self name) refl

  then-Created :
      (name : String) (db : Database J) (r : Reply CollectionConfig) (d : Database J)
      → Added name db (r, d)
      → Created name db (then_do r (persist_collection p crc to_vec from_slice) d)
  unfolding Added Created Keeps
  then-Created name db (returned config) d (inl (k, c, is, e)) =
      inserted-Created name c db (persist_collection p crc to_vec from_slice config d)
        (persist-Keeps config d ∙ e)
  then-Created name db (returned config) d (inr (not_returned, same)) =
      absurd (not_returned config refl)
  then-Created name db (failed e) d (inl (k, c, is, f)) = cc
  then-Created name db (failed e) d (inr (not_returned, same)) =
      ((λ j differs. ap (lookup j) same), λ h. cc)
  then-Created name db panics d (inl (k, c, is, f)) = cc
  then-Created name db panics d (inr (not_returned, same)) =
      ((λ j differs. ap (lookup j) same), λ h. cc)
  then-Created name db runs_on d (inl (k, c, is, f)) = cc
  then-Created name db runs_on d (inr (not_returned, same)) =
      ((λ j differs. ap (lookup j) same), λ h. cc)

  -- create_collection of a name that is there fails with it and changes nothing; of a new name it leaves
  -- every other name its collection, whatever the reply, and where it returns the name has a collection.
  pub create_collection-view :
      (config : CollectionConfig) (db : Database J)
      → ((c : Collection J) × (lookup config.name db.collections ≡ some c)
          × (create_collection p crc to_vec from_slice config db
              ≡ (failed (collection_already_exists config.name), db)))
        ⊎ ((lookup config.name db.collections ≡ none)
            × ((j : String)
                → string_key.beq config.name j ≡ false
                → lookup j (create_collection p crc to_vec from_slice config db).1.collections
                  ≡ lookup j db.collections)
            × ((create_collection p crc to_vec from_slice config db).0 ≡ returned tt
                → (c : Collection J) × (lookup config.name
                      (create_collection p crc to_vec from_slice config db).1.collections
                    ≡ some c)))
  unfolding create_collection Created
  create_collection-view config db = elim (Option-cases (lookup config.name db.collections)) [
    | inl new ↦
        let r = add_collection p crc to_vec from_slice config db in
        let created = then-Created config.name db r.0 r.1 (add-Added config db) in
        inr
          (new, (λ j differs. rw new (created.0 j differs)), λ h. rw new (created.1 (rw new at h)))
    | inr (c, there) ↦ inl (c, there, rw there refl)
  ]
