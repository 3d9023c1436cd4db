-- ===== src/Collection/Ids.antt =====
-- collection.rs: the two maps between documents' ids and internal ids stay inverse to each other.
use Prim.Native.String.{String}
use embeddb.Base.{
  ℕ, ◌+◌, ◌<◌, ◌≡◌, Bool, true, false, not, ◌&&◌, Option, none, some, List, if◌then◌else◌, ◌==◌,
  length, arith,
}
use embeddb.Base.Assoc.{nat_key, string_key, lookup, lookup-insert, lookup-remove}
use embeddb.Base.Assoc.{insert as assoc_insert, remove as assoc_remove}
use embeddb.Base.Outcome.{Outcome}
use embeddb.Storage.Error.{StorageError}
use embeddb.Storage.Format.{PageType}
use embeddb.Storage.Cache.{PageCache, allocate_page}
use embeddb.Storage.Cache.Write.{write_cell}
use embeddb.Collection.Cells.{encode_vector_cell, encode_metadata_cell, make_tombstone_cell}
use embeddb.Collection.Backend.{IndexBackend, flat_index, hnsw_graph}
use embeddb.Collection.Session.{
  Session, Op, Reply, returned, failed, panics, runs_on, ◌>>=◌, then_do, pure, fail, ignore,
  on_cache, write_cell_with_overflow, write_vector_cell, write_metadata_cell, last_page, other,
  dimension_mismatch,
}
use embeddb.Collection.Methods.{
  Platform, index_insert, save_graph, save_edges, persist_vector, persist_metadata, store_metadata,
  insert_vector, insert_metadata, metadata_remove, delete_metadata,
}

-- The maps are inverse to each other, and the counter is behind every internal id.
pub record Inverse (id_map : List (String × ℕ)) (reverse_id_map : List (ℕ × String)) (next : ℕ)
    : Type 0 where
  pub forward :
      (id : String) (n : ℕ) → lookup id id_map ≡ some n → lookup n reverse_id_map ≡ some id
  pub backward :
      (id : String) (n : ℕ) → lookup n reverse_id_map ≡ some id → lookup id id_map ≡ some n
  pub fresh : (id : String) (n : ℕ) → lookup id id_map ≡ some n → n < next

abbrev pub Maps : {J : Type 0} → Session J → Type 0
Maps s = Inverse s.collection.id_map s.collection.reverse_id_map s.next_doc_id

-- What the methods that leave the maps and the counter alone keep: any predicate on these.
module _ {J D : Type 0} (p : Platform J D)
    (P : List (String × ℕ) → List (ℕ × String) → ℕ → Type 0) where
  abbrev pub Holds : Session J → Type 0
  Holds s = P s.collection.id_map s.collection.reverse_id_map s.next_doc_id

  abbrev pub Preserves : {A : Type 0} → Op J A → Type 0
  Preserves m = (s : Session J) → Holds s → Holds (m s).1

  then-Holds :
      {A B : Type 0} (r : Reply A) (f : A → Op J B) (s : Session J)
      → ((a : A) → Preserves (f a))
      → Holds s
      → Holds (then_do r f s).1
  then-Holds (returned a) f s keep m = keep a s m
  then-Holds (failed e) f s keep m = m
  then-Holds panics f s keep m = m
  then-Holds runs_on f s keep m = m

  pub bind-Preserves :
      {A B : Type 0} (m : Op J A) (f : A → Op J B)
      → Preserves m
      → ((a : A) → Preserves (f a))
      → Preserves (m >>= f)
  bind-Preserves m f first next s maps = then-Holds (m s).0 f (m s).1 next (first s maps)

  pub if-Preserves :
      {A : Type 0} (b : Bool) (m k : Op J A) (s : Session J)
      → Preserves m
      → Preserves k
      → Holds s
      → Holds ((if b then m else k) s).1
  if-Preserves true m k s first second maps = first s maps
  if-Preserves false m k s first second maps = second s maps

  cache-Preserves :
      {A : Type 0} (m : PageCache → Outcome StorageError A × PageCache) → Preserves (on_cache m)
  cache-Preserves m s maps = maps

  overflow-Preserves :
      (page_type : PageType) (root : ℕ) (pages cell : List ℕ)
      → Preserves (write_cell_with_overflow page_type root pages cell)
  unfolding write_cell_with_overflow
  overflow-Preserves page_type root pages cell =
      bind-Preserves (on_cache (write_cell (last_page root pages) cell none)) _
        (cache-Preserves (write_cell (last_page root pages) cell none))
        (λ written s.
          if-Preserves written (pure (true, pages)) _ s (λ t maps. maps)
            (bind-Preserves (on_cache (allocate_page page_type 0)) _
              (cache-Preserves (allocate_page page_type 0))
              (λ new_page.
                bind-Preserves (on_cache (write_cell new_page cell none)) _
                  (cache-Preserves (write_cell new_page cell none)) (λ written_new t maps. maps))))

  vector-Preserves : (cell : List ℕ) → Preserves (write_vector_cell cell)
  unfolding write_vector_cell
  vector-Preserves cell s =
      bind-Preserves
        (write_cell_with_overflow PageType.vector s.collection.config.data_root_page
          s.collection.config.data_pages cell)
        _
        (overflow-Preserves PageType.vector s.collection.config.data_root_page
          s.collection.config.data_pages cell)
        (λ r t maps. maps) s

  metadata-Preserves : (cell : List ℕ) → Preserves (write_metadata_cell cell)
  unfolding write_metadata_cell
  metadata-Preserves cell s =
      bind-Preserves
        (write_cell_with_overflow PageType.metadata s.collection.config.metadata_root_page
          s.collection.config.metadata_pages cell)
        _
        (overflow-Preserves PageType.metadata s.collection.config.metadata_root_page
          s.collection.config.metadata_pages cell)
        (λ r t maps. maps) s

  persist_vector-Preserves : (cell : List ℕ) → Preserves (persist_vector p cell)
  persist_vector-Preserves cell s =
      if-Preserves s.collection.persistent (write_vector_cell cell) (pure true) s
        (vector-Preserves cell) (λ t maps. maps)

  persist_metadata-Preserves : (cell : List ℕ) → Preserves (persist_metadata p cell)
  persist_metadata-Preserves cell s =
      if-Preserves s.collection.persistent (write_metadata_cell cell) (pure true) s
        (metadata-Preserves cell) (λ t maps. maps)

  index_insert-Preserves : (n : ℕ) (v : List ℕ) → Preserves (index_insert p n v)
  unfolding index_insert
  index_insert-Preserves n v s maps = maps

  save_graph-Preserves : (page : ℕ) (b : IndexBackend) → Preserves (save_graph p page b)
  save_graph-Preserves page (flat_index idx) s maps = maps
  save_graph-Preserves page (hnsw_graph graph) s maps = maps

  save_edges-Preserves : Preserves (save_edges p)
  unfolding save_edges
  save_edges-Preserves s =
      if-Preserves (not (s.collection.config.hnsw_edge_page == 0) && s.collection.persistent)
        (save_graph p s.collection.config.hnsw_edge_page s.collection.index) (pure tt) s
        (save_graph-Preserves s.collection.config.hnsw_edge_page s.collection.index)
        (λ t maps. maps)

  pub insert_vector-Preserves :
      (doc_id : String) (n : ℕ) (o : Option (List ℕ)) → Preserves (insert_vector p doc_id n o)
  insert_vector-Preserves doc_id n none = λ s maps. maps
  insert_vector-Preserves doc_id n (some v) = λ s.
      if-Preserves (not (length v == s.collection.config.dimension))
        (fail (dimension_mismatch s.collection.config.dimension (length v))) _ s (λ t maps. maps)
        (bind-Preserves (persist_vector p (encode_vector_cell (p.as_bytes doc_id) n v)) _
          (persist_vector-Preserves (encode_vector_cell (p.as_bytes doc_id) n v))
          (λ written t.
            if-Preserves (not written) (fail other) _ t (λ u maps. maps)
              (bind-Preserves (index_insert p n v) (λ x. save_edges p) (index_insert-Preserves n v)
                (λ x. save_edges-Preserves))))

  store_metadata-Preserves : (doc_id : String) (m : J) → Preserves (store_metadata p doc_id m)
  unfolding store_metadata
  store_metadata-Preserves doc_id m s maps = maps

  pub insert_metadata-Preserves :
      (doc_id : String) (o : Option J) → Preserves (insert_metadata p doc_id o)
  insert_metadata-Preserves doc_id none = λ s maps. maps
  insert_metadata-Preserves doc_id (some m) =
      bind-Preserves
        (persist_metadata p (encode_metadata_cell p.to_vec p.from_slice (p.as_bytes doc_id) m)) _
        (persist_metadata-Preserves
          (encode_metadata_cell p.to_vec p.from_slice (p.as_bytes doc_id) m))
        (λ written t.
          if-Preserves (not written) (fail other) (store_metadata p doc_id m) t (λ u maps. maps)
            (store_metadata-Preserves doc_id m))

  pub remove_vector-Preserves : (cell : List ℕ) → Preserves (ignore (write_vector_cell cell))
  remove_vector-Preserves cell s maps = vector-Preserves cell s maps

  pub delete_metadata-Preserves : (id : String) → Preserves (delete_metadata p id)
  unfolding delete_metadata metadata_remove
  delete_metadata-Preserves id =
      bind-Preserves (ignore (metadata_remove p id)) _ (λ s maps. maps)
        (λ x s.
          if-Preserves
            (s.collection.persistent && not (s.collection.config.metadata_root_page == 0))
            (ignore (write_metadata_cell (make_tombstone_cell (p.as_bytes id)))) (pure tt) s
            (λ t maps. metadata-Preserves (make_tombstone_cell (p.as_bytes id)) t maps)
            (λ t maps. maps))

some-eq : (k e : ℕ) → some k ≡ some e → k ≡ e
some-eq k e h = cc

not_self : (n k : ℕ) → k < n → (n == k) ≡ false
not_self n k h = ground arith

-- A new id under the counter.
pub fresh-Inverse :
    (idm : List (String × ℕ)) (rev : List (ℕ × String)) (n : ℕ) (doc_id : String)
    → Inverse idm rev n
    → lookup doc_id idm ≡ none
    → Inverse (assoc_insert doc_id n idm) (assoc_insert n doc_id rev) (n + 1)
fresh-Inverse idm rev n doc_id inv absent = record {
  forward = λ id k h. ground (
    arith,
    lookup-insert doc_id id n idm,
    lookup-insert n k doc_id rev,
    string_key.beq_iff doc_id id,
    inv.forward id k,
    inv.fresh id k,
    h,
  );
  backward = λ id k h. ground (
    arith,
    lookup-insert doc_id id n idm,
    lookup-insert n k doc_id rev,
    string_key.beq_iff doc_id id,
    inv.backward id k,
    absent,
    h,
  );
  fresh = λ id k h.
      ground
        (arith, lookup-insert doc_id id n idm, string_key.beq_iff doc_id id, inv.fresh id k, h);
}

pub gone-Inverse :
    (idm : List (String × ℕ)) (rev : List (ℕ × String)) (next n : ℕ) (doc_id : String)
    → Inverse idm rev next
    → lookup doc_id idm ≡ some n
    → Inverse (assoc_remove doc_id idm) (assoc_remove n rev) next
gone-Inverse idm rev next n doc_id inv found = record {
  forward = λ id k h. ground (
    arith,
    lookup-remove doc_id id idm,
    lookup-remove n k rev,
    string_key.beq_iff doc_id id,
    inv.forward id k,
    inv.forward doc_id n,
    h,
    found,
  );
  backward = λ id k h. ground (
    arith,
    lookup-remove doc_id id idm,
    lookup-remove n k rev,
    string_key.beq_iff doc_id id,
    inv.backward id k,
    inv.backward doc_id n,
    h,
    found,
  );
  fresh = λ id k h. ground (arith, lookup-remove doc_id id idm, inv.fresh id k, h);
}

pub absent-Inverse :
    (idm : List (String × ℕ)) (rev : List (ℕ × String)) (next : ℕ) (doc_id : String)
    → Inverse idm rev next
    → lookup doc_id idm ≡ none
    → Inverse (assoc_remove doc_id idm) rev next
absent-Inverse idm rev next doc_id inv absent = record {
  forward = λ id k h. ground (arith, lookup-remove doc_id id idm, inv.forward id k, h);
  backward = λ id k h. ground (
    arith,
    lookup-remove doc_id id idm,
    string_key.beq_iff doc_id id,
    inv.backward id k,
    absent,
    h,
  );
  fresh = λ id k h. ground (arith, lookup-remove doc_id id idm, inv.fresh id k, h);
}

pub later-Inverse :
    (idm : List (String × ℕ)) (rev : List (ℕ × String)) (n : ℕ)
    → Inverse idm rev n
    → Inverse idm rev (n + 1)
later-Inverse idm rev n inv = record {
  forward = inv.forward;
  backward = inv.backward;
  fresh = λ id k h. omega (arith, inv.fresh id k h);
}
