-- ===== src/Collection/Reload.antt =====
-- collection.rs: what the tombstones of deleted documents do when a collection is loaded again.
use Prim.Native.String.{String}
use embeddb.Base.{
  if◌then◌else◌, ℕ, ◌≡◌, refl, ap, ◌∙◌, ◌||◌, Bool, true, false, Option, none, some, List, [], ◌∷◌,
  ◌++◌, inl, inr, Bool-cases, ◌^◌, ◌<◌, length,
}
use embeddb.Base.Assoc.{string_key, lookup, lookup-insert, beq_self}
use embeddb.Collection.Cells.{
  encode_metadata_cell, decode_metadata_cell, make_tombstone_cell, cell_is_tombstone,
  decode_vector_cell,
}
use embeddb.Metadata.Store
use embeddb.Metadata.Store.{get}
use embeddb.Collection.Cells.Laws.{
  decode-encode_metadata_cell, tombstone-no_metadata, tombstone-read, tombstone-id,
}
use embeddb.Metadata.Filter.{mem_values}
use embeddb.Collection.Session.{
  Session, Op, Reply, returned, failed, panics, runs_on, then_do, change, ignore,
}
use embeddb.Collection.Methods.{store_metadata, Platform, index_insert, with_ids}
use embeddb.Collection.Loading.{
  collect_tombstones, with_tombstone, tombstone_id, load_vector, load_decoded, load_vector_cell,
  load_vector_cells, load_page, utf8, load_metadata_cell, load_metadata_cells, load_entry,
  load_metadata_decoded, is_text,
}

module _ {J D : Type 0} (p : Platform J D) where
  entry-returns :
      (id : List ℕ) (m : J) (o : Option String) (s : Session J)
      → (load_entry p id m o s).0 ≡ returned tt
  unfolding store_metadata Store.insert
  entry-returns id m none s = refl
  entry-returns id m (some doc_id) s = refl

  decoded-returns :
      (o : Option (List ℕ × J)) (s : Session J) → (load_metadata_decoded p o s).0 ≡ returned tt
  decoded-returns none s = refl
  decoded-returns (some (id, m)) s = entry-returns id m (p.from_utf8 id) s

  cell-returns :
      (cell : Option (List ℕ)) (s : Session J) → (load_metadata_cell p cell s).0 ≡ returned tt
  cell-returns none s = refl
  cell-returns (some bytes) s =
      decoded-returns (decode_metadata_cell p.to_vec p.from_slice (utf8 p) bytes) s

  -- No cell stops the loading of the next ones.
  load_metadata_cells-append :
      (before rest : List (Option (List ℕ))) (s : Session J)
      → load_metadata_cells p (before ++ rest) s
        ≡ load_metadata_cells p rest (load_metadata_cells p before s).1
  unfolding load_metadata_cells
  load_metadata_cells-append [] rest s = refl
  load_metadata_cells-append (cell ∷ cells) rest s =
      rw (cell-returns cell s)
        (load_metadata_cells-append cells rest (load_metadata_cell p cell s).1)

  -- The cells of a document's insert and of its delete.
  abbrev pub insert_delete : String → J → List (Option (List ℕ))
  insert_delete id metadata =
      some (encode_metadata_cell p.to_vec p.from_slice (p.as_bytes id) metadata)
      ∷ some (make_tombstone_cell (p.as_bytes id))
      ∷ []

  load-insert_delete :
      (id : String) (metadata : J) (s : Session J)
      → length (p.as_bytes id) < 2 ^ 32
      → p.from_utf8 (p.as_bytes id) ≡ some id
      → p.from_slice (p.to_vec metadata) ≡ some metadata
      → p.from_slice [] ≡ none
      → load_metadata_cells p (insert_delete id metadata) s
        ≡ ignore (store_metadata p id metadata) s
  unfolding load_metadata_cells store_metadata Store.insert
  load-insert_delete id metadata s short text json empty =
      rw
        (
          decode-encode_metadata_cell p.to_vec p.from_slice (utf8 p) (p.as_bytes id) metadata json
              (ap is_text text) short,
          text,
          tombstone-no_metadata p.to_vec p.from_slice (utf8 p) (p.as_bytes id) empty short,
        )
        refl

  -- A document was inserted with metadata and then deleted: its metadata cell and its tombstone are the
  -- last of a list of cells. Loading the cells returns, and the document's metadata is there
  -- again; every other document has what the cells before give it. This is for an id that is text of less
  -- than 2^32 bytes and a value that is read back from its JSON text, where the empty text is no value.
  pub load_metadata-tombstone :
      (id : String) (metadata : J) (before : List (Option (List ℕ))) (s : Session J)
      → length (p.as_bytes id) < 2 ^ 32
      → p.from_utf8 (p.as_bytes id) ≡ some id
      → p.from_slice (p.to_vec metadata) ≡ some metadata
      → p.from_slice [] ≡ none
      → let loaded = load_metadata_cells p (before ++ insert_delete id metadata) s in
        (loaded.0 ≡ returned tt)
        × ((j : String)
            → get loaded.1.collection.metadata j ≡ (
                if string_key.beq id j
                then some (record { id = id; metadata = metadata })
                else get (load_metadata_cells p before s).1.collection.metadata j))
  unfolding store_metadata Store.insert get
  load_metadata-tombstone id metadata before s short text json empty =
      let kept = (load_metadata_cells p before s).1 in
      rw
        (
          load_metadata_cells-append before (insert_delete id metadata) s,
          load-insert_delete id metadata kept short text json empty,
        )
        (
          refl,
          λ j.
              lookup-insert id j (record { id = id; metadata = metadata })
                kept.collection.metadata.entries,
        )

  or-later : (a b : Bool) → b ≡ true → (a || b) ≡ true
  or-later true b h = refl
  or-later false b h = h

  with_tombstone-later :
      (id : String) (o : Option String) (ids : List String)
      → mem_values id ids ≡ true
      → mem_values id (with_tombstone p o ids) ≡ true
  with_tombstone-later id none ids h = h
  with_tombstone-later id (some i) ids h = or-later (string_key.beq id i) (mem_values id ids) h

  -- The ids of the tombstones, also behind other cells.
  collected :
      (id : String) (before after : List (Option (List ℕ)))
      → length (p.as_bytes id) < 2 ^ 32
      → p.from_utf8 (p.as_bytes id) ≡ some id
      → mem_values id
          (collect_tombstones p (before ++ some (make_tombstone_cell (p.as_bytes id)) ∷ after))
        ≡ true
  unfolding collect_tombstones
  collected id [] after short text =
      rw
        (
          (tombstone-read (utf8 p) (p.as_bytes id) short).0,
          tombstone-id (p.as_bytes id) short,
          text,
          beq_self id,
        )
        refl
  collected id (cell ∷ cells) after short text =
      with_tombstone-later id (tombstone_id p cell) _ (collected id cells after short text)

  mapped-absent :
      (id doc_id : String) (n : ℕ) (r : Reply (Unit {0})) (s : Session J)
      → string_key.beq doc_id id ≡ false
      → lookup id (then_do r (λ x. change (with_ids p doc_id n)) s).1.collection.id_map
        ≡ lookup id s.collection.id_map
  mapped-absent id doc_id n (returned a) s differs =
      rw (lookup-insert doc_id id n s.collection.id_map, differs) refl
  mapped-absent id doc_id n (failed e) s differs = refl
  mapped-absent id doc_id n panics s differs = refl
  mapped-absent id doc_id n runs_on s differs = refl

  differs-of :
      (id doc_id : String) (tombstones : List String)
      → mem_values id tombstones ≡ true
      → mem_values doc_id tombstones ≡ false
      → string_key.beq doc_id id ≡ false
  differs-of id doc_id tombstones dead alive = elim (Bool-cases (string_key.beq doc_id id)) [
    | inl same ↦
        absurd (clash (ap (λ i. mem_values i tombstones) ((string_key.beq_iff doc_id id).0 same)))
    | inr differs ↦ differs
  ]
    where
      clash : mem_values doc_id tombstones ≡ mem_values id tombstones → ⊥
      clash e = cc

  load_vector-absent :
      (id : String) (tombstones : List String) (n : ℕ) (v : List ℕ) (o : Option String)
      (s : Session J)
      → mem_values id tombstones ≡ true
      → lookup id (load_vector p tombstones n v o s).1.collection.id_map
        ≡ lookup id s.collection.id_map
  unfolding index_insert
  load_vector-absent id tombstones n v none s m = refl
  load_vector-absent id tombstones n v (some doc_id) s m =
      elim (Bool-cases (mem_values doc_id tombstones)) [
        | inl dead ↦ rw dead refl
        | inr alive ↦ rw alive (
            mapped-absent id doc_id n (ignore (index_insert p n v) s).0 (index_insert p n v s).1
              (differs-of id doc_id tombstones m alive))
      ]

  load_decoded-absent :
      (id : String) (tombstones : List String) (o : Option (List ℕ × ℕ × List ℕ)) (s : Session J)
      → mem_values id tombstones ≡ true
      → lookup id (load_decoded p tombstones o s).1.collection.id_map
        ≡ lookup id s.collection.id_map
  load_decoded-absent id tombstones none s m = refl
  load_decoded-absent id tombstones (some (bytes, n, v)) s m =
      load_vector-absent id tombstones n v (p.from_utf8 bytes) s m

  load_cell-absent :
      (id : String) (tombstones : List String) (cell : Option (List ℕ)) (s : Session J)
      → mem_values id tombstones ≡ true
      → lookup id (load_vector_cell p tombstones cell s).1.collection.id_map
        ≡ lookup id s.collection.id_map
  load_cell-absent id tombstones none s m = refl
  load_cell-absent id tombstones (some bytes) s m = elim (Bool-cases (cell_is_tombstone bytes)) [
    | inl dead ↦ rw dead refl
    | inr alive ↦
        rw alive (load_decoded-absent id tombstones (decode_vector_cell (utf8 p) bytes) s m)
  ]

  then-absent :
      (id : String) (r : Reply (Unit {0})) (f : Op J (Unit {0})) (s : Session J)
      → lookup id (f s).1.collection.id_map ≡ lookup id s.collection.id_map
      → lookup id (then_do r (λ x. f) s).1.collection.id_map ≡ lookup id s.collection.id_map
  then-absent id (returned a) f s h = h
  then-absent id (failed e) f s h = refl
  then-absent id panics f s h = refl
  then-absent id runs_on f s h = refl

  load_cells-absent :
      (id : String) (tombstones : List String) (cells : List (Option (List ℕ))) (s : Session J)
      → mem_values id tombstones ≡ true
      → lookup id (load_vector_cells p tombstones cells s).1.collection.id_map
        ≡ lookup id s.collection.id_map
  unfolding load_vector_cells
  load_cells-absent id tombstones [] s m = refl
  load_cells-absent id tombstones (cell ∷ cells) s m =
      let one = load_vector_cell p tombstones cell s in
      then-absent id one.0 (load_vector_cells p tombstones cells) one.1
        (load_cells-absent id tombstones cells one.1 m)
      ∙ load_cell-absent id tombstones cell s m

  -- A page with a tombstone of a document, wherever it stands, gives the document no internal id when it
  -- is loaded: neither the cells before the tombstone nor those behind it, where the document was inserted
  -- again.
  pub load_page-tombstone :
      (id : String) (before after : List (Option (List ℕ))) (s : Session J)
      → length (p.as_bytes id) < 2 ^ 32
      → p.from_utf8 (p.as_bytes id) ≡ some id
      → lookup id
          (load_page p
            (before ++ some (make_tombstone_cell (p.as_bytes id)) ∷ after)
            s).1.collection.id_map
        ≡ lookup id s.collection.id_map
  load_page-tombstone id before after s short text =
      load_cells-absent id _ (before ++ some (make_tombstone_cell (p.as_bytes id)) ∷ after) s
        (collected id before after short text)
