-- ===== src/Collection/Inserting.antt =====
-- collection.rs: `insert` of a document with a vector and metadata into a collection in memory.
use Prim.Native.String.{String}
use mathlib.Core.Option
use embeddb.Base.{
  ℕ, ◌+◌, ◌≡◌, refl, ap, sym, ◌∙◌, Bool, true, false, not, ◌&&◌, Option, none, some, List,
  if◌then◌else◌, ◌==◌, length, inl, inr, Bool-cases, Option-cases, ==_iff, ==_refl, arith,
}
use embeddb.Base.Assoc.{nat_key, string_key, lookup, lookup-insert, beq_self}
use embeddb.Index.Hnsw.Beam.Rank.{Orders}
use embeddb.Metadata.Store
use embeddb.Metadata.Store.{MetadataEntry}
use embeddb.Collection.Config.{CollectionConfig, with_vector_and_metadata}
use embeddb.Collection.Cells.{encode_vector_cell, encode_metadata_cell}
use embeddb.Collection.Backend.{IndexBackend}
use embeddb.Collection.Session.{
  Collection, Session, Op, Reply, returned, dimension_mismatch, ◌>>=◌, ◌>>◌, then_do, pure, fail,
  next_id, write_vector_cell, write_metadata_cell, reply_index,
}
use embeddb.Collection.Methods.{
  Platform, pick_internal, with_ids, insert_vector, insert_metadata, insert, index_insert,
  save_edges, save_graph, persist_vector, persist_metadata, store_metadata, get_metadata,
}
use embeddb.Collection.Ids.{Maps, fresh-Inverse}
use embeddb.Collection.View.{index_vector, IndexFits, backend-insert}

-- What the methods do on a false test.
at-false :
    {J A : Type 0} (b : Bool) (m k : Op J A) (s : Session J)
    → b ≡ false
    → (if b then m else k) s ≡ k s
at-false true m k s h = cc
at-false false m k s h = refl

bind-to :
    {J A B : Type 0} (m : Op J A) (f : A → Op J B) (s t : Session J) (a : A)
    → m s ≡ (returned a, t)
    → (m >>= f) s ≡ f a t
bind-to {J = J} {A = A} m f s t a e = ap (λ (r : Reply A × Session J). then_do r.0 f r.1) e

and-false : (a : Bool) → (a && false) ≡ false
and-false true = refl
and-false false = refl

abbrev pub mapped_vector : IndexBackend → Option ℕ → Option (List ℕ)
mapped_vector b none = none
mapped_vector b (some n) = index_vector b n

-- The vector of a document.
abbrev pub doc_vector : {J : Type 0} → Collection J → String → Option (List ℕ)
doc_vector c id = mapped_vector c.index (lookup id c.id_map)

module _ {J D : Type 0} (p : Platform J D) where
  -- A collection in memory whose index takes vectors of its dimension.
  pub record InMemory (s : Session J) : Type 0 where
    pub maps : Maps s
    pub fits : IndexFits s.collection.index s.collection.config.dimension
    pub memory : s.collection.persistent ≡ false

  index_insert-returns :
      (orders : Orders p.lt p.total_lt) (s : Session J) (n : ℕ) (v : List ℕ)
      → InMemory s
      → length v ≡ s.collection.config.dimension
      → (b : IndexBackend) × (index_insert p n v s ≡ (
        returned tt,
        record s { collection = record s.collection { index = b }; draws = s.draws + 1 },
      ))
        × IndexFits b s.collection.config.dimension
        × ((j : ℕ)
            → index_vector b j ≡ (if n == j then some v else index_vector s.collection.index j))
  unfolding index_insert
  index_insert-returns orders s n v ok long =
      let (b, inserts, fits, view) =
        backend-insert (p.compute s.collection.config.distance) p.lt p.total_lt orders
          s.collection.index n v (p.level s.draws) s.collection.config.dimension ok.fits long in
      (
        b,
        ap
            (λ r. (
              reply_index r.0,
              record s { collection = record s.collection { index = r.1 }; draws = s.draws + 1 },
            ))
            inserts,
        fits,
        view,
      )

  save_edges-memory :
      (s : Session J) → s.collection.persistent ≡ false → save_edges p s ≡ (returned tt, s)
  unfolding save_edges
  save_edges-memory s e =
      at-false (not (s.collection.config.hnsw_edge_page == 0) && s.collection.persistent)
        (save_graph p s.collection.config.hnsw_edge_page s.collection.index) (pure tt) s
        (ap (λ b. not (s.collection.config.hnsw_edge_page == 0) && b) e
          ∙ and-false (not (s.collection.config.hnsw_edge_page == 0)))

  fits-false : (a b : ℕ) → a ≡ b → not (a == b) ≡ false
  fits-false a b e = ground (arith, e)

  insert_vector-returns :
      (orders : Orders p.lt p.total_lt) (doc_id : String) (s : Session J) (n : ℕ) (v : List ℕ)
      → InMemory s
      → length v ≡ s.collection.config.dimension
      → (b : IndexBackend) × (insert_vector p doc_id n (some v) s ≡ (
        returned tt,
        record s { collection = record s.collection { index = b }; draws = s.draws + 1 },
      ))
        × IndexFits b s.collection.config.dimension
        × ((j : ℕ)
            → index_vector b j ≡ (if n == j then some v else index_vector s.collection.index j))
  insert_vector-returns orders doc_id s n v ok long =
      let (b, indexes, fits, view) = index_insert-returns orders s n v ok long in
      let cell = encode_vector_cell (p.as_bytes doc_id) n v in
      let after : Session J = record s {
        collection = record s.collection { index = b };
        draws = s.draws + 1;
      } in
      (
        b,
        at-false (not (length v == s.collection.config.dimension))
              (fail (dimension_mismatch s.collection.config.dimension (length v))) _ s
              (fits-false (length v) s.collection.config.dimension long)
            ∙ bind-to (persist_vector p cell) _ s s true
                (at-false s.collection.persistent (write_vector_cell cell) (pure true) s ok.memory)
            ∙ bind-to (index_insert p n v) (λ x. save_edges p) s after tt indexes
            ∙ save_edges-memory after ok.memory,
        fits,
        view,
      )

  insert_metadata-returns :
      (doc_id : String) (s : Session J) (m : J)
      → s.collection.persistent ≡ false
      → insert_metadata p doc_id (some m) s ≡ (
        returned tt,
        record s {
          collection = record s.collection {
            metadata = (Store.insert s.collection.metadata doc_id m).1;
          };
        },
      )
  unfolding store_metadata Store.insert
  insert_metadata-returns doc_id s m e =
      let cell = encode_metadata_cell p.to_vec p.from_slice (p.as_bytes doc_id) m in
      bind-to (persist_metadata p cell) _ s s true
        (at-false s.collection.persistent (write_metadata_cell cell) (pure true) s e)

  -- The internal id of a document, and the session behind the choice.
  record Chosen (s : Session J) (doc_id : String) (n : ℕ) (t : Session J) : Type 0 where
    picks : pick_internal p doc_id (lookup doc_id s.collection.id_map) s ≡ (returned n, t)
    mapped : lookup doc_id t.collection.id_map ≡ some n
    others :
        (id : String)
        → string_key.beq doc_id id ≡ false
        → lookup id t.collection.id_map ≡ lookup id s.collection.id_map
    maps : Maps t
    same_index : t.collection.index ≡ s.collection.index
    same_metadata : t.collection.metadata ≡ s.collection.metadata
    same_config : t.collection.config ≡ s.collection.config
    same_persistent : t.collection.persistent ≡ s.collection.persistent

  choose :
      (s : Session J) (doc_id : String) (o : Option ℕ)
      → lookup doc_id s.collection.id_map ≡ o
      → Maps s
      → (n : ℕ) × (t : Session J) × Chosen s doc_id n t
  choose s doc_id (some n) e maps = (
    n,
    s,
    record {
      picks = ap (λ o. pick_internal p doc_id o s) e;
      mapped = e;
      others = λ id h. refl;
      maps = maps;
      same_index = refl;
      same_metadata = refl;
      same_config = refl;
      same_persistent = refl;
    },
  )
  choose s doc_id none e maps = (
    s.next_doc_id,
    fresh,
    record {
      picks = ap (λ o. pick_internal p doc_id o s) e ∙ chosen;
      mapped =
          rw (lookup-insert doc_id doc_id s.next_doc_id s.collection.id_map, beq_self doc_id) refl;
      others = λ id h. rw (lookup-insert doc_id id s.next_doc_id s.collection.id_map, h) refl;
      maps =
          fresh-Inverse s.collection.id_map s.collection.reverse_id_map s.next_doc_id doc_id maps e;
      same_index = refl;
      same_metadata = refl;
      same_config = refl;
      same_persistent = refl;
    },
  )
    where
      fresh : Session J
      fresh = record s {
        collection = with_ids p doc_id s.next_doc_id s.collection;
        next_doc_id = s.next_doc_id + 1;
      }

      chosen : pick_internal p doc_id none s ≡ (returned s.next_doc_id, fresh)
      chosen = unfold next_id in refl

  -- Another document's internal id is another number.
  apart :
      (t : Session J) (doc_id id : String) (n k : ℕ)
      → Maps t
      → lookup doc_id t.collection.id_map ≡ some n
      → lookup id t.collection.id_map ≡ some k
      → string_key.beq doc_id id ≡ false
      → (n == k) ≡ false
  apart t doc_id id n k maps found its differs = elim (Bool-cases (n == k)) [
    | inl same ↦ absurd (clash ((==_iff n k).0 same))
    | inr not_same ↦ not_same
  ]
    where
      both : n ≡ k → some id ≡ some doc_id
      both e =
          sym (maps.forward id k its)
          ∙ ap (λ i. lookup i t.collection.reverse_id_map) (sym e)
          ∙ maps.forward doc_id n found

      name : some id ≡ some doc_id → doc_id ≡ id
      name e = cc

      clash : n ≡ k → ⊥
      clash e =
          let same : string_key.beq doc_id id ≡ true =
            (string_key.beq_iff doc_id id).1 (name (both e)) in
          cc

  doc_vector-mapped :
      (c : Collection J) (id : String) (n : ℕ)
      → lookup id c.id_map ≡ some n
      → doc_vector c id ≡ index_vector c.index n
  doc_vector-mapped c id n e = ap (mapped_vector c.index) e

  doc_vector-absent :
      (c : Collection J) (id : String) → lookup id c.id_map ≡ none → doc_vector c id ≡ none
  doc_vector-absent c id e = ap (mapped_vector c.index) e

  -- The vectors of the documents when one more is in the index.
  vectors-view :
      (s t : Session J) (doc_id : String) (n : ℕ) (v : List ℕ) (c : Collection J)
      → Chosen s doc_id n t
      → c.id_map ≡ t.collection.id_map
      → ((j : ℕ)
          → index_vector c.index j ≡ (if n == j then some v else index_vector t.collection.index j))
      → (id : String)
      → doc_vector c id ≡ (if string_key.beq doc_id id then some v else doc_vector s.collection id)
  vectors-view s t doc_id n v c chosen idm view id = elim (Bool-cases (string_key.beq doc_id id)) [
    | inl same ↦ rw same (
        doc_vector-mapped c id n (
          ap (lookup id) idm
          ∙ ap (λ i. lookup i t.collection.id_map) (sym ((string_key.beq_iff doc_id id).0 same))
          ∙ chosen.mapped)
        ∙ view n
        ∙ at_self)
    | inr differs ↦ rw differs (elim (Option-cases (lookup id t.collection.id_map)) [
      | inl absent ↦
          doc_vector-absent c id (ap (lookup id) idm ∙ absent)
          ∙ sym (doc_vector-absent s.collection id (sym (chosen.others id differs) ∙ absent))
      | inr (k, found) ↦
          doc_vector-mapped c id k (ap (lookup id) idm ∙ found)
          ∙ view k
          ∙ apart_if k (apart t doc_id id n k chosen.maps chosen.mapped found differs)
          ∙ ap (λ b. index_vector b k) chosen.same_index
          ∙ sym (doc_vector-mapped s.collection id k (sym (chosen.others id differs) ∙ found))
    ])
  ]
    where
      at_self : (if n == n then some v else index_vector t.collection.index n) ≡ some v
      at_self = rw (==_refl n) refl

      apart_if :
          (k : ℕ)
          → (n == k) ≡ false
          → (if n == k then some v else index_vector t.collection.index k)
            ≡ index_vector t.collection.index k
      apart_if k h = rw h refl

  metadata-view :
      (c : Collection J) (doc_id id : String) (m : J)
      → Option.map MetadataEntry.metadata (Store.get (Store.insert c.metadata doc_id m).1 id)
        ≡ (if string_key.beq doc_id id then some m else get_metadata p c id)
  unfolding Store.get Store.insert get_metadata
  metadata-view c doc_id id m =
      rw (lookup-insert doc_id id (record { id = doc_id; metadata = m }) c.metadata.entries)
        (elim (Bool-cases (string_key.beq doc_id id)) [
          | inl same ↦ rw same refl
          | inr differs ↦ rw differs refl
        ])

  final : Session J → String → J → IndexBackend → Session J
  final t doc_id m b = record t {
    collection = record t.collection {
      index = b;
      metadata = (Store.insert t.collection.metadata doc_id m).1;
    };
    draws = t.draws + 1;
  }

  insert-runs :
      (s t : Session J) (doc_id : String) (n : ℕ) (v : List ℕ) (m : J) (b : IndexBackend)
      → Chosen s doc_id n t
      → t.collection.persistent ≡ false
      → insert_vector p doc_id n (some v) t ≡ (
        returned tt,
        record t { collection = record t.collection { index = b }; draws = t.draws + 1 },
      )
      → insert p (with_vector_and_metadata doc_id v m) s ≡ (returned doc_id, final t doc_id m b)
  unfolding insert with_vector_and_metadata final
  insert-runs s t doc_id n v m b chosen memory inserts =
      bind-to (pick_internal p doc_id (lookup doc_id s.collection.id_map)) _ s t n chosen.picks
      ∙ bind-to (insert_vector p doc_id n (some v) >> insert_metadata p doc_id (some m))
          (λ x. pure doc_id) t _ tt
          (bind-to (insert_vector p doc_id n (some v)) (λ x. insert_metadata p doc_id (some m)) t
              (record t { collection = record t.collection { index = b }; draws = t.draws + 1 }) tt
              inserts
            ∙ insert_metadata-returns doc_id
                (record t { collection = record t.collection { index = b }; draws = t.draws + 1 }) m
                memory)

  -- In memory, whichever index a collection has, insert of a document with a vector of its dimension and
  -- metadata returns the document's id. The document then has the vector and the metadata, every other
  -- document has the vector and the metadata that it had, and the collection is fit for the next insert.
  pub insert-document :
      (orders : Orders p.lt p.total_lt) (s : Session J) (doc_id : String) (v : List ℕ) (m : J)
      → InMemory s
      → length v ≡ s.collection.config.dimension
      → (u : Session J) × (insert p (with_vector_and_metadata doc_id v m) s ≡ (returned doc_id, u))
        × ((id : String)
            → doc_vector u.collection id
              ≡ (if string_key.beq doc_id id then some v else doc_vector s.collection id))
        × ((id : String)
            → get_metadata p u.collection id
              ≡ (if string_key.beq doc_id id then some m else get_metadata p s.collection id))
        × InMemory u
  unfolding final get_metadata
  insert-document orders s doc_id v m ok long =
      let (n, t, chosen) = choose s doc_id (lookup doc_id s.collection.id_map) refl ok.maps in
      let ready : InMemory t = record {
        maps = chosen.maps;
        fits = rw (chosen.same_index, chosen.same_config) ok.fits;
        memory = chosen.same_persistent ∙ ok.memory;
      } in
      let (b, inserts, fits, view) =
        insert_vector-returns orders doc_id t n v ready
          (long ∙ ap CollectionConfig.dimension (sym chosen.same_config)) in
      (
        final t doc_id m b,
        insert-runs s t doc_id n v m b chosen ready.memory inserts,
        vectors-view s t doc_id n v (final t doc_id m b).collection chosen refl view,
        (λ id.
            metadata-view t.collection doc_id id m
            ∙ ap
                (λ store.
                  if string_key.beq doc_id id
                  then some m
                  else Option.map MetadataEntry.metadata (Store.get store id))
                chosen.same_metadata),
        record { maps = chosen.maps; fits = fits; memory = ready.memory },
      )
