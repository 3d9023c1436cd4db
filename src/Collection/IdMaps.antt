-- ===== src/Collection/IdMaps.antt =====
-- collection.rs: `insert` and `delete` keep the maps between documents' ids and internal ids inverse.
use Prim.Native.String.{String}
use embeddb.Base.{ℕ, ◌≡◌, refl, subst, sym, Option, none, some, List, if◌then◌else◌}
use embeddb.Base.Assoc.{nat_key, string_key, lookup, lookup-remove, beq_self}
use embeddb.Base.Assoc.{remove as assoc_remove}
use embeddb.Collection.Config.{Document}
use embeddb.Collection.Session.{
  Session, Op, Reply, returned, failed, panics, runs_on, ◌>>◌, then_do, pure, change, ignore,
  ignored, next_id, write_vector_cell,
}
use embeddb.Collection.Methods.{
  Platform, pick_id, pick_internal, insert_vector, insert_metadata, insert_with, insert,
  index_remove, without_reverse, without_id, delete_vector, delete_metadata, delete, tombstone,
}
use embeddb.Collection.Ids.{
  Inverse, Maps, Preserves, if-Preserves, bind-Preserves, insert_vector-Preserves,
  insert_metadata-Preserves, remove_vector-Preserves, delete_metadata-Preserves, fresh-Inverse,
  gone-Inverse, absent-Inverse, later-Inverse,
}

-- What a chain that returned went through.
then-returned :
    {J A B : Type 0} (r : Reply A) (f : A → Op J B) (s : Session J) (b : B)
    → (then_do r f s).0 ≡ returned b
    → (a : A) × (r ≡ returned a) × (then_do r f s ≡ f a s)
then-returned (returned a) f s b h = (a, refl, refl)
then-returned (failed e) f s b h = cc
then-returned panics f s b h = cc
then-returned runs_on f s b h = cc

module _ {J D : Type 0} (p : Platform J D) where
  pick_id-Preserves : (o : Option String) → Preserves p Inverse (pick_id p o)
  unfolding next_id
  pick_id-Preserves none =
      λ s maps. later-Inverse s.collection.id_map s.collection.reverse_id_map s.next_doc_id maps
  pick_id-Preserves (some id) = λ s maps. maps

  pick_internal-Maps :
      (s : Session J) (doc_id : String) (o : Option ℕ)
      → lookup doc_id s.collection.id_map ≡ o
      → Maps s
      → Maps (pick_internal p doc_id o s).1
  unfolding next_id
  pick_internal-Maps s doc_id (some n) e maps = maps
  pick_internal-Maps s doc_id none e maps =
      fresh-Inverse s.collection.id_map s.collection.reverse_id_map s.next_doc_id doc_id maps e

  insert_rest-Preserves :
      (doc_id : String) (doc : Document J) (n : ℕ)
      → Preserves p Inverse (
          insert_vector p doc_id n doc.vector
          >> insert_metadata p doc_id doc.metadata
          >> pure doc_id)
  insert_rest-Preserves doc_id doc n =
      bind-Preserves p Inverse
        (insert_vector p doc_id n doc.vector >> insert_metadata p doc_id doc.metadata)
        (λ x. pure doc_id)
        (bind-Preserves p Inverse (insert_vector p doc_id n doc.vector)
          (λ x. insert_metadata p doc_id doc.metadata)
          (insert_vector-Preserves p Inverse doc_id n doc.vector)
          (λ x. insert_metadata-Preserves p Inverse doc_id doc.metadata))
        (λ x s maps. maps)

  insert_with-Preserves :
      (doc_id : String) (doc : Document J) → Preserves p Inverse (insert_with p doc_id doc)
  insert_with-Preserves doc_id doc s maps =
      bind-Preserves p (λ a b c. Inverse a b c)
        (λ t. (pick_internal p doc_id (lookup doc_id s.collection.id_map) s)) _
        (λ t ok. pick_internal-Maps s doc_id (lookup doc_id s.collection.id_map) refl maps)
        (λ n. insert_rest-Preserves doc_id doc n) s maps

  -- insert keeps the two maps of ids inverse to each other and the counter behind every internal id,
  -- whether it returns, fails or panics.
  pub insert-Maps : (doc : Document J) (s : Session J) → Maps s → Maps (insert p doc s).1
  unfolding insert
  insert-Maps doc s maps =
      bind-Preserves p Inverse (pick_id p doc.id) (λ doc_id. insert_with p doc_id doc)
        (pick_id-Preserves doc.id) (λ doc_id. insert_with-Preserves doc_id doc) s maps

  -- The maps and the counter that a step has left.
  abbrev Left :
      List (String × ℕ) → List (ℕ × String) → ℕ → List (String × ℕ) → List (ℕ × String) → ℕ → Type 0
  Left idm rev next a b c = (a ≡ idm) × (b ≡ rev) × (c ≡ next)

  drop_reverse : ℕ → Op J (Unit {0})
  drop_reverse n = ignore (index_remove p n) >> change (without_reverse p n)

  bury : String → Op J (Unit {0})
  bury id s =
      (if s.collection.persistent then ignore (write_vector_cell (tombstone p id)) else pure tt) s

  drop_reverse-Left :
      (n : ℕ) (s : Session J) (a : Unit {0})
      → (drop_reverse n s).0 ≡ returned a
      → Left s.collection.id_map
          (assoc_remove n s.collection.reverse_id_map)
          s.next_doc_id
          (drop_reverse n s).1.collection.id_map
          (drop_reverse n s).1.collection.reverse_id_map
          (drop_reverse n s).1.next_doc_id
  unfolding drop_reverse index_remove
  drop_reverse-Left n s a h =
      let (b, first, same) =
        then-returned (ignored (index_remove p n s).0) (λ x. change (without_reverse p n))
          (index_remove p n s).1 a h in
      subst
        (λ (r : Reply (Unit {0}) × Session J).
          Left s.collection.id_map (assoc_remove n s.collection.reverse_id_map) s.next_doc_id
            r.1.collection.id_map r.1.collection.reverse_id_map r.1.next_doc_id)
        (sym same) (refl, refl, refl)

  delete_vector-Left :
      (id : String) (n : ℕ) (s : Session J) (a : Unit {0})
      → (delete_vector p id (some n) s).0 ≡ returned a
      → Left s.collection.id_map
          (assoc_remove n s.collection.reverse_id_map)
          s.next_doc_id
          (delete_vector p id (some n) s).1.collection.id_map
          (delete_vector p id (some n) s).1.collection.reverse_id_map
          (delete_vector p id (some n) s).1.next_doc_id
  unfolding delete_vector drop_reverse bury
  delete_vector-Left id n s a h =
      let (b, first, same) =
        then-returned (drop_reverse n s).0 (λ x. bury id) (drop_reverse n s).1 a h in
      let kept =
        Left s.collection.id_map (assoc_remove n s.collection.reverse_id_map) s.next_doc_id in
      subst
        (λ (r : Reply (Unit {0}) × Session J).
          kept r.1.collection.id_map r.1.collection.reverse_id_map r.1.next_doc_id)
        (sym same)
        (if-Preserves p kept (drop_reverse n s).1.collection.persistent
          (ignore (write_vector_cell (tombstone p id))) (pure tt) (drop_reverse n s).1
          (remove_vector-Preserves p kept (tombstone p id)) (λ t maps. maps)
          (drop_reverse-Left n s b first))

  -- The session behind the first two steps.
  dropped-Maps :
      (id : String) (o : Option ℕ) (s : Session J) (a : Unit {0})
      → lookup id s.collection.id_map ≡ o
      → Maps s
      → (delete_vector p id o s).0 ≡ returned a
      → Inverse
          (assoc_remove id (delete_vector p id o s).1.collection.id_map)
          (delete_vector p id o s).1.collection.reverse_id_map
          (delete_vector p id o s).1.next_doc_id
  dropped-Maps id none s a e maps h =
      unfold delete_vector in
      absent-Inverse s.collection.id_map s.collection.reverse_id_map s.next_doc_id id maps e
  dropped-Maps id (some n) s a e maps h =
      let (idm, rev, next) = delete_vector-Left id n s a h in
      rw (idm, rev, next)
        (gone-Inverse s.collection.id_map s.collection.reverse_id_map s.next_doc_id n id maps e)

  Unmapped : String → List (String × ℕ) → List (ℕ × String) → ℕ → Type 0
  Unmapped id idm rev next = Inverse idm rev next × (lookup id idm ≡ none)

  lookup-gone : (id : String) (idm : List (String × ℕ)) → lookup id (assoc_remove id idm) ≡ none
  lookup-gone id idm = rw (lookup-remove id id idm, beq_self id) refl

  drop_id : String → Option ℕ → Op J (Unit {0})
  drop_id id o = delete_vector p id o >> change (without_id p id)

  drop_id-Unmapped :
      (id : String) (s : Session J) (a : Unit {0})
      → Maps s
      → (drop_id id (lookup id s.collection.id_map) s).0 ≡ returned a
      → Unmapped id
          (drop_id id (lookup id s.collection.id_map) s).1.collection.id_map
          (drop_id id (lookup id s.collection.id_map) s).1.collection.reverse_id_map
          (drop_id id (lookup id s.collection.id_map) s).1.next_doc_id
  unfolding drop_id Unmapped
  drop_id-Unmapped id s a maps h =
      let o = lookup id s.collection.id_map in
      let (b, first, same) =
        then-returned (delete_vector p id o s).0 (λ x. change (without_id p id))
          (delete_vector p id o s).1 a h in
      subst
        (λ (r : Reply (Unit {0}) × Session J).
          Unmapped id r.1.collection.id_map r.1.collection.reverse_id_map r.1.next_doc_id)
        (sym same)
        (
          dropped-Maps id o s b refl maps first,
          lookup-gone id (delete_vector p id o s).1.collection.id_map,
        )

  -- Where delete returns, the maps of ids are inverse to each other again and the document has no
  -- internal id.
  pub delete-Maps :
      (id : String) (s : Session J)
      → Maps s
      → (delete p id s).0 ≡ returned tt
      → Maps (delete p id s).1 × (lookup id (delete p id s).1.collection.id_map ≡ none)
  unfolding delete Unmapped drop_id
  delete-Maps id s maps h =
      let o = lookup id s.collection.id_map in
      let (b, first, same) =
        then-returned (drop_id id o s).0 (λ x. delete_metadata p id) (drop_id id o s).1 tt h in
      subst
        (λ (r : Reply (Unit {0}) × Session J).
          Unmapped id r.1.collection.id_map r.1.collection.reverse_id_map r.1.next_doc_id)
        (sym same)
        (delete_metadata-Preserves p (Unmapped id) id (drop_id id o s).1
          (drop_id-Unmapped id s b maps first))
