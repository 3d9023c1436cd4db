-- ===== src/Metadata/Store.antt =====
-- crates/vexra-metadata/src/store.rs: metadata by document id.
use Prim.Native.String.{String}
use embeddb.Base.{
  map, ℕ, ◌≡◌, refl, Bool, true, false, Option, none, some, List, [], ◌∷◌, ◌==◌, if◌then◌else◌,
  length, ◌⊎◌, inl, inr, Option-cases,
}
use embeddb.Base.Assoc.{
  string_key, lookup, remove-Distinct, Distinct, lookup-insert, lookup-remove, insert-Distinct,
}
use embeddb.Base.Assoc.{insert as assoc_insert, remove as assoc_remove}
use embeddb.Base.Outcome.{Outcome, ok, err}
use embeddb.Metadata.{MetadataError, document_not_found}

pub record MetadataEntry (J : Type 0) : Type 0 where
  pub id : String
  pub metadata : J

pub record MetadataStore (J : Type 0) : Type 0 where
  pub entries : List (String × MetadataEntry J)
  pub collection_name : String

module _ {J : Type 0} where
  unfoldable pub new : String → MetadataStore J
  new collection_name = record { entries = []; collection_name = collection_name }

  unfoldable pub insert :
      MetadataStore J → String → J → Outcome MetadataError (Unit {0}) × MetadataStore J
  insert store id metadata = (
    ok tt,
    record store {
      entries = assoc_insert id (record { id = id; metadata = metadata }) store.entries;
    },
  )

  unfoldable pub get : MetadataStore J → String → Option (MetadataEntry J)
  get store id = lookup id store.entries

  abbrev pub remove_found :
      MetadataStore J
      → String
      → Option (MetadataEntry J)
      → Outcome MetadataError (Unit {0}) × MetadataStore J
  remove_found store id none = (err (document_not_found id), store)
  remove_found store id (some entry) =
      (ok tt, record store { entries = assoc_remove id store.entries })

  unfoldable pub remove :
      MetadataStore J → String → Outcome MetadataError (Unit {0}) × MetadataStore J
  remove store id = remove_found store id (lookup id store.entries)

  unfoldable pub all : MetadataStore J → List (MetadataEntry J)
  all store = map (λ e. e.1) store.entries

  unfoldable pub all_ids : MetadataStore J → List String
  all_ids store = map (λ e. e.0) store.entries

  unfoldable pub len : MetadataStore J → ℕ
  len store = length store.entries

  unfoldable pub is_empty : MetadataStore J → Bool
  is_empty store = length store.entries == 0

  abbrev pub is_some : Option (MetadataEntry J) → Bool
  is_some none = false
  is_some (some entry) = true

  unfoldable pub contains : MetadataStore J → String → Bool
  contains store id = is_some (lookup id store.entries)

  unfoldable pub filter_entries :
      (MetadataEntry J → Bool) → List (String × MetadataEntry J) → List (MetadataEntry J)
  filter_entries predicate [] = []
  filter_entries predicate ((id, entry) ∷ rest) =
      let others = filter_entries predicate rest in
      if predicate entry then entry ∷ others else others

  unfoldable pub filter : MetadataStore J → (MetadataEntry J → Bool) → List (MetadataEntry J)
  filter store predicate = filter_entries predicate store.entries

  -- Every key has one entry.
  abbrev pub WellFormed : MetadataStore J → Type 0
  WellFormed store = Distinct store.entries

  -- `insert` stores the entry under its id, in place of the one there, every other document keeps its
  -- entry, and every key still has one entry.
  pub insert-get :
      (store : MetadataStore J) (id : String) (metadata : J)
      → WellFormed store
      → ((j : String)
          → get (insert store id metadata).1 j ≡ (
              if string_key.beq id j
              then some (record { id = id; metadata = metadata })
              else get store j))
        × WellFormed (insert store id metadata).1
  unfolding insert get
  insert-get store id metadata wf = (
    (λ j. lookup-insert id j (record { id = id; metadata = metadata }) store.entries),
    insert-Distinct id (record { id = id; metadata = metadata }) store.entries wf,
  )

  remove-eq :
      (store : MetadataStore J) (id : String) (o : Option (MetadataEntry J))
      → lookup id store.entries ≡ o
      → remove store id ≡ remove_found store id o
  unfolding remove
  remove-eq store id o h = rw h refl

  -- In a store with one entry per key, remove of a missing document is refused and changes nothing;
  -- of one that is there it returns, takes out its entry and no other, and every key still has one entry.
  pub remove-get :
      (store : MetadataStore J) (id : String)
      → WellFormed store
      → ((get store id ≡ none) × (remove store id ≡ (err (document_not_found id), store)))
        ⊎ (((entry : MetadataEntry J) × (get store id ≡ some entry))
            × ((remove store id).0 ≡ ok tt)
            × ((j : String)
                → get (remove store id).1 j ≡ (if string_key.beq id j then none else get store j))
            × WellFormed (remove store id).1)
  unfolding get
  remove-get store id wf = elim (Option-cases (lookup id store.entries)) [
    | inl gone ↦ inl (gone, remove-eq store id none gone)
    | inr (entry, here) ↦ inr (
        rw (remove-eq store id (some entry) here) (
          (entry, here),
          refl,
          (λ j. lookup-remove id j store.entries),
          remove-Distinct id store.entries wf,
        ))
  ]
