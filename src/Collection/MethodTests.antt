-- ===== src/Collection/MethodTests.antt =====
-- The methods of a collection at concrete inputs: one id that is text, the first components' distance,
-- and JSON values that are numbers of one byte.
use Prim.Native.String.{String}
use embeddb.Base.{
  true, ℕ, ◌+◌, ◌-◌, ◌≡◌, refl, false, Option, none, some, List, [], ◌∷◌, ◌++◌, if◌then◌else◌, ltb,
  arith,
}
use embeddb.Base.Assoc.{nat_key, string_key, lookup}
use embeddb.Index.Flat
use embeddb.Index.Flat.{FlatIndex}
use embeddb.Index.Hnsw.Beam.Rank.{Orders}
use embeddb.Metadata.Filter.{JsonOps}
use embeddb.Metadata.Store
use embeddb.Metadata.Store.{MetadataStore}
use embeddb.Collection.Cells.{make_tombstone_cell, encode_vector_cell}
use embeddb.Collection.Config.{DistanceMetric, with_vector_and_metadata}
use embeddb.Collection.Backend.{IndexBackend, flat_index}
use embeddb.Collection.Backend
use embeddb.Collection.Session.{Session, returned}
use embeddb.Collection.Methods.{
  Platform, insert, delete, get_metadata, delete_vector, delete_metadata, metadata_remove,
  index_remove,
}
use embeddb.Collection.Loading.{load_page, load_metadata_cells}
use embeddb.Collection.Ids.{Maps}
use embeddb.Collection.IdMaps.{insert-Maps, delete-Maps}
use embeddb.Metadata.Store.{get}
use embeddb.Collection.Reload.{insert_delete, load_metadata-tombstone, load_page-tombstone}
use embeddb.Collection.Inserting.{InMemory, insert-document, doc_vector}

abbrev test_bytes : String → List ℕ
test_bytes s = 97 ∷ []

abbrev test_text : List ℕ → Option String
test_text bytes = some "a"

abbrev byte_of : ℕ → List ℕ
byte_of j = j ∷ []

abbrev value_of : List ℕ → Option ℕ
value_of (j ∷ []) = some j
value_of _ = none

abbrev first_distance : DistanceMetric → List ℕ → List ℕ → ℕ
first_distance metric (a ∷ v) (b ∷ w) = (a - b) + (b - a)
first_distance metric _ _ = 0

abbrev test_json : JsonOps ℕ ℕ
test_json = record {
  field_of = λ j s. none;
  as_f64 = λ j. none;
  as_str = λ j. none;
  json_eq = λ i j. false;
  lt = ltb;
  str_contains = λ s t. false;
}

abbrev platform : Platform ℕ ℕ
platform = record {
  as_bytes = test_bytes;
  from_utf8 = test_text;
  doc_name = λ n. "doc";
  unknown_name = λ n. "unknown";
  to_vec = byte_of;
  from_slice = value_of;
  compute = first_distance;
  lt = ltb;
  total_lt = ltb;
  level = λ n. 0;
  json = test_json;
  parser = record {
    trim = λ b. b;
    to_text = λ b. "a";
    json_string = λ s. 0;
    json_number = λ n. n;
    parse_f64 = λ b. none;
    is_whole = λ n. true;
    minus_epsilon = λ n. n;
    plus_epsilon = λ n. n;
  };
}

ltb-Orders : Orders ltb ltb
ltb-Orders = record {
  order = record { asym = λ a b h. ground arith; trans = λ a b c h k. ground arith };
  within = λ a b h. h;
}

-- One document with internal id 3, in memory.
abbrev one_document : Session ℕ
one_document = record {
  collection = record {
    config = record {
      name = "docs";
      dimension = 1;
      distance = DistanceMetric.cosine;
      description = "";
      data_root_page = 0;
      data_pages = [];
      metadata_root_page = 0;
      metadata_pages = [];
      hnsw_edge_page = 0;
      index_type = "flat";
    };
    index = flat_index (record { vectors = (3, 7 ∷ []) ∷ []; dimension = 1 });
    metadata = record { entries = []; collection_name = "docs" };
    id_map = ("a", 3) ∷ [];
    reverse_id_map = (3, "a") ∷ [];
    persistent = false;
  };
  cache = record { page_size = 4096; max_pages = 8; pages = []; file = [] };
  next_doc_id = 4;
  draws = 0;
}

one-Maps : Maps one_document
unfolding lookup
one-Maps = record {
  forward = λ id n h. ground (arith, string_key.beq_iff "a" id, h);
  backward = λ id n h. ground (arith, string_key.beq_iff "a" id, h);
  fresh = λ id n h. ground (arith, string_key.beq_iff "a" id, h);
}

insert-Maps_example :
    Maps (insert platform (with_vector_and_metadata "b" (9 ∷ []) 5) one_document).1
insert-Maps_example =
    insert-Maps platform (with_vector_and_metadata "b" (9 ∷ []) 5) one_document one-Maps

delete_one : (delete platform "a" one_document).0 ≡ returned tt
unfolding delete delete_vector delete_metadata metadata_remove index_remove lookup Backend.remove
    Store.remove Flat.remove Flat.find_idx Flat.position
delete_one = refl

delete-Maps_example :
    Maps (delete platform "a" one_document).1
    × (lookup "a" (delete platform "a" one_document).1.collection.id_map ≡ none)
delete-Maps_example = delete-Maps platform "a" one_document one-Maps delete_one

insert-document_example :
    (u : Session ℕ) × (insert platform (with_vector_and_metadata "b" (9 ∷ []) 5) one_document
      ≡ (returned "b", u))
    × ((id : String)
        → doc_vector u.collection id ≡ (
            if string_key.beq "b" id then some (9 ∷ []) else doc_vector one_document.collection id))
    × ((id : String)
        → get_metadata platform u.collection id ≡ (
            if string_key.beq "b" id
            then some 5
            else get_metadata platform one_document.collection id))
    × InMemory platform u
insert-document_example =
    insert-document platform ltb-Orders one_document "b" (9 ∷ []) 5
      (record { maps = one-Maps; fits = refl; memory = refl }) refl

load_metadata-tombstone_example :
    let loaded = load_metadata_cells platform ([] ++ insert_delete platform "a" 5) one_document in
    (loaded.0 ≡ returned tt)
    × ((j : String)
        → get loaded.1.collection.metadata j ≡ (
            if string_key.beq "a" j
            then some (record { id = "a"; metadata = 5 })
            else get (load_metadata_cells platform [] one_document).1.collection.metadata j))
load_metadata-tombstone_example =
    load_metadata-tombstone platform "a" 5 [] one_document (omega arith) refl refl refl

load_page-tombstone_example :
    lookup "a"
      (load_page platform
        ((some (encode_vector_cell (97 ∷ []) 3 (7 ∷ [])) ∷ [])
          ++ some (make_tombstone_cell (97 ∷ []))
            ∷ some (encode_vector_cell (97 ∷ []) 4 (8 ∷ []))
            ∷ [])
        one_document).1.collection.id_map
    ≡ lookup "a" one_document.collection.id_map
load_page-tombstone_example =
    load_page-tombstone platform "a" (some (encode_vector_cell (97 ∷ []) 3 (7 ∷ [])) ∷ [])
      (some (encode_vector_cell (97 ∷ []) 4 (8 ∷ [])) ∷ []) one_document (omega arith) refl
