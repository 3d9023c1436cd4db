-- ===== src/Database/Tests.antt =====
-- The map of collections at concrete inputs: a database whose file has no page.
use Prim.Native.String.{String}
use embeddb.Base.{ℕ, ◌≡◌, ◌⊎◌, true, false, Option, none, some, List, [], ◌∷◌, if◌then◌else◌, ltb}
use embeddb.Base.Assoc.{string_key, lookup}
use embeddb.Metadata.Filter.{JsonOps}
use embeddb.Collection.Config.{CollectionConfig, DistanceMetric}
use embeddb.Collection.Backend.{flat_index}
use embeddb.Collection.Session.{
  Collection, returned, failed, collection_not_found, collection_already_exists,
}
use embeddb.Collection.Methods.{Platform}
use embeddb.Database.{Database}
use embeddb.Database.Catalog.{create_collection, drop_collection}
use embeddb.Database.Names.{create_collection-view, drop_collection-view}

abbrev bare_json : JsonOps ℕ ℕ
bare_json = record {
  field_of = λ j s. none;
  as_f64 = λ j. none;
  as_str = λ j. none;
  json_eq = λ i j. false;
  lt = ltb;
  str_contains = λ s t. false;
}

abbrev bare_platform : Platform ℕ ℕ
bare_platform = record {
  as_bytes = λ s. 97 ∷ [];
  from_utf8 = λ b. some "a";
  doc_name = λ n. "doc";
  unknown_name = λ n. "unknown";
  to_vec = λ j. j ∷ [];
  from_slice = λ b. none;
  compute = λ m v w. 0;
  lt = ltb;
  total_lt = ltb;
  level = λ n. 0;
  json = bare_json;
  parser = record {
    trim = λ b. b;
    to_text = λ b. "a";
    json_string = λ s. 0;
    json_number = λ n. n;
    parse_f64 = λ b. none;
    is_whole = λ n. true;
    minus_epsilon = λ n. n;
    plus_epsilon = λ n. n;
  };
}

abbrev config_named : String → CollectionConfig
config_named name = record {
  name = name;
  dimension = 1;
  distance = DistanceMetric.cosine;
  description = "";
  data_root_page = 0;
  data_pages = [];
  metadata_root_page = 0;
  metadata_pages = [];
  hnsw_edge_page = 0;
  index_type = "flat";
}

abbrev docs : Collection ℕ
docs = record {
  config = config_named "docs";
  index = flat_index (record { vectors = []; dimension = 1 });
  metadata = record { entries = []; collection_name = "docs" };
  id_map = [];
  reverse_id_map = [];
  persistent = true;
}

abbrev one_collection : Database ℕ
one_collection = record {
  cache = record { page_size = 4096; max_pages = 8; pages = []; file = [] };
  wal = record {
    page_size = 4096;
    sequence = 0;
    salt1 = 1;
    salt2 = 2;
    frame_count = 0;
    checkpoint_threshold = 1000;
    handle = none;
    stored = none;
  };
  collections = ("docs", docs) ∷ [];
  next_doc_id = 1;
  draws = 0;
}

abbrev no_crc : List ℕ → ℕ
no_crc bytes = 0

abbrev config_text : CollectionConfig → Option (List ℕ)
config_text config = some (123 ∷ [])

abbrev config_of : List ℕ → Option CollectionConfig
config_of bytes = none

create_collection-view_example :
    ((c : Collection ℕ) × (lookup "notes" one_collection.collections ≡ some c)
      × (create_collection bare_platform no_crc config_text config_of
            (config_named "notes")
            one_collection
          ≡ (failed (collection_already_exists "notes"), one_collection)))
    ⊎ ((lookup "notes" one_collection.collections ≡ none)
        × ((j : String)
            → string_key.beq "notes" j ≡ false
            → lookup j
                (create_collection bare_platform no_crc config_text config_of
                  (config_named "notes")
                  one_collection).1.collections
              ≡ lookup j one_collection.collections)
        × ((create_collection bare_platform no_crc config_text config_of
                (config_named "notes")
                one_collection).0
              ≡ returned tt
            → (c : Collection ℕ) × (lookup "notes"
                  (create_collection bare_platform no_crc config_text config_of
                    (config_named "notes")
                    one_collection).1.collections
                ≡ some c)))
create_collection-view_example =
    create_collection-view bare_platform no_crc config_text config_of (config_named "notes")
      one_collection

drop_collection-view_example :
    ((lookup "docs" one_collection.collections ≡ none)
      × (drop_collection bare_platform no_crc config_text config_of "docs" one_collection
          ≡ (failed (collection_not_found "docs"), one_collection)))
    ⊎ ((c : Collection ℕ) × (lookup "docs" one_collection.collections ≡ some c)
        × ((j : String)
            → lookup j
                (drop_collection bare_platform no_crc config_text config_of "docs"
                  one_collection).1.collections
              ≡ (if string_key.beq "docs" j then none else lookup j one_collection.collections)))
drop_collection-view_example =
    drop_collection-view bare_platform no_crc config_text config_of "docs" one_collection
