-- ===== src/Collection/Config.antt =====
-- crates/vexra-core/src/config.rs: the configuration of a collection, documents, queries and hits. A
-- vector is a list of the f32 bits, JSON values are a type `J`.
use Prim.Native.String.{String}
use embeddb.Base.{ℕ, Bool, true, false, Option, none, some, List, []}

-- `DistanceMetric` of crates/vexra-index/src/lib.rs.
pub data DistanceMetric : Type 0 where
  cosine : DistanceMetric
  euclidean : DistanceMetric
  dot_product : DistanceMetric

pub record CollectionConfig : Type 0 where
  pub name : String
  pub dimension : ℕ
  pub distance : DistanceMetric
  pub description : String
  pub data_root_page : ℕ
  pub data_pages : List ℕ
  pub metadata_root_page : ℕ
  pub metadata_pages : List ℕ
  pub hnsw_edge_page : ℕ
  pub index_type : String

unfoldable pub new : String → ℕ → CollectionConfig
new name dimension = record {
  name = name;
  dimension = dimension;
  distance = cosine;
  description = "";
  data_root_page = 0;
  data_pages = [];
  metadata_root_page = 0;
  metadata_pages = [];
  hnsw_edge_page = 0;
  index_type = "flat";
}

pub record Document (J : Type 0) : Type 0 where
  pub id : Option String
  pub vector : Option (List ℕ)
  pub metadata : Option J
  pub text : Option String

unfoldable pub with_vector : {J : Type 0} → String → List ℕ → Document J
with_vector id vector = record { id = some id; vector = some vector; metadata = none; text = none }

unfoldable pub with_vector_and_metadata : {J : Type 0} → String → List ℕ → J → Document J
with_vector_and_metadata id vector metadata = record {
  id = some id;
  vector = some vector;
  metadata = some metadata;
  text = none;
}

unfoldable pub with_text : {J : Type 0} → String → String → Document J
with_text id text = record { id = some id; vector = none; metadata = none; text = some text }

pub record SearchQuery : Type 0 where
  pub vector : Option (List ℕ)
  pub text : Option String
  pub filter : Option String
  pub top_k : ℕ
  pub include_vectors : Bool
  pub include_metadata : Bool

unfoldable pub query_with_vector : List ℕ → ℕ → SearchQuery
query_with_vector vector top_k = record {
  vector = some vector;
  text = none;
  filter = none;
  top_k = top_k;
  include_vectors = false;
  include_metadata = true;
}

pub record SearchHit (J : Type 0) : Type 0 where
  pub id : String
  pub score : ℕ
  pub vector : Option (List ℕ)
  pub metadata : Option J
