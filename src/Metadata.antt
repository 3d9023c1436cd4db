-- ===== src/Metadata.antt =====
-- crates/vexra-metadata/src: the metadata of documents and the filters on it. JSON values are a type
-- `J`, with the operations of the serde_json crate that the code calls as arguments.
pub mod Store
pub mod Filter
pub mod Parser
mod Tests
use Prim.Native.String.{String}

pub data MetadataError : Type 0 where
  collection_not_found : String → MetadataError
  document_not_found : String → MetadataError
  invalid_filter : String → MetadataError
  storage : String → MetadataError
  serialization : String → MetadataError
