-- ===== src/Index.antt =====
-- crates/vexra-index/src/lib.rs and error.rs: search results and errors. Below it
-- are the flat index and the nodes of the HNSW graph.
pub mod Flat
pub mod Hnsw
mod Tests
use embeddb.Base.{ℕ}

pub data IndexError : Type 0 where
  dimension_mismatch : ℕ → ℕ → IndexError
  vector_not_found : ℕ → IndexError
  empty_index : IndexError
  invalid_parameter : IndexError
  storage : IndexError

-- A score is an f32, here any type `F`.
pub record SearchResult (F : Type 0) : Type 0 where
  pub id : ℕ
  pub score : F
