-- ===== src/Index/Hnsw.antt =====
-- crates/vexra-index/src/hnsw: the graph of the approximate index, its nodes and its search.
pub mod Run
mod Tests
pub mod Node
pub mod Beam
pub mod Graph
pub mod Links
