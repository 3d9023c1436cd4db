-- ===== src/Collection.antt =====
-- crates/vexra-core/src/collection.rs and config.rs: a collection, the cells in which it keeps its
-- documents, and its index.
pub mod Cells
pub mod Config
pub mod Backend
pub mod Session
pub mod Methods
pub mod Searching
pub mod Loading
pub mod Ids
pub mod IdMaps
pub mod Reload
pub mod View
pub mod Inserting
mod MethodTests
mod Tests
