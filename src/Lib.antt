-- ===== src/Lib.antt =====
-- Vexra (embeddb), an embedded vector database: its storage engine, its metadata, its exact and its
-- HNSW index, and the collections that put these together.
--
-- The program. A database is one file of pages of one size, `page_size` bytes each. Page 0 starts with
-- the database header; the other pages are slotted: a page header of 16 bytes, an array of cell
-- pointers (offset and length) that grows upward, and from byte 1040 on the cells' data. The page
-- cache holds pages in memory, marks the ones that were written as dirty, evicts clean ones and
-- writes dirty ones back. The write-ahead log is a second file, a header and frames, each a page
-- number, two salted checksums and the page; a checkpoint, or a recovery after a crash, writes the
-- frames into the database file. A collection keeps its vectors in an index, by an internal id for each document; the flat index scores
-- every vector and sorts, the HNSW graph walks from an entry point through layers of linked nodes. A
-- collection with a page cache writes a cell for every insert and a tombstone for every delete, and is
-- loaded from these cells when the database is opened. The database has its collections by name, and
-- a catalog page with the text of each collection's configuration.
--
-- The files.
--   Base: names shared by all, Boolean tests (Base/Tests), lists with native lengths (Base/Lists),
--     byte buffers and little-endian numbers (Base/Bytes, Base/Writes), the outcome of a Rust call, a
--     value, an error or a panic (Base/Outcome), and hash maps as association lists (Base/Assoc).
--   Storage/Encoding: crates/vexra-storage/src/encoding.rs, the u32 and u64 helpers.
--   Storage/Error: crates/vexra-storage/src/error.rs.
--   Storage/Format: crates/vexra-storage/src/format.rs, page headers and cell pointers; the database
--     header is in Storage/Format/DbHeader. Proofs: Storage/Format/Laws, PageChecks, DbHeader/Laws.
--   Storage/Cache and Storage/Cache/Write: crates/vexra-storage/src/page_cache.rs. `PageCache` has
--     the cached pages and the bytes of the file; an operation is a function from the cache to an
--     outcome and a cache, with a do block where the code uses `?`. Proofs: Storage/Cache/Pages (what
--     callers see of a page), Reads, Cells (a page as a list of cells), Appends, Disk, Flush.
--   Storage/Wal: crates/vexra-storage/src/wal.rs. `WalManager` has the bytes of its open file
--     (`handle`) and the bytes under the log's path (`stored`), since the log outlives the process;
--     `checkpoint` and `recover` also take and give the database file. Proofs: Storage/Wal/Frames
--     (the reading loop), Reading (a whole log), Replay (writing frames), Recovery, Appends, Salts.
--   Index: crates/vexra-index/src/lib.rs and error.rs; Index/Flat: crates/vexra-index/src/flat.rs,
--     its vectors as a list of pairs. Proofs: Index/Flat/Search, Index/Flat/Updates.
--   Index/Hnsw/Node: crates/vexra-index/src/hnsw/node.rs. Proofs: Index/Hnsw/Links. Index/Hnsw/Beam:
--     `search_layer` of graph.rs, its heaps as sorted lists. Proofs: Index/Hnsw/Beam/Rank (a bound on
--     the rounds), Offers, Loop (the search ends), Best. Index/Hnsw/Graph: the other operations of
--     graph.rs, which give a `Run` (Index/Hnsw/Run): a value, an error, or out of fuel; its page format
--     is in Index/Hnsw/Graph/Pages. Proofs: Index/Hnsw/Graph/View (the graph as a map from ids to
--     vectors), Removes, Moves, Inserts, Degrees, Searches, Nearest, Loads.
--   Metadata/Store, Metadata/Filter: crates/vexra-metadata/src/store.rs and the filters and
--     `evaluate` of filter.rs; Metadata/Parser: `Filter::parse` on the bytes of a text. Proofs:
--     Metadata/Parser/Ends. Metadata has the errors of error.rs.
--   Collection/Cells: the cell formats of crates/vexra-core/src/collection.rs; an id is its bytes, an
--     f32 its 32 bits. Proofs: Collection/Cells/Laws. Collection/Config: config.rs. Collection/Backend:
--     `IndexBackend`. Collection/Session: the collection with the page cache and the counters that it
--     works on; a method is a function from a session to a reply and a session, also where it fails.
--     Collection/Methods: `insert` and `delete`; Searching: `search`; Loading: `new_persistent` and
--     what it loads. Proofs: Collection/Ids and IdMaps (the maps of ids), View and Inserting (a
--     collection as a map), Reload (tombstones).
--   Database: crates/vexra-core/src/db.rs, its state and its calls of the storage; Database/Catalog: the
--     catalog, creating and dropping collections, opening. Proofs: Database/Names.
-- Theorems at concrete inputs stand in the modules called Tests.
--
-- Numbers are natural numbers; a cast to a u16 or u32 is written `% 2 ^ w`, a sum that overflows and
-- a slice out of range are a panic. A file write behind the end fills the gap with zeros.
--
-- Fuel. `read_frames_from` runs on fuel, the file's length and one, and each frame takes at least 28
-- bytes, so it does not run out. `search_loop` has fuel for 2 * (ef * (n + 1) + n) + 2 rounds over n
-- nodes: each round takes a candidate, and each candidate that comes in lowers, by at least one, the sum
-- of the ranks of the results, the free places counted as n + 1 each; Index/Hnsw/Beam/Loop shows that it
-- is enough. `parse` has fuel for each byte of the text and one more: both sides of an operator are
-- shorter than the text. The other loops recur on a list.
--
-- Parameters. The CRC-32 of the crc32fast crate is a function on bytes, with 32-bit values where a
-- proof needs it; the random salts, the levels of HNSW nodes and the clock are arguments. f32, its `<`
-- and its `total_cmp`, and the distance of a metric, are arguments of the indexes; a proof asks that
-- `total_cmp` is a total order and that `<` is part of it. UTF-8, the text of numbers, and the
-- serde_json crate's writer, reader and values are arguments of the cells, the collection, the catalog
-- and the filters, f64 and the trimming of white space of the filters.
--
-- Left out: locks (an operation is one step), I/O errors other than a missing or short file, error
-- texts, and the bytemuck casts of encoding.rs; the SIMD kernels of
-- crates/vexra-index/src/distance.rs; `HnswBuilder`, which only calls the graph; fusion and BM25
-- (crates/vexra-query); the statistics of a database; the server, the command line, the bindings and
-- the embedding models.
pub mod Base
pub mod Collection
pub mod Database
pub mod Index
pub mod Metadata
pub mod Storage
