-- ===== src/Lib.antt =====
-- UKV: the core of a transactional key-value store and of its in-memory engine.
--
-- The program and its parts. A database keeps pairs of a collection key and a value in one ordered
-- set, and a map of names of collections. The C functions of src/engine_umem.cpp take batches of
-- arguments as strided arrays, validate them, run every task on the set or on a transaction, and
-- export their outputs into memory that the caller's arena owns. The helpers supply the arenas,
-- the algorithms over ranges, and the bounded queue of matches. The modalities of graphs, paths and
-- vectors store their entries as values of any engine, through its reads, writes and scans.
--
-- * Types models include/ukv/cpp/types.hpp: `collection_key_t` is `CollectionKey`, `neighborship_t`
--   is `Neighborship`, with their orders, the roles of vertices and the roundings. A signed 64-bit
--   key k stands as k + 2 ^ 63, so that the order of numbers is the order of keys.
-- * Ranges models the algorithms of include/ukv/cpp/ranges.hpp and src/helpers/algorithm.hpp.
--   A buffer is the list of its slots, and what `std::memmove` does to it is written out.
-- * PriorityQueue models src/helpers/limited_priority_queue.hpp, its loop slot by slot.
-- * Memory models src/helpers/linked_memory.hpp: `Arena` is `arena_header_t` with its address, a
--   chain is a list of arenas, and `system` stands for `std::malloc` and `mmap`. Blocks are ranges
--   of addresses, and sums of addresses and sizes wrap at 2 ^ 64. Arenas lie in the lower half
--   of the addresses, as the memory of a process does.
-- * Arguments models include/ukv/cpp/ranges_args.hpp: a strided iterator is the function that its
--   `operator[]` computes, and `none` if it is null. A content of the missing length is missing. The errors are those of src/helpers and of the
--   engine, without their texts.
-- * Umem models src/engine_umem.cpp. Umem.ConsistentSet is the interface of the ordered set, whose
--   library (`ucset`) is no part of the repository: operations with laws about its ordered content.
--   Umem.Scan has `find_and_watch`, `scan_and_watch` and `scan_full`; Umem.Blobs has `ukv_read`,
--   `ukv_write` and `ukv_scan`; Umem.Collections has the creation, the removal and the listing of
--   named collections. A transaction is a state with operations that may fail.
-- * Graph models the entries of vertices of src/modality_graph.cpp: an `Entry` has the two degrees,
--   the slots behind them, and its length in bytes; degrees and lengths wrap at 2 ^ 32.
--   `entry_of` is the entry that holds two given ranges. Graph.Batches has what `update_neighborhoods`
--   makes of the entries that it has read, in its three passes or in the one that erases.
-- * LinkedArray models `uninitialized_array_gt` of src/helpers/linked_array.hpp: its slots with the
--   size and the capacity, both of 32 bits. The arena is a function that gives fresh slots.
-- * Paths models src/modality_paths.cpp. A bucket is the list of its bytes, with its counters as
--   32-bit words; Paths.Bucket reads, changes and shortens it, Paths.Batch has `ukv_paths_write` and
--   `ukv_paths_read`, and Paths.Matching has `ukv_paths_match`. Paths.Batch.Engine is the interface of
--   the engine below: a state with the value at every key, reads and writes of batches. `hash`
--   stands for `std::hash`, and `compile` for the library of regular expressions.
--   Paths.Batch.OverUmem is Umem as such an engine.
-- * Vectors models src/modality_vectors.cpp: `quantum` and `metric` stand for its floating-point
--   arithmetic. Vectors.Mirrors is about the write, Vectors.Matches about the search.
-- * Docs models src/modality_docs.cpp. A value of a document is a `Json`, which is what the JSON
--   library tells of it; the parsers, the lookups and the floating-point conversions are parameters.
--   Docs.Numbers and Docs.Columns have the scalars and the texts of values and the columns that they
--   are written to, Docs.Gather the tape and the loops of `ukv_docs_gather`, Docs.Gist the paths of
--   `ukv_docs_gist`, and Docs.Updates has `read_modify_write` over Docs.Updates.Store, an engine
--   whose reads export values; Docs.Updates.OverUmem is Umem as such a store. Docs.Modify has
--   `any_parse`, `modify_field` and `ukv_docs_write`, with the trees of the library as operations
--   of the record Docs.Modify.Trees. A bitmap is the list of
--   its bits, and a callback of the modification gives the document that it puts on the tape.
-- * FullScan models `full_scan_collection` of src/helpers/full_scan.hpp, over an engine with scans,
--   FullScan.ScannedEngine; FullScan.OverUmem is Umem as such an engine.
-- * Prelude has the shared names, tests on numbers and lemmas on lists. Examples applies the
--   theorems at concrete inputs, with an ordered list as the set.
--
-- Bounds and fuel. `scan_and_watch` and `scan_full` run on fuel, one unit for a call of
-- `upper_bound`: more units than the set has pairs are enough, as each but the last finds a further
-- pair. `new_collection` runs on the list of its random draws. `bit_length` runs on the 64
-- bits of a word. A full scan takes one unit for a portion; every portion but the last has two keys
-- or more, so that one unit more than there are keys is enough. The digits of a number of 64 bits
-- take a unit each, of which there are twenty. All other loops are recursions on
-- their lists or on a distance.
--
-- Not modelled: the mutexes (every operation is one step), the files and the snapshots, the bytes of
-- the output tapes, samples, measures, the commit of transactions, the exports and the vertices of
-- whole batches of the graph, the sums of the metrics, the patches and the reads of documents, the
-- prints of BSON and MsgPack documents as JSON, the engines over
-- LevelDB and RocksDB, the network servers and clients, the wrappers and the bindings.
pub mod Prelude
pub mod Types
pub mod Ranges
pub mod PriorityQueue
pub mod Memory
pub mod Docs
pub mod Arguments
pub mod Umem
pub mod LinkedArray
pub mod Graph
pub mod Paths
pub mod Vectors
pub mod FullScan
pub mod Examples
