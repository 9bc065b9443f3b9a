-- ===== src/Lib.antt =====
-- VertexDB is a small SQL database: a parser, a planner and an execution engine over tables, which keep
-- their rows in a row store, their versions in a version store and their keys in indexes; a transaction
-- manager gives out snapshots and decides commits, an undo log compensates a rollback, and a write-ahead
-- log is replayed after a crash. This library models the parts below, each as functions that can be run,
-- and proves what makes them correct.
--
-- Transactions (src/transaction/). Transactions/Manager.antt is TransactionManager: its state as a
-- record with a field for each member, its methods as functions from the state to the result and the
-- state; a method that may throw returns its result beside the state that the throw leaves behind.
-- Transactions/Conflict.antt has the conflict keys, the predicates and the inserted row images that the
-- test at commit compares. Transactions/VersionStore.antt is MVCCRowStore, a map from a row to its
-- versions, the newest first; it asks the transaction manager which creators a snapshot sees.
-- Transactions/VersionStore/Columns.antt has its operations for ALTER TABLE.
-- Transactions/VersionStore/Snapshots.antt puts the two together, with the steps of other transactions as
-- a list of actions; a ROLLBACK is there the calls by which execution/recovery_service.cpp undoes writes
-- and deletions, and then the call of the manager. Transactions/UndoLog.antt is UndoLog; what a record carries for ROLLBACK beside the
-- names of tables is a parameter. Counters of 64 bits wrap around in the model; theorems that need
-- distinct numbers state how many operations there may be.
--
-- Storage (src/storage/). Storage/VectorRowStore.antt is VectorRowStore, slots with a free list;
-- Storage/VectorRowStore/Sparse.antt has its loading from a sparse layout and the check before it.
-- Storage/BufferPool.antt is BufferPool; an iterator into the list of recent pages is the identifier
-- that it points to. Its loop of evictions runs on the length of that list as fuel: each round takes an
-- identifier off the list. Storage/CheckEval.antt has the evaluation of CHECK predicates and the test of
-- their shape, with the types of subqueries and expressions, which CHECK refuses, as parameters.
-- Storage/Constraints.antt is what Table asks of a row in table_constraints.cpp: width, types, NOT NULL,
-- CHECK and UNIQUE; the live rows and the index on the columns of a constraint are arguments.
--
-- Indexing (src/indexing/). Indexing/HashIndex.antt is HashIndex with its dirty buckets; hashing is left
-- to the contract of std::unordered_map, so a bucket is found by operator==. Indexing/BTreeIndex.antt is
-- BTreeIndex: its pages as a map, lookups, and insertion with its splits; a missing page is a result that
-- is none. The keys are any type with the comparisons of Indexing/KeyOrder.antt;
-- Indexing/KeyOrder/Values.antt has those of values. The walk to a leaf runs on the number of pages as
-- fuel, since no page stands twice on it, and the binary search on the number of keys.
-- Indexing/BTreeIndex/Trees.antt has the tree that the pages stand for and Indexing/BTreeIndex/Entries.antt
-- the ordered list of entries that it refines; Insertion.antt and its children below them follow an
-- insertion from the root to the leaf, and Maps.antt has the index as a whole. Snapshots.antt there has
-- the export and the installation of pages, and Removal.antt removal with its rebalancing. Scans.antt
-- has the range scans along the chain of leaves, on the number of pages as fuel.
--
-- Common (src/common/). Common/Value.antt has the values of SQL, their equality and their order,
-- Common/Value/TypeNames.antt the names of the column types,
-- Common/Double.antt the comparisons of doubles on their 64-bit patterns, NaN and signed zeros included,
-- Common/LikePattern.antt the LIKE matcher, the literals that indexes use for it and the trigrams.
--
-- Execution (src/execution/). Execution/SetOps.antt has UNION, INTERSECT and EXCEPT, with and without
-- ALL, and the checks before them.
--
-- Persistence (src/persistence/). Persistence/Binary.antt has the numbers and blocks of bytes of
-- include/VertexDB/common/binary_io.hpp, Persistence/WriteAheadLog.antt the records of the log, their
-- encoding, the reader and the numbering, on the bytes of the file. The reader's loop runs on one more
-- than the number of bytes as fuel: a record takes at least one byte. Opening and syncing files are not
-- modelled. Persistence/ValueCodec.antt has the values of a database file (tcrdb_value_codec.cpp); its
-- reader runs on the number of bytes as fuel, since a call further down has fewer bytes left.
-- Persistence/PhysicalRedo.antt has the batches of row images of the log, with the errors of the reader.
--
-- Parser (src/parser/). Parser/Tokenizer.antt is Tokenizer, on the length of the text as fuel: a round
-- takes at least one character. Parser/Tokenizer/Literals.antt has the string case of sqlLiteral of
-- src/execution/sql_literal.cpp.
--
-- Base.antt passes on the library names, the tests on numbers, the lists and the maps that all parts
-- share: Base/OrderedMap.antt for maps with numbers as keys, Base/Dict.antt for maps over a type with an
-- operator== (Base/Keys.antt), which need be neither reflexive nor the identity. Examples.antt holds
-- concrete runs to which the theorems apply.
--
-- Not modelled: the parser behind the tokenizer, the planner and the engines, tables beyond their
-- constraints and the catalog, the page row store, the file codecs, and all input and
-- output. They need the parts above, or are calls of the operating system.
pub mod Base
pub mod Common
pub mod Transactions
pub mod Indexing
pub mod Storage
pub mod Execution
pub mod Persistence
pub mod Parser
pub mod Examples
