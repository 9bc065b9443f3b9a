-- ===== src/Indexing.antt =====
-- src/indexing: the hash index and the B+ tree.
pub mod HashIndex
pub mod KeyOrder
pub mod BTreeIndex
