-- ===== src/Persistence.antt =====
-- src/persistence: binary numbers, values in the database file, the write-ahead log.
pub mod Binary
pub mod WriteAheadLog
pub mod ValueCodec
pub mod PhysicalRedo
