-- ===== src/Transactions.antt =====
-- src/transaction: the transaction manager.
pub mod Conflict
pub mod Manager
pub mod VersionStore
pub mod UndoLog
