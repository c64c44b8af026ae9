-- ===== src/Storage.antt =====
-- The package storage: the interfaces, the in-memory storage and the two decorators, and what is
-- proved of them.
pub mod Interface
pub mod Dict
pub mod Memory
pub mod Prefixed
pub mod Typed
mod Tests
pub mod Contract
