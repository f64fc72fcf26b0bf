-- ===== src/Memory.antt =====
-- memory/: the account states and the pool of transactions that a node keeps in memory.
pub mod Mempool
pub mod Db
pub mod Service
