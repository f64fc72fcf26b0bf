-- ===== src/Storage.antt =====
-- storage/: the database of blocks and accounts.
pub mod Bolt
pub mod Db
pub mod Open
pub mod Service
