-- ===== src/Tests.antt =====
-- Witnesses: each theorem at a concrete input.
pub mod Data
pub mod Codecs
pub mod Sync
pub mod Exchange
pub mod Chain
pub mod Helpers
pub mod Stores
pub mod Nodes
pub mod Supply
pub mod Replay
pub mod Batch
pub mod Network
pub mod Queues
pub mod Commands
pub mod Votes
