-- ===== src/Nodes/Sync.antt =====
-- nodes/sync: transactions and blocks between nodes.
pub mod Messages
pub mod Blocks
pub mod Loop
pub mod Handlers
pub mod Moves
pub mod Target
pub mod Agreement
pub mod Exchange
pub mod Pool
pub mod Accepted
