-- ===== src/Nodes.antt =====
-- nodes/: the node that holds the services together, its sync service and its RPC server.
pub mod Node
pub mod Sync
pub mod RpcServer
pub mod Restart
pub mod Stored
