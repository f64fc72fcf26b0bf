-- ===== src/P2p.antt =====
-- p2p/: the peers that a node knows, and the messages by which nodes find one another. What a call
-- sends is a list of receivers and payloads; the dialling and the sockets are not modelled.
pub mod Messages
pub mod Service
pub mod Laws
pub mod Network
