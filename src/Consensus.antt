-- ===== src/Consensus.antt =====
-- consensus/: gossip, the committee of a height, the vote and the finality.
pub mod Messages
pub mod Service
pub mod Voting
pub mod Handlers
pub mod Loop
pub mod Committee
pub mod Poll
pub mod Keys
pub mod Steps
pub mod Validators
pub mod Dispatch
pub mod Crash
pub mod Exchange
pub mod Round
pub mod Again
