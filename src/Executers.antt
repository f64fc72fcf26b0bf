-- ===== src/Executers.antt =====
-- executers/: the execution of transactions, the production and the verification of blocks.
pub mod Impl
pub mod Executer
pub mod Producer
pub mod Faucet
