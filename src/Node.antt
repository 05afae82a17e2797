-- ===== src/Node.antt =====
-- The node, node/src: mining seeds, the mining pool, block import and mining.
pub mod Seed
pub mod Pool
pub mod Payout
pub mod Target
pub mod Import
pub mod Miner
pub mod Worker
pub mod Shares
pub mod Mining
pub mod Task
pub mod PoolMode
pub mod Rpc
pub mod Start
