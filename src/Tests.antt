-- ===== src/Tests.antt =====
-- The theorems applied at concrete inputs, on small stand-ins for the framework, the client and the
-- network.
mod Support
mod Emission
mod Block
mod Consensus
mod Bridge
mod Pool
mod Shares
mod Ethereum
mod Network
mod Import
mod Mining
mod Task
mod Worker
mod Rpc
mod Start
mod RxLx
