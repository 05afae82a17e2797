-- ===== src/Lib.antt =====
-- LUMENYX, a proof-of-work chain on Substrate with an EVM, as executable definitions with theorems.
--
-- The program has a runtime and a node. In each block the runtime reads the author from the header,
-- pays the block reward, to the miners of the pool if the header has a payout digest, checks the
-- timestamp against the median of the last eleven and, at the end, sets the difficulty of the next
-- block. The node imports blocks by the work of their seals and chooses the heaviest chain. It mines
-- on templates of two jobs, and takes part in a pool whose miners share a chain of shares.
--
-- Files and code. Names are those of the code in the spelling of this language; a helper's comment
-- names the part of a function that it stands for.
--   Primitives         primitives/src/lib.rs: the reward schedule and the supply
--   Halving            pallets/halving/src/lib.rs: rewards, payouts and the decimal migration
--   Difficulty         pallets/difficulty/src/lib.rs: the ASERT formula and on_finalize
--   TimeRules          pallets/time-rules/src/lib.rs: the median of timestamps
--   EvmBridge          pallets/evm-bridge/src/lib.rs: deposit and withdraw
--   Digest, Runtime    runtime/src/lib.rs: the author, the order of the pallets, the precompiles, a
--                      whole block in Runtime/Block, the fees in Runtime/Fees, and the calls
--                      and the gas of the EVM in Runtime/Ethereum
--   Node/Seed          node/src/rx_lx/seed.rs: the seed heights
--   Node/Pool          node/src/pool: shares, their chain, payouts and gossip
--   Node/Payout, Node/Target, Node/Miner, Node/Mining, Node/Shares
--                      node/src/service.rs: the payout item, targets, the cache of templates and the
--                      nonces, the mining task, and its tick that takes in shares
--   Node/Worker        node/src/service.rs: the threads of MinerState::new that search for nonces
--   Node/Task          node/src/service.rs: the start of the mining task, and the task with its threads
--   Node/Import        node/src/pow_import.rs, and the verifier and RxLxPow of node/src/service.rs
--   Node/PoolMode      node/src/pool_mode_handle.rs, and its use in node/src/command.rs
--   Node/Rpc           the methods of node/src/rpc.rs that read and set the mode
--   Node/Start         node/src/chain_spec.rs, and the choice of a specification and the key files in
--                      node/src/command.rs and node/src/service.rs
--   RxLx               crates/rx-lx/src/lib.rs: the wrapper of the hash library
-- The children of a module hold its proofs. Prelude has the helpers that all share, Tests the theorems
-- at concrete inputs.
--
-- Conventions. Unsigned integers are natural numbers, with saturation and wrap-around written out where
-- the code has them; i128 is an integer with its limits. Hashes that the code compares by order are
-- their big-endian values, other bytes are lists of numbers. Storage items of a pallet are one record.
-- Logs and weights are left out, since they change no state; events are kept.
--
-- From outside come the framework's balances and raw storage (Framework of Halving) and its credits,
-- transfers, hashes and signature recovery (Config of EvmBridge), the client, its stores, the codecs and
-- the hash function (Outside of Node/Import), the proposer, blake2_256, the network's sinks, the channel
-- of the mode (Watch of Node/Rpc), the hash library (Library of RxLx), the Ethereum pallet and the EVM
-- (EthereumPallet and Evm of Runtime/Ethereum), and the keys (Crypto of Node/Start). They are parameters,
-- and what a theorem assumes of them is a named hypothesis, such as IsMinting, IsMap, IsCodec, IsStore,
-- IsWatch or IsTracked.
-- What the hash library answers to a worker thread is an argument of each step.
--
-- Bounds. The loop of calculate_supply_at_block has 129 rounds of fuel: the era grows in each round
-- and the loop returns past era 128. The loop of the account migration has as many rounds as there are
-- accounts, and its theorem takes that as a hypothesis. All other loops are structural, but those of the
-- worker threads and of the mining task, which are sequences of steps: Reach, Later and Running are all
-- their orders. Chain and Blocks are all chains of blocks.
--
-- Not modelled: the wiring of the node, the RPC modules of the framework, the arguments of the command
-- line, pallet configurations, runtime API glue, and the installer.
pub mod Prelude
pub mod Primitives
pub mod Difficulty
pub mod TimeRules
pub mod Digest
pub mod Halving
pub mod EvmBridge
pub mod Runtime
pub mod RxLx
pub mod Node
pub mod Tests
