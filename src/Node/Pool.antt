-- ===== src/Node/Pool.antt =====
-- The decentralised mining pool, node/src/pool: shares, the chain of shares, payouts and gossip.
pub mod Sharechain
pub mod Pplns
pub mod Gossip
use lumenyx.Prelude.{ℕ, zero, suc, ◌/◌, ◌%◌, Bool, List, [], ◌∷◌, ◌++◌, bytes_eq}

-- `H256::zero()`
abbrev pub zero_hash : List ℕ
zero_hash =
    0 ∷ 0 ∷ 0 ∷ 0 ∷ 0 ∷ 0 ∷ 0 ∷ 0 ∷ 0 ∷ 0 ∷ 0 ∷ 0 ∷ 0 ∷ 0 ∷ 0 ∷ 0 ∷ 0 ∷ 0 ∷ 0 ∷ 0 ∷ 0 ∷ 0 ∷ 0 ∷ 0
    ∷ 0 ∷ 0 ∷ 0 ∷ 0 ∷ 0 ∷ 0 ∷ 0 ∷ 0 ∷ []

abbrev pub max_pool_payouts : ℕ
max_pool_payouts = 64

abbrev pub pplns_window_shares : ℕ
pplns_window_shares = 256

abbrev pub share_difficulty_divisor : ℕ
share_difficulty_divisor = 256

-- `PoolShare`
pub record PoolShare : Type 0 where
  pub id : List ℕ
  pub prev : List ℕ
  pub main_parent : List ℕ
  pub miner : List ℕ
  pub share_difficulty : ℕ
  pub nonce : List ℕ
  pub timestamp_ms : ℕ

-- `PoolPayoutEntry`
pub record PoolPayoutEntry : Type 0 where
  pub account : List ℕ
  pub amount : ℕ

-- `to_le_bytes` of an integer of `width` bytes.
unfoldable pub to_le_bytes : ℕ → ℕ → List ℕ
to_le_bytes zero n = []
to_le_bytes (suc width) n = n % 256 ∷ to_le_bytes width (n / 256)

-- The hash function `sp_core::blake2_256` is a parameter.
module _ (blake2_256 : List ℕ → List ℕ) where
  -- `PoolShare::compute_id`
  unfoldable pub compute_id : PoolShare → List ℕ
  unfolding to_le_bytes
  compute_id s = blake2_256 (
      s.prev
      ++ s.main_parent
      ++ s.miner
      ++ to_le_bytes 16 s.share_difficulty
      ++ s.nonce
      ++ to_le_bytes 8 s.timestamp_ms)

  -- `PoolShare::validate_id`
  unfoldable pub validate_id : PoolShare → Bool
  unfolding compute_id
  validate_id s = bytes_eq s.id (compute_id s)
