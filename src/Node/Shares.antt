-- ===== src/Node/Shares.antt =====
-- The tick of the mining task of node/src/service.rs that takes in shares: those of peers, then those
-- that the workers found.
pub mod Fresh
use lumenyx.Prelude.{
  ℕ, zero, suc, ◌+◌, ◌/◌, max, Bool, true, false, Option, none, some, List, [], ◌∷◌, leb,
  if◌then◌else◌,
}
use lumenyx.Node.Pool.{PoolShare, zero_hash, share_difficulty_divisor, compute_id}
use lumenyx.Node.Pool.Sharechain.{Sharechain, insert_share}
use lumenyx.Node.Payout.{tip_or_zero}
use lumenyx.Node.Miner.{share_stale_depth}

abbrev pub max_remote_per_tick : ℕ
max_remote_per_tick = 50

abbrev pub max_local_per_tick : ℕ
max_local_per_tick = 50

-- `FoundShare`, with the time at which it is taken in.
pub record FoundShare : Type 0 where
  pub job_id : ℕ
  pub height : ℕ
  pub parent_hash : List ℕ
  pub nonce : List ℕ
  pub now_ms : ℕ

-- The difficulty of the shares of a tick.
abbrev pub share_difficulty_at : ℕ → ℕ
share_difficulty_at difficulty_now = max (difficulty_now / share_difficulty_divisor) 1

module _ (blake2_256 : List ℕ → List ℕ) where
  -- The loop over the shares of peers: the chain after, and the queue that is left.
  unfoldable pub drain_remote : ℕ → List PoolShare → Sharechain → Sharechain × List PoolShare
  drain_remote zero queue sc = (sc, queue)
  drain_remote (suc n) [] sc = (sc, [])
  drain_remote (suc n) (share ∷ queue) sc =
      drain_remote n queue (insert_share blake2_256 share sc).1

  -- The share that is made of a found one, behind the tip of the chain.
  unfoldable pub make_share : List ℕ → ℕ → FoundShare → Sharechain → PoolShare
  make_share miner_address share_difficulty found sc =
      let pool_share : PoolShare = record {
        id = zero_hash;
        prev = tip_or_zero sc.best_tip;
        main_parent = found.parent_hash;
        miner = miner_address;
        share_difficulty = share_difficulty;
        nonce = found.nonce;
        timestamp_ms = found.now_ms;
      } in
      record pool_share { id = compute_id blake2_256 pool_share }

  -- One found share: the chain after, and the share to broadcast if it was accepted.
  unfoldable pub take_local :
      List ℕ → ℕ → ℕ → FoundShare → Sharechain → Sharechain × Option PoolShare
  unfolding make_share
  take_local miner_address best_height_now share_difficulty found sc =
      let share = make_share miner_address share_difficulty found sc in
      let (accepted, sc') = insert_share blake2_256 share sc in
      if leb best_height_now (found.height + share_stale_depth)
      then (sc', if accepted then some share else none)
      else (sc, none)

  -- The loop over the found shares: the chain after, and the shares to broadcast, in order.
  unfoldable pub drain_local :
      ℕ → List ℕ → ℕ → ℕ → List FoundShare → Sharechain → Sharechain × List PoolShare
  unfolding take_local
  drain_local zero miner_address best_height_now share_difficulty queue sc = (sc, [])
  drain_local (suc n) miner_address best_height_now share_difficulty [] sc = (sc, [])
  drain_local (suc n) miner_address best_height_now share_difficulty (found ∷ queue) sc =
      let (sc', out) = take_local miner_address best_height_now share_difficulty found sc in
      let (sc2, rest) = drain_local n miner_address best_height_now share_difficulty queue sc' in
      (sc2, elim out [ none ↦ rest | some share ↦ share ∷ rest ])

  -- The body of the tick: the shares of peers, then those of the workers.
  unfoldable pub share_tick :
      List ℕ → ℕ → ℕ → List PoolShare → List FoundShare → Sharechain → Sharechain × List PoolShare
  unfolding drain_remote drain_local
  share_tick miner_address best_height_now difficulty_now remote found sc =
      drain_local max_local_per_tick miner_address best_height_now
        (share_difficulty_at difficulty_now) found (drain_remote max_remote_per_tick remote sc).0
