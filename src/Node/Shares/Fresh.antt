-- ===== src/Node/Shares/Fresh.antt =====
-- What a tick of node/src/service.rs does to the chain of shares.
use lumenyx.Prelude.{ℕ, zero, suc, ◌+◌, List, [], ◌∷◌, leb, Bool-cases, inl, inr}
use lumenyx.Node.Pool.{PoolShare}
use lumenyx.Node.Pool.Sharechain.{Sharechain, insert_share}
use lumenyx.Node.Pool.Sharechain.Work.{IsValid, insert_share-IsValid}
use lumenyx.Node.Miner.{share_stale_depth}
use lumenyx.Node.Shares.{
  FoundShare, drain_remote, make_share, take_local, drain_local, share_tick, max_local_per_tick,
  max_remote_per_tick, share_difficulty_at,
}

module _ (blake2_256 : List ℕ → List ℕ) where
  drain_remote-IsValid :
      (n : ℕ) (queue : List PoolShare) (sc : Sharechain)
      → IsValid blake2_256 sc
      → IsValid blake2_256 (drain_remote blake2_256 n queue sc).0
  unfolding drain_remote
  drain_remote-IsValid zero queue sc v = v
  drain_remote-IsValid (suc n) [] sc v = v
  drain_remote-IsValid (suc n) (share ∷ queue) sc v =
      drain_remote-IsValid n queue (insert_share blake2_256 share sc).1
        (insert_share-IsValid blake2_256 share sc v)

  take_local-IsValid :
      (miner : List ℕ) (best_height difficulty : ℕ) (found : FoundShare) (sc : Sharechain)
      → IsValid blake2_256 sc
      → IsValid blake2_256 (take_local blake2_256 miner best_height difficulty found sc).0
  unfolding take_local
  take_local-IsValid miner best_height difficulty found sc v =
      elim (Bool-cases (leb best_height (found.height + share_stale_depth))) [
        | inl e ↦
            rw e (
              insert_share-IsValid blake2_256 (make_share blake2_256 miner difficulty found sc) sc
                v)
        | inr e ↦ rw e v
      ]

  drain_local-IsValid :
      (n : ℕ) (miner : List ℕ) (best_height difficulty : ℕ) (queue : List FoundShare)
      (sc : Sharechain)
      → IsValid blake2_256 sc
      → IsValid blake2_256 (drain_local blake2_256 n miner best_height difficulty queue sc).0
  unfolding drain_local
  drain_local-IsValid zero miner best_height difficulty queue sc v = v
  drain_local-IsValid (suc n) miner best_height difficulty [] sc v = v
  drain_local-IsValid (suc n) miner best_height difficulty (found ∷ queue) sc v =
      drain_local-IsValid n miner best_height difficulty queue
        (take_local blake2_256 miner best_height difficulty found sc).0
        (take_local-IsValid miner best_height difficulty found sc v)

  -- Whatever shares arrive from peers and workers, a tick keeps the chain of shares well-formed.
  pub share_tick-IsValid :
      (miner : List ℕ) (best_height difficulty : ℕ) (remote : List PoolShare)
      (found : List FoundShare) (sc : Sharechain)
      → IsValid blake2_256 sc
      → IsValid blake2_256 (share_tick blake2_256 miner best_height difficulty remote found sc).0
  unfolding share_tick
  share_tick-IsValid miner best_height difficulty remote found sc v =
      drain_local-IsValid max_local_per_tick miner best_height (share_difficulty_at difficulty)
        found (drain_remote blake2_256 max_remote_per_tick remote sc).0
        (drain_remote-IsValid max_remote_per_tick remote sc v)
