-- ===== src/Node/Task/Start.antt =====
-- The start of the mining task of node/src/service.rs and its handling of a new best block, which are
-- written apart.
use lumenyx.Prelude.{ℕ, ◌+◌, ◌≡◌, refl, Bool, true, Option, none, some, List}
use lumenyx.Halving.{PoolPayoutDigest}
use lumenyx.Node.Import.{Outside, Header, maybe_reseed}
use lumenyx.Node.Pool.Sharechain.{Sharechain}
use lumenyx.Node.Miner.{new}
use lumenyx.Node.Mining.{Mining, get_block_hash, on_import_notification, arm}
use lumenyx.Node.Task.{bootstrap}
use lumenyx.Node.Task.Steps.{boot_result}

module _ (out : Outside) (header_at : ℕ → out.Client → Option Header)
    (propose : Header → out.Client → Option Header) (encode : PoolPayoutDigest → List ℕ) where
  -- If the task, with no best block and no template yet, starts on the best header, then it is as if it
  -- had been told of that block as a new best one.
  pub bootstrap-eq-notified :
      (client : out.Client) (pool_mode : Bool) (sc : Sharechain) (best : Header) (m m' : Mining)
      → m.active_best_hash ≡ none
      → m.templates ≡ new
      → bootstrap out header_at propose encode client pool_mode sc (some best) m ≡ some m'
      → on_import_notification out header_at propose encode client pool_mode sc true
          (out.header_hash best)
          best
          m
        ≡ m'
  unfolding bootstrap on_import_notification arm
  bootstrap-eq-notified client pool_mode sc best m m' idle empty e =
      boot_result
        (maybe_reseed out (best.number + 1) (get_block_hash out header_at propose encode client)
          m.rx_lx_pow).0
        (propose best client) _ m'
        (λ m'.
          on_import_notification out header_at propose encode client pool_mode sc true
            (out.header_hash best) best m
          ≡ m')
        e (λ ok header got. rw idle (rw ok (rw got (rw empty refl))))
