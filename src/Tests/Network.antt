-- ===== src/Tests/Network.antt =====
-- Gossip at concrete inputs.
use lumenyx.Prelude.{ℕ, ◌≡◌, refl, arith, Bool, Option, none, some, List, [], ◌∷◌, ◌==◌, inr}
use lumenyx.Node.Pool.{PoolShare}
use lumenyx.Node.Pool.Gossip.{Gossip, notification_stream_opened, step, send_all}
use lumenyx.Node.Pool.Gossip.Flow.{IsSettled, step-IsSettled}

abbrev encode : PoolShare → List ℕ
encode share = share.id

abbrev decode : List ℕ → Option PoolShare
decode bytes = none

abbrev two_peers : Gossip
two_peers = record { ready_peers = 1 ∷ 2 ∷ []; pending = []; peer_count = 2 }

two_peers-IsSettled : IsSettled two_peers
two_peers-IsSettled = record { bounded = omega arith; flushed = inr refl; counted = refl }

abbrev only_two : ℕ → Bool
only_two peer = peer == 2

opened :
    step encode decode only_two (notification_stream_opened 3) two_peers
    ≡ some (record two_peers { ready_peers = 3 ∷ 1 ∷ 2 ∷ []; peer_count = 3 }, [])
unfolding step send_all
opened = refl

step-IsSettled_example :
    IsSettled (record two_peers { ready_peers = 3 ∷ 1 ∷ 2 ∷ []; peer_count = 3 })
step-IsSettled_example =
    step-IsSettled encode decode only_two (notification_stream_opened 3) two_peers
      (record two_peers { ready_peers = 3 ∷ 1 ∷ 2 ∷ []; peer_count = 3 }) [] two_peers-IsSettled
      opened
