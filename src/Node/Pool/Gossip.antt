-- ===== src/Node/Pool/Gossip.antt =====
-- The gossip of shares, node/src/pool/gossip.rs: the task that owns the notification service, as a
-- machine that handles one event of its `select!` at a time. The network is outside: which peers have a
-- message sink is an argument of each step, and what is sent to it is the step's output. Peer ids are
-- numbers.
pub mod Flow
pub mod Queue
use lumenyx.Prelude.{
  ℕ, Bool, true, false, not, Option, none, some, List, [], ◌∷◌, ◌++◌, map, ◌==◌, ltb, leb,
  if◌then◌else◌, length, drop, any, retain,
}
use lumenyx.Node.Pool.{PoolShare}

abbrev pub max_pending : ℕ
max_pending = 1024

-- The variables of the task, and the shared counter.
pub record Gossip : Type 0 where
  pub ready_peers : List ℕ
  pub pending : List (List ℕ)
  pub peer_count : ℕ

-- What the task asks of the network and of the receiver of shares.
pub data Output : Type 0 where
  notify : (peer : ℕ) (msg : List ℕ) → Output
  accept : (peer : ℕ) → Output
  deliver : PoolShare → Output

-- What wakes the task; the ends of the two channels break its loop.
pub data Event : Type 0 where
  outgoing : PoolShare → Event
  validate_inbound_substream : (peer : ℕ) → Event
  notification_stream_opened : (peer : ℕ) → Event
  notification_stream_closed : (peer : ℕ) → Event
  notification_received : (peer : ℕ) (notification : List ℕ) → Event
  timeout : Event
  outgoing_closed stream_ended : Event

-- The start of the task.
unfoldable pub start : Gossip
start = record { ready_peers = []; pending = []; peer_count = 0 }

-- The push of a message on the queue, which drops its oldest entry when it is full.
unfoldable pub push_pending : List ℕ → List (List ℕ) → List (List ℕ)
push_pending bytes pending =
    (if leb max_pending (length pending) then drop 1 pending else pending) ++ bytes ∷ []

-- `HashSet::insert` and `HashSet::remove`.
unfoldable pub insert_peer : ℕ → List ℕ → List ℕ
insert_peer peer peers = if any (λ p. p == peer) peers then peers else peer ∷ peers

unfoldable pub remove_peer : ℕ → List ℕ → List ℕ
remove_peer peer peers = retain (λ p. not (p == peer)) peers

-- The sends of a flush: to each peer with a sink, every message.
unfoldable pub send_all : (ℕ → Bool) → List ℕ → List (List ℕ) → List Output
send_all has_sink [] msgs = []
send_all has_sink (peer ∷ peers) msgs =
    let rest = send_all has_sink peers msgs in
    if has_sink peer then map (notify peer) msgs ++ rest else rest

-- The flush, which empties the queue if a peer is ready.
abbrev pub flush_to : (ℕ → Bool) → List ℕ → Gossip → Gossip × List Output
flush_to has_sink [] g = (g, [])
flush_to has_sink (peer ∷ peers) g =
    (record g { pending = [] }, send_all has_sink (peer ∷ peers) g.pending)

unfoldable pub flush : (ℕ → Bool) → Gossip → Gossip × List Output
flush has_sink g = flush_to has_sink g.ready_peers g

-- A share that decodes is passed on.
abbrev pub delivery : Option PoolShare → List Output
delivery none = []
delivery (some share) = deliver share ∷ []

-- The handling of one event, over the codec of the shares; `none` is the end of the loop.
module _ (encode : PoolShare → List ℕ) (decode : List ℕ → Option PoolShare) where
  unfoldable pub step : (ℕ → Bool) → Event → Gossip → Option (Gossip × List Output)
  unfolding push_pending insert_peer remove_peer flush
  step has_sink (outgoing share) g =
      some (flush has_sink (record g { pending = push_pending (encode share) g.pending }))
  step has_sink (validate_inbound_substream peer) g = some (g, accept peer ∷ [])
  step has_sink (notification_stream_opened peer) g =
      let peers = insert_peer peer g.ready_peers in
      some (flush has_sink (record g { ready_peers = peers; peer_count = length peers }))
  step has_sink (notification_stream_closed peer) g =
      let peers = remove_peer peer g.ready_peers in
      some (record g { ready_peers = peers; peer_count = length peers }, [])
  step has_sink (notification_received peer notification) g =
      some (g, delivery (decode notification))
  step has_sink timeout g = some (flush has_sink g)
  step has_sink outgoing_closed g = none
  step has_sink stream_ended g = none
