-- ===== src/Node/Pool/Gossip/Flow.antt =====
-- The queue of the gossip task of node/src/pool/gossip.rs over any sequence of events.
use lumenyx.Prelude.{
  ℕ, ◌≤◌, ◌≡◌, ◌≢◌, refl, sym, ap, subst, ◌∙◌, arith, ◌⊎◌, inl, inr, Bool, not, Option, some, List,
  [], ◌∷◌, map, ◌==◌, leb, leb→le, length, length-append, drop, length-drop, retain, some-injective,
  none-ne-some, Bool-cases,
}
use lumenyx.Node.Pool.{PoolShare}
use lumenyx.Node.Pool.Gossip.{
  max_pending, Gossip, Output, notify, accept, Event, outgoing, validate_inbound_substream,
  notification_stream_opened, notification_stream_closed, notification_received, timeout,
  outgoing_closed, stream_ended, push_pending, insert_peer, remove_peer, send_all, flush_to,
  delivery, flush, step,
}

-- The queue is bounded, nothing waits while a peer is ready, and the counter is the number of peers.
pub record IsSettled (g : Gossip) : Type 0 where
  pub bounded : length g.pending ≤ max_pending
  pub flushed : (g.ready_peers ≡ []) ⊎ (g.pending ≡ [])
  pub counted : g.peer_count ≡ length g.ready_peers

push_pending_bounded :
    (bytes : List ℕ) (pending : List (List ℕ))
    → length pending ≤ max_pending
    → length (push_pending bytes pending) ≤ max_pending
unfolding push_pending
push_pending_bounded bytes pending h = elim (Bool-cases (leb max_pending (length pending))) [
  | inl e ↦
      let m = leb→le max_pending (length pending) e in
      rw e (omega (arith, length-append (drop 1 pending) (bytes ∷ []), length-drop 1 pending, h))
  | inr e ↦ rw e (ground (arith, length-append pending (bytes ∷ [])))
]

flush_to-IsSettled :
    (has_sink : ℕ → Bool) (peers : List ℕ) (g : Gossip)
    → g.ready_peers ≡ peers
    → length g.pending ≤ max_pending
    → g.peer_count ≡ length g.ready_peers
    → IsSettled (flush_to has_sink peers g).0
flush_to-IsSettled has_sink [] g e b c = record { bounded = b; flushed = inl e; counted = c }
flush_to-IsSettled has_sink (peer ∷ peers) g e b c = record {
  bounded = omega arith;
  flushed = inr refl;
  counted = c;
}

flush-IsSettled :
    (has_sink : ℕ → Bool) (g : Gossip)
    → length g.pending ≤ max_pending
    → g.peer_count ≡ length g.ready_peers
    → IsSettled (flush has_sink g).0
unfolding flush
flush-IsSettled has_sink g b c = flush_to-IsSettled has_sink g.ready_peers g refl b c

retain-empty :
    (p : ℕ → Bool) (peers : List ℕ) (pending : List (List ℕ))
    → (peers ≡ []) ⊎ (pending ≡ [])
    → (retain p peers ≡ []) ⊎ (pending ≡ [])
retain-empty p peers pending (inl e) = inl (ap (retain p) e)
retain-empty p peers pending (inr e) = inr e

landed :
    {g' : Gossip} {outputs : List Output} (x : Gossip × List Output)
    → some x ≡ some (g', outputs)
    → IsSettled x.0
    → IsSettled g'
landed {g'} {outputs} x e s = subst IsSettled (ap (λ y. y.0) (some-injective x (g', outputs) e)) s

send_all-nil : (has_sink : ℕ → Bool) (peers : List ℕ) → send_all has_sink peers [] ≡ []
unfolding send_all
send_all-nil has_sink [] = refl
send_all-nil has_sink (peer ∷ peers) = ground (arith, send_all-nil has_sink peers)

send_all-one :
    (has_sink : ℕ → Bool) (peers : List ℕ) (msg : List ℕ)
    → send_all has_sink peers (msg ∷ []) ≡ map (λ peer. notify peer msg) (retain has_sink peers)
unfolding send_all
send_all-one has_sink [] msg = refl
send_all-one has_sink (peer ∷ peers) msg = elim (Bool-cases (has_sink peer)) [
  | inl e ↦ rw e (ap (◌∷◌ (notify peer msg)) (send_all-one has_sink peers msg))
  | inr e ↦ rw e (send_all-one has_sink peers msg)
]

flush_ready :
    (has_sink : ℕ → Bool) (g : Gossip)
    → g.ready_peers ≢ []
    → flush has_sink g ≡ (record g { pending = [] }, send_all has_sink g.ready_peers g.pending)
unfolding flush
flush_ready has_sink g ready = go g.ready_peers ready
  where
    go :
        (peers : List ℕ)
        → peers ≢ []
        → flush_to has_sink peers g ≡ (record g { pending = [] }, send_all has_sink peers g.pending)
    go [] ne = absurd (ne refl)
    go (peer ∷ peers) ne = refl

flush_to-nil :
    (has_sink : ℕ → Bool) (peers : List ℕ) (g : Gossip)
    → g.pending ≡ []
    → flush_to has_sink peers g ≡ (g, [])
flush_to-nil has_sink [] g e = refl
flush_to-nil has_sink (peer ∷ peers) g e =
    ap (λ msgs. (record g { pending = [] }, send_all has_sink (peer ∷ peers) msgs)) e
    ∙ ap (λ outputs. (record g { pending = [] }, outputs)) (send_all-nil has_sink (peer ∷ peers))
    ∙ ap (λ msgs. (record g { pending = msgs }, [])) (sym e)

push_one :
    (bytes : List ℕ) (pending : List (List ℕ))
    → pending ≡ []
    → push_pending bytes pending ≡ bytes ∷ []
unfolding push_pending
push_one bytes pending e = ap (push_pending bytes) e

settled_pending : {g : Gossip} → IsSettled g → g.ready_peers ≢ [] → g.pending ≡ []
settled_pending s ready = elim s.flushed [ inl e ↦ absurd (ready e) | inr e ↦ e ]

module _ (encode : PoolShare → List ℕ) (decode : List ℕ → Option PoolShare) where
  -- If the queue is within its bound, and empty while a peer is ready, and the counter is the number of
  -- ready peers, then the same holds after every event that does not end the loop.
  pub step-IsSettled :
      (has_sink : ℕ → Bool) (ev : Event) (g g' : Gossip) (outputs : List Output)
      → IsSettled g
      → step encode decode has_sink ev g ≡ some (g', outputs)
      → IsSettled g'
  unfolding step remove_peer
  step-IsSettled has_sink (outgoing share) g g' outputs s e =
      landed (flush has_sink (record g { pending = push_pending (encode share) g.pending })) e (
        flush-IsSettled has_sink (record g { pending = push_pending (encode share) g.pending })
          (push_pending_bounded (encode share) g.pending s.bounded) s.counted)
  step-IsSettled has_sink (validate_inbound_substream peer) g g' outputs s e =
      landed (g, accept peer ∷ []) e s
  step-IsSettled has_sink (notification_stream_opened peer) g g' outputs s e =
      let peers = insert_peer peer g.ready_peers in
      let opened = record g { ready_peers = peers; peer_count = length peers } in
      landed (flush has_sink opened) e (flush-IsSettled has_sink opened s.bounded refl)
  step-IsSettled has_sink (notification_stream_closed peer) g g' outputs s e =
      let peers = remove_peer peer g.ready_peers in
      landed (record g { ready_peers = peers; peer_count = length peers }, []) e
        (record {
          bounded = s.bounded;
          flushed = retain-empty (λ p. not (p == peer)) g.ready_peers g.pending s.flushed;
          counted = refl;
        })
  step-IsSettled has_sink (notification_received peer notification) g g' outputs s e =
      landed (g, delivery (decode notification)) e s
  step-IsSettled has_sink timeout g g' outputs s e =
      landed (flush has_sink g) e (flush-IsSettled has_sink g s.bounded s.counted)
  step-IsSettled has_sink outgoing_closed g g' outputs s e = absurd (none-ne-some (g', outputs) e)
  step-IsSettled has_sink stream_ended g g' outputs s e = absurd (none-ne-some (g', outputs) e)

  -- From a state whose queue is empty while a peer is ready, with a peer that is ready, a share that is
  -- produced is sent at once to every ready peer with a sink, nothing else is sent, and nothing is queued.
  outgoing_sent :
      (has_sink : ℕ → Bool) (share : PoolShare) (g : Gossip)
      → IsSettled g
      → g.ready_peers ≢ []
      → step encode decode has_sink (outgoing share) g
        ≡ some (
          record g { pending = [] },
          map (λ peer. notify peer (encode share)) (retain has_sink g.ready_peers),
        )
  unfolding step
  outgoing_sent has_sink share g s ready =
      let bytes = encode share in
      let queued = push_one bytes g.pending (settled_pending s ready) in
      ap some (
        flush_ready has_sink (record g { pending = push_pending bytes g.pending }) ready
        ∙ ap (λ msgs. (record g { pending = [] }, send_all has_sink g.ready_peers msgs)) queued
        ∙ ap (λ outputs. (record g { pending = [] }, outputs))
            (send_all-one has_sink g.ready_peers bytes))

  -- From a state whose queue is empty while a peer is ready, as every state is that events lead to, the
  -- periodic flush sends nothing and changes nothing.
  timeout_noop :
      (has_sink : ℕ → Bool) (g : Gossip)
      → IsSettled g
      → step encode decode has_sink timeout g ≡ some (g, [])
  unfolding step flush
  timeout_noop has_sink g s = elim s.flushed [
    | inl e ↦ ap some (ap (λ peers. flush_to has_sink peers g) e)
    | inr e ↦ ap some (flush_to-nil has_sink g.ready_peers g e)
  ]
