-- ===== src/Node/Pool/Gossip/Queue.antt =====
-- The queue of node/src/pool/gossip.rs while no peer is ready.
use lumenyx.Prelude.{
  ℕ, suc, ◌-◌, ◌<◌, ◌≡◌, sym, ap, ◌∙◌, arith, inl, inr, List, [], ◌∷◌, ◌++◌, leb, leb→le, length,
  length-append, drop, length-drop, drop-append, drop-drop_one, Bool-cases,
}
use mathlib.Core.List.{append-nil, append_assoc}
use lumenyx.Node.Pool.Gossip.{max_pending, push_pending}

-- The queue after pushing messages in order.
unfoldable pub push_all : List (List ℕ) → List (List ℕ) → List (List ℕ)
push_all [] pending = pending
push_all (m ∷ msgs) pending = push_all msgs (push_pending m pending)

abbrev pub newest : List (List ℕ) → List (List ℕ)
newest msgs = drop (length msgs - max_pending) msgs

push_newest :
    (m : List ℕ) (msgs : List (List ℕ)) → push_pending m (newest msgs) ≡ newest (msgs ++ m ∷ [])
unfolding push_pending
push_newest m msgs =
    let n = length msgs in
    let l = length-drop (n - max_pending) msgs in
    let a = length-append msgs (m ∷ []) in
    elim (Bool-cases (leb max_pending (length (newest msgs)))) [
      | inl e ↦
          let h = leb→le max_pending (length (newest msgs)) e in
          let d : length (msgs ++ m ∷ []) - max_pending ≡ suc (n - max_pending) =
            omega (arith, l, a, h) in
          rw (e, d)
            (ap (λ x. x ++ m ∷ []) (drop-drop_one (n - max_pending) msgs)
              ∙ sym (drop-append (suc (n - max_pending)) msgs (m ∷ []) (omega (arith, l, h))))
      | inr e ↦
          let h : length (newest msgs) < max_pending = ground arith in
          let d : length (msgs ++ m ∷ []) - max_pending ≡ n - max_pending =
            omega (arith, l, a, h) in
          rw (e, d) (sym (drop-append (n - max_pending) msgs (m ∷ []) (omega arith)))
    ]

push_all-newest :
    (before msgs : List (List ℕ)) → push_all msgs (newest before) ≡ newest (before ++ msgs)
unfolding push_all
push_all-newest before [] = ap newest (sym (append-nil before))
push_all-newest before (m ∷ msgs) =
    ap (push_all msgs) (push_newest m before)
    ∙ push_all-newest (before ++ m ∷ []) msgs
    ∙ ap newest (append_assoc before (m ∷ []) msgs)

-- From an empty queue, the pushes of any messages leave the newest `max_pending` of them, in order.
push_all_lem : (msgs : List (List ℕ)) → push_all msgs [] ≡ newest msgs
push_all_lem msgs = push_all-newest [] msgs
