-- ===== src/Node/Pool/Pplns/Weights.antt =====
-- The map of weights of node/src/pool/pplns.rs: each miner's weight is that of its shares.
use lumenyx.Prelude.{
  ℕ, ◌+◌, ◌≤◌, max, ◌≡◌, refl, sym, ap, subst, ◌∙◌, arith, inl, inr, true, false, Bool-cases, clash,
  List, [], ◌∷◌, if◌then◌else◌, bytes_eq, bytes_lt, bytes_eq_refl, bytes-cases, saturating_add,
  u128_max,
}
use lumenyx.Node.Pool.{PoolShare}
use lumenyx.Node.Pool.Pplns.{add_weight, collect_weights}
use lumenyx.Node.Pool.Pplns.Sum.{share_weights, weight_sum, add_weight_sum}

-- The order of byte strings.
bytes_lt_irrefl : (x : List ℕ) → bytes_lt x x ≡ false
bytes_lt_irrefl [] = refl
bytes_lt_irrefl (a ∷ x) = ground (arith, bytes_lt_irrefl x)

bytes_lt_trans : (x y z : List ℕ) → bytes_lt x y ≡ true → bytes_lt y z ≡ true → bytes_lt x z ≡ true
bytes_lt_trans x y [] h k = clash false k refl
bytes_lt_trans x [] (c ∷ z) h k = clash false h refl
bytes_lt_trans [] (b ∷ y) (c ∷ z) h k = refl
bytes_lt_trans (a ∷ x) (b ∷ y) (c ∷ z) h k = ground (arith, bytes_lt_trans x y z)

bytes_lt_total : (x y : List ℕ) → bytes_eq x y ≡ false → bytes_lt x y ≡ false → bytes_lt y x ≡ true
bytes_lt_total [] [] h k = clash true refl h
bytes_lt_total (a ∷ x) [] h k = refl
bytes_lt_total [] (b ∷ y) h k = clash true refl k
bytes_lt_total (a ∷ x) (b ∷ y) h k = ground (arith, bytes_lt_total x y)

-- A miner's weight in a map.
unfoldable pub weight_in : List ℕ → List (List ℕ × ℕ) → ℕ
weight_in a [] = 0
weight_in a ((k, w) ∷ weights) = let rest = weight_in a weights in if bytes_eq a k then w else rest

-- A miner's weight in a window.
unfoldable pub miner_weight : List ℕ → List PoolShare → ℕ
miner_weight a [] = 0
miner_weight a (s ∷ shares) =
    let rest = miner_weight a shares in
    if bytes_eq a s.miner then max s.share_difficulty 1 + rest else rest

-- The keys are above a key, and in order.
IsAbove : List ℕ → List (List ℕ × ℕ) → Type 0
IsAbove a [] = Unit
IsAbove a ((k, w) ∷ weights) = (bytes_lt a k ≡ true) × IsAbove a weights

IsSorted : List (List ℕ × ℕ) → Type 0
IsSorted [] = Unit
IsSorted ((k, w) ∷ weights) = IsAbove k weights × IsSorted weights

IsAbove-trans :
    (a b : List ℕ) (weights : List (List ℕ × ℕ))
    → bytes_lt a b ≡ true
    → IsAbove b weights
    → IsAbove a weights
unfolding IsAbove
IsAbove-trans a b [] h k = tt
IsAbove-trans a b ((c, w) ∷ weights) h (l, k) =
    (bytes_lt_trans a b c h l, IsAbove-trans a b weights h k)

none_above :
    (a : List ℕ) (weights : List (List ℕ × ℕ)) → IsAbove a weights → weight_in a weights ≡ 0
unfolding IsAbove weight_in
none_above a [] h = refl
none_above a ((k, w) ∷ weights) (l, h) = elim (bytes-cases a k) [
  | inl (e, _) ↦
      clash (bytes_lt a a) (subst (λ x. bytes_lt a x ≡ true) (sym e) l) (bytes_lt_irrefl a)
  | inr (_, e) ↦ rw e (none_above a weights h)
]

add_weight-IsAbove :
    (a m : List ℕ) (w : ℕ) (weights : List (List ℕ × ℕ))
    → bytes_lt a m ≡ true
    → IsAbove a weights
    → IsAbove a (add_weight m w weights)
unfolding IsAbove add_weight
add_weight-IsAbove a m w [] l h = (l, tt)
add_weight-IsAbove a m w ((k, old) ∷ weights) l (h, hs) = elim (Bool-cases (bytes_eq m k)) [
  | inl e ↦ rw e (h, hs)
  | inr e ↦ rw e (elim (Bool-cases (bytes_lt m k)) [
    | inl f ↦ rw f (l, (h, hs))
    | inr f ↦ rw f (h, add_weight-IsAbove a m w weights l hs)
  ])
]

add_weight-IsSorted :
    (m : List ℕ) (w : ℕ) (weights : List (List ℕ × ℕ))
    → IsSorted weights
    → IsSorted (add_weight m w weights)
unfolding IsSorted IsAbove add_weight
add_weight-IsSorted m w [] h = (tt, tt)
add_weight-IsSorted m w ((k, old) ∷ weights) (h, hs) = elim (Bool-cases (bytes_eq m k)) [
  | inl e ↦ rw e (h, hs)
  | inr e ↦ rw e (elim (Bool-cases (bytes_lt m k)) [
    | inl f ↦ rw f ((f, IsAbove-trans m k weights f h), (h, hs))
    | inr f ↦ rw f (
      add_weight-IsAbove k m w weights (bytes_lt_total m k e f) h,
      add_weight-IsSorted m w weights hs,
    )
  ])
]

weight_in-add_weight :
    (a m : List ℕ) (w : ℕ) (weights : List (List ℕ × ℕ))
    → IsSorted weights
    → weight_sum weights + w ≤ u128_max
    → weight_in a (add_weight m w weights)
      ≡ (if bytes_eq a m then weight_in a weights + w else weight_in a weights)
unfolding IsSorted IsAbove weight_in add_weight weight_sum
weight_in-add_weight a m w [] h small = ground arith
weight_in-add_weight a m w ((k, old) ∷ weights) (h, hs) small = elim (bytes-cases m k) [
  | inl (e, t) ↦ rw t (elim (bytes-cases a k) [
    | inl (e', t') ↦
        let same : bytes_eq a m ≡ true = ap (bytes_eq a) e ∙ t' in rw (t', same) (omega arith)
    | inr (_, t') ↦ let other : bytes_eq a m ≡ false = ap (bytes_eq a) e ∙ t' in rw (t', other) refl
  ])
  | inr (_, t) ↦ rw t (elim (Bool-cases (bytes_lt m k)) [
    | inl f ↦ rw f (elim (bytes-cases a m) [
      | inl (e', t') ↦ rw t' (
          let l = subst (λ x. bytes_lt x k ≡ true) (sym e') f in
          let z : weight_in a ((k, old) ∷ weights) ≡ 0 =
            none_above a ((k, old) ∷ weights) (l, IsAbove-trans a k weights l h) in
          omega (arith, z))
      | inr (_, t') ↦ rw t' refl
    ])
    | inr f ↦ rw f (elim (bytes-cases a k) [
      | inl (e', t') ↦
          let other : bytes_eq a m ≡ false = elim (bytes-cases a m) [
            | inl (q, _) ↦ clash (bytes_eq m k) (subst (λ x. bytes_eq x k ≡ true) q t') t
            | inr (_, u) ↦ u
          ] in
          rw (t', other) refl
      | inr (_, t') ↦ rw t' (weight_in-add_weight a m w weights hs (omega arith))
    ])
  ])
]

-- The map has for each miner the weight of its shares.
collect_weights_in :
    (a : List ℕ) (shares : List PoolShare) (weights : List (List ℕ × ℕ)) (total : ℕ)
    → IsSorted weights
    → weight_sum weights + share_weights shares ≤ u128_max
    → IsSorted (collect_weights shares weights total).0
      × (weight_in a (collect_weights shares weights total).0
          ≡ weight_in a weights + miner_weight a shares)
unfolding collect_weights miner_weight share_weights
collect_weights_in a [] weights total sorted small = (sorted, omega arith)
collect_weights_in a (s ∷ shares) weights total sorted small =
    let w = max s.share_difficulty 1 in
    let added = add_weight s.miner w weights in
    let sum = add_weight_sum s.miner w weights (omega (arith, small)) in
    let here = weight_in-add_weight a s.miner w weights sorted (omega (arith, small)) in
    let (sorted', e) =
      collect_weights_in a shares added (saturating_add u128_max total w)
        (add_weight-IsSorted s.miner w weights sorted) (omega (arith, sum, small)) in
    (
      sorted',
      elim (Bool-cases (bytes_eq a s.miner)) [
        | inl t ↦ rw t (e ∙ rw (here, t) (omega arith))
        | inr t ↦ rw t (e ∙ rw (here, t) refl)
      ],
    )

-- What is true of every entry of a map.
unfoldable pub AllWeights : (List ℕ → ℕ → Type 0) → List (List ℕ × ℕ) → Type 0
AllWeights P [] = Unit
AllWeights P ((k, w) ∷ weights) = P k w × AllWeights P weights

pub AllWeights-map :
    {P Q R : List ℕ → ℕ → Type 0} (weights : List (List ℕ × ℕ))
    → ((k : List ℕ) (w : ℕ) → P k w → Q k w → R k w)
    → AllWeights P weights
    → AllWeights Q weights
    → AllWeights R weights
unfolding AllWeights
AllWeights-map [] f h j = tt
AllWeights-map ((k, w) ∷ weights) f (h, hs) (j, js) = (f k w h j, AllWeights-map weights f hs js)

above_entries :
    (a : List ℕ) (weights : List (List ℕ × ℕ))
    → IsAbove a weights
    → AllWeights (λ k w. bytes_lt a k ≡ true) weights
unfolding IsAbove AllWeights
above_entries a [] h = tt
above_entries a ((k, w) ∷ weights) (l, h) = (l, above_entries a weights h)

-- In a map in order, each entry is the one that is found under its key.
sorted_entries :
    (weights : List (List ℕ × ℕ))
    → IsSorted weights
    → AllWeights (λ k w. weight_in k weights ≡ w) weights
unfolding IsSorted AllWeights weight_in
sorted_entries [] sorted = tt
sorted_entries ((a, v) ∷ weights) (h, hs) = (
  rw (bytes_eq_refl a) refl,
  AllWeights-map {P = λ k w. bytes_lt a k ≡ true} {Q = λ k w. weight_in k weights ≡ w} weights
      (λ k w l e. elim (bytes-cases k a) [
        | inl (q, _) ↦
            clash (bytes_lt a a) (subst (λ x. bytes_lt a x ≡ true) q l) (bytes_lt_irrefl a)
        | inr (_, t) ↦ rw t e
      ])
      (above_entries a weights h) (sorted_entries weights hs),
)

-- Each entry of the map of a window is the weight of the shares of a miner.
pub collect_weights_lem :
    (shares : List PoolShare)
    → share_weights shares ≤ u128_max
    → AllWeights (λ k w. w ≡ miner_weight k shares) (collect_weights shares [] 0).0
unfolding IsSorted weight_in weight_sum
collect_weights_lem shares small =
    let weights = (collect_weights shares [] 0).0 in
    let sorted = (collect_weights_in [] shares [] 0 tt (omega (arith, small))).0 in
    AllWeights-map weights
      (λ k w e u.
        sym e ∙ (collect_weights_in k shares [] 0 tt (omega (arith, small))).1 ∙ omega arith)
      (sorted_entries weights sorted) (sorted_entries weights sorted)
