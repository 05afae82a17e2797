-- ===== src/Node/Pool/Pplns/Fair.antt =====
-- The payouts of node/src/pool/pplns.rs are the miners' parts of the reward.
use lumenyx.Prelude.{
  ℕ, zero, suc, ◌*◌, ◌/◌, ◌≤◌, min, ◌≡◌, refl, sym, ap, subst, ◌∙◌, arith, Bool-cases, inl, inr,
  List, [], ◌∷◌, ltb, leb, ◌==◌, take, u128_max,
}
use native.Mathlib.Nat.{mul-le-mul_left}
use lumenyx.Node.Pool.{PoolShare, PoolPayoutEntry}
use lumenyx.Node.Pool.Pplns.{
  collect_weights, proportion, proportional_payouts, insert_payout, sort_payouts, sum_amounts,
  fix_remainder, cut_excess, compute_pplns_payouts,
}
use lumenyx.Node.Pool.Pplns.Sum.{
  share_weights, weight_sum, amount_sum, collect_weights_sum, kept_bound, fix_remainder_sum,
  cut_excess_id,
}
use lumenyx.Node.Pool.Pplns.Weights.{miner_weight, AllWeights, collect_weights_lem}

-- What is true of every payout.
unfoldable pub AllPaid : (List ℕ → ℕ → Type 0) → List PoolPayoutEntry → Type 0
AllPaid P [] = Unit
AllPaid P (p ∷ payouts) = P p.account p.amount × AllPaid P payouts

module _ (P : List ℕ → ℕ → Type 0) where
  insert_payout-AllPaid :
      (p : PoolPayoutEntry) (payouts : List PoolPayoutEntry)
      → P p.account p.amount
      → AllPaid P payouts
      → AllPaid P (insert_payout p payouts)
  unfolding AllPaid insert_payout
  insert_payout-AllPaid p [] h hs = (h, tt)
  insert_payout-AllPaid p (q ∷ payouts) h (k, ks) = elim (Bool-cases (leb q.amount p.amount)) [
    | inl e ↦ rw e (h, (k, ks))
    | inr e ↦ rw e (k, insert_payout-AllPaid p payouts h ks)
  ]

  sort_payouts-AllPaid :
      (payouts : List PoolPayoutEntry) → AllPaid P payouts → AllPaid P (sort_payouts payouts)
  unfolding AllPaid sort_payouts
  sort_payouts-AllPaid [] h = tt
  sort_payouts-AllPaid (p ∷ payouts) (h, hs) =
      insert_payout-AllPaid p (sort_payouts payouts) h (sort_payouts-AllPaid payouts hs)

  take-AllPaid :
      (n : ℕ) (payouts : List PoolPayoutEntry) → AllPaid P payouts → AllPaid P (take n payouts)
  unfolding AllPaid
  take-AllPaid zero payouts h = tt
  take-AllPaid (suc n) [] h = tt
  take-AllPaid (suc n) (p ∷ payouts) (h, hs) = (h, take-AllPaid n payouts hs)

-- The payouts of a map of weights are the parts of these weights.
parts_paid :
    (weight : List ℕ → ℕ) (reward total : ℕ) (weights : List (List ℕ × ℕ))
    → AllWeights (λ k w. w ≡ weight k) weights
    → AllPaid
        (λ k amount. amount ≡ proportion reward total (weight k))
        (proportional_payouts reward total weights)
unfolding AllWeights AllPaid proportional_payouts
parts_paid weight reward total [] h = tt
parts_paid weight reward total ((k, w) ∷ weights) (h, hs) =
    elim (Bool-cases (ltb 0 (proportion reward total w))) [
      | inl e ↦ rw e (ap (proportion reward total) h, parts_paid weight reward total weights hs)
      | inr e ↦ rw e (parts_paid weight reward total weights hs)
    ]

-- A payout is the floor of a miner's part of the reward; the first one may be more.
unfoldable pub IsFair : List PoolShare → ℕ → List PoolPayoutEntry → Type 0
IsFair shares reward [] = Unit
IsFair shares reward (p ∷ payouts) =
    (reward * miner_weight p.account shares / share_weights shares ≤ p.amount)
    × AllPaid (λ k amount. amount ≡ reward * miner_weight k shares / share_weights shares) payouts

miner_bound : (a : List ℕ) (shares : List PoolShare) → miner_weight a shares ≤ share_weights shares
unfolding miner_weight share_weights
miner_bound a [] = omega arith
miner_bound a (s ∷ shares) = ground (arith, miner_bound a shares)

-- The corrections leave all payouts but the first, which can only grow.
corrected_first :
    (shares : List PoolShare) (reward : ℕ) (payouts : List PoolPayoutEntry)
    → reward ≤ u128_max
    → amount_sum payouts ≤ reward
    → AllPaid (λ k amount. amount ≡ reward * miner_weight k shares / share_weights shares) payouts
    → IsFair shares reward (cut_excess reward (fix_remainder reward payouts))
unfolding AllPaid IsFair fix_remainder cut_excess amount_sum
corrected_first shares reward [] r h paid = tt
corrected_first shares reward (p ∷ payouts) r h (first, paid) =
    subst (IsFair shares reward)
      (sym (
        cut_excess_id reward (fix_remainder reward (p ∷ payouts)) r
          (omega (arith, fix_remainder_sum reward p payouts r h))))
      (elim (Bool-cases (ltb (sum_amounts (p ∷ payouts)) reward)) [
        | inl e ↦ rw e (omega (arith, first, h, r), paid)
        | inr e ↦ rw e (omega (arith, first), paid)
      ])

exact_part :
    (shares : List PoolShare) (reward total : ℕ) (k : List ℕ)
    → total ≡ share_weights shares
    → reward * share_weights shares ≤ u128_max
    → proportion reward total (miner_weight k shares)
      ≡ reward * miner_weight k shares / share_weights shares
exact_part shares reward total k e h =
    let small = mul-le-mul_left reward (miner_bound k shares) in
    let whole : min u128_max (reward * miner_weight k shares) ≡ reward * miner_weight k shares =
      omega (arith, small, h) in
    rw (whole, e) refl

AllPaid-map :
    {P Q : List ℕ → ℕ → Type 0} (payouts : List PoolPayoutEntry)
    → ((k : List ℕ) (amount : ℕ) → P k amount → Q k amount)
    → AllPaid P payouts
    → AllPaid Q payouts
unfolding AllPaid
AllPaid-map [] f h = tt
AllPaid-map (p ∷ payouts) f (h, hs) = (f p.account p.amount h, AllPaid-map payouts f hs)

-- If the weights of the window, and their product with the reward, have no overflow, every payout is
-- the floor of the miner's part of the reward by the weight of its shares in the window, but the
-- first, which is at least that.
pub compute_pplns_payouts-IsFair :
    (shares : List PoolShare) (reward max_payouts : ℕ)
    → share_weights shares ≤ u128_max
    → reward * share_weights shares ≤ u128_max
    → reward ≤ u128_max
    → IsFair shares reward (compute_pplns_payouts shares reward max_payouts)
unfolding compute_pplns_payouts IsFair weight_sum
compute_pplns_payouts-IsFair [] reward max_payouts w h r = tt
compute_pplns_payouts-IsFair (s ∷ shares) reward max_payouts w h r =
    let (weights, total) = collect_weights (s ∷ shares) [] 0 in
    let (sum_eq, total_eq) = collect_weights_sum (s ∷ shares) [] 0 refl (omega (arith, w)) in
    let whole : total ≡ share_weights (s ∷ shares) = omega (arith, total_eq) in
    let entries = proportional_payouts reward total weights in
    let part = λ (k : List ℕ) (amount : ℕ).
      amount ≡ reward * miner_weight k (s ∷ shares) / share_weights (s ∷ shares) in
    let all =
      AllPaid-map {Q = part} entries
        (λ k amount e. e ∙ exact_part (s ∷ shares) reward total k whole h)
        (parts_paid (λ k. miner_weight k (s ∷ shares)) reward total weights
          (collect_weights_lem (s ∷ shares) w)) in
    let kept =
      take-AllPaid part max_payouts (sort_payouts entries)
        (sort_payouts-AllPaid part entries all) in
    elim (Bool-cases (reward == 0)) [
      | inl z ↦ rw z tt
      | inr nz ↦ rw nz (elim (Bool-cases (total == 0)) [
        | inl z' ↦ rw z' tt
        | inr nz' ↦ rw nz' (
            corrected_first (s ∷ shares) reward (take max_payouts (sort_payouts entries)) r
              (kept_bound s shares reward max_payouts w) kept)
      ])
    ]
