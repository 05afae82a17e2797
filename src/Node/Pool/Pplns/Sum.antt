-- ===== src/Node/Pool/Pplns/Sum.antt =====
-- The payouts of node/src/pool/pplns.rs add up to the reward.
use lumenyx.Prelude.{
  ℕ, zero, suc, ◌+◌, ◌*◌, ◌≤◌, min, max, ◌≡◌, refl, ap, subst, ◌∙◌, arith, ◌⊎◌, inl, inr,
  Bool-cases, List, [], ◌∷◌, ltb, ◌==◌, take, length, length-take-le, u128_max,
}
use native.Mathlib.Nat.{mul-add, mul_comm, mul-div-le, le_of_mul-le-mul_left}
use lumenyx.Node.Pool.{PoolShare, PoolPayoutEntry}
use lumenyx.Node.Pool.Pplns.{
  add_weight, collect_weights, proportion, proportional_payouts, insert_payout, sort_payouts,
  sum_amounts, fix_remainder, cut_excess, compute_pplns_payouts,
}

-- The sums with no limit: of the weights of the shares, of a map of weights, and of the amounts.
unfoldable pub share_weights : List PoolShare → ℕ
share_weights [] = 0
share_weights (s ∷ shares) = max s.share_difficulty 1 + share_weights shares

unfoldable pub weight_sum : List (List ℕ × ℕ) → ℕ
weight_sum [] = 0
weight_sum ((_, w) ∷ weights) = w + weight_sum weights

unfoldable pub amount_sum : List PoolPayoutEntry → ℕ
amount_sum [] = 0
amount_sum (p ∷ payouts) = p.amount + amount_sum payouts

pub add_weight_sum :
    (miner : List ℕ) (w : ℕ) (weights : List (List ℕ × ℕ))
    → weight_sum weights + w ≤ u128_max
    → weight_sum (add_weight miner w weights) ≡ weight_sum weights + w
unfolding add_weight weight_sum
add_weight_sum miner w [] h = ground arith
add_weight_sum miner w ((acct, old) ∷ weights) h =
    ground (arith, add_weight_sum miner w weights (omega arith))

pub collect_weights_sum :
    (shares : List PoolShare) (weights : List (List ℕ × ℕ)) (total : ℕ)
    → weight_sum weights ≡ total
    → total + share_weights shares ≤ u128_max
    → let (weights', total') = collect_weights shares weights total in
      (weight_sum weights' ≡ total') × (total' ≡ total + share_weights shares)
unfolding collect_weights share_weights
collect_weights_sum [] weights total e h = (e, omega arith)
collect_weights_sum (s ∷ shares) weights total e h =
    let w = max s.share_difficulty 1 in
    let a = add_weight_sum s.miner w weights (omega (arith, e, h)) in
    let (l, r) =
      collect_weights_sum shares (add_weight s.miner w weights) (min u128_max (total + w))
        (omega (arith, a, e, h)) (omega arith) in
    (l, omega (arith, r))

proportional_payouts_step :
    (reward total : ℕ) (acct : List ℕ) (w : ℕ) (weights : List (List ℕ × ℕ))
    → amount_sum (proportional_payouts reward total ((acct, w) ∷ weights))
      ≡ proportion reward total w + amount_sum (proportional_payouts reward total weights)
unfolding proportional_payouts amount_sum
proportional_payouts_step reward total acct w weights = ground arith

proportional_payouts_sum :
    (reward total : ℕ) (weights : List (List ℕ × ℕ))
    → total * amount_sum (proportional_payouts reward total weights) ≤ reward * weight_sum weights
unfolding proportional_payouts weight_sum amount_sum
proportional_payouts_sum reward total [] = omega arith
proportional_payouts_sum reward total ((acct, w) ∷ weights) =
    let ih = proportional_payouts_sum reward total weights in
    let d = mul-div-le (min u128_max (reward * w)) total in
    let step = proportional_payouts_step reward total acct w weights in
    let l =
      mul-add total (proportion reward total w)
        (amount_sum (proportional_payouts reward total weights)) in
    let r = mul-add reward w (weight_sum weights) in rw step (omega (arith, l, r, d, ih))

insert_payout_sum :
    (p : PoolPayoutEntry) (payouts : List PoolPayoutEntry)
    → amount_sum (insert_payout p payouts) ≡ p.amount + amount_sum payouts
unfolding insert_payout amount_sum
insert_payout_sum p [] = refl
insert_payout_sum p (q ∷ payouts) = ground (arith, insert_payout_sum p payouts)

sort_payouts_sum :
    (payouts : List PoolPayoutEntry) → amount_sum (sort_payouts payouts) ≡ amount_sum payouts
unfolding sort_payouts amount_sum
sort_payouts_sum [] = refl
sort_payouts_sum (p ∷ payouts) =
    insert_payout_sum p (sort_payouts payouts) ∙ ap (◌+◌ p.amount) (sort_payouts_sum payouts)

take_sum :
    (n : ℕ) (payouts : List PoolPayoutEntry) → amount_sum (take n payouts) ≤ amount_sum payouts
unfolding amount_sum
take_sum zero payouts = omega arith
take_sum (suc n) [] = omega arith
take_sum (suc n) (p ∷ payouts) = omega (arith, take_sum n payouts)

pub sum_amounts_id :
    (payouts : List PoolPayoutEntry)
    → amount_sum payouts ≤ u128_max
    → sum_amounts payouts ≡ amount_sum payouts
unfolding sum_amounts amount_sum
sum_amounts_id [] h = refl
sum_amounts_id (p ∷ payouts) h = ground (arith, sum_amounts_id payouts (omega arith))

-- The two corrections: the first makes the sum equal to the reward, and leaves nothing to the second.
pub fix_remainder_sum :
    (reward : ℕ) (p : PoolPayoutEntry) (payouts : List PoolPayoutEntry)
    → reward ≤ u128_max
    → amount_sum (p ∷ payouts) ≤ reward
    → amount_sum (fix_remainder reward (p ∷ payouts)) ≡ reward
unfolding fix_remainder amount_sum
fix_remainder_sum reward p payouts r h =
    let s = sum_amounts_id (p ∷ payouts) (omega arith) in
    elim (Bool-cases (ltb (sum_amounts (p ∷ payouts)) reward)) [
      | inl e ↦ rw e (omega (arith, s, h))
      | inr e ↦ rw e (ground arith)
    ]

pub cut_excess_id :
    (reward : ℕ) (payouts : List PoolPayoutEntry)
    → reward ≤ u128_max
    → amount_sum payouts ≤ reward
    → cut_excess reward payouts ≡ payouts
unfolding cut_excess
cut_excess_id reward [] r h = refl
cut_excess_id reward (p ∷ payouts) r h =
    let s = sum_amounts_id (p ∷ payouts) (omega arith) in
    elim (Bool-cases (ltb reward (sum_amounts (p ∷ payouts)))) [
      | inl e ↦ absurd (ground arith)
      | inr e ↦ rw e refl
    ]

length-fix_remainder :
    (reward : ℕ) (payouts : List PoolPayoutEntry)
    → length (fix_remainder reward payouts) ≡ length payouts
unfolding fix_remainder
length-fix_remainder reward [] = refl
length-fix_remainder reward (p ∷ payouts) =
    elim (Bool-cases (ltb (sum_amounts (p ∷ payouts)) reward)) [
      | inl e ↦ rw e refl
      | inr e ↦ rw e refl
    ]

corrected_sum :
    (reward : ℕ) (payouts : List PoolPayoutEntry)
    → reward ≤ u128_max
    → amount_sum payouts ≤ reward
    → let paid = cut_excess reward (fix_remainder reward payouts) in
      (length paid ≡ length payouts) × ((paid ≡ []) ⊎ (amount_sum paid ≡ reward))
unfolding fix_remainder cut_excess
corrected_sum reward [] r h = (refl, inl refl)
corrected_sum reward (p ∷ payouts) r h =
    let s = fix_remainder_sum reward p payouts r h in
    let c = cut_excess_id reward (fix_remainder reward (p ∷ payouts)) r (omega (arith, s)) in
    (ap length c ∙ length-fix_remainder reward (p ∷ payouts), inr (ap amount_sum c ∙ s))

-- The parts that are kept are no more than the reward together.
pub kept_bound :
    (s : PoolShare) (shares : List PoolShare) (reward max_payouts : ℕ)
    → share_weights (s ∷ shares) ≤ u128_max
    → let (weights, total) = collect_weights (s ∷ shares) [] 0 in
      amount_sum (take max_payouts (sort_payouts (proportional_payouts reward total weights)))
      ≤ reward
unfolding weight_sum share_weights
kept_bound s shares reward max_payouts w =
    let (weights, total) = collect_weights (s ∷ shares) [] 0 in
    let (sum_eq, total_eq) = collect_weights_sum (s ∷ shares) [] 0 refl (omega (arith, w)) in
    let entries = proportional_payouts reward total weights in
    let bound : amount_sum entries ≤ reward =
      le_of_mul-le-mul_left {k = total}
        (subst (λ x. total * amount_sum entries ≤ x)
          (ap (λ x. reward * x) sum_eq ∙ mul_comm reward total)
          (proportional_payouts_sum reward total weights))
        (omega (arith, total_eq)) in
    omega (arith, take_sum max_payouts (sort_payouts entries), sort_payouts_sum entries, bound)

-- If the weights of the window have no overflow and the reward fits `u128`, there are at most `max_payouts` payouts, and if there
-- are any they add up to the reward exactly.
pub compute_pplns_payouts_sum :
    (shares : List PoolShare) (reward max_payouts : ℕ)
    → share_weights shares ≤ u128_max
    → reward ≤ u128_max
    → let paid = compute_pplns_payouts shares reward max_payouts in
      (length paid ≤ max_payouts) × ((paid ≡ []) ⊎ (amount_sum paid ≡ reward))
unfolding compute_pplns_payouts weight_sum share_weights
compute_pplns_payouts_sum [] reward max_payouts w r = (omega arith, inl refl)
compute_pplns_payouts_sum (s ∷ shares) reward max_payouts w r =
    let (weights, total) = collect_weights (s ∷ shares) [] 0 in
    let entries = proportional_payouts reward total weights in
    let kept = take max_payouts (sort_payouts entries) in
    let (l, c) = corrected_sum reward kept r (kept_bound s shares reward max_payouts w) in
    elim (Bool-cases (reward == 0)) [
      | inl z ↦ rw z (omega arith, inl refl)
      | inr nz ↦ rw nz (elim (Bool-cases (total == 0)) [
        | inl z' ↦ rw z' (omega arith, inl refl)
        | inr nz' ↦ rw nz' (omega (arith, l, length-take-le max_payouts (sort_payouts entries)), c)
      ])
    ]
