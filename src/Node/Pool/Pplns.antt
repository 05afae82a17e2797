-- ===== src/Node/Pool/Pplns.antt =====
-- The division of a block's reward among the miners of a window of shares, node/src/pool/pplns.rs.
pub mod Sum
pub mod Weights
pub mod Fair
use lumenyx.Prelude.{
  ℕ, zero, suc, ◌+◌, ◌-◌, ◌*◌, ◌/◌, ◌%◌, ◌^◌, max, Bool, List, [], ◌∷◌, ltb, leb, ◌==◌,
  if◌then◌else◌, bytes_eq, bytes_lt, take, retain, map, saturating_add, saturating_mul, u128_max,
}
use lumenyx.Node.Pool.{PoolShare, PoolPayoutEntry}

-- The update of a miner's entry of the `BTreeMap`, which is in the order of the keys.
unfoldable pub add_weight : List ℕ → ℕ → List (List ℕ × ℕ) → List (List ℕ × ℕ)
add_weight miner w [] = (miner, saturating_add u128_max 0 w) ∷ []
add_weight miner w ((acct, old) ∷ weights) =
    if bytes_eq miner acct
    then (acct, saturating_add u128_max old w) ∷ weights
    else if bytes_lt miner acct
    then (miner, saturating_add u128_max 0 w) ∷ (acct, old) ∷ weights
    else (acct, old) ∷ add_weight miner w weights

-- The loop over the shares, from the weights and the total so far.
unfoldable pub collect_weights : List PoolShare → List (List ℕ × ℕ) → ℕ → List (List ℕ × ℕ) × ℕ
collect_weights [] weights total_w = (weights, total_w)
collect_weights (s ∷ shares) weights total_w =
    let w = max s.share_difficulty 1 in
    collect_weights shares (add_weight s.miner w weights) (saturating_add u128_max total_w w)

-- A miner's part of the reward.
abbrev pub proportion : ℕ → ℕ → ℕ → ℕ
proportion block_reward total_w w = saturating_mul u128_max block_reward w / total_w

-- The proportional payouts that are not zero.
unfoldable pub proportional_payouts : ℕ → ℕ → List (List ℕ × ℕ) → List PoolPayoutEntry
proportional_payouts block_reward total_w [] = []
proportional_payouts block_reward total_w ((acct, w) ∷ weights) =
    let rest = proportional_payouts block_reward total_w weights in
    let amt = proportion block_reward total_w w in
    if ltb 0 amt then record { account = acct; amount = amt } ∷ rest else rest

-- The stable sort by descending amount.
unfoldable pub insert_payout : PoolPayoutEntry → List PoolPayoutEntry → List PoolPayoutEntry
insert_payout p [] = p ∷ []
insert_payout p (q ∷ payouts) =
    if leb q.amount p.amount then p ∷ q ∷ payouts else q ∷ insert_payout p payouts

unfoldable pub sort_payouts : List PoolPayoutEntry → List PoolPayoutEntry
unfolding insert_payout
sort_payouts [] = []
sort_payouts (p ∷ payouts) = insert_payout p (sort_payouts payouts)

-- `.map(|p| p.amount).sum()`, which wraps.
unfoldable pub sum_amounts : List PoolPayoutEntry → ℕ
sum_amounts [] = 0
sum_amounts (p ∷ payouts) = (p.amount + sum_amounts payouts) % 2 ^ 128

-- The rounding remainder goes to the first payout.
unfoldable pub fix_remainder : ℕ → List PoolPayoutEntry → List PoolPayoutEntry
unfolding sum_amounts
fix_remainder block_reward [] = []
fix_remainder block_reward (p ∷ payouts) =
    let sum = sum_amounts (p ∷ payouts) in
    if ltb sum block_reward
    then record p { amount = saturating_add u128_max p.amount (block_reward - sum) } ∷ payouts
    else p ∷ payouts

-- An excess is taken off the first payout.
unfoldable pub cut_excess : ℕ → List PoolPayoutEntry → List PoolPayoutEntry
unfolding sum_amounts
cut_excess block_reward [] = []
cut_excess block_reward (p ∷ payouts) =
    let sum2 = sum_amounts (p ∷ payouts) in
    if ltb block_reward sum2
    then record p { amount = p.amount - (sum2 - block_reward) } ∷ payouts
    else p ∷ payouts

-- `compute_pplns_payouts`
unfoldable pub compute_pplns_payouts : List PoolShare → ℕ → ℕ → List PoolPayoutEntry
unfolding collect_weights proportional_payouts sort_payouts fix_remainder cut_excess
compute_pplns_payouts [] block_reward max_payouts = []
compute_pplns_payouts (s ∷ shares) block_reward max_payouts =
    let (weights, total_w) = collect_weights (s ∷ shares) [] 0 in
    let payouts =
      take max_payouts (sort_payouts (proportional_payouts block_reward total_w weights)) in
    if block_reward == 0
    then []
    else if total_w == 0
    then []
    else cut_excess block_reward (fix_remainder block_reward payouts)
