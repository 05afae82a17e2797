-- ===== src/Node/Payout.antt =====
-- The payout digest that the node puts in a block it mines for the pool:
-- `prepare_pool_payout_digest_item` of node/src/service.rs.
pub mod Accepted
use lumenyx.Prelude.{
  ℕ, ◌+◌, ◌%◌, ◌^◌, Bool, true, false, Option, none, some, List, [], ◌∷◌, ◌++◌, ltb, if◌then◌else◌,
  bytes_eq, bytes_lt, map,
}
use lumenyx.Digest.{DigestItem, other, pool_payout_digest_tag}
use lumenyx.Primitives.{calculate_block_reward}
use lumenyx.Halving.{PoolPayoutDigest}
use lumenyx.Node.Pool.{PoolShare, PoolPayoutEntry, zero_hash, pplns_window_shares, max_pool_payouts}
use lumenyx.Node.Pool.Sharechain.{Sharechain, walk_back}
use lumenyx.Node.Pool.Pplns.{compute_pplns_payouts}

-- The stable sort by account.
unfoldable pub insert_by_account : List ℕ × ℕ → List (List ℕ × ℕ) → List (List ℕ × ℕ)
insert_by_account p [] = p ∷ []
insert_by_account p (q ∷ payouts) =
    if bytes_lt q.0 p.0 then q ∷ insert_by_account p payouts else p ∷ q ∷ payouts

unfoldable pub sort_by_account : List (List ℕ × ℕ) → List (List ℕ × ℕ)
unfolding insert_by_account
sort_by_account [] = []
sort_by_account (p ∷ payouts) = insert_by_account p (sort_by_account payouts)

abbrev pub tip_or_zero : Option (List ℕ) → List ℕ
tip_or_zero none = zero_hash
tip_or_zero (some tip) = tip

-- The tip of the chain of shares, zero if there is none, and the window of shares behind it.
unfoldable pub tip_and_window : Sharechain → List ℕ × List PoolShare
tip_and_window sc =
    let tip = tip_or_zero sc.best_tip in
    (tip, if bytes_eq tip zero_hash then [] else walk_back sc tip pplns_window_shares)

-- The digest of a window of shares.
unfoldable pub payout_digest : List ℕ → ℕ → List PoolShare → PoolPayoutDigest
unfolding sort_by_account
payout_digest tip reward window = record {
  sharechain_tip = tip;
  block_reward = reward;
  payouts =
      sort_by_account
        (map (λ e. (e.account, e.amount)) (compute_pplns_payouts window reward max_pool_payouts));
}

-- The item of a digest, over the codec.
abbrev pub payout_item : (PoolPayoutDigest → List ℕ) → PoolPayoutDigest → DigestItem
payout_item encode d = other (pool_payout_digest_tag ++ encode d)

abbrev pub item_of_window :
    (PoolPayoutDigest → List ℕ) → List ℕ → ℕ → List PoolShare → Option DigestItem
item_of_window encode tip reward [] = none
item_of_window encode tip reward (s ∷ shares) =
    some (payout_item encode (payout_digest tip reward (s ∷ shares)))

-- `prepare_pool_payout_digest_item`, for the mode of the pool, the number of the parent and the chain
-- of shares.
unfoldable pub prepare_pool_payout_digest_item :
    (PoolPayoutDigest → List ℕ) → Bool → ℕ → Sharechain → Option DigestItem
unfolding tip_and_window payout_digest
prepare_pool_payout_digest_item encode pool_mode parent_number sc =
    let block_u32 = (parent_number + 1) % 2 ^ 32 in
    let reward = calculate_block_reward block_u32 in
    let (tip, window) = tip_and_window sc in
    if pool_mode
    then if ltb 0 reward then item_of_window encode tip reward window else none
    else none
