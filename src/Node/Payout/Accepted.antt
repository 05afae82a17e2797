-- ===== src/Node/Payout/Accepted.antt =====
-- The payout digest of node/src/service.rs is one that pallets/halving/src/lib.rs pays.
use lumenyx.Prelude.{
  ℕ, ◌+◌, ◌-◌, ◌%◌, ◌^◌, ◌≤◌, ◌<◌, ◌≡◌, refl, sym, ap, subst, ◌∙◌, arith, ◌⊎◌, inl, inr, Bool, true,
  false, Option, none, some, List, [], ◌∷◌, ◌++◌, not, retain, ltb, ==_refl, le→leb, if◌then◌else◌,
  bytes_lt, map, u32_max, u128_max, Bool-cases, some-injective, none-ne-some,
}
use lumenyx.Digest.{DigestItem, other, pre_runtime, consensus, seal, runtime_environment_updated}
use lumenyx.Primitives.{calculate_block_reward, base_block_reward}
use lumenyx.Primitives.Schedule.{reward_le}
use lumenyx.Halving.{
  Framework, PoolPayoutDigest, sum_payouts, pay_miners, pay_by_digest, paid_or_validator,
  pay_reward, pool_payout_digest_from_header,
}
use lumenyx.Halving.Deposits.{exact_sum, sum_payouts_eq}
use lumenyx.Node.Pool.{PoolShare, PoolPayoutEntry, max_pool_payouts}
use lumenyx.Node.Pool.Sharechain.{Sharechain}
use lumenyx.Node.Pool.Pplns.{compute_pplns_payouts}
use lumenyx.Node.Pool.Pplns.Sum.{share_weights, amount_sum, compute_pplns_payouts_sum}
use lumenyx.Node.Import.{Header, is_lumenyx_seal}
use lumenyx.Node.Mining.{header_no_seal}
use lumenyx.Node.Payout.{
  insert_by_account, sort_by_account, tip_and_window, payout_digest, payout_item, item_of_window,
  prepare_pool_payout_digest_item,
}

insert_by_account_sum :
    (p : List ℕ × ℕ) (payouts : List (List ℕ × ℕ))
    → exact_sum (insert_by_account p payouts) ≡ p.1 + exact_sum payouts
unfolding insert_by_account exact_sum
insert_by_account_sum p [] = refl
insert_by_account_sum p (q ∷ payouts) = elim (Bool-cases (bytes_lt q.0 p.0)) [
  | inl e ↦ rw e (omega (arith, insert_by_account_sum p payouts))
  | inr e ↦ rw e refl
]

sort_by_account_sum :
    (payouts : List (List ℕ × ℕ)) → exact_sum (sort_by_account payouts) ≡ exact_sum payouts
unfolding sort_by_account exact_sum
sort_by_account_sum [] = refl
sort_by_account_sum (p ∷ payouts) =
    insert_by_account_sum p (sort_by_account payouts) ∙ ap (◌+◌ p.1) (sort_by_account_sum payouts)

map_sum :
    (entries : List PoolPayoutEntry)
    → exact_sum (map (λ e. (e.account, e.amount)) entries) ≡ amount_sum entries
unfolding exact_sum amount_sum
map_sum [] = refl
map_sum (e ∷ entries) = ap (◌+◌ e.amount) (map_sum entries)

-- A digest has no payouts, or they add up to its reward.
payout_digest_sum :
    (tip : List ℕ) (reward : ℕ) (window : List PoolShare)
    → share_weights window ≤ u128_max
    → reward ≤ u128_max
    → let d = payout_digest tip reward window in (d.payouts ≡ []) ⊎ (exact_sum d.payouts ≡ reward)
unfolding payout_digest sort_by_account
payout_digest_sum tip reward window w r =
    let entries = compute_pplns_payouts window reward max_pool_payouts in
    let s = sort_by_account_sum (map (λ e. (e.account, e.amount)) entries) ∙ map_sum entries in
    let (_, c) = compute_pplns_payouts_sum window reward max_pool_payouts w r in
    elim c [
      | inl e ↦ inl (ap (λ x. sort_by_account (map (λ e. (e.account, e.amount)) x)) e)
      | inr e ↦ inr (s ∙ e)
    ]

payouts_within :
    (payouts : List (List ℕ × ℕ)) (reward : ℕ)
    → (payouts ≡ []) ⊎ (exact_sum payouts ≡ reward)
    → exact_sum payouts ≤ reward
unfolding exact_sum
payouts_within payouts reward (inl e) =
    let z : exact_sum payouts ≡ 0 = ap exact_sum e in omega (arith, z)
payouts_within payouts reward (inr e) = omega (arith, e)

item_of_window_lem :
    (encode : PoolPayoutDigest → List ℕ) (tip : List ℕ) (reward : ℕ) (window : List PoolShare)
    (item : DigestItem)
    → item_of_window encode tip reward window ≡ some item
    → payout_item encode (payout_digest tip reward window) ≡ item
item_of_window_lem encode tip reward [] item e = absurd (none-ne-some item e)
item_of_window_lem encode tip reward (s ∷ shares) item e =
    some-injective (payout_item encode (payout_digest tip reward (s ∷ shares))) item e

guard_some :
    (b : Bool) (o : Option DigestItem) (item : DigestItem)
    → (if b then o else none) ≡ some item
    → o ≡ some item
guard_some true o item e = e
guard_some false o item e = absurd (none-ne-some item e)

prepared_item :
    (encode : PoolPayoutDigest → List ℕ) (parent_number : ℕ) (sc : Sharechain) (item : DigestItem)
    → parent_number < u32_max
    → prepare_pool_payout_digest_item encode true parent_number sc ≡ some item
    → let (tip, window) = tip_and_window sc in
      payout_item encode (payout_digest tip (calculate_block_reward (parent_number + 1)) window)
      ≡ item
unfolding prepare_pool_payout_digest_item
prepared_item encode parent_number sc item small e =
    let (tip, window) = tip_and_window sc in
    let block : ℕ = (parent_number + 1) % 2 ^ 32 in
    let b : block ≡ parent_number + 1 = omega arith in
    item_of_window_lem encode tip (calculate_block_reward (parent_number + 1)) window item (
      subst (λ n. item_of_window encode tip (calculate_block_reward n) window ≡ some item) b
        (guard_some (ltb 0 (calculate_block_reward block))
          (item_of_window encode tip (calculate_block_reward block) window) item e))

reward_within : (n : ℕ) → calculate_block_reward n ≤ u128_max
unfolding base_block_reward
reward_within n = let r = reward_le n in ground arith

module _ (fw : Framework) where
  open fw use {AccountId, Raw, deposit_creating}

  -- The storage after the payouts of a digest, with what is left for the validator.
  pub paid_to_miners : AccountId → PoolPayoutDigest → Raw → Raw
  paid_to_miners validator d raw =
      let paid = pay_miners fw d.payouts raw in
      let remainder = d.block_reward - exact_sum d.payouts in
      if ltb 0 remainder then deposit_creating validator remainder paid else paid

-- The codec of the pallet reads what the node writes.
unfoldable pub IsCodec : (fw : Framework) → (PoolPayoutDigest → List ℕ) → Type 0
IsCodec fw encode = (d : PoolPayoutDigest) → fw.decode_digest (encode d) ≡ some d

module _ (fw : Framework) (encode : PoolPayoutDigest → List ℕ) (codec : IsCodec fw encode) where
  open fw use {AccountId, Raw}

  -- A header without a payout digest hides none of the items after it.
  found_after :
      (logs more : List DigestItem)
      → pool_payout_digest_from_header fw logs ≡ none
      → pool_payout_digest_from_header fw (logs ++ more) ≡ pool_payout_digest_from_header fw more
  unfolding pool_payout_digest_from_header
  found_after [] more e = refl
  found_after (other bytes ∷ logs) more e = ground (arith, found_after logs more)
  found_after (pre_runtime id bytes ∷ logs) more e = found_after logs more e
  found_after (consensus id bytes ∷ logs) more e = found_after logs more e
  found_after (seal id bytes ∷ logs) more e = found_after logs more e
  found_after (runtime_environment_updated ∷ logs) more e = found_after logs more e

  -- The seals that are taken off a header are no payout digests.
  found_unsealed :
      (logs : List DigestItem)
      → pool_payout_digest_from_header fw (retain (λ d. not (is_lumenyx_seal d)) logs)
        ≡ pool_payout_digest_from_header fw logs
  unfolding pool_payout_digest_from_header
  found_unsealed [] = refl
  found_unsealed (other bytes ∷ logs) = ground (arith, found_unsealed logs)
  found_unsealed (pre_runtime id bytes ∷ logs) = found_unsealed logs
  found_unsealed (consensus id bytes ∷ logs) = found_unsealed logs
  found_unsealed (seal id bytes ∷ logs) = ground (arith, found_unsealed logs)
  found_unsealed (runtime_environment_updated ∷ logs) = found_unsealed logs

  found_item :
      (d : PoolPayoutDigest)
      → pool_payout_digest_from_header fw (payout_item encode d ∷ []) ≡ some d
  unfolding pool_payout_digest_from_header IsCodec
  found_item d = ground (arith, codec d)

  -- The header that is mined has the item that was pushed to it.
  found_in_header :
      (d : PoolPayoutDigest) (proposed : Header)
      → pool_payout_digest_from_header fw proposed.logs ≡ none
      → pool_payout_digest_from_header fw
          (header_no_seal (some (payout_item encode d)) proposed).logs
        ≡ some d
  unfolding header_no_seal
  found_in_header d proposed e =
      found_unsealed (proposed.logs ++ payout_item encode d ∷ [])
      ∙ found_after proposed.logs (payout_item encode d ∷ []) e
      ∙ found_item d

  paid_by_digest :
      (validator : AccountId) (d : PoolPayoutDigest) (raw : Raw)
      → exact_sum d.payouts ≤ d.block_reward
      → d.block_reward ≤ u128_max
      → pay_by_digest fw validator d.block_reward (some d) raw
        ≡ some (paid_to_miners fw validator d raw)
  unfolding pay_by_digest paid_to_miners payout_digest
  paid_by_digest validator d raw h r =
      let s : sum_payouts 0 d.payouts ≡ exact_sum d.payouts =
        sum_payouts_eq 0 d.payouts (omega arith) ∙ omega arith in
      rw (s, ==_refl d.block_reward, le→leb (exact_sum d.payouts) d.block_reward h) refl

  pays_by_digest :
      (validator : AccountId) (d : PoolPayoutDigest) (logs : List DigestItem) (raw : Raw)
      → pool_payout_digest_from_header fw logs ≡ some d
      → exact_sum d.payouts ≤ d.block_reward
      → d.block_reward ≤ u128_max
      → pay_reward fw validator d.block_reward logs raw ≡ paid_to_miners fw validator d raw
  unfolding pay_reward
  pays_by_digest validator d logs raw e h r =
      ap (paid_or_validator fw validator d.block_reward raw) (
        ap (λ x. pay_by_digest fw validator d.block_reward x raw) e
        ∙ paid_by_digest validator d raw h r)

  -- If the pallet's decoder reads what the node's encoder writes, the node prepares a payout item in the
  -- mode of the pool, for a block on a parent whose number is below the end of `u32`, the weights of
  -- its window have no overflow, and the header of the proposer has no payout digest, then the pallet
  -- that is to pay that block's scheduled reward with the logs of the header that the node mines, where
  -- the item stands last, does not fall back to the validator: it pays the miners of the window what the
  -- item says, and the validator only what is left, nothing if there is any payout.
  pub prepared_item_is_paid :
      (parent_number : ℕ) (sc : Sharechain) (item : DigestItem) (validator : AccountId)
      (proposed : Header) (raw : Raw)
      → parent_number < u32_max
      → share_weights (tip_and_window sc).1 ≤ u128_max
      → prepare_pool_payout_digest_item encode true parent_number sc ≡ some item
      → pool_payout_digest_from_header fw proposed.logs ≡ none
      → let reward = calculate_block_reward (parent_number + 1) in
        let (tip, window) = tip_and_window sc in
        let d = payout_digest tip reward window in
        (pay_reward fw validator reward (header_no_seal (some item) proposed).logs raw
          ≡ paid_to_miners fw validator d raw)
        × ((d.payouts ≡ []) ⊎ (exact_sum d.payouts ≡ reward))
  unfolding payout_digest
  prepared_item_is_paid parent_number sc item validator proposed raw small w e free =
      let reward = calculate_block_reward (parent_number + 1) in
      let (tip, window) = tip_and_window sc in
      let d = payout_digest tip reward window in
      let r = reward_within (parent_number + 1) in
      let sums = payout_digest_sum tip reward window w r in
      (
        ap (λ x. pay_reward fw validator reward (header_no_seal (some x) proposed).logs raw)
              (sym (prepared_item encode parent_number sc item small e))
            ∙ pays_by_digest validator d
                (header_no_seal (some (payout_item encode d)) proposed).logs raw
                (found_in_header d proposed free) (payouts_within d.payouts reward sums) r,
        sums,
      )
