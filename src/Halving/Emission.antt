-- ===== src/Halving/Emission.antt =====
-- What `issue_block_reward` of pallets/halving/src/lib.rs mints.
use lumenyx.Prelude.{
  ℕ, ◌+◌, ◌-◌, ◌≤◌, ◌<◌, min, ◌≡◌, ◌⊎◌, arith, Bool, true, Option, none, some, List, [],
  if◌then◌else◌, u128_max, inl, inr, Option-cases, ok,
}
use lumenyx.Digest.{DigestItem}
use lumenyx.Primitives.{total_supply, calculate_block_reward}
use lumenyx.Halving.Deposits.{
  exact_sum, sum_payouts_eq, IsMinting, CanTake, CanPay, pay_miners_most, pay_miners_lem,
  pay_miners_keeps,
}
use lumenyx.Halving.{
  Framework, PoolPayoutDigest, Storage, sum_payouts, pay_miners, pay_by_digest, pay_reward,
  pool_payout_digest_from_header, issue_block_reward,
}

module _ (fw : Framework) where
  open fw use {AccountId, Raw}

  module _ (issuance : Raw → ℕ) (has_account : AccountId → Raw → Bool) (existential_deposit : ℕ)
      (m : IsMinting fw issuance has_account existential_deposit) where
    pay_by_digest_most :
        (validator : AccountId) (reward : ℕ) (d : Option PoolPayoutDigest) (raw : Raw) {paid : Raw}
        → reward < u128_max
        → pay_by_digest fw validator reward d raw ≡ some paid
        → issuance paid ≤ issuance raw + reward
    unfolding pay_by_digest
    pay_by_digest_most validator reward none raw small e = cc
    pay_by_digest_most validator reward (some d) raw small e = ground (
      arith,
      sum_payouts_eq 0 d.payouts (omega arith),
      pay_miners_most fw issuance has_account existential_deposit m d.payouts raw,
      m.at_most validator (d.block_reward - sum_payouts 0 d.payouts) (pay_miners fw d.payouts raw),
    )

    pay_reward_most :
        (validator : AccountId) (reward : ℕ) (logs : List DigestItem) (raw : Raw)
        → reward < u128_max
        → issuance (pay_reward fw validator reward logs raw) ≤ issuance raw + reward
    unfolding pay_reward
    pay_reward_most validator reward logs raw small =
        let d = pool_payout_digest_from_header fw logs in
        elim (Option-cases (pay_by_digest fw validator reward d raw)) [
          | inl e ↦ rw e (m.at_most validator reward raw)
          | inr (paid, e) ↦ rw e (pay_by_digest_most validator reward d raw small e)
        ]

    -- Whoever may be paid takes what it gets: the validator the reward, if the header has no digest; or
    -- the miners their payouts, where the validator has an account for what is left.
    abbrev pub CanReward : AccountId → ℕ → Option PoolPayoutDigest → Raw → Type 0
    CanReward validator reward none raw =
        CanTake fw issuance has_account existential_deposit m validator reward raw
    CanReward validator reward (some d) raw =
        (has_account validator raw ≡ true)
        × CanPay fw issuance has_account existential_deposit m d.payouts raw

    pay_by_digest_lem :
        (validator : AccountId) (reward : ℕ) (d : Option PoolPayoutDigest) (raw : Raw) {paid : Raw}
        → reward < u128_max
        → CanReward validator reward d raw
        → issuance raw + reward ≤ u128_max
        → pay_by_digest fw validator reward d raw ≡ some paid
        → issuance paid ≡ issuance raw + reward
    unfolding pay_by_digest
    pay_by_digest_lem validator reward none raw small c room e = cc
    pay_by_digest_lem validator reward (some d) raw small (h, c) room e =
        let s = sum_payouts_eq 0 d.payouts (omega arith) in
        let fits : (d.block_reward ≡ reward) × (exact_sum d.payouts ≤ reward) = ground (arith, s) in
        let paid =
          pay_miners_lem fw issuance has_account existential_deposit m d.payouts raw c
            (let f = fits.1 in omega arith) in
        let r = d.block_reward - sum_payouts 0 d.payouts in
        ground (
          arith,
          s,
          paid,
          m.mints validator r (pay_miners fw d.payouts raw)
              (inl (
                pay_miners_keeps fw issuance has_account existential_deposit m d.payouts raw
                  validator h))
              (let f = fits.0 in let g = fits.1 in omega (arith, s, paid)),
        )

    takes_reward :
        (validator : AccountId) (reward : ℕ) (d : Option PoolPayoutDigest) (raw : Raw)
        → CanReward validator reward d raw
        → CanTake fw issuance has_account existential_deposit m validator reward raw
    takes_reward validator reward none raw c = c
    takes_reward validator reward (some d) raw (h, c) = inl h

    pay_reward_lem :
        (validator : AccountId) (reward : ℕ) (logs : List DigestItem) (raw : Raw)
        → reward < u128_max
        → CanReward validator reward (pool_payout_digest_from_header fw logs) raw
        → issuance raw + reward ≤ u128_max
        → issuance (pay_reward fw validator reward logs raw) ≡ issuance raw + reward
    unfolding pay_reward
    pay_reward_lem validator reward logs raw small c room =
        let d = pool_payout_digest_from_header fw logs in
        elim (Option-cases (pay_by_digest fw validator reward d raw)) [
          | inl e ↦ rw e (m.mints validator reward raw (takes_reward validator reward d raw c) room)
          | inr (paid, e) ↦ rw e (pay_by_digest_lem validator reward d raw small c room e)
        ]

    -- If a deposit raises the issuance by at most its amount, and the emitted total is within the supply,
    -- then whatever the digest says the issuance grows by no more than `TotalEmitted` grows by.
    issue_mints_at_most :
        (validator : AccountId) (block_number : ℕ) (logs : List DigestItem) (s : Storage Raw)
        → s.total_emitted ≤ total_supply
        → let (_, s', _) = issue_block_reward fw validator block_number logs s in
          issuance s'.raw + s.total_emitted ≤ issuance s.raw + s'.total_emitted
    unfolding issue_block_reward
    issue_mints_at_most validator block_number logs s capped = ground (
      arith,
      pay_reward_most validator
          (min (calculate_block_reward block_number) (total_supply - s.total_emitted)) logs s.raw,
    )

    -- If deposits are what the documentation of the balances says, the emitted total is within the
    -- supply, the issuance has room for the reward, and whoever may be paid has an account or gets at
    -- least the existential deposit, then the issuance grows by exactly what `TotalEmitted` grows by:
    -- the validator without a digest, or the miners of the digest with an account of the validator for
    -- what is left.
    pub issue_mints_emitted :
        (validator : AccountId) (block_number : ℕ) (logs : List DigestItem) (s : Storage Raw)
        → s.total_emitted ≤ total_supply
        → let reward = min (calculate_block_reward block_number) (total_supply - s.total_emitted) in
          issuance s.raw + reward ≤ u128_max
          → CanReward validator reward (pool_payout_digest_from_header fw logs) s.raw
          → let (_, s', _) = issue_block_reward fw validator block_number logs s in
            issuance s'.raw + s.total_emitted ≡ issuance s.raw + s'.total_emitted
    unfolding issue_block_reward
    issue_mints_emitted validator block_number logs s capped room c = ground (
      arith,
      pay_reward_lem validator
          (min (calculate_block_reward block_number) (total_supply - s.total_emitted)) logs s.raw
          (omega arith) c room,
    )

  -- If the emitted total is within the supply, `issue_block_reward` adds the block's scheduled reward to
  -- it, cut to what is left of the supply; or nothing once the emission is finished.
  issue_capped :
      (validator : AccountId) (block_number : ℕ) (logs : List DigestItem) (s : Storage Raw)
      → s.total_emitted ≤ total_supply
      → let (_, s', _) = issue_block_reward fw validator block_number logs s in
        (s'.total_emitted ≡ (
          if s.emission_finished
          then s.total_emitted
          else min total_supply (s.total_emitted + calculate_block_reward block_number)))
        × (s'.total_emitted ≤ total_supply)
  unfolding issue_block_reward
  issue_capped validator block_number logs s capped = ground arith

  -- When the scheduled reward is zero or the supply is used up, the call changes no balance and no total
  -- and finishes the emission; and every later call returns at once, with no change and no event.
  issue_finished :
      (validator later_validator : AccountId) (block_number later_block : ℕ)
      (logs later_logs : List DigestItem) (s : Storage Raw)
      → (calculate_block_reward block_number ≡ 0) ⊎ (total_supply ≤ s.total_emitted)
      → let (_, s', _) = issue_block_reward fw validator block_number logs s in
        (s'.total_emitted ≡ s.total_emitted)
        × (s'.raw ≡ s.raw)
        × (s'.emission_finished ≡ true)
        × (issue_block_reward fw later_validator later_block later_logs s' ≡ (ok tt, s', []))
  unfolding issue_block_reward
  issue_finished validator later_validator block_number later_block logs later_logs s over =
      (ground arith, ground arith, ground arith, ground arith)
