-- ===== src/Halving.antt =====
-- The emission pallet, pallets/halving/src/lib.rs: block rewards, halvings, the supply cap, payouts to
-- the pool, and the migration of all balances from 12 to 18 decimals.
pub mod Deposits
pub mod Emission
pub mod Migration
use lumenyx.Prelude.{
  bytes_eq, ℕ, zero, suc, ◌+◌, ◌-◌, ◌*◌, min, Bool, true, false, not, ◌&&◌, Option, none, some,
  List, [], ◌∷◌, ltb, leb, ◌==◌, if◌then◌else◌, length, take, drop, saturating_add, saturating_mul,
  u128_max, u256_max, Result, ok, err,
}
use lumenyx.Digest.{DigestItem, other, pool_payout_digest_tag}
use lumenyx.Primitives.{
  fork_height_v2, decimal_migration_factor, total_supply, calculate_block_reward, current_era,
  blocks_until_halving,
}

-- `PoolPayoutDigest`: the payouts name raw 32-byte accounts.
pub record PoolPayoutDigest : Type 0 where
  pub sharechain_tip : List ℕ
  pub block_reward : ℕ
  pub payouts : List (List ℕ × ℕ)

-- `AccountInfo` with its `AccountData`, as `run_decimal_migration` declares them.
pub record AccountInfo : Type 0 where
  pub nonce : ℕ
  pub consumers : ℕ
  pub providers : ℕ
  pub sufficients : ℕ
  pub free : ℕ
  pub reserved : ℕ
  pub frozen : ℕ

-- What the pallet takes from the framework: the account type, the raw storage with all other pallets'
-- data in it, `Currency::deposit_creating` on that storage, the SCALE codecs and the storage keys.
pub record Framework : Type 1 where
  pub AccountId : Type 0
  pub Raw : Type 0
  pub get : List ℕ → Raw → Option (List ℕ)
  pub put : List ℕ → List ℕ → Raw → Raw
  pub next_key : List ℕ → Raw → Option (List ℕ)
  pub starts_with : List ℕ → List ℕ → Bool
  pub deposit_creating : AccountId → ℕ → Raw → Raw
  pub decode_account : List ℕ → Option AccountId
  pub decode_digest : List ℕ → Option PoolPayoutDigest
  pub decode_info : List ℕ → Option AccountInfo
  pub encode_info : AccountInfo → List ℕ
  pub decode_u128 : List ℕ → Option ℕ
  pub encode_u128 : ℕ → List ℕ
  pub decode_u256 : List ℕ → Option ℕ
  pub encode_u256 : ℕ → List ℕ
  pub account_prefix : List ℕ
  pub total_issuance_key : List ℕ
  pub base_fee_key : List ℕ

pub data Error : Type 0 where
  emission_complete_error arithmetic_overflow : Error

-- The pallet's storage, and the raw storage of the others.
pub record Storage (Raw : Type 0) : Type 0 where
  pub current_halving_era : ℕ
  pub total_emitted : ℕ
  pub emission_finished : Bool
  pub decimal_migration_done : Bool
  pub raw : Raw

-- The migration multiplies the three balances of an account.
abbrev pub scale_info : AccountInfo → AccountInfo
scale_info i = record i {
  free = saturating_mul u128_max i.free decimal_migration_factor;
  reserved = saturating_mul u128_max i.reserved decimal_migration_factor;
  frozen = saturating_mul u128_max i.frozen decimal_migration_factor;
}

-- `sum = sum.saturating_add(*amt)` over the payouts.
unfoldable pub sum_payouts : ℕ → List (List ℕ × ℕ) → ℕ
sum_payouts sum [] = sum
sum_payouts sum ((_, amt) ∷ payouts) = sum_payouts (saturating_add u128_max sum amt) payouts

module _ (fw : Framework) where
  open fw use {
    AccountId, Raw, get, put, next_key, starts_with, deposit_creating, decode_account,
    decode_digest, decode_info, encode_info, decode_u128, encode_u128, decode_u256, encode_u256,
    account_prefix, total_issuance_key, base_fee_key,
  }

  pub data Event : Type 0 where
    block_reward_issued : (validator : AccountId) (amount block_number : ℕ) → Event
    halving_occurred : (era new_reward at_block : ℕ) → Event
    emission_complete : (total_emitted at_block : ℕ) → Event

  -- One round of the loop over the accounts: the value under the key, if it decodes.
  abbrev pub migrate_info : List ℕ → Raw → Option AccountInfo → Raw
  migrate_info k raw none = raw
  migrate_info k raw (some info) = put k (encode_info (scale_info info)) raw

  abbrev pub migrate_value : List ℕ → Raw → Option (List ℕ) → Raw
  migrate_value k raw none = raw
  migrate_value k raw (some bytes) = migrate_info k raw (decode_info bytes)

  unfoldable pub migrate_account : List ℕ → Raw → Raw
  migrate_account k raw = migrate_value k raw (get k raw)

  -- `while let Some(k) = key`, on fuel: one round for each key under the prefix.
  unfoldable pub migrate_accounts : ℕ → Option (List ℕ) → Raw → Raw
  migrate_accounts fuel none raw = raw
  migrate_accounts zero (some k) raw = raw
  migrate_accounts (suc fuel) (some k) raw =
      let raw' = migrate_account k raw in
      let rest = migrate_accounts fuel (next_key k raw') raw' in
      if starts_with k account_prefix then rest else raw

  -- Step 2 of the migration: `TotalIssuance`.
  unfoldable pub migrate_issuance : Raw → Raw
  migrate_issuance raw = elim (get total_issuance_key raw) [
    | none ↦ raw
    | some bytes ↦ elim (decode_u128 bytes) [
      | none ↦ raw
      | some old ↦
          put total_issuance_key
            (encode_u128 (saturating_mul u128_max old decimal_migration_factor)) raw
    ]
  ]

  -- Step 4: `BaseFeePerGas`; the product of two `U256` panics when it overflows, which is `none`.
  unfoldable pub migrate_base_fee : Raw → Option Raw
  migrate_base_fee raw = elim (get base_fee_key raw) [
    | none ↦ some raw
    | some bytes ↦ elim (decode_u256 bytes) [
      | none ↦ some raw
      | some old ↦
          if leb (old * decimal_migration_factor) u256_max
          then some (put base_fee_key (encode_u256 (old * decimal_migration_factor)) raw)
          else none
    ]
  ]

  -- `run_decimal_migration`; `accounts` bounds the rounds of its loop.
  unfoldable pub run_decimal_migration : ℕ → Storage Raw → Option (Storage Raw)
  unfolding migrate_issuance migrate_base_fee
  run_decimal_migration accounts s =
      let raw1 = migrate_accounts accounts (next_key account_prefix s.raw) s.raw in
      let raw2 = migrate_issuance raw1 in
      let emitted = saturating_mul u128_max s.total_emitted decimal_migration_factor in
      elim (migrate_base_fee raw2) [
        | none ↦ none
        | some raw3 ↦
            some (record s { total_emitted = emitted; raw = raw3; decimal_migration_done = true })
      ]

  -- The second part of `on_initialize`: a new era is stored and announced.
  unfoldable pub check_halving : ℕ → Storage Raw → Storage Raw × List Event
  check_halving block_number s =
      let expected_era = current_era block_number in
      if ltb s.current_halving_era expected_era
      then (
        record s { current_halving_era = expected_era },
        halving_occurred expected_era (calculate_block_reward block_number) block_number ∷ [],
      )
      else (s, [])

  -- `on_initialize`
  unfoldable pub on_initialize : ℕ → ℕ → Storage Raw → Option (Storage Raw × List Event)
  on_initialize accounts block_number s =
      let migrated =
        if leb fork_height_v2 block_number && not s.decimal_migration_done
        then run_decimal_migration accounts s
        else some s in
      elim migrated [ none ↦ none | some s' ↦ some (check_halving block_number s') ]

  -- `pool_payout_digest_from_header`: the first item with the tag whose payload decodes.
  unfoldable pub pool_payout_digest_from_header : List DigestItem → Option PoolPayoutDigest
  pool_payout_digest_from_header [] = none
  pool_payout_digest_from_header (other bytes ∷ logs) =
      let rest = pool_payout_digest_from_header logs in
      if ltb (length bytes) 4
      then rest
      else if not (bytes_eq (take 4 bytes) pool_payout_digest_tag)
      then rest
      else elim (decode_digest (drop 4 bytes)) [ some d ↦ some d | none ↦ rest ]
  pool_payout_digest_from_header (_ ∷ logs) = pool_payout_digest_from_header logs

  -- The loop that pays the miners: zero amounts and accounts that do not decode are skipped.
  unfoldable pub pay_miners : List (List ℕ × ℕ) → Raw → Raw
  pay_miners [] raw = raw
  pay_miners ((acc32, amt) ∷ payouts) raw = pay_miners payouts (
      if amt == 0
      then raw
      else elim (decode_account acc32) [ some who ↦ deposit_creating who amt raw | none ↦ raw ])

  -- The payout by a digest that fits the reward; `none` is the fallback to the validator.
  unfoldable pub pay_by_digest : AccountId → ℕ → Option PoolPayoutDigest → Raw → Option Raw
  pay_by_digest validator reward none raw = none
  pay_by_digest validator reward (some d) raw =
      let sum = sum_payouts 0 d.payouts in
      let paid = pay_miners d.payouts raw in
      let remainder = d.block_reward - sum in
      if d.block_reward == reward
      then if leb sum d.block_reward
        then some (if ltb 0 remainder then deposit_creating validator remainder paid else paid)
        else none
      else none

  -- The fallback: the reward goes to the validator.
  abbrev pub paid_or_validator : AccountId → ℕ → Raw → Option Raw → Raw
  paid_or_validator validator reward raw (some paid) = paid
  paid_or_validator validator reward raw none = deposit_creating validator reward raw

  -- The end of `issue_block_reward`: miners by the digest, or the validator.
  unfoldable pub pay_reward : AccountId → ℕ → List DigestItem → Raw → Raw
  unfolding pay_by_digest
  pay_reward validator reward logs raw =
      paid_or_validator validator reward raw
        (pay_by_digest validator reward (pool_payout_digest_from_header logs) raw)

  -- `issue_block_reward`
  unfoldable pub issue_block_reward :
      AccountId
      → ℕ
      → List DigestItem
      → Storage Raw
      → Result Error (Unit {0}) × Storage Raw × List Event
  issue_block_reward validator block_number logs s =
      let reward = calculate_block_reward block_number in
      let finished = record s { emission_finished = true } in
      let complete = emission_complete s.total_emitted block_number ∷ [] in
      let actual_reward = min reward (total_supply - s.total_emitted) in
      if s.emission_finished
      then (ok tt, s, [])
      else if reward == 0
      then (ok tt, finished, complete)
      else if leb total_supply s.total_emitted
      then (err emission_complete_error, finished, complete)
      else (
        ok tt,
        record s {
          total_emitted = saturating_add u128_max s.total_emitted actual_reward;
          raw = pay_reward validator actual_reward logs s.raw;
        },
        block_reward_issued validator actual_reward block_number ∷ [],
      )

  -- `emission_info`
  unfoldable pub emission_info : ℕ → ℕ × ℕ × ℕ
  emission_info block_number = (
    calculate_block_reward block_number,
    blocks_until_halving block_number,
    current_era block_number,
  )
