-- ===== src/Tests/Emission.antt =====
-- The emission, its schedule and the migration at concrete blocks.
use lumenyx.Prelude.{
  ℕ, ◌+◌, ◌*◌, inl, inr, min, ◌≡◌, refl, arith, ◌++◌, true, false, some, List, [], ◌∷◌,
  if◌then◌else◌,
}
use lumenyx.Primitives.{
  fork_height_v2, block_reward_pre, block_reward, decimal_migration_factor, total_supply,
  calculate_block_reward, base_block_reward, current_era, calculate_supply_at_block,
}
use lumenyx.Primitives.Supply.{emitted, supply_is_emission}
use lumenyx.Digest.{DigestItem, other, pool_payout_digest_tag}
use lumenyx.Halving.{
  PoolPayoutDigest, Storage, block_reward_issued, issue_block_reward, migrate_accounts,
  on_initialize, check_halving, pay_reward, pool_payout_digest_from_header, run_decimal_migration,
  migrate_issuance, migrate_base_fee,
}
use lumenyx.Halving.Deposits.{CanPay}
use lumenyx.Halving.Emission.{issue_mints_emitted}
use lumenyx.Halving.Migration.{mem, scaled, IsWalk, migrate_accounts_lem}
use lumenyx.Runtime.{authorship, initialize_pallets}
use lumenyx.Runtime.Chain.{Chain, genesis, block, fork_block_total}
use lumenyx.Tests.Support.{
  AnyRaw, framework, issuance, has_account, existential_deposit, framework-IsMinting,
  framework-IsMap, write_digest, read_digest,
}

abbrev alice : List ℕ
alice = 1 ∷ []

abbrev bob : List ℕ
bob = 2 ∷ []

abbrev empty_storage : Storage AnyRaw
empty_storage = record {
  current_halving_era = 0;
  total_emitted = 0;
  emission_finished = false;
  decimal_migration_done = false;
  raw = ([], 0);
}

abbrev after_one : Storage AnyRaw
after_one = record empty_storage { total_emitted = block_reward_pre; raw = ([], block_reward_pre) }

first_block :
    initialize_pallets framework 0 (some alice) 1 [] empty_storage
    ≡ some (after_one, block_reward_issued alice block_reward_pre 1 ∷ [])
unfolding initialize_pallets authorship issue_block_reward calculate_block_reward base_block_reward
    on_initialize check_halving current_era pay_reward pool_payout_digest_from_header
first_block = refl

first-Chain : Chain framework 1 after_one
first-Chain = block 0 (some alice) [] (genesis empty_storage refl refl) (omega arith) first_block

-- The block of the fork, on a chain that has emitted a million.
abbrev before_fork : Storage AnyRaw
before_fork = record empty_storage { total_emitted = 1_000_000 }

abbrev after_fork : Storage AnyRaw
after_fork = record empty_storage {
  total_emitted = (1_000_000 + block_reward) * decimal_migration_factor;
  decimal_migration_done = true;
  raw = ([], block_reward);
}

fork_block :
    initialize_pallets framework 0 (some alice) fork_height_v2 [] before_fork
    ≡ some (after_fork, block_reward_issued alice block_reward fork_height_v2 ∷ [])
unfolding initialize_pallets authorship issue_block_reward calculate_block_reward base_block_reward
    on_initialize check_halving current_era pay_reward pool_payout_digest_from_header
    run_decimal_migration migrate_accounts migrate_issuance migrate_base_fee
fork_block = refl

fork_block_total_example :
    after_fork.total_emitted ≡ (before_fork.total_emitted + block_reward) * decimal_migration_factor
fork_block_total_example =
    fork_block_total framework 0 alice [] before_fork (omega arith) refl refl fork_block

-- A block whose digest pays bob a part of the reward.
abbrev pool_digest : PoolPayoutDigest
pool_digest = record {
  sharechain_tip = [];
  block_reward = block_reward_pre;
  payouts = (bob, 5) ∷ [];
}

abbrev pool_logs : List DigestItem
pool_logs = other (pool_payout_digest_tag ++ write_digest pool_digest) ∷ []

-- Both have accounts.
abbrev with_accounts : Storage AnyRaw
with_accounts = record empty_storage { raw = ((alice, 0 ∷ []) ∷ (bob, 0 ∷ []) ∷ [], 0) }

reward_one : calculate_block_reward 1 ≡ block_reward_pre
unfolding calculate_block_reward base_block_reward
reward_one = refl

issue_mints_emitted_example :
    let (_, s', _) = issue_block_reward framework alice 1 pool_logs with_accounts in
    issuance s'.raw + 0 ≡ 0 + s'.total_emitted
unfolding pool_payout_digest_from_header CanPay read_digest
issue_mints_emitted_example =
    issue_mints_emitted framework issuance has_account existential_deposit framework-IsMinting alice
      1 pool_logs with_accounts (omega arith) (omega (arith, reward_one))
      (refl, (inr (bob, refl, inl refl), tt))

-- Two accounts under the prefix.
abbrev two_accounts : AnyRaw
two_accounts = (((7 ∷ []), (5 ∷ [])) ∷ ((8 ∷ []), (6 ∷ [])) ∷ [], 0)

two_accounts-IsWalk : IsWalk framework two_accounts (some (7 ∷ [])) ((7 ∷ []) ∷ (8 ∷ []) ∷ [])
unfolding IsWalk
two_accounts-IsWalk = (refl, refl, refl, (refl, refl, refl, tt))

migrate_accounts_lem_example :
    framework.get (8 ∷ []) (migrate_accounts framework 2 (some (7 ∷ [])) two_accounts) ≡ (
      if mem (8 ∷ []) ((7 ∷ []) ∷ (8 ∷ []) ∷ [])
      then scaled framework (framework.get (8 ∷ []) two_accounts)
      else framework.get (8 ∷ []) two_accounts)
migrate_accounts_lem_example =
    migrate_accounts_lem framework framework-IsMap 2 (some (7 ∷ [])) ((7 ∷ []) ∷ (8 ∷ []) ∷ [])
      two_accounts (8 ∷ []) two_accounts-IsWalk (omega arith)

supply_is_emission_example :
    calculate_supply_at_block 60_000_000 ≡ min (emitted 60_000_000) total_supply
supply_is_emission_example = supply_is_emission 60_000_000 (omega arith) (omega arith)
