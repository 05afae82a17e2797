-- ===== src/Primitives.antt =====
-- The emission schedule and the fork-aware constants of primitives/src/lib.rs. Amounts are `u128`
-- and block numbers `u32`, both as natural numbers.
pub mod Schedule
pub mod Supply
use lumenyx.Prelude.{
  ℕ, zero, suc, ◌+◌, ◌-◌, ◌*◌, ◌/◌, ◌%◌, ◌^◌, min, Bool, ◌&&◌, leb, ltb, ◌==◌, if◌then◌else◌,
  saturating_add, saturating_mul, u32_max, u128_max,
}
use Prim.Native.String.{String}

abbrev pub fork_height_v2 : ℕ
fork_height_v2 = 440_000

abbrev pub decimal_migration_factor : ℕ
decimal_migration_factor = 1_000_000

abbrev pub decimals_pre : ℕ
decimals_pre = 12

abbrev pub symbol_pre : String
symbol_pre = "LUMENYX"

abbrev pub block_reward_pre : ℕ
block_reward_pre = 207_953_080_000

abbrev pub decimals : ℕ
decimals = 18

abbrev pub symbol : String
symbol = "LUMO"

abbrev pub lumenyx_unit : ℕ
lumenyx_unit = 1_000_000_000_000_000_000

abbrev pub block_reward : ℕ
block_reward = 207_953_080_000_000_000

abbrev pub total_supply : ℕ
total_supply = 21_000_000 * lumenyx_unit

abbrev pub blocks_per_day : ℕ
blocks_per_day = 34_560

abbrev pub blocks_per_halving : ℕ
blocks_per_halving = 50_492_160

abbrev pub minimum_block_reward : ℕ
minimum_block_reward = 0

abbrev pub max_halvings : ℕ
max_halvings = 128

-- `base_block_reward`
unfoldable pub base_block_reward : ℕ → ℕ
base_block_reward block_number =
    if ltb block_number fork_height_v2 then block_reward_pre else block_reward

-- `calculate_block_reward`
unfoldable pub calculate_block_reward : ℕ → ℕ
calculate_block_reward block_number =
    let halvings = block_number / blocks_per_halving in
    let reward = base_block_reward block_number / 2 ^ halvings in
    if leb max_halvings halvings then 0 else if leb reward minimum_block_reward then 0 else reward

-- The `while` loop of `calculate_supply_at_block`, on fuel: `halving` grows by one in each round and
-- the test stops it at `max_halvings`.
unfoldable pub supply_loop : ℕ → ℕ → ℕ → ℕ → ℕ → ℕ
supply_loop zero block_number total remaining_blocks halving = total
supply_loop (suc fuel) block_number total remaining_blocks halving =
    let blocks_in_era = min remaining_blocks blocks_per_halving in
    let current_reward = base_block_reward block_number / 2 ^ halving in
    let rest =
      supply_loop fuel block_number
        (saturating_add u128_max total (saturating_mul u128_max current_reward blocks_in_era))
        (remaining_blocks - blocks_per_halving) (saturating_add u32_max halving 1) in
    if ltb 0 remaining_blocks && ltb halving max_halvings
    then if current_reward == 0 then total else rest
    else total

-- `calculate_supply_at_block`
unfoldable pub calculate_supply_at_block : ℕ → ℕ
calculate_supply_at_block block_number =
    min (supply_loop (max_halvings + 1) block_number 0 block_number 0) total_supply

-- `daily_emission`
unfoldable pub daily_emission : ℕ → ℕ
daily_emission block_number = calculate_block_reward block_number * blocks_per_day

-- `current_era`
unfoldable pub current_era : ℕ → ℕ
current_era block_number = block_number / blocks_per_halving

-- `blocks_until_halving`
unfoldable pub blocks_until_halving : ℕ → ℕ
blocks_until_halving block_number = blocks_per_halving - block_number % blocks_per_halving

-- `decimals_at_block`
unfoldable pub decimals_at_block : ℕ → ℕ
decimals_at_block block_number = if ltb block_number fork_height_v2 then decimals_pre else decimals

-- `symbol_at_block`
unfoldable pub symbol_at_block : ℕ → String
symbol_at_block block_number = if ltb block_number fork_height_v2 then symbol_pre else symbol
