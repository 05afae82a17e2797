-- ===== src/Node/Seed/Epochs.antt =====
-- When the seed of node/src/rx_lx/seed.rs changes.
use lumenyx.Prelude.{ℕ, suc, ◌+◌, ◌%◌, ◌≤◌, ◌<◌, min, ◌≡◌, ◌≢◌, ◌↔◌, arith, true}
use lumenyx.Node.Seed.{
  seed_period_n, seed_delay_d, is_seed_change_height, seed_height, blocks_until_seed_change,
  next_seed_change_height,
}

-- The key block is a multiple of the period, and lies at least the delay back (or is the genesis block)
-- and less than the delay and one period back.
pub seed_height_bounds :
    (height : ℕ)
    → (seed_height height % seed_period_n ≡ 0)
      × (seed_height height + min height seed_delay_d ≤ height)
      × (height < seed_height height + seed_delay_d + seed_period_n)
unfolding seed_height
seed_height_bounds height = ground arith

-- From one height to the next the key block changes exactly at a change height, but for the first of
-- them, where the key block stays the genesis block.
seed_height_changes_iff :
    (height : ℕ)
    → (seed_height (suc height) ≢ seed_height height)
      ↔ ((is_seed_change_height (suc height) ≡ true) × (suc height ≢ seed_delay_d))
unfolding seed_height is_seed_change_height
seed_height_changes_iff height = (λ h. ground arith, λ h. ground arith)

-- `next_seed_change_height` is a change height, at or after the height, and no later than any other one.
pub next_seed_change_height_lem :
    (height k : ℕ)
    → height ≤ k
    → is_seed_change_height k ≡ true
    → (height ≤ next_seed_change_height height)
      × (is_seed_change_height (next_seed_change_height height) ≡ true)
      × (next_seed_change_height height ≤ k)
unfolding next_seed_change_height blocks_until_seed_change is_seed_change_height
next_seed_change_height_lem height k lo c = (ground arith, ground arith, ground arith)
