-- ===== src/Node/Seed.antt =====
-- The schedule of the RX-LX seed, node/src/rx_lx/seed.rs, with heights as `u64`.
pub mod Epochs
use lumenyx.Prelude.{ℕ, ◌+◌, ◌-◌, ◌%◌, Bool, ltb, leb, ◌==◌, if◌then◌else◌}

abbrev pub seed_period_n : ℕ
seed_period_n = 103_680

abbrev pub seed_delay_d : ℕ
seed_delay_d = 2_880

-- `is_seed_change_height`
unfoldable pub is_seed_change_height : ℕ → Bool
is_seed_change_height height = height % seed_period_n == seed_delay_d

-- `seed_height`
unfoldable pub seed_height : ℕ → ℕ
seed_height height =
    let h = height - seed_delay_d in if ltb height seed_delay_d then 0 else h - h % seed_period_n

-- `blocks_until_seed_change`
unfoldable pub blocks_until_seed_change : ℕ → ℕ
blocks_until_seed_change height =
    let r = height % seed_period_n in
    if leb r seed_delay_d then seed_delay_d - r else seed_period_n - r + seed_delay_d

-- `next_seed_change_height`; heights stay far below the end of `u64`.
unfoldable pub next_seed_change_height : ℕ → ℕ
next_seed_change_height height = height + blocks_until_seed_change height

-- `get_seed`, over any type of hashes.
unfoldable pub get_seed {ℓ} : {H : Type ℓ} → ℕ → (ℕ → H) → H
get_seed height get_block_hash = get_block_hash (seed_height height)
