-- ===== src/Primitives/Schedule.antt =====
-- The block reward over the eras of primitives/src/lib.rs.
use lumenyx.Prelude.{
  ℕ, zero, suc, ◌+◌, ◌-◌, ◌*◌, ◌/◌, ◌^◌, ◌≤◌, ◌<◌, ◌≡◌, refl, sym, ◌↔◌, arith, ltb, if◌then◌else◌,
  u32_max, inl, inr, Bool-cases, ltb→lt,
}
use lumenyx.Primitives.{
  fork_height_v2, blocks_per_halving, block_reward, decimal_migration_factor, base_block_reward,
  calculate_block_reward, current_era, blocks_until_halving,
}
use native.Mathlib.Nat.{pow-suc, div-le_self, div-div-eq-div-mul}

pub pow_pos : (k : ℕ) → 0 < 2 ^ k
pow_pos zero = omega arith
pow_pos (suc k) = rw pow-suc (omega (arith, pow_pos k))

pub div-pow-suc : (a k : ℕ) → a / 2 ^ suc k ≡ a / 2 ^ k / 2
div-pow-suc a k = rw pow-suc (sym (div-div-eq-div-mul a (2 ^ k) 2))

pub div-pow-add_le : (a k d : ℕ) → a / 2 ^ (k + d) ≤ a / 2 ^ k
div-pow-add_le a k zero = let e : k + zero ≡ k = omega arith in rw e (omega arith)
div-pow-add_le a k (suc d) =
    let e : k + suc d ≡ suc (k + d) = omega arith in
    rw (e, div-pow-suc a (k + d)) (omega (arith, div-pow-add_le a k d))

pub div-pow-anti : (a j k : ℕ) → j ≤ k → a / 2 ^ k ≤ a / 2 ^ j
div-pow-anti a j k h =
    let e : j + (k - j) ≡ k = omega arith in rw (← e) (div-pow-add_le a j (k - j))

-- The reward of a block in units of 10^-18, the units after the migration.
pub unit_reward : ℕ → ℕ
unit_reward n =
    if ltb n fork_height_v2
    then calculate_block_reward n * decimal_migration_factor
    else calculate_block_reward n

-- In those units the schedule is one formula across the fork.
pub unit_reward_eq :
    (n : ℕ) → n ≤ u32_max → unit_reward n ≡ block_reward / 2 ^ (n / blocks_per_halving)
unfolding unit_reward calculate_block_reward base_block_reward
unit_reward_eq n h = elim (Bool-cases (ltb n fork_height_v2)) [
  | inl pre ↦
      let e : n / blocks_per_halving ≡ 0 = omega (arith, ltb→lt n fork_height_v2 pre) in
      rw (pre, e) refl
  | inr post ↦ rw post (ground arith)
]

-- In post-migration units no block with a number of `u32` earns more than an earlier one, across the fork
-- and all eras.
unit_reward_antitone : (m n : ℕ) → m ≤ n → n ≤ u32_max → unit_reward n ≤ unit_reward m
unit_reward_antitone m n h k =
    rw (unit_reward_eq n k, unit_reward_eq m (omega arith))
      (div-pow-anti block_reward (m / blocks_per_halving) (n / blocks_per_halving) (omega arith))

-- One halving period later the reward is half, rounded down.
pub reward_halves :
    (n : ℕ)
    → n + blocks_per_halving ≤ u32_max
    → unit_reward (n + blocks_per_halving) ≡ unit_reward n / 2
reward_halves n h =
    let e : (n + blocks_per_halving) / blocks_per_halving ≡ suc (n / blocks_per_halving) =
      omega arith in
    rw (unit_reward_eq _ h, unit_reward_eq n (omega arith), e)
      (div-pow-suc block_reward (n / blocks_per_halving))

-- The reward is zero exactly from era 58 on, which block numbers of 32 bits reach.
pub reward_zero_iff :
    (n : ℕ) → n ≤ u32_max → (calculate_block_reward n ≡ 0) ↔ (58 * blocks_per_halving ≤ n)
unfolding unit_reward
reward_zero_iff n h = (zero→late, late→zero)
  where
    zero→late : calculate_block_reward n ≡ 0 → 58 * blocks_per_halving ≤ n
    zero→late e = elim (Bool-cases (ltb n (58 * blocks_per_halving))) [
      | inl early ↦ absurd (
          ground (
            arith,
            unit_reward_eq n h,
            div-pow-anti block_reward (n / blocks_per_halving) 57 (omega (arith, ltb→lt _ _ early)),
          ))
      | inr late ↦ ground arith
    ]

    late→zero : 58 * blocks_per_halving ≤ n → calculate_block_reward n ≡ 0
    late→zero late = ground (
      arith,
      unit_reward_eq n h,
      div-pow-anti block_reward 58 (n / blocks_per_halving) (omega arith),
    )

-- `blocks_until_halving` blocks later the era is the next one, and before that it is the same.
pub blocks_until_halving_lem :
    (n k : ℕ)
    → k < blocks_until_halving n
    → (current_era (n + blocks_until_halving n) ≡ current_era n + 1)
      × (current_era (n + k) ≡ current_era n)
unfolding current_era blocks_until_halving
blocks_until_halving_lem n k h = (ground arith, ground arith)

-- No block earns more than the base reward.
pub reward_le : (n : ℕ) → calculate_block_reward n ≤ base_block_reward n
unfolding calculate_block_reward base_block_reward
reward_le n =
    let h = div-le_self (base_block_reward n) (2 ^ (n / blocks_per_halving)) in ground arith
