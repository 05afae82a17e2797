-- ===== src/Primitives/Supply.antt =====
-- `calculate_supply_at_block` of primitives/src/lib.rs against the sum of the rewards, block by block.
use lumenyx.Prelude.{
  ℕ, zero, suc, ◌+◌, ◌-◌, ◌*◌, ◌/◌, ◌^◌, ◌≤◌, ◌<◌, min, ◌≡◌, refl, ◌∙◌, ap, arith, ◌==◌, u32_max,
  u128_max, saturating_add, saturating_mul, inl, inr, Bool-cases, lt→ltb,
}
use lumenyx.Primitives.{
  fork_height_v2, blocks_per_halving, block_reward, total_supply, base_block_reward, supply_loop,
  calculate_supply_at_block, max_halvings,
}
use lumenyx.Primitives.Schedule.{unit_reward, unit_reward_eq, div-pow-anti}
use native.Mathlib.Nat.{zero-add, div-le_self, mul-le-mul_right, mul-le-mul_left, mul-le-mul}

-- The sum of `base >> era` over the `count` blocks from block `start` on.
pub mined : ℕ → ℕ → ℕ → ℕ
mined base start zero = 0
mined base start (suc count) =
    base / 2 ^ (start / blocks_per_halving) + mined base (start + 1) count

mined-add :
    (base start m n : ℕ) → mined base start (m + n) ≡ mined base start m + mined base (start + m) n
unfolding mined
mined-add base start zero n =
    let e : zero + n ≡ n = omega arith in
    let d : start + 0 ≡ start = omega arith in rw (e, d) (omega arith)
mined-add base start (suc m) n =
    let e : suc m + n ≡ suc (m + n) = omega arith in
    let d : start + suc m ≡ start + 1 + m = omega arith in
    rw (e, d) (omega (arith, mined-add base (start + 1) m n))

-- Within one era all rewards are the same.
mined_era :
    (base h start count : ℕ)
    → h * blocks_per_halving ≤ start
    → start + count ≤ h * blocks_per_halving + blocks_per_halving
    → mined base start count ≡ base / 2 ^ h * count
unfolding mined
mined_era base h start zero lo hi = omega arith
mined_era base h start (suc count) lo hi =
    let e : start / blocks_per_halving ≡ h = omega arith in
    rw e (omega (arith, mined_era base h (start + 1) count (omega arith) (omega arith)))

-- Once a reward is zero, so are all later ones.
mined_zero :
    (base h start count : ℕ)
    → base / 2 ^ h ≡ 0
    → h * blocks_per_halving ≤ start
    → mined base start count ≡ 0
unfolding mined
mined_zero base h start zero z le = refl
mined_zero base h start (suc count) z le = omega (
  arith,
  div-pow-anti base h (start / blocks_per_halving) (omega arith),
  mined_zero base h (start + 1) count z (omega arith),
)

mined_restart : (base s t count : ℕ) → (0 < count → s ≡ t) → mined base s count ≡ mined base t count
unfolding mined
mined_restart base s t zero h = refl
mined_restart base s t (suc count) h = let e : s ≡ t = h (omega arith) in rw e

mined_round :
    (base h remaining : ℕ)
    → mined base (h * blocks_per_halving) remaining
      ≡ base / 2 ^ h * min remaining blocks_per_halving
        + mined base (suc h * blocks_per_halving) (remaining - blocks_per_halving)
mined_round base h remaining =
    let s = h * blocks_per_halving in
    let b = min remaining blocks_per_halving in
    let r = remaining - blocks_per_halving in
    let e : remaining ≡ b + r = omega arith in
    ap (mined base s) e
    ∙ mined-add base s b r
    ∙ omega (
      arith,
      mined_era base h s b (omega arith) (omega arith),
      mined_restart base (s + b) (suc h * blocks_per_halving) r (λ p. omega arith),
    )

base_le : (n : ℕ) → base_block_reward n ≤ block_reward
unfolding base_block_reward
base_le n = ground arith

-- What one round adds fits, and stays below the bound of the next round.
round_fits :
    (base h b total : ℕ)
    → base ≤ block_reward
    → h ≤ 86
    → b ≤ blocks_per_halving
    → total ≤ base * (h * blocks_per_halving)
    → (saturating_add u128_max total (saturating_mul u128_max (base / 2 ^ h) b)
        ≡ total + base / 2 ^ h * b)
      × (total + base / 2 ^ h * b ≤ base * (suc h * blocks_per_halving))
round_fits base h b total small few fits below =
    let p = base / 2 ^ h in
    let m : p * b ≤ base * b = mul-le-mul_right b (div-le_self base (2 ^ h)) in
    let k : base * b ≤ base * blocks_per_halving = mul-le-mul_left base fits in
    let j : base * h ≤ block_reward * 86 = mul-le-mul small few in (omega arith, omega arith)

mined_none : (base s : ℕ) → mined base s 0 ≡ 0
unfolding mined
mined_none base s = refl

-- The loop adds up the blocks that are left, with no saturation for 32-bit block numbers.
supply_loop_eq :
    (fuel n total remaining h : ℕ)
    → (0 < remaining → h * blocks_per_halving + remaining ≤ u32_max)
    → total ≤ base_block_reward n * (h * blocks_per_halving)
    → 129 ≤ fuel + h
    → h ≤ 128
    → supply_loop fuel n total remaining h
      ≡ total + mined (base_block_reward n) (h * blocks_per_halving) remaining
unfolding supply_loop
supply_loop_eq zero n total remaining h le small f g = absurd (omega arith)
supply_loop_eq (suc fuel) n total zero h le small f g =
    rw (mined_none (base_block_reward n) (h * blocks_per_halving)) (omega arith)
supply_loop_eq (suc fuel) n total (suc r) h le small f g =
    elim (Bool-cases (base_block_reward n / 2 ^ h == 0)) [
      | inl done ↦
          ground (arith, mined_zero (base_block_reward n) h (h * blocks_per_halving) (suc r))
      | inr more ↦
          let base = base_block_reward n in
          let b = min (suc r) blocks_per_halving in
          let fits = round_fits base h b total (base_le n) (omega arith) (omega arith) small in
          let e : saturating_add u32_max h 1 ≡ suc h = omega arith in
          rw (lt→ltb 0 (suc r) (omega arith), lt→ltb h max_halvings (omega arith), more, fits.0, e)
            (supply_loop_eq fuel n (total + base / 2 ^ h * b) (suc r - blocks_per_halving) (suc h)
                (λ p. omega arith) fits.1 (omega arith) (omega arith)
              ∙ omega (arith, mined_round base h (suc r)))
    ]

-- The supply that the code reports is the sum of the rewards of all earlier blocks, each in the units
-- of the asked block, cut off at the total supply.
pub supply_at_block_lem :
    (n : ℕ)
    → n ≤ u32_max
    → calculate_supply_at_block n ≡ min (mined (base_block_reward n) 0 n) total_supply
unfolding calculate_supply_at_block
supply_at_block_lem n h =
    ap (λ t. min t total_supply)
      (supply_loop_eq 129 n 0 n 0 (λ p. omega arith) (omega arith) (omega arith) (omega arith)
        ∙ zero-add _)

-- The rewards of all blocks before `n`, in post-migration units.
pub emitted : ℕ → ℕ
emitted zero = 0
emitted (suc n) = emitted n + unit_reward n

mined-emitted : (n : ℕ) → n ≤ u32_max → mined block_reward 0 n ≡ emitted n
unfolding emitted mined
mined-emitted zero h = refl
mined-emitted (suc n) h =
    let e : suc n ≡ n + 1 = omega arith in
    ap (mined block_reward 0) e
    ∙ mined-add block_reward 0 n 1
    ∙ (let z : zero + n ≡ n = zero-add n in
        rw (z, unit_reward_eq n (omega arith)) (omega (arith, mined-emitted n (omega arith))))

-- From the fork on, for a `u32` block number, the supply that the code reports is the sum of the rewards of all earlier blocks
-- in post-migration units, those from before the fork included, cut off at the total supply.
pub supply_is_emission :
    (n : ℕ)
    → fork_height_v2 ≤ n
    → n ≤ u32_max
    → calculate_supply_at_block n ≡ min (emitted n) total_supply
unfolding base_block_reward
supply_is_emission n post h =
    let e : base_block_reward n ≡ block_reward = ground arith in
    supply_at_block_lem n h
    ∙ ap (λ b. min (mined b 0 n) total_supply) e
    ∙ ap (λ t. min t total_supply) (mined-emitted n h)
