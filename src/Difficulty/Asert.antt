-- ===== src/Difficulty/Asert.antt =====
-- What `calculate_asert_difficulty_inner` of pallets/difficulty/src/lib.rs returns.
use lumenyx.Prelude.{
  ℕ, suc, ◌+◌, ◌-◌, ◌*◌, ◌/◌, ◌%◌, ◌^◌, max, ◌≤◌, ◌<◌, ◌≡◌, ◌∙◌, ap, arith, ltb, Bool, true, false,
  some, none, inl, inr, Bool-cases, if◌then◌else◌, saturating_add, u64_max, u128_max, Option,
}
use lumenyx.Prelude.Int.{
  ℤ, pos, negsuc, ◌-ℤ◌, IsI128, scale, div_trunc, shr_floor, saturate_i128, saturate_i128_id,
  pos_part, neg_part, int_laws, -ℤ_small, scale_small, div_trunc_small, -ℤ_parts,
}
use native.Mathlib.Nat.{div-le_self, div-div-eq-div-mul, mul-div-mul_right}
use lumenyx.Difficulty.{
  AnchorInfo, radix, half_life_ms, target_block_time_ms, max_difficulty, min_difficulty,
  pow2_factor, approx_pow2_fixed_legacy, approx_pow2_fixed_robust, shift_next, finish,
  exponent_fixed, calculate_asert_difficulty_inner,
}
use lumenyx.Difficulty.Pow2.{fraction, legacy_eq, robust_eq, factor_zero}

-- Heights fit `u32`, and times `u64`, as in the runtime.
pub record IsInput (anchor : AnchorInfo) (eval_height eval_time_ms : ℕ) : Type 0 where
  pub height : eval_height ≤ 2 ^ 32 - 1
  pub time : eval_time_ms ≤ u64_max
  pub anchor_time : anchor.anchor_parent_time_ms ≤ u64_max

-- Milliseconds that the chain is ahead of (or behind) its schedule at a block.
pub ahead_ms : AnchorInfo → ℕ → ℕ → ℤ
ahead_ms a height time =
    pos (target_block_time_ms * (height - a.anchor_height + 1) + a.anchor_parent_time_ms)
    -ℤ pos time

abbrev over : ℤ → ℤ
over t = div_trunc (saturate_i128 (scale radix t)) half_life_ms

module _ (a : AnchorInfo) (height time : ℕ) (i : IsInput a height time) where
  ahead_small :
      (pos_part (ahead_ms a height time) ≤ 2 ^ 78) × (neg_part (ahead_ms a height time) ≤ 2 ^ 78)
  unfolding ahead_ms
  ahead_small =
      let ideal = target_block_time_ms * (height - a.anchor_height + 1) + a.anchor_parent_time_ms in
      omega (arith, -ℤ_small (pos ideal) (pos time))

  scaled-IsI128 : IsI128 (scale radix (ahead_ms a height time))
  scaled-IsI128 = omega (arith, ahead_small, scale_small radix (ahead_ms a height time))

  -- None of the saturating steps saturates.
  pub exponent_eq :
      exponent_fixed a height time ≡ div_trunc (scale radix (ahead_ms a height time)) half_life_ms
  unfolding exponent_fixed ahead_ms
  exponent_eq =
      let delta = height - a.anchor_height in
      let ideal = pos (target_block_time_ms * (delta + 1)) in
      let real = pos time -ℤ pos a.anchor_parent_time_ms in
      let e1 : saturating_add u64_max delta 1 ≡ delta + 1 = omega arith in
      let e2 : saturate_i128 ideal ≡ ideal = saturate_i128_id ideal (omega arith) in
      let e3 : saturate_i128 real ≡ real =
        saturate_i128_id real (omega (arith, -ℤ_small (pos time) (pos a.anchor_parent_time_ms))) in
      let e4 : ideal -ℤ real ≡ ahead_ms a height time =
        omega (int_laws, -ℤ_parts (pos time) (pos a.anchor_parent_time_ms)) in
      let e5 : saturate_i128 (ahead_ms a height time) ≡ ahead_ms a height time =
        saturate_i128_id (ahead_ms a height time) (omega (arith, ahead_small)) in
      let e6 = saturate_i128_id (scale radix (ahead_ms a height time)) scaled-IsI128 in
      ap
        (λ t.
          over
            (saturate_i128 (saturate_i128 (pos (target_block_time_ms * t)) -ℤ saturate_i128 real)))
        e1
      ∙ ap (λ t. over (saturate_i128 (t -ℤ saturate_i128 real))) e2
      ∙ ap (λ t. over (saturate_i128 (ideal -ℤ t))) e3
      ∙ ap (λ t. over (saturate_i128 t)) e4
      ∙ ap over e5
      ∙ ap (λ t. div_trunc t half_life_ms) e6

  pub exponent-IsI128 : IsI128 (exponent_fixed a height time)
  exponent-IsI128 = rw exponent_eq (
      omega
        (arith, scaled-IsI128, div_trunc_small (scale radix (ahead_ms a height time)) half_life_ms))

pub inner_eq :
    (a : AnchorInfo) (height time : ℕ) (robust : Bool)
    → IsInput a height time
    → calculate_asert_difficulty_inner a height time robust ≡ (
        let e = exponent_fixed a height time in
        let product = a.anchor_difficulty * pow2_factor (fraction e) in
        if ltb u128_max product
        then max_difficulty
        else finish (shift_next (shr_floor e 16) product))
unfolding calculate_asert_difficulty_inner
inner_eq a height time true i =
    rw (robust_eq (exponent_fixed a height time) (exponent-IsI128 a height time i))
inner_eq a height time false i =
    rw (legacy_eq (exponent_fixed a height time) (exponent-IsI128 a height time i))

finish_bounds : (o : Option ℕ) → (min_difficulty ≤ finish o) × (finish o ≤ u128_max)
unfolding finish
finish_bounds none = omega arith
finish_bounds (some next) = ground arith

-- Whatever the inputs, the difficulty is at least the minimum and fits `u128`.
pub asert_bounds :
    (a : AnchorInfo) (height time : ℕ) (robust : Bool)
    → (min_difficulty ≤ calculate_asert_difficulty_inner a height time robust)
      × (calculate_asert_difficulty_inner a height time robust ≤ u128_max)
unfolding calculate_asert_difficulty_inner
asert_bounds a height time robust =
    let e = exponent_fixed a height time in
    let r = if robust then approx_pow2_fixed_robust e else approx_pow2_fixed_legacy e in
    elim (Bool-cases (ltb u128_max (a.anchor_difficulty * r.1))) [
      | inl over ↦ rw over (omega arith)
      | inr fits ↦ rw fits (finish_bounds (shift_next r.0 (a.anchor_difficulty * r.1)))
    ]

-- The difficulty when the exponent is a whole number of shifts.
asert_whole :
    (a : AnchorInfo) (height time : ℕ) (robust : Bool)
    → IsInput a height time
    → a.anchor_difficulty < 2 ^ 112
    → fraction (exponent_fixed a height time) ≡ 0
    → calculate_asert_difficulty_inner a height time robust
      ≡ finish
          (shift_next (shr_floor (exponent_fixed a height time) 16) (a.anchor_difficulty * 65_536))
asert_whole a height time robust i small whole =
    inner_eq a height time robust i ∙ rw (whole, factor_zero) (ground arith)

exponent_of_ahead :
    (a : AnchorInfo) (height time : ℕ) {ms : ℤ}
    → IsInput a height time
    → ahead_ms a height time ≡ ms
    → exponent_fixed a height time ≡ div_trunc (scale radix ms) half_life_ms
exponent_of_ahead a height time i e =
    exponent_eq a height time i ∙ ap (λ x. div_trunc (scale radix x) half_life_ms) e

ahead_zero :
    (a : AnchorInfo) (height time : ℕ)
    → time ≡ a.anchor_parent_time_ms + target_block_time_ms * (height - a.anchor_height + 1)
    → ahead_ms a height time ≡ pos 0
unfolding ahead_ms
ahead_zero a height time t = omega int_laws

-- A block that arrives exactly when the schedule says keeps the anchor's difficulty, if that is not
-- zero and below 2^112.
asert_on_schedule :
    (a : AnchorInfo) (height time : ℕ) (robust : Bool)
    → IsInput a height time
    → 1 ≤ a.anchor_difficulty
    → a.anchor_difficulty < 2 ^ 112
    → time ≡ a.anchor_parent_time_ms + target_block_time_ms * (height - a.anchor_height + 1)
    → calculate_asert_difficulty_inner a height time robust ≡ a.anchor_difficulty
unfolding finish shift_next fraction
asert_on_schedule a height time robust i some_d small t =
    let e : exponent_fixed a height time ≡ pos 0 =
      exponent_of_ahead a height time i (ahead_zero a height time t) in
    asert_whole a height time robust i small (rw e) ∙ rw e (ground arith)

exponent_behind :
    (s : ℕ)
    → 1 ≤ s
    → div_trunc (scale radix (negsuc (half_life_ms * s - 1))) half_life_ms ≡ negsuc (65_536 * s - 1)
exponent_behind s h = ground arith

exponent_ahead :
    (s : ℕ) → div_trunc (scale radix (pos (half_life_ms * s))) half_life_ms ≡ pos (65_536 * s)
exponent_ahead s = ground arith

finish_right :
    (s p : ℕ)
    → 1 ≤ s
    → s < 128
    → p ≤ u128_max
    → finish (shift_next (negsuc (s - 1)) p) ≡ max 1 (p / 2 ^ s / 2 ^ 16)
unfolding finish shift_next
finish_right s p h k le =
    let e : suc (s - 1) % 2 ^ 32 ≡ s = omega arith in rw e (ground (arith, div-le_self p (2 ^ s)))

finish_left :
    (s p : ℕ)
    → 1 ≤ s
    → s < 128
    → finish (shift_next (pos s) p) ≡ max 1 (p * 2 ^ s % 2 ^ 128 / 2 ^ 16)
unfolding finish shift_next
finish_left s p h k = let e : s % 2 ^ 32 ≡ s = omega arith in rw e (ground arith)

unscale : (d s : ℕ) → d * 65_536 / 2 ^ s / 2 ^ 16 ≡ d / 2 ^ s
unscale d s =
    div-div-eq-div-mul (d * 65_536) (2 ^ s) 65_536 ∙ mul-div-mul_right d (2 ^ s) (omega arith)

-- With a `u32` height and `u64` times, a block that arrives `s` half-lives late divides the anchor's difficulty by 2^s, down to the
-- minimum, for an anchor below 2^112 and 1 ≤ s < 128.
pub asert_behind :
    (a : AnchorInfo) (height time s : ℕ) (robust : Bool)
    → IsInput a height time
    → a.anchor_difficulty < 2 ^ 112
    → 1 ≤ s
    → s < 128
    → time
      ≡ a.anchor_parent_time_ms
        + target_block_time_ms * (height - a.anchor_height + 1)
        + half_life_ms * s
    → calculate_asert_difficulty_inner a height time robust ≡ max 1 (a.anchor_difficulty / 2 ^ s)
unfolding ahead_ms fraction
asert_behind a height time s robust i small some_s few t =
    let d = a.anchor_difficulty in
    let late : ahead_ms a height time ≡ negsuc (half_life_ms * s - 1) = omega int_laws in
    let e : exponent_fixed a height time ≡ negsuc (65_536 * s - 1) =
      exponent_of_ahead a height time i late ∙ exponent_behind s some_s in
    let z : fraction (negsuc (65_536 * s - 1)) ≡ 0 = omega arith in
    let q : shr_floor (negsuc (65_536 * s - 1)) 16 ≡ negsuc (s - 1) = ap negsuc (omega arith) in
    asert_whole a height time robust i small (ap fraction e ∙ z)
    ∙ ap (λ x. finish (shift_next (shr_floor x 16) (d * 65_536))) e
    ∙ ap (λ x. finish (shift_next x (d * 65_536))) q
    ∙ finish_right s (d * 65_536) some_s few (omega arith)
    ∙ ap (max 1) (unscale d s)

-- With a `u32` height and `u64` times, a block that arrives `s` half-lives early multiplies the anchor's difficulty by 2^s modulo 2^112,
-- up to the minimum, for an anchor below 2^112 and 1 ≤ s < 128: the bits that `checked_shl` shifts
-- out are lost, so a product of 2^112 and more does not give the maximal difficulty.
pub asert_ahead :
    (a : AnchorInfo) (height time s : ℕ) (robust : Bool)
    → IsInput a height time
    → a.anchor_difficulty < 2 ^ 112
    → 1 ≤ s
    → s < 128
    → time + half_life_ms * s
      ≡ a.anchor_parent_time_ms + target_block_time_ms * (height - a.anchor_height + 1)
    → calculate_asert_difficulty_inner a height time robust
      ≡ max 1 (a.anchor_difficulty * 2 ^ s % 2 ^ 112)
unfolding ahead_ms fraction
asert_ahead a height time s robust i small some_s few t =
    let d = a.anchor_difficulty in
    let early : ahead_ms a height time ≡ pos (half_life_ms * s) = omega int_laws in
    let e : exponent_fixed a height time ≡ pos (65_536 * s) =
      exponent_of_ahead a height time i early ∙ exponent_ahead s in
    let z : fraction (pos (65_536 * s)) ≡ 0 = omega arith in
    let q : shr_floor (pos (65_536 * s)) 16 ≡ pos s = ap pos (omega arith) in
    asert_whole a height time robust i small (ap fraction e ∙ z)
    ∙ ap (λ x. finish (shift_next (shr_floor x 16) (d * 65_536))) e
    ∙ ap (λ x. finish (shift_next x (d * 65_536))) q
    ∙ finish_left s (d * 65_536) some_s few
    ∙ ap (max 1) (omega arith)
