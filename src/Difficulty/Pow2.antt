-- ===== src/Difficulty/Pow2.antt =====
-- The power of two approximated by pallets/difficulty/src/lib.rs: the two versions and the factor.
use lumenyx.Prelude.{
  ℕ, ◌+◌, ◌-◌, ◌*◌, ◌/◌, ◌%◌, ◌^◌, ◌≤◌, ◌<◌, min, ◌≡◌, refl, sym, ◌∙◌, arith, u128_max,
}
use lumenyx.Prelude.Int.{
  ℤ, pos, negsuc, ◌-ℤ◌, IsI128, scale, shr_floor, saturate_i128_id, wrap_i128_id,
}
use lumenyx.Difficulty.{
  radix, pow2_factor, normalize_frac, approx_pow2_fixed_legacy, approx_pow2_fixed_robust,
}
use native.Mathlib.Nat.{mul-le-mul}

-- The fraction above the floor of an exponent, in units of 1 / radix.
unfoldable pub fraction : ℤ → ℕ
fraction (pos n) = n % 2 ^ 16
fraction (negsuc n) = 2 ^ 16 - 1 - n % 2 ^ 16

pub fraction-lt : (e : ℤ) → fraction e < radix
unfolding fraction
fraction-lt (pos n) = omega arith
fraction-lt (negsuc n) = omega arith

scale_shr : (e : ℤ) → e -ℤ scale radix (shr_floor e 16) ≡ pos (fraction e)
unfolding fraction ◌-ℤ◌
scale_shr (pos n) = ground arith
scale_shr (negsuc n) = ground arith

scale_shr-IsI128 : (e : ℤ) → IsI128 e → IsI128 (scale radix (shr_floor e 16))
scale_shr-IsI128 (pos n) h = ground arith
scale_shr-IsI128 (negsuc n) h = ground arith

pub legacy_eq :
    (e : ℤ) → IsI128 e → approx_pow2_fixed_legacy e ≡ (shr_floor e 16, pow2_factor (fraction e))
unfolding approx_pow2_fixed_legacy
legacy_eq e h =
    let f : fraction e < radix = fraction-lt e in
    rw (saturate_i128_id (scale radix (shr_floor e 16)) (scale_shr-IsI128 e h), scale_shr e)
      (ground arith)

pub robust_eq :
    (e : ℤ) → IsI128 e → approx_pow2_fixed_robust e ≡ (shr_floor e 16, pow2_factor (fraction e))
unfolding approx_pow2_fixed_robust normalize_frac
robust_eq e h =
    let f : fraction e < radix = fraction-lt e in
    rw (wrap_i128_id (scale radix (shr_floor e 16)) (scale_shr-IsI128 e h), scale_shr e)
      (ground arith)

sat : (a : ℕ) → a ≤ u128_max → min u128_max a ≡ a
sat a h = omega arith

-- On a fraction nothing saturates.
factor_eq :
    (x : ℕ)
    → x < radix
    → (pow2_factor x
        ≡ (195_766_423_245_049 * x + 971_821_376 * (x * x) + 5_127 * (x * x * x) + 2 ^ 47) / 2 ^ 48
          + 65_536)
      × (pow2_factor x ≤ 131_072)
unfolding pow2_factor
factor_eq x h =
    let a : x * x ≤ 65_535 * 65_535 =
      mul-le-mul {n₂ = 65_535} {m₂ = 65_535} (omega arith) (omega arith) in
    let b : x * x * x ≤ 65_535 * 65_535 * 65_535 =
      mul-le-mul {n₂ = 65_535 * 65_535} {m₂ = 65_535} a (omega arith) in
    let p = 195_766_423_245_049 * x in
    let q = 971_821_376 * (x * x) in
    let r = 5_127 * (x * x * x) in
    let e : pow2_factor x ≡ (p + q + r + 2 ^ 47) / 2 ^ 48 + 65_536 =
      rw
        (
          sat (x * x) (omega arith),
          sat (x * x * x) (omega arith),
          sat p (omega arith),
          sat q (omega arith),
          sat r (omega arith),
          sat (p + q) (omega arith),
          sat (p + q + r) (omega arith),
          sat (p + q + r + 2 ^ 47) (omega arith),
        )
        (sat ((p + q + r + 2 ^ 47) / 2 ^ 48 + 65_536) (omega arith)) in
    (e, omega arith)

-- The factor is at least one and at most two, in fixed point.
pub pow2_factor_bounds : (x : ℕ) → x < radix → (65_536 ≤ pow2_factor x) × (pow2_factor x ≤ 131_072)
pow2_factor_bounds x h = let (e, u) = factor_eq x h in (omega arith, u)

-- A larger fraction has no smaller factor.
pub pow2_factor_mono : (x y : ℕ) → x ≤ y → y < radix → pow2_factor x ≤ pow2_factor y
pow2_factor_mono x y h k =
    let a : x * x ≤ y * y = mul-le-mul h h in
    let b : x * x * x ≤ y * y * y = mul-le-mul a h in
    let (e, _) = factor_eq x (omega arith) in let (d, _) = factor_eq y k in omega arith

-- For every exponent that an `i128` holds, the version from after the fork returns what the legacy
-- version returns: its two corrections of the fraction never apply.
pub robust-eq-legacy : (e : ℤ) → IsI128 e → approx_pow2_fixed_robust e ≡ approx_pow2_fixed_legacy e
robust-eq-legacy e h = robust_eq e h ∙ sym (legacy_eq e h)

-- At a whole exponent the factor is one.
pub factor_zero : pow2_factor 0 ≡ 65_536
unfolding pow2_factor
factor_zero = refl
