-- ===== src/Difficulty.antt =====
-- The difficulty pallet, pallets/difficulty/src/lib.rs: the ASERT formula over `i128` and `u128`, the
-- storage and its `on_finalize` hook. Logging is left out: it changes no state.
pub mod Pow2
pub mod Asert
pub mod Finalize
use lumenyx.Prelude.{
  ℕ, suc, ◌+◌, ◌-◌, ◌*◌, ◌/◌, ◌%◌, ◌^◌, min, Bool, true, false, Option, none, some, List, [], ◌∷◌,
  ◌++◌, ltb, leb, ◌==◌, if◌then◌else◌, saturating_add, saturating_mul, u64_max, u128_max,
}
use lumenyx.Prelude.Int.{
  ℤ, pos, negsuc, ◌+ℤ◌, ◌-ℤ◌, ltb_ℤ, scale, div_trunc, shr_floor, saturate_i128, wrap_i128, as_u128,
}

abbrev pub radix : ℕ
radix = 2 ^ 16

abbrev pub target_block_time_ms : ℕ
target_block_time_ms = 2_500

abbrev pub half_life_ms : ℕ
half_life_ms = 60_000

abbrev pub initial_difficulty : ℕ
initial_difficulty = 1

abbrev pub min_difficulty : ℕ
min_difficulty = 1

abbrev pub max_difficulty : ℕ
max_difficulty = u128_max

abbrev pub min_solve_time_ms : ℕ
min_solve_time_ms = 50

abbrev pub max_solve_time_ms : ℕ
max_solve_time_ms = 25_000

abbrev pub fork_height : ℕ
fork_height = 125_000

abbrev pub safety_valve_ms : ℕ
safety_valve_ms = 600_000

pub record AnchorInfo : Type 0 where
  pub anchor_height : ℕ
  pub anchor_parent_time_ms : ℕ
  pub anchor_difficulty : ℕ

-- The four storage values.
pub record Storage : Type 0 where
  pub initialized : Bool
  pub current_difficulty : Option ℕ
  pub last_effective_time_ms : ℕ
  pub anchor : Option AnchorInfo

pub data Event : Type 0 where
  difficulty_updated : (block_number old_difficulty new_difficulty : ℕ) → Event
  anchor_set : (height parent_time_ms difficulty : ℕ) → Event

-- `BuildGenesisConfig::build`
unfoldable pub build : ℕ → Storage → Storage
build initial s = if s.initialized then s else record {
  initialized = true;
  current_difficulty = some initial;
  last_effective_time_ms = 0;
  anchor = none;
}

-- The polynomial that both versions of `approx_pow2_fixed` end in, on the fraction `x`.
unfoldable pub pow2_factor : ℕ → ℕ
pow2_factor x =
    let x2 = saturating_mul u128_max x x in
    let x3 = saturating_mul u128_max x2 x in
    let poly =
      saturating_add u128_max
        (saturating_add u128_max
          (saturating_add u128_max (saturating_mul u128_max 195_766_423_245_049 x)
            (saturating_mul u128_max 971_821_376 x2))
          (saturating_mul u128_max 5_127 x3))
        (2 ^ 47) in
    saturating_add u128_max (poly / 2 ^ 48) 65_536

-- `approx_pow2_fixed_legacy`
unfoldable pub approx_pow2_fixed_legacy : ℤ → ℤ × ℕ
approx_pow2_fixed_legacy exponent_fixed =
    let num_shifts = shr_floor exponent_fixed 16 in
    let frac = saturate_i128 (exponent_fixed -ℤ saturate_i128 (scale radix num_shifts)) in
    (num_shifts, pow2_factor (as_u128 frac))

-- The two `if` statements of `approx_pow2_fixed_robust` that bring the fraction into range.
unfoldable pub normalize_frac : ℤ → ℤ → ℤ × ℤ
normalize_frac num_shifts frac =
    let (shifts, f) =
      if ltb_ℤ frac (pos 0)
      then (wrap_i128 (num_shifts -ℤ pos 1), wrap_i128 (frac +ℤ pos radix))
      else (num_shifts, frac) in
    (shifts, if ltb_ℤ f (pos radix) then f else pos (radix - 1))

-- `approx_pow2_fixed_robust`
unfoldable pub approx_pow2_fixed_robust : ℤ → ℤ × ℕ
unfolding normalize_frac
approx_pow2_fixed_robust exponent_fixed =
    let num_shifts = shr_floor exponent_fixed 16 in
    let frac = wrap_i128 (exponent_fixed -ℤ wrap_i128 (scale radix num_shifts)) in
    let (shifts, f) = normalize_frac num_shifts frac in (shifts, pow2_factor (as_u128 f))

-- `clamp_difficulty`
unfoldable pub clamp_difficulty : ℕ → ℕ
clamp_difficulty d =
    if ltb d min_difficulty
    then min_difficulty
    else if ltb max_difficulty d
    then max_difficulty
    else d

-- The shift of the product by `num_shifts`; `none` is the early `return MAX_DIFFICULTY`. The count is
-- cast to `u32`, and `checked_shl` fails only on the count: bits that leave the word are lost.
unfoldable pub shift_next : ℤ → ℕ → Option ℕ
shift_next (pos n) next =
    let s = n % 2 ^ 32 in
    if n == 0 then some next else if leb 128 s then none else some (next * 2 ^ s % 2 ^ 128)
shift_next (negsuc n) next =
    let s = suc n % 2 ^ 32 in if leb 128 s then some 0 else some (next / 2 ^ s)

-- The end of `calculate_asert_difficulty_inner`: back from the fixed point, at least the minimum.
unfoldable pub finish : Option ℕ → ℕ
unfolding clamp_difficulty
finish none = max_difficulty
finish (some next) = if next / 2 ^ 16 == 0 then min_difficulty else clamp_difficulty (next / 2 ^ 16)

-- The exponent of `calculate_asert_difficulty_inner`.
unfoldable pub exponent_fixed : AnchorInfo → ℕ → ℕ → ℤ
exponent_fixed anchor eval_height eval_time_ms =
    let height_delta = eval_height - anchor.anchor_height in
    let ideal_time_ms =
      saturate_i128 (pos (target_block_time_ms * saturating_add u64_max height_delta 1)) in
    let real_time_ms = saturate_i128 (pos eval_time_ms -ℤ pos anchor.anchor_parent_time_ms) in
    let ideal_minus_real = saturate_i128 (ideal_time_ms -ℤ real_time_ms) in
    div_trunc (saturate_i128 (scale radix ideal_minus_real)) half_life_ms

-- `calculate_asert_difficulty_inner`; `HALF_LIFE_MS` is not zero, so its first test never holds.
unfoldable pub calculate_asert_difficulty_inner : AnchorInfo → ℕ → ℕ → Bool → ℕ
unfolding clamp_difficulty exponent_fixed shift_next finish
calculate_asert_difficulty_inner anchor eval_height eval_time_ms robust_pow2 =
    let e = exponent_fixed anchor eval_height eval_time_ms in
    let (num_shifts, factor_q16) =
      if robust_pow2 then approx_pow2_fixed_robust e else approx_pow2_fixed_legacy e in
    let product = anchor.anchor_difficulty * factor_q16 in
    if half_life_ms == 0
    then clamp_difficulty anchor.anchor_difficulty
    else if ltb u128_max product
    then max_difficulty
    else finish (shift_next num_shifts product)

-- `calculate_asert_difficulty_legacy`
unfoldable pub calculate_asert_difficulty_legacy : AnchorInfo → ℕ → ℕ → ℕ
calculate_asert_difficulty_legacy anchor eval_height eval_time_ms =
    calculate_asert_difficulty_inner anchor eval_height eval_time_ms false

-- `calculate_asert_difficulty_postfork`
unfoldable pub calculate_asert_difficulty_postfork : AnchorInfo → ℕ → ℕ → ℕ
calculate_asert_difficulty_postfork anchor eval_height eval_time_ms =
    calculate_asert_difficulty_inner anchor eval_height eval_time_ms true

-- The first part of `on_finalize`: a zero effective time is replaced by one target interval ago.
unfoldable pub previous_effective_ms : ℕ → Storage → ℕ
previous_effective_ms now_ms s =
    if s.last_effective_time_ms == 0
    then now_ms - target_block_time_ms
    else s.last_effective_time_ms

-- The next part: a missing difficulty is set to the initial one.
unfoldable pub read_difficulty : Storage → ℕ × Storage
read_difficulty s = elim s.current_difficulty [
  | some d ↦ (d, s)
  | none ↦ (
    initial_difficulty,
    record s { current_difficulty = some initial_difficulty; initialized = true },
  )
]

-- The anchor of the chain: the stored one, or this block, which is then stored and announced.
unfoldable pub ensure_anchor : ℕ → ℕ → ℕ → ℕ → Storage → AnchorInfo × Storage × List Event
ensure_anchor block_number now_ms prev_eff_ms difficulty s =
    let a : AnchorInfo = record {
      anchor_height = block_number;
      anchor_parent_time_ms = now_ms - target_block_time_ms;
      anchor_difficulty = difficulty;
    } in
    elim s.anchor [
      | some stored ↦ (stored, s, [])
      | none ↦ (
        a,
        record s { anchor = some a },
        anchor_set block_number prev_eff_ms a.anchor_difficulty ∷ [],
      )
    ]

-- The effective solve time before the fork: clamped on both sides.
unfoldable pub legacy_solve_ms : ℕ → ℕ
legacy_solve_ms observed =
    let solve = if ltb observed min_solve_time_ms then min_solve_time_ms else observed in
    if ltb max_solve_time_ms solve then max_solve_time_ms else solve

-- The two branches on the fork height: the new effective time and the new difficulty.
unfoldable pub retarget : ℕ → ℕ → ℕ → AnchorInfo → ℕ × ℕ
unfolding legacy_solve_ms
retarget block_number now_ms prev_eff_ms anchor =
    let observed = now_ms - prev_eff_ms in
    let eff_legacy = saturating_add u64_max prev_eff_ms (legacy_solve_ms observed) in
    let solve = if ltb observed min_solve_time_ms then min_solve_time_ms else observed in
    if ltb block_number fork_height
    then (eff_legacy, calculate_asert_difficulty_legacy anchor block_number eff_legacy)
    else if ltb safety_valve_ms observed
    then (now_ms, min_difficulty)
    else (
      saturating_add u64_max prev_eff_ms solve,
      calculate_asert_difficulty_postfork anchor block_number now_ms,
    )

-- `on_finalize`
unfoldable pub on_finalize : ℕ → ℕ → Storage → Storage × List Event
unfolding previous_effective_ms read_difficulty ensure_anchor
on_finalize block_number now_ms s =
    let prev_eff_ms = previous_effective_ms now_ms s in
    let (old_difficulty, s1) =
      read_difficulty (record s { last_effective_time_ms = prev_eff_ms }) in
    let (anchor, s2, events) = ensure_anchor block_number now_ms prev_eff_ms old_difficulty s1 in
    let (eff_now_ms, new_difficulty) = retarget block_number now_ms prev_eff_ms anchor in
    (
      record s2 { last_effective_time_ms = eff_now_ms; current_difficulty = some new_difficulty },
      events ++ difficulty_updated block_number old_difficulty new_difficulty ∷ [],
    )

-- `get_difficulty`
unfoldable pub get_difficulty : Storage → ℕ
get_difficulty s = elim s.current_difficulty [ some d ↦ d | none ↦ initial_difficulty ]
