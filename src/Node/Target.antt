-- ===== src/Node/Target.antt =====
-- Proof-of-work targets, node/src/service.rs. A hash or a target is its big-endian value: `H256` is
-- ordered by its bytes, so the orders agree.
pub mod Work
use lumenyx.Prelude.{
  ℕ, ◌/◌, Bool, Option, none, some, ltb, leb, ◌==◌, if◌then◌else◌, u128_max, u256_max,
}

abbrev pub min_difficulty : ℕ
min_difficulty = 1

abbrev pub max_difficulty : ℕ
max_difficulty = u128_max

-- `POW_LIMIT`
abbrev pub pow_limit : ℕ
pow_limit = u256_max

abbrev pub fallback_difficulty : ℕ
fallback_difficulty = 1

-- The limits on a difficulty.
abbrev pub clamp_difficulty : ℕ → ℕ
clamp_difficulty difficulty =
    let d = if ltb difficulty min_difficulty then min_difficulty else difficulty in
    let e = if ltb max_difficulty d then max_difficulty else d in
    if e == 0 then min_difficulty else e

-- `difficulty_to_target`
unfoldable pub difficulty_to_target : ℕ → ℕ
difficulty_to_target difficulty =
    let target = pow_limit / clamp_difficulty difficulty in
    let positive = if target == 0 then 1 else target in
    if ltb pow_limit positive then pow_limit else positive

-- `hash_meets_target`
unfoldable pub hash_meets_target : ℕ → ℕ → Bool
hash_meets_target hash target = leb hash target
