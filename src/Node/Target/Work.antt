-- ===== src/Node/Target/Work.antt =====
-- What a difficulty asks of a hash, in node/src/service.rs.
use lumenyx.Prelude.{ℕ, ◌*◌, ◌/◌, ◌≤◌, max, ◌≡◌, ◌↔◌, arith, true, leb→le, le→leb, u128_max}
use native.Mathlib.Nat.{le-div_iff_mul-le, div-le_self, mul-le-mul_left}
use lumenyx.Node.Target.{pow_limit, difficulty_to_target, hash_meets_target, clamp_difficulty}

clamp_eq : (difficulty : ℕ) → difficulty ≤ u128_max → clamp_difficulty difficulty ≡ max difficulty 1
clamp_eq difficulty h = ground arith

-- The target of a difficulty, which neither limit changes.
target_eq :
    (difficulty : ℕ)
    → difficulty ≤ u128_max
    → (difficulty_to_target difficulty ≡ pow_limit / max difficulty 1)
      × (1 ≤ pow_limit / max difficulty 1)
unfolding difficulty_to_target
target_eq difficulty h =
    let d = max difficulty 1 in
    let c = clamp_eq difficulty h in
    let low : 1 ≤ pow_limit / d =
      (le-div_iff_mul-le {k = d} {x = 1} {y = pow_limit} (omega arith)).1 (omega arith) in
    let high = div-le_self pow_limit d in (rw c (ground arith), low)

-- A hash meets the target of a `u128` difficulty exactly when its product with the difficulty, taken as 1 when
-- it is 0, is below 2^256: each unit of difficulty stands for one hash of work.
pub meets_iff :
    (hash difficulty : ℕ)
    → difficulty ≤ u128_max
    → (hash_meets_target hash (difficulty_to_target difficulty) ≡ true)
      ↔ (hash * max difficulty 1 ≤ pow_limit)
unfolding hash_meets_target
meets_iff hash difficulty h =
    let e = (target_eq difficulty h).0 in
    let i = le-div_iff_mul-le {k = max difficulty 1} {x = hash} {y = pow_limit} (omega arith) in
    rw e (
      λ m. i.0 (leb→le hash (pow_limit / max difficulty 1) m),
      λ m. le→leb hash (pow_limit / max difficulty 1) (i.1 m),
    )

-- A hash that meets the target of a difficulty meets that of any lower one: a nonce that makes a block
-- is also a share.
pub meets_antitone :
    (hash difficulty lower : ℕ)
    → lower ≤ difficulty
    → difficulty ≤ u128_max
    → hash_meets_target hash (difficulty_to_target difficulty) ≡ true
    → hash_meets_target hash (difficulty_to_target lower) ≡ true
meets_antitone hash difficulty lower l h m =
    let a = (meets_iff hash difficulty h).0 m in
    (meets_iff hash lower (omega arith)).1 (
      omega (arith, a, mul-le-mul_left {m = max lower 1} {n = max difficulty 1} hash (omega arith)))
