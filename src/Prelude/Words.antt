-- ===== src/Prelude/Words.antt =====
-- Rust's unsigned machine integers as native numbers: the largest values, and the saturating operations
-- with their limit written out. `-` on the native numbers is `saturating_sub`.
use Prim.Native.Nat.{ℕ, ◌+◌, ◌-◌, ◌*◌, ◌^◌, min}

abbrev pub u32_max : ℕ
u32_max = 2 ^ 32 - 1

abbrev pub u64_max : ℕ
u64_max = 2 ^ 64 - 1

abbrev pub u128_max : ℕ
u128_max = 2 ^ 128 - 1

abbrev pub u256_max : ℕ
u256_max = 2 ^ 256 - 1

-- `a.saturating_add(b)` at the largest value `limit`.
abbrev pub saturating_add : ℕ → ℕ → ℕ → ℕ
saturating_add limit a b = min limit (a + b)

-- `a.saturating_mul(b)` at the largest value `limit`.
abbrev pub saturating_mul : ℕ → ℕ → ℕ → ℕ
saturating_mul limit a b = min limit (a * b)
