-- ===== src/Prelude/Int.antt =====
-- Signed integers over the native numbers, under the library's names, with Rust's `i128` limits.
use Prim.Native.Nat.{ℕ, suc, ◌+◌, ◌-◌, ◌*◌, ◌/◌, ◌%◌, ◌^◌, ◌≤◌}
use mathlib.Core.Path.{◌≡◌}
use mathlib.Core.Bool.{Bool}
use native.Mathlib.Nat.{div-le_self}
use native.Mathlib.Omega.{arith}
use lumenyx.Prelude.Tests.{ltb, leb, if◌then◌else◌}

-- `negsuc n` is -(n + 1).
pub data ℤ : Type 0 where
  pos : ℕ → ℤ
  negsuc : ℕ → ℤ

abbrev pub pos_part : ℤ → ℕ
pos_part (pos n) = n
pos_part (negsuc n) = 0

abbrev pub neg_part : ℤ → ℕ
neg_part (pos n) = 0
neg_part (negsuc n) = suc n

-- a - b, as an integer.
abbrev pub sub_ℕ : ℕ → ℕ → ℤ
sub_ℕ a b = if leb b a then pos (a - b) else negsuc (b - a - 1)

infixl 65 ◌+ℤ◌ ◌-ℤ◌
infix 50 ◌≤ℤ◌
unfoldable pub ◌+ℤ◌ : ℤ → ℤ → ℤ
a +ℤ b = sub_ℕ (pos_part a + pos_part b) (neg_part a + neg_part b)

unfoldable pub ◌-ℤ◌ : ℤ → ℤ → ℤ
a -ℤ b = sub_ℕ (pos_part a + neg_part b) (neg_part a + pos_part b)

abbrev pub ◌≤ℤ◌ : ℤ → ℤ → Type 0
a ≤ℤ b = pos_part a + neg_part b ≤ pos_part b + neg_part a

abbrev pub ltb_ℤ : ℤ → ℤ → Bool
ltb_ℤ a b = ltb (pos_part a + neg_part b) (pos_part b + neg_part a)

-- A multiple by an unsigned factor.
abbrev pub scale : ℕ → ℤ → ℤ
scale k a = sub_ℕ (k * pos_part a) (k * neg_part a)

-- Rust's `/` by a positive divisor rounds towards zero.
abbrev pub div_trunc : ℤ → ℕ → ℤ
div_trunc (pos n) d = pos (n / d)
div_trunc (negsuc n) d = sub_ℕ 0 (suc n / d)

-- Rust's `>>` on a signed integer rounds down.
abbrev pub shr_floor : ℤ → ℕ → ℤ
shr_floor (pos n) k = pos (n / 2 ^ k)
shr_floor (negsuc n) k = negsuc (n / 2 ^ k)

abbrev pub i128_limit : ℕ
i128_limit = 2 ^ 127

-- The saturating operations of `i128` clamp the exact result into [-2^127, 2^127).
abbrev pub saturate_i128 : ℤ → ℤ
saturate_i128 (pos n) = if ltb n i128_limit then pos n else pos (i128_limit - 1)
saturate_i128 (negsuc n) = if ltb n i128_limit then negsuc n else negsuc (i128_limit - 1)

-- The bit pattern of an `i128`, as a `u128` (`x as u128`).
abbrev pub as_u128 : ℤ → ℕ
as_u128 (pos n) = n % 2 ^ 128
as_u128 (negsuc n) = 2 ^ 128 - 1 - n % 2 ^ 128

-- The plain operations of `i128` wrap: the integer of the bit pattern of the exact result.
abbrev pub wrap_i128 : ℤ → ℤ
wrap_i128 a = let w = as_u128 a in if ltb w i128_limit then pos w else negsuc (2 ^ 128 - 1 - w)

-- An integer that an `i128` can hold.
abbrev pub IsI128 : ℤ → Type 0
IsI128 a = (pos_part a + 1 ≤ i128_limit) × (neg_part a ≤ i128_limit)

pub saturate_i128_id : (a : ℤ) → IsI128 a → saturate_i128 a ≡ a
saturate_i128_id (pos n) h = ground arith
saturate_i128_id (negsuc n) h = ground arith

pub wrap_i128_id : (a : ℤ) → IsI128 a → wrap_i128 a ≡ a
wrap_i128_id (pos n) h = ground arith
wrap_i128_id (negsuc n) h = ground arith

pub +ℤ_parts :
    (a b : ℤ)
    → pos_part (a +ℤ b) + neg_part a + neg_part b ≡ neg_part (a +ℤ b) + pos_part a + pos_part b
unfolding ◌+ℤ◌
+ℤ_parts a b = ground arith

pub -ℤ_parts :
    (a b : ℤ)
    → pos_part (a -ℤ b) + neg_part a + pos_part b ≡ neg_part (a -ℤ b) + pos_part a + neg_part b
unfolding ◌-ℤ◌
-ℤ_parts a b = ground arith

pub eq_of_parts : (a b : ℤ) → pos_part a + neg_part b ≡ pos_part b + neg_part a → a ≡ b
eq_of_parts a b h = ground arith

pub ruleset int_laws = (arith, +ℤ_parts, -ℤ_parts, eq_of_parts)

-- Bounds on the parts of a result, for `IsI128`.
pub -ℤ_small :
    (a b : ℤ)
    → (pos_part (a -ℤ b) ≤ pos_part a + neg_part b) × (neg_part (a -ℤ b) ≤ neg_part a + pos_part b)
unfolding ◌-ℤ◌
-ℤ_small a b = ground arith

pub scale_small :
    (k : ℕ) (a : ℤ)
    → (pos_part (scale k a) ≤ k * pos_part a) × (neg_part (scale k a) ≤ k * neg_part a)
scale_small k a = ground arith

pub div_trunc_small :
    (a : ℤ) (d : ℕ)
    → (pos_part (div_trunc a d) ≤ pos_part a) × (neg_part (div_trunc a d) ≤ neg_part a)
div_trunc_small (pos n) d = ground (arith, div-le_self n d)
div_trunc_small (negsuc n) d = ground (arith, div-le_self (suc n) d)
