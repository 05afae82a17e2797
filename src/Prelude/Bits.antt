-- ===== src/Prelude/Bits.antt =====
-- The binary digits of `&` and `|`.
use Prim.Native.Nat.{
  ℕ, zero, suc, ◌+◌, ◌*◌, ◌/◌, ◌%◌, ◌≤◌, min, max, digits, bitwise, bit_and, bit_or,
  bit_and-bitwise, bit_or-bitwise,
}
use mathlib.Core.Path.{◌≡◌, refl, ap, ◌∙◌}
use native.Mathlib.Omega.{arith}

-- The digit at a place, from the lowest on.
abbrev pub bit : ℕ → ℕ → ℕ
bit zero x = x % 2
bit (suc k) x = bit k (x / 2)

module _ (z : ℕ → ℕ) (f : ℕ → ℕ → ℕ) where
  -- Any count of digits will do that is no less than the first number.
  enough_digits : (x y n m : ℕ) → x ≤ n → x ≤ m → digits z f n x y ≡ digits z f m x y
  enough_digits zero y zero zero p q = refl
  enough_digits zero y zero (suc m) p q = refl
  enough_digits zero y (suc n) zero p q = refl
  enough_digits zero y (suc n) (suc m) p q = refl
  enough_digits (suc x) y zero m p q = absurd (omega arith)
  enough_digits (suc x) y (suc n) zero p q = absurd (omega arith)
  enough_digits (suc x) y (suc n) (suc m) p q =
      ap (λ d. d * 2 + f (suc x % 2) (y % 2))
        (enough_digits (suc x / 2) (y / 2) n m (omega arith) (omega arith))

  lowest_digit :
      (x y : ℕ)
      → bitwise z f (suc x) y ≡ bitwise z f (suc x / 2) (y / 2) * 2 + f (suc x % 2) (y % 2)
  lowest_digit x y =
      ap (λ d. d * 2 + f (suc x % 2) (y % 2))
        (enough_digits (suc x / 2) (y / 2) x (suc x / 2) (omega arith) (omega arith))

bit_and_half :
    (x y : ℕ)
    → (bit_and x y / 2 ≡ bit_and (x / 2) (y / 2)) × (bit_and x y % 2 ≡ min (x % 2) (y % 2))
bit_and_half zero y = simp bit_and-bitwise (refl, omega arith)
bit_and_half (suc x) y = simp bit_and-bitwise (
  ap (λ t. t / 2) (lowest_digit (λ b. 0) min x y) ∙ omega arith,
  ap (λ t. t % 2) (lowest_digit (λ b. 0) min x y) ∙ omega arith,
)

bit_or_half :
    (x y : ℕ) → (bit_or x y / 2 ≡ bit_or (x / 2) (y / 2)) × (bit_or x y % 2 ≡ max (x % 2) (y % 2))
bit_or_half zero y = simp bit_or-bitwise (refl, omega arith)
bit_or_half (suc x) y = simp bit_or-bitwise (
  ap (λ t. t / 2) (lowest_digit (λ b. b) max x y) ∙ omega arith,
  ap (λ t. t % 2) (lowest_digit (λ b. b) max x y) ∙ omega arith,
)

-- Each digit of `&` is the smaller of the two digits, and of `|` the greater.
pub bit-bit_and : (k x y : ℕ) → bit k (bit_and x y) ≡ min (bit k x) (bit k y)
bit-bit_and zero x y = (bit_and_half x y).1
bit-bit_and (suc k) x y = ap (bit k) (bit_and_half x y).0 ∙ bit-bit_and k (x / 2) (y / 2)

pub bit-bit_or : (k x y : ℕ) → bit k (bit_or x y) ≡ max (bit k x) (bit k y)
bit-bit_or zero x y = (bit_or_half x y).1
bit-bit_or (suc k) x y = ap (bit k) (bit_or_half x y).0 ∙ bit-bit_or k (x / 2) (y / 2)
