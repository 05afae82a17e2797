-- ===== src/RxLx/Flags.antt =====
-- `Flags` of crates/rx-lx/src/lib.rs, a `u32` of bits.
use Prim.Native.Nat.{bit_and, bit_or}
use lumenyx.Prelude.{ℕ, ◌-◌, u32_max}

abbrev pub flag_default : ℕ
flag_default = 0

abbrev pub flag_large_pages : ℕ
flag_large_pages = 1

abbrev pub flag_hard_aes : ℕ
flag_hard_aes = 2

abbrev pub flag_full_mem : ℕ
flag_full_mem = 4

abbrev pub flag_jit : ℕ
flag_jit = 8

-- `!flags`
abbrev pub complement : ℕ → ℕ
complement flags = u32_max - flags

abbrev pub without_hard_aes : ℕ → ℕ
without_hard_aes flags = bit_and flags (complement flag_hard_aes)

-- From what `randomx_get_flags` returns for the processor.
abbrev pub recommended : ℕ → ℕ
recommended get_flags = bit_and get_flags (complement flag_hard_aes)

abbrev pub default_flags : ℕ
default_flags = flag_default

abbrev pub with_jit : ℕ → ℕ
with_jit flags = bit_or flags flag_jit

abbrev pub with_hard_aes : ℕ → ℕ
with_hard_aes flags = bit_or flags flag_hard_aes

abbrev pub with_full_mem : ℕ → ℕ
with_full_mem flags = bit_or flags flag_full_mem

abbrev pub with_large_pages : ℕ → ℕ
with_large_pages flags = bit_or flags flag_large_pages
