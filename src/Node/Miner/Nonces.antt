-- ===== src/Node/Miner/Nonces.antt =====
-- The numbers of node/src/service.rs: each nonce of a worker is the one after the last, and a job has a
-- new number.
use lumenyx.Prelude.{
  ℕ, ◌+◌, ◌*◌, ◌%◌, ◌^◌, ◌≤◌, ◌<◌, ◌≡◌, ◌≢◌, refl, sym, ap, ◌∙◌, arith, List, [], ◌∷◌, length, ◌==◌,
  ==_iff, if◌then◌else◌, u64_max, Bool-cases, inl, inr,
}
use native.Mathlib.Nat.{pow-suc, mod_self, mod-eq_of_lt}
use lumenyx.Node.Miner.{next_job_id, increment_nonce}

-- The value of bytes from the least significant on.
unfoldable pub le_value : List ℕ → ℕ
le_value [] = 0
le_value (b ∷ bytes) = b + 256 * le_value bytes

unfoldable pub IsBytes : List ℕ → Type 0
IsBytes [] = Unit
IsBytes (b ∷ bytes) = (b < 256) × IsBytes bytes

pub le_value_bound : (bytes : List ℕ) → IsBytes bytes → le_value bytes < 256 ^ length bytes
unfolding le_value IsBytes
le_value_bound [] h = omega arith
le_value_bound (b ∷ bytes) (h, hs) = rw pow-suc (omega (arith, le_value_bound bytes hs))

wrap_next : (v p : ℕ) → v < p → (v + 1) % p ≡ (if v + 1 == p then 0 else v + 1)
wrap_next v p h = elim (Bool-cases (v + 1 == p)) [
  | inl e ↦ let q : v + 1 ≡ p = (==_iff (v + 1) p).0 e in rw e (ap (λ x. x % p) q ∙ mod_self p)
  | inr e ↦ rw e (mod-eq_of_lt (ground arith))
]

next_carry :
    (b v p r : ℕ) → b ≡ 255 → v < p → r ≡ (v + 1) % p → 0 + 256 * r ≡ (b + 256 * v + 1) % (p * 256)
next_carry b v p r e h er =
    let w = wrap_next v p h in
    let big = wrap_next (b + 256 * v) (p * 256) (omega (arith, h, e)) in
    rw (er, w, big) (ground arith)

no_carry : (b v p : ℕ) → b < 255 → v < p → (b + 256 * v + 1) % (p * 256) ≡ b + 1 + 256 * v
no_carry b v p small h = mod-eq_of_lt (omega (arith, h, small)) ∙ omega arith

-- Of a nonce of bytes, the next nonce is as long and is the next number, as little-endian bytes, and zero
-- after the last: every value of the bytes is tried before one comes again.
pub increment_nonce_lem :
    (nonce : List ℕ)
    → IsBytes nonce
    → IsBytes (increment_nonce nonce)
      × (length (increment_nonce nonce) ≡ length nonce)
      × (le_value (increment_nonce nonce) ≡ (le_value nonce + 1) % 256 ^ length nonce)
unfolding increment_nonce le_value IsBytes
increment_nonce_lem [] h = (tt, refl, omega arith)
increment_nonce_lem (b ∷ nonce) (h, hs) =
    let (ib, il, iv) = increment_nonce_lem nonce hs in
    let v = le_value_bound nonce hs in
    elim (Bool-cases (b == 255)) [
      | inl e ↦ rw e (
        (omega arith, ib),
        omega (arith, il),
        rw pow-suc (
            next_carry b (le_value nonce) (256 ^ length nonce) (le_value (increment_nonce nonce))
              ((==_iff b 255).0 e) v iv),
      )
      | inr e ↦ rw e (
        (ground arith, hs),
        refl,
        rw pow-suc (sym (no_carry b (le_value nonce) (256 ^ length nonce) (ground arith) v)),
      )
    ]

-- A job number is never zero, and never that of the job before.
pub next_job_id_lem :
    (job_id : ℕ)
    → job_id ≤ u64_max
    → (1 ≤ next_job_id job_id) × (next_job_id job_id ≤ u64_max) × (next_job_id job_id ≢ job_id)
unfolding next_job_id
next_job_id_lem job_id h = (omega arith, omega arith, λ e. omega arith)
