-- ===== src/Node/Worker/Nonces.antt =====
-- The nonces that the threads of node/src/service.rs try.
use lumenyx.Prelude.{
  ℕ, zero, suc, ◌+◌, ◌*◌, ◌/◌, ◌^◌, ◌<◌, ◌≡◌, ◌≢◌, refl, ap, ◌∙◌, arith, List, [], ◌∷◌, ◌++◌,
  replicate, length,
}
use native.Mathlib.Nat.{pow-suc, mod-eq_of_lt}
use lumenyx.Node.Pool.{to_le_bytes}
use lumenyx.Node.Miner.{increment_nonce}
use lumenyx.Node.Miner.Nonces.{le_value, IsBytes, increment_nonce_lem}
use lumenyx.Node.Worker.{first_nonce}

-- The nonce after some rounds of the search.
abbrev pub nonce_after : ℕ → List ℕ → List ℕ
unfolding increment_nonce
nonce_after zero nonce = nonce
nonce_after (suc k) nonce = increment_nonce (nonce_after k nonce)

le_value-append :
    (xs ys : List ℕ) → le_value (xs ++ ys) ≡ le_value xs + 256 ^ length xs * le_value ys
unfolding le_value
le_value-append [] ys = omega arith
le_value-append (x ∷ xs) ys =
    let m : 256 ^ length xs * 256 * le_value ys ≡ 256 * (256 ^ length xs * le_value ys) =
      ground arith in
    rw (pow-suc, le_value-append xs ys) (omega (arith, m))

IsBytes-append : (xs ys : List ℕ) → IsBytes xs → IsBytes ys → IsBytes (xs ++ ys)
unfolding IsBytes
IsBytes-append [] ys h h' = h'
IsBytes-append (x ∷ xs) ys (h, hs) h' = (h, IsBytes-append xs ys hs h')

to_le_bytes-IsBytes : (w n : ℕ) → IsBytes (to_le_bytes w n)
unfolding IsBytes to_le_bytes
to_le_bytes-IsBytes zero n = tt
to_le_bytes-IsBytes (suc w) n = (omega arith, to_le_bytes-IsBytes w (n / 256))

length-to_le_bytes : (w n : ℕ) → length (to_le_bytes w n) ≡ w
unfolding to_le_bytes
length-to_le_bytes zero n = refl
length-to_le_bytes (suc w) n = ap suc (length-to_le_bytes w (n / 256))

le_value-to_le_bytes : (w n : ℕ) → n < 256 ^ w → le_value (to_le_bytes w n) ≡ n
unfolding le_value to_le_bytes
le_value-to_le_bytes zero n h = omega arith
le_value-to_le_bytes (suc w) n h =
    omega (arith, le_value-to_le_bytes w (n / 256) (ground (arith, pow-suc 256 w)))

three_parts :
    (xs ys zs : List ℕ) (a b p : ℕ)
    → le_value xs ≡ a
    → le_value ys ≡ b
    → 256 ^ length xs ≡ p
    → le_value zs ≡ 0
    → le_value (xs ++ ys ++ zs) ≡ a + p * b
three_parts xs ys zs a b p ea eb ep ez =
    le_value-append (xs ++ ys) zs ∙ rw (le_value-append xs ys, ea, eb, ep, ez) (omega arith)

fields :
    (i t : ℕ)
    → i < 2 ^ 64
    → t < 2 ^ 64
    → le_value (to_le_bytes 8 t ++ to_le_bytes 8 i ++ replicate 16 0) ≡ t + 2 ^ 64 * i
unfolding le_value
fields i t hi ht =
    three_parts (to_le_bytes 8 t) (to_le_bytes 8 i) (replicate 16 0) t i (2 ^ 64)
      (le_value-to_le_bytes 8 t ht) (le_value-to_le_bytes 8 i hi)
      (ap (λ w. 256 ^ w) (length-to_le_bytes 8 t)) refl

first_value : (i t : ℕ) → i < 2 ^ 64 → t < 2 ^ 64 → le_value (first_nonce i t) ≡ t + 2 ^ 64 * i
unfolding first_nonce
first_value i t hi ht = fields i t hi ht

IsBytes-replicate : (n : ℕ) → IsBytes (replicate n 0)
unfolding IsBytes
IsBytes-replicate zero = tt
IsBytes-replicate (suc n) = (omega arith, IsBytes-replicate n)

fields-IsBytes : (i t : ℕ) → IsBytes (to_le_bytes 8 t ++ to_le_bytes 8 i ++ replicate 16 0)
fields-IsBytes i t =
    IsBytes-append (to_le_bytes 8 t ++ to_le_bytes 8 i) (replicate 16 0)
      (IsBytes-append (to_le_bytes 8 t) (to_le_bytes 8 i) (to_le_bytes-IsBytes 8 t)
        (to_le_bytes-IsBytes 8 i))
      (IsBytes-replicate 16)

first_nonce-IsBytes : (i t : ℕ) → IsBytes (first_nonce i t) × (length (first_nonce i t) ≡ 32)
unfolding first_nonce
first_nonce-IsBytes i t = (fields-IsBytes i t, refl)

-- Below the end of the bytes, `k` rounds add `k`.
nonce_after-value :
    (k : ℕ) (nonce : List ℕ)
    → IsBytes nonce
    → le_value nonce + k < 256 ^ length nonce
    → IsBytes (nonce_after k nonce)
      × (length (nonce_after k nonce) ≡ length nonce)
      × (le_value (nonce_after k nonce) ≡ le_value nonce + k)
unfolding nonce_after
nonce_after-value zero nonce b h = (b, refl, omega arith)
nonce_after-value (suc k) nonce b h =
    let (b', l, v) = nonce_after-value k nonce b (omega arith) in
    let (b'', l', v') = increment_nonce_lem (nonce_after k nonce) b' in
    (b'', l' ∙ l, v' ∙ rw (v, l) (mod-eq_of_lt (omega arith) ∙ omega arith))

value_after :
    (i t k : ℕ)
    → i < 2 ^ 64
    → t + k < 2 ^ 64
    → le_value (nonce_after k (first_nonce i t)) ≡ t + 2 ^ 64 * i + k
value_after i t k hi h =
    let v = first_value i t hi (omega arith) in
    let (b, l) = first_nonce-IsBytes i t in
    let (_, _, e) = nonce_after-value k (first_nonce i t) b (rw (v, l) (omega arith)) in
    e ∙ rw v refl

-- No two threads try the same nonce, whatever their clocks say at the start and however many rounds
-- each has done, as long as the clock at the start and the number of rounds stay below 2^64 together.
pub distinct_nonces :
    (i j t u k m : ℕ)
    → i ≢ j
    → i < 2 ^ 64
    → j < 2 ^ 64
    → t + k < 2 ^ 64
    → u + m < 2 ^ 64
    → nonce_after k (first_nonce i t) ≢ nonce_after m (first_nonce j u)
distinct_nonces i j t u k m ne hi hj ht hu e =
    let same = ap le_value e in
    let a = value_after i t k hi ht in let b = value_after j u m hj hu in ne (omega arith)
