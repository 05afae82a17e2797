-- ===== src/Prelude/Bytes.antt =====
-- Byte strings (`[u8; N]`, `H256`, `Vec<u8>`) as lists of numbers, their equality and their order, and
-- maps with byte strings as keys.
use Prim.Native.Nat.{ℕ}
use mathlib.Core.Path.{◌≡◌, refl, sym, ap, subst}
use mathlib.Core.Bool.{Bool, true, false, ◌&&◌}
use mathlib.Core.Logic.{◌⊎◌, inl, inr}
use mathlib.Core.Option.{Option, none, some}
use mathlib.Core.List.{List, [], ◌∷◌}
use native.Mathlib.Omega.{arith}
use lumenyx.Prelude.Tests.{◌==◌, ltb, if◌then◌else◌, Bool-cases}

-- Equality of byte strings.
abbrev pub bytes_eq : List ℕ → List ℕ → Bool
bytes_eq [] [] = true
bytes_eq [] (y ∷ ys) = false
bytes_eq (x ∷ xs) [] = false
bytes_eq (x ∷ xs) (y ∷ ys) = (x == y) && bytes_eq xs ys

pub bytes_eq_refl : (xs : List ℕ) → bytes_eq xs xs ≡ true
bytes_eq_refl [] = refl
bytes_eq_refl (x ∷ xs) = ground (arith, bytes_eq_refl xs)

pub bytes_eq→≡ : (xs ys : List ℕ) → bytes_eq xs ys ≡ true → xs ≡ ys
bytes_eq→≡ [] [] h = refl
bytes_eq→≡ [] (y ∷ ys) h = ground arith
bytes_eq→≡ (x ∷ xs) [] h = ground arith
bytes_eq→≡ (x ∷ xs) (y ∷ ys) h =
    let e : x ≡ y = ground arith in let es : xs ≡ ys = bytes_eq→≡ xs ys (ground arith) in cc

-- To split on a test of two byte strings.
pub bytes-cases :
    (xs ys : List ℕ)
    → ((xs ≡ ys) × (bytes_eq xs ys ≡ true)) ⊎ ((xs ≡ ys → ⊥) × (bytes_eq xs ys ≡ false))
bytes-cases xs ys = elim (Bool-cases (bytes_eq xs ys)) [
  | inl e ↦ inl (bytes_eq→≡ xs ys e, e)
  | inr ne ↦ inr (
    (λ e.
        let r = bytes_eq_refl xs in
        let q : bytes_eq xs ys ≡ bytes_eq xs xs = ap (bytes_eq xs) (sym e) in ground arith),
    ne,
  )
]

-- The lexicographic order of byte arrays.
abbrev pub bytes_lt : List ℕ → List ℕ → Bool
bytes_lt xs [] = false
bytes_lt [] (y ∷ ys) = true
bytes_lt (x ∷ xs) (y ∷ ys) = if x == y then bytes_lt xs ys else ltb x y

-- Maps: the entries, one for each key.
module _ {ℓ} {V : Type ℓ} where
  abbrev pub lookup : List ℕ → List (List ℕ × V) → Option V
  lookup k [] = none
  lookup k ((k', v) ∷ m) = if bytes_eq k k' then some v else lookup k m

  abbrev pub insert : List ℕ → V → List (List ℕ × V) → List (List ℕ × V)
  insert k v [] = (k, v) ∷ []
  insert k v ((k', v') ∷ m) = if bytes_eq k k' then (k, v) ∷ m else (k', v') ∷ insert k v m

  abbrev pub is_some : Option V → Bool
  is_some none = false
  is_some (some v) = true

  abbrev pub contains_key : List ℕ → List (List ℕ × V) → Bool
  contains_key k m = is_some (lookup k m)

  pub lookup-insert :
      (k : List ℕ) (v : V) (m : List (List ℕ × V)) → lookup k (insert k v m) ≡ some v
  lookup-insert k v [] = rw (bytes_eq_refl k) refl
  lookup-insert k v ((k', v') ∷ m) = elim (bytes-cases k k') [
    | inl (_, e) ↦ rw e (rw (bytes_eq_refl k) refl)
    | inr (_, e) ↦ rw e (rw e (lookup-insert k v m))
  ]

  pub lookup-insert_ne :
      (j k : List ℕ) (v : V) (m : List (List ℕ × V))
      → (j ≡ k → ⊥)
      → lookup j (insert k v m) ≡ lookup j m
  lookup-insert_ne j k v [] ne = elim (bytes-cases j k) [
    | inl (e, _) ↦ absurd (ne e)
    | inr (_, e) ↦ rw e refl
  ]
  lookup-insert_ne j k v ((k', v') ∷ m) ne = elim (bytes-cases k k') [
    | inl (e, t) ↦ elim (bytes-cases j k) [
      | inl (e', _) ↦ absurd (ne e')
      | inr (_, t') ↦ rw (t, t', subst (λ x. bytes_eq j x ≡ false) e t') refl
    ]
    | inr (_, t) ↦ ground (arith, lookup-insert_ne j k v m ne)
  ]

  pub contains_key-insert :
      (k : List ℕ) (v : V) (m : List (List ℕ × V)) → contains_key k (insert k v m) ≡ true
  contains_key-insert k v m = ap is_some (lookup-insert k v m)

  pub contains_key-insert_ne :
      (j k : List ℕ) (v : V) (m : List (List ℕ × V))
      → (j ≡ k → ⊥)
      → contains_key j (insert k v m) ≡ contains_key j m
  contains_key-insert_ne j k v m ne = ap is_some (lookup-insert_ne j k v m ne)
