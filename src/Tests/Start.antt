-- ===== src/Tests/Start.antt =====
-- The key of the miner at a concrete file, with two characters for each number of a seed.
use lumenyx.Prelude.{
  ℕ, ◌+◌, ◌-◌, ◌*◌, ◌≡◌, refl, arith, true, Option, none, some, List, [], ◌∷◌, length, replicate,
}
use lumenyx.Node.PoolMode.{is_whitespace}
use lumenyx.Node.Start.{File, Crypto, get_or_create_miner_key}
use lumenyx.Node.Start.Keys.{IsSolid, IsHex, miner_key_kept}

pairs : List ℕ → List ℕ
pairs [] = []
pairs (b ∷ bytes) = 65 ∷ (b + 20_000) ∷ pairs bytes

prepend : ℕ → Option (List ℕ) → Option (List ℕ)
prepend b none = none
prepend b (some bytes) = some (b ∷ bytes)

unpairs : List ℕ → Option (List ℕ)
unfolding prepend
unpairs [] = some []
unpairs (x ∷ []) = none
unpairs (x ∷ y ∷ rest) = prepend (y - 20_000) (unpairs rest)

abbrev crypto : Crypto (List ℕ)
crypto = record { from_seed = λ seed. seed; encode = pairs; decode = unpairs }

unpairs-pairs : (bytes : List ℕ) → unpairs (pairs bytes) ≡ some bytes
unfolding pairs unpairs prepend
unpairs-pairs [] = refl
unpairs-pairs (b ∷ bytes) =
    let e : b + 20_000 - 20_000 ≡ b = omega arith in rw (e, unpairs-pairs bytes) refl

pairs-IsSolid : (bytes : List ℕ) → IsSolid (pairs bytes)
unfolding pairs IsSolid is_whitespace
pairs-IsSolid [] = tt
pairs-IsSolid (b ∷ bytes) = (refl, (ground arith, pairs-IsSolid bytes))

length-pairs : (bytes : List ℕ) → length (pairs bytes) ≡ 2 * length bytes
unfolding pairs
length-pairs [] = refl
length-pairs (b ∷ bytes) = omega (arith, length-pairs bytes)

crypto-IsHex : IsHex crypto
crypto-IsHex = record { read_back = unpairs-pairs; solid = pairs-IsSolid; doubled = length-pairs }

abbrev no_file : File
no_file = record { contents = none; readable = true; writable = true; room = 64 }

abbrev seed : ℕ → List ℕ
seed b = replicate 32 b

miner_key_kept_example :
    let (first, f') = get_or_create_miner_key crypto (seed 1, seed 1) no_file in
    get_or_create_miner_key crypto (seed 2, seed 2) f' ≡ (first, f')
miner_key_kept_example =
    miner_key_kept crypto (seed 1) (seed 2) (seed 1) (seed 2) no_file crypto-IsHex refl refl refl
      refl (omega arith)
