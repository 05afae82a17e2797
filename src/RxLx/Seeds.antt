-- ===== src/RxLx/Seeds.antt =====
-- The flags and the hashes of crates/rx-lx/src/lib.rs.
use Prim.Native.Nat.{bit_or}
use native.Mathlib.Nat.{pow-suc, one-le-pow}
use lumenyx.Prelude.{
  ℕ, zero, suc, ◌-◌, ◌^◌, ◌/◌, ◌≤◌, ◌<◌, min, ◌≡◌, ◌≢◌, refl, sym, ap, subst, ◌∙◌, arith, inl, inr,
  ◌==◌, if◌then◌else◌, Option, some, List, Bool-cases, Result, ok, err, bit, bit-bit_and,
  bit-bit_or,
}
use lumenyx.RxLx.{Library, CacheHandle, DatasetHandle, Light, Fast, RxLxError}
use lumenyx.RxLx.Flags.{recommended, flag_full_mem, complement, flag_hard_aes}
use lumenyx.RxLx.Cache
use lumenyx.RxLx.Dataset
use lumenyx.RxLx.Vm
use lumenyx.RxLx.LightHasher
use lumenyx.RxLx.FastHasher
use lumenyx.RxLx.Laws.{Object, cache_memory, machine, IsKeyed}

bit_bound : (k x : ℕ) → bit k x ≤ 1
bit_bound zero x = omega arith
bit_bound (suc k) x = bit_bound k (x / 2)

-- The low mask has all its digits.
bit_mask : (k n : ℕ) → k < n → bit k (2 ^ n - 1) ≡ 1
bit_mask k zero h = absurd (omega arith)
bit_mask zero (suc n) h = let p = one-le-pow n 2 (omega arith) in rw (pow-suc 2 n) (omega arith)
bit_mask (suc k) (suc n) h =
    let p = one-le-pow n 2 (omega arith) in
    let e : (2 ^ suc n - 1) / 2 ≡ 2 ^ n - 1 = rw (pow-suc 2 n) (omega arith) in
    rw e (bit_mask k n (omega arith))

bit-complement : (k : ℕ) → k < 32 → bit k (complement flag_hard_aes) ≡ (if k == 1 then 0 else 1)
bit-complement zero h = refl
bit-complement (suc zero) h = refl
bit-complement (suc (suc k)) h = bit_mask k 30 (omega arith) ∙ ground arith

-- The recommended flags are those of the processor, digit by digit, but for the one of AES in hardware,
-- which is never set.
pub recommended_lem :
    (get_flags k : ℕ)
    → k < 32
    → bit k (recommended get_flags) ≡ (if k == 1 then 0 else bit k get_flags)
recommended_lem get_flags k h =
    bit-bit_and k get_flags (complement flag_hard_aes)
    ∙ ap (min (bit k get_flags)) (bit-complement k h)
    ∙ elim (Bool-cases (k == 1)) [
      | inl e ↦ rw e (omega arith)
      | inr e ↦ rw e (omega (arith, bit_bound k get_flags))
    ]

with_full : (f : ℕ) → bit 2 (bit_or f flag_full_mem) ≡ 1
with_full f = bit-bit_or 2 f flag_full_mem ∙ omega (arith, bit_bound 2 f)

module _ {S : Type 0} (lib : Library S) (key_of : S → Object → Option (List ℕ)) where
  -- The machine of a hasher that was made has the seed.
  unfoldable IsLightKeyed : List ℕ → Result RxLxError Light × S → Type 0
  IsLightKeyed seed (err e, s) = Unit
  IsLightKeyed seed (ok h, s) = key_of s (machine h.vm.ptr) ≡ some seed

  unfoldable IsFastKeyed : List ℕ → Result RxLxError Fast × S → Type 0
  IsFastKeyed seed (err e, s) = Unit
  IsFastKeyed seed (ok h, s) = key_of s (machine h.vm.ptr) ≡ some seed

  light_finish :
      (seed : List ℕ) (c : CacheHandle) (p : ℕ) (s : S)
      → (p ≢ 0 → key_of s (machine p) ≡ some seed)
      → IsLightKeyed seed (LightHasher.finish lib c (Vm.made p, s))
  unfolding IsLightKeyed LightHasher.finish
  light_finish seed c p s h = elim (Bool-cases (p == 0)) [
    | inl e ↦ rw e tt
    | inr e ↦ rw e (h (ground arith))
  ]

  fast_finish :
      (seed : List ℕ) (c : CacheHandle) (d : DatasetHandle) (p : ℕ) (s : S)
      → (p ≢ 0 → key_of s (machine p) ≡ some seed)
      → IsFastKeyed seed (FastHasher.finish lib c d (Vm.made p, s))
  unfolding IsFastKeyed FastHasher.finish
  fast_finish seed c d p s h = elim (Bool-cases (p == 0)) [
    | inl e ↦ rw e tt
    | inr e ↦ rw e (h (ground arith))
  ]

  module _ (rx_hash : (key input : List ℕ) → List ℕ) (law : IsKeyed lib key_of rx_hash) where
    light_with_cache :
        (seed : List ℕ) (r : Result RxLxError CacheHandle) (s : S)
        → IsLightKeyed seed (LightHasher.with_cache lib seed (r, s))
    unfolding IsLightKeyed LightHasher.with_cache Vm.light Cache.init
    light_with_cache seed (err e) s = tt
    light_with_cache seed (ok c) s =
        let f = recommended lib.get_flags in
        let s' = lib.init_cache c.ptr seed s in
        light_finish seed c (lib.create_vm f c.ptr 0 s').0 (lib.create_vm f c.ptr 0 s').1 (λ nz.
          law.create_light f c.ptr s'
            (recommended_lem lib.get_flags 2 (omega arith) ∙ law.no_full_mem) nz
          ∙ law.init_cache c.ptr seed s)

    fast_with_dataset :
        (seed : List ℕ) (c : CacheHandle) (r : Result RxLxError DatasetHandle) (s : S)
        → key_of s (cache_memory c.ptr) ≡ some seed
        → IsFastKeyed seed (FastHasher.with_dataset lib c (r, s))
    unfolding IsFastKeyed FastHasher.with_dataset Vm.fast Dataset.init
    fast_with_dataset seed c (err e) s k = tt
    fast_with_dataset seed c (ok d) s k =
        let f = bit_or (recommended lib.get_flags) flag_full_mem in
        let s' = lib.init_dataset d.ptr c.ptr 0 lib.item_count s in
        fast_finish seed c d (lib.create_vm f 0 d.ptr s').0 (lib.create_vm f 0 d.ptr s').1 (λ nz.
          law.create_fast f d.ptr s' (with_full (recommended lib.get_flags)) nz
          ∙ law.init_dataset d.ptr c.ptr s
          ∙ k)

    fast_with_cache :
        (seed : List ℕ) (r : Result RxLxError CacheHandle) (s : S)
        → IsFastKeyed seed (FastHasher.with_cache lib seed (r, s))
    unfolding IsFastKeyed FastHasher.with_cache Cache.init Dataset.alloc
    fast_with_cache seed (err e) s = tt
    fast_with_cache seed (ok c) s =
        let f = recommended lib.get_flags in
        let s' = lib.init_cache c.ptr seed s in
        fast_with_dataset seed c (Dataset.alloc lib f s').0 (Dataset.alloc lib f s').1
          (law.alloc_dataset f c.ptr s' ∙ law.init_cache c.ptr seed s)

    -- If the library hashes as it is documented to, and the flags of the processor are without the full
    -- memory, a light and a fast hasher that were made with one seed, in whatever states of the
    -- library, give the same hash of every input.
    pub light_eq_fast :
        (seed input : List ℕ) (s t s' t' : S) (h : Light) (g : Fast)
        → LightHasher.new lib seed s ≡ (ok h, s')
        → FastHasher.new lib seed t ≡ (ok g, t')
        → (LightHasher.hash lib h input s').0 ≡ (FastHasher.hash lib g input t').0
    unfolding LightHasher.new FastHasher.new LightHasher.hash FastHasher.hash IsLightKeyed
        IsFastKeyed Vm.hash
    light_eq_fast seed input s t s' t' h g made made' =
        let f = recommended lib.get_flags in
        let k =
          subst (IsLightKeyed seed) made
            (light_with_cache seed (Cache.alloc lib f s).0 (Cache.alloc lib f s).1) in
        let k' =
          subst (IsFastKeyed seed) made'
            (fast_with_cache seed (Cache.alloc lib f t).0 (Cache.alloc lib f t).1) in
        law.calculate_hash h.vm.ptr seed input s' k
        ∙ sym (law.calculate_hash g.vm.ptr seed input t' k')
