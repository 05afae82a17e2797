-- ===== src/RxLx/Laws.antt =====
-- What the documentation of the hash library says of the functions that crates/rx-lx/src/lib.rs calls.
use lumenyx.Prelude.{
  ℕ, ◌≡◌, ◌≢◌, ◌⊎◌, bit, Bool, false, ◌==◌, if◌then◌else◌, Option, some, List, [], ◌∷◌,
}
use lumenyx.RxLx.{Library}

-- What can be allocated, with its pointer.
pub data Object : Type 0 where
  cache_memory dataset_memory machine : ℕ → Object

abbrev pub same : Object → Object → Bool
same (cache_memory p) (cache_memory q) = p == q
same (dataset_memory p) (dataset_memory q) = p == q
same (machine p) (machine q) = p == q
same _ _ = false

abbrev pub remove : Object → List Object → List Object
remove o [] = []
remove o (x ∷ xs) = if same o x then xs else x ∷ remove o xs

module _ {S : Type 0} (lib : Library S) where
  -- A function that allocates returns the null pointer and changes nothing, or a new object.
  abbrev pub IsAllocation : (live : S → List Object) → (ℕ → Object) → S → ℕ × S → Type 0
  IsAllocation live object s (ptr, s') =
      ((ptr ≡ 0) × (live s' ≡ live s)) ⊎ ((ptr ≢ 0) × (live s' ≡ object ptr ∷ live s))

  -- What is allocated, and not yet freed.
  pub record IsTracked (live : S → List Object) : Type 0 where
    pub alloc_cache : (f : ℕ) (s : S) → IsAllocation live cache_memory s (lib.alloc_cache f s)
    pub init_cache : (c : ℕ) (key : List ℕ) (s : S) → live (lib.init_cache c key s) ≡ live s
    pub release_cache :
        (c : ℕ) (s : S) → live (lib.release_cache c s) ≡ remove (cache_memory c) (live s)
    pub alloc_dataset : (f : ℕ) (s : S) → IsAllocation live dataset_memory s (lib.alloc_dataset f s)
    pub init_dataset : (d c a n : ℕ) (s : S) → live (lib.init_dataset d c a n s) ≡ live s
    pub release_dataset :
        (d : ℕ) (s : S) → live (lib.release_dataset d s) ≡ remove (dataset_memory d) (live s)
    pub create_vm : (f c d : ℕ) (s : S) → IsAllocation live machine s (lib.create_vm f c d s)
    pub destroy_vm : (m : ℕ) (s : S) → live (lib.destroy_vm m s) ≡ remove (machine m) (live s)

  -- What an object was filled from: a machine has what its cache has, or in the mode of the full memory
  -- what its dataset has; and hashes with that. The flags of a processor are without that mode.
  pub record IsKeyed (key_of : S → Object → Option (List ℕ))
      (rx_hash : (key input : List ℕ) → List ℕ) : Type 0 where
    pub init_cache :
        (c : ℕ) (key : List ℕ) (s : S) → key_of (lib.init_cache c key s) (cache_memory c) ≡ some key
    pub alloc_dataset :
        (f c : ℕ) (s : S)
        → key_of (lib.alloc_dataset f s).1 (cache_memory c) ≡ key_of s (cache_memory c)
    pub init_dataset :
        (d c : ℕ) (s : S)
        → key_of (lib.init_dataset d c 0 lib.item_count s) (dataset_memory d)
          ≡ key_of s (cache_memory c)
    pub create_light :
        (f c : ℕ) (s : S)
        → bit 2 f ≡ 0
        → (lib.create_vm f c 0 s).0 ≢ 0
        → key_of (lib.create_vm f c 0 s).1 (machine (lib.create_vm f c 0 s).0)
          ≡ key_of s (cache_memory c)
    pub create_fast :
        (f d : ℕ) (s : S)
        → bit 2 f ≡ 1
        → (lib.create_vm f 0 d s).0 ≢ 0
        → key_of (lib.create_vm f 0 d s).1 (machine (lib.create_vm f 0 d s).0)
          ≡ key_of s (dataset_memory d)
    pub calculate_hash :
        (m : ℕ) (key input : List ℕ) (s : S)
        → key_of s (machine m) ≡ some key
        → (lib.calculate_hash m input s).0 ≡ rx_hash key input
    pub no_full_mem : bit 2 lib.get_flags ≡ 0
