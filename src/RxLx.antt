-- ===== src/RxLx.antt =====
-- The wrapper of the hash library, crates/rx-lx/src/lib.rs, over the functions that
-- crates/rx-lx-sys/src/lib.rs declares. Each call takes the memory of the library and returns the next;
-- a pointer is a number, and 0 is the null pointer.
pub mod Flags
pub mod Cache
pub mod Dataset
pub mod Vm
pub mod LightHasher
pub mod FastHasher
pub mod Laws
pub mod Owned
pub mod Seeds
use lumenyx.Prelude.{ℕ, List}

-- The functions of the library. `item_count` is `randomx_dataset_item_count`.
pub record Library (S : Type 0) : Type 0 where
  pub get_flags : ℕ
  pub alloc_cache : (flags : ℕ) → S → ℕ × S
  pub init_cache : (cache : ℕ) → (key : List ℕ) → S → S
  pub release_cache : (cache : ℕ) → S → S
  pub alloc_dataset : (flags : ℕ) → S → ℕ × S
  pub item_count : ℕ
  pub init_dataset : (dataset cache start_item item_count : ℕ) → S → S
  pub release_dataset : (dataset : ℕ) → S → S
  pub create_vm : (flags cache dataset : ℕ) → S → ℕ × S
  pub calculate_hash : (vm : ℕ) → (input : List ℕ) → S → List ℕ × S
  pub destroy_vm : (vm : ℕ) → S → S

pub data RxLxError : Type 0 where
  cache_allocation_failed dataset_allocation_failed vm_creation_failed cache_not_initialized :
      RxLxError

pub record CacheHandle : Type 0 where
  pub ptr : ℕ
  pub flags : ℕ

pub record DatasetHandle : Type 0 where
  pub ptr : ℕ
  pub flags : ℕ

pub record VmHandle : Type 0 where
  pub ptr : ℕ

pub record Light : Type 0 where
  pub cache : CacheHandle
  pub vm : VmHandle

pub record Fast : Type 0 where
  pub cache : CacheHandle
  pub dataset : DatasetHandle
  pub vm : VmHandle
