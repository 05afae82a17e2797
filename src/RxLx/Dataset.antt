-- ===== src/RxLx/Dataset.antt =====
-- `Dataset` of crates/rx-lx/src/lib.rs.
use lumenyx.Prelude.{ℕ, ◌==◌, if◌then◌else◌, Result, ok, err}
use lumenyx.RxLx.{Library, CacheHandle, DatasetHandle, RxLxError, dataset_allocation_failed}

module _ {S : Type 0} (lib : Library S) where
  unfoldable pub alloc : ℕ → S → Result RxLxError DatasetHandle × S
  alloc flags s =
      let (ptr, s') = lib.alloc_dataset flags s in
      (
        if ptr == 0
            then err dataset_allocation_failed
            else ok (record { ptr = ptr; flags = flags }),
        s',
      )

  unfoldable pub init : DatasetHandle → CacheHandle → S → S
  init dataset cache s = lib.init_dataset dataset.ptr cache.ptr 0 lib.item_count s

  unfoldable pub init_range : DatasetHandle → CacheHandle → (start count : ℕ) → S → S
  init_range dataset cache start count s = lib.init_dataset dataset.ptr cache.ptr start count s

  -- `Drop for Dataset`
  unfoldable pub drop : DatasetHandle → S → S
  drop dataset s = if dataset.ptr == 0 then s else lib.release_dataset dataset.ptr s
