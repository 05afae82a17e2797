-- ===== src/RxLx/Cache.antt =====
-- `Cache` of crates/rx-lx/src/lib.rs.
use lumenyx.Prelude.{ℕ, ◌==◌, if◌then◌else◌, List, Result, ok, err}
use lumenyx.RxLx.{Library, CacheHandle, RxLxError, cache_allocation_failed}

module _ {S : Type 0} (lib : Library S) where
  unfoldable pub alloc : ℕ → S → Result RxLxError CacheHandle × S
  alloc flags s =
      let (ptr, s') = lib.alloc_cache flags s in
      (
        if ptr == 0 then err cache_allocation_failed else ok (record { ptr = ptr; flags = flags }),
        s',
      )

  unfoldable pub init : CacheHandle → List ℕ → S → S
  init cache key s = lib.init_cache cache.ptr key s

  -- `Drop for Cache`
  unfoldable pub drop : CacheHandle → S → S
  drop cache s = if cache.ptr == 0 then s else lib.release_cache cache.ptr s
