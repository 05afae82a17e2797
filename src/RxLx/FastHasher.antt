-- ===== src/RxLx/FastHasher.antt =====
-- `FastHasher` of crates/rx-lx/src/lib.rs. Of the values that go out of scope, the last one that was
-- declared is dropped first.
use lumenyx.Prelude.{List, ℕ, Result, ok, err}
use lumenyx.RxLx.{Library, CacheHandle, DatasetHandle, VmHandle, Fast, RxLxError}
use lumenyx.RxLx.Flags
use lumenyx.RxLx.Cache
use lumenyx.RxLx.Dataset
use lumenyx.RxLx.Vm

module _ {S : Type 0} (lib : Library S) where
  -- What is left to do once there is a result for the machine, for the dataset, and for the cache.
  unfoldable pub finish :
      CacheHandle → DatasetHandle → Result RxLxError VmHandle × S → Result RxLxError Fast × S
  unfolding Cache.drop Dataset.drop
  finish cache dataset (ok vm, s) = (ok (record { cache = cache; dataset = dataset; vm = vm }), s)
  finish cache dataset (err e, s) = (err e, Cache.drop lib cache (Dataset.drop lib dataset s))

  unfoldable pub with_dataset :
      CacheHandle → Result RxLxError DatasetHandle × S → Result RxLxError Fast × S
  unfolding Cache.drop Dataset.init Vm.fast finish
  with_dataset cache (ok dataset, s) =
      finish cache dataset
        (Vm.fast lib (Flags.recommended lib.get_flags) dataset (Dataset.init lib dataset cache s))
  with_dataset cache (err e, s) = (err e, Cache.drop lib cache s)

  unfoldable pub with_cache : List ℕ → Result RxLxError CacheHandle × S → Result RxLxError Fast × S
  unfolding Cache.init Dataset.alloc with_dataset
  with_cache seed (ok cache, s) =
      with_dataset cache
        (Dataset.alloc lib (Flags.recommended lib.get_flags) (Cache.init lib cache seed s))
  with_cache seed (err e, s) = (err e, s)

  unfoldable pub new : List ℕ → S → Result RxLxError Fast × S
  unfolding Cache.alloc with_cache
  new seed s = with_cache seed (Cache.alloc lib (Flags.recommended lib.get_flags) s)

  unfoldable pub hash : Fast → List ℕ → S → List ℕ × S
  unfolding Vm.hash
  hash hasher input s = Vm.hash lib hasher.vm input s

  -- The drop of the fields.
  unfoldable pub drop : Fast → S → S
  unfolding Cache.drop Dataset.drop Vm.drop
  drop hasher s =
      Vm.drop lib hasher.vm (Dataset.drop lib hasher.dataset (Cache.drop lib hasher.cache s))
