-- ===== src/RxLx/LightHasher.antt =====
-- `LightHasher` of crates/rx-lx/src/lib.rs. A value that goes out of scope is dropped; the fields of a
-- struct are, in their order.
use lumenyx.Prelude.{List, ℕ, Result, ok, err}
use lumenyx.RxLx.{Library, CacheHandle, VmHandle, Light, RxLxError}
use lumenyx.RxLx.Flags
use lumenyx.RxLx.Cache
use lumenyx.RxLx.Vm

module _ {S : Type 0} (lib : Library S) where
  -- What is left to do once there is a result for the machine.
  unfoldable pub finish : CacheHandle → Result RxLxError VmHandle × S → Result RxLxError Light × S
  unfolding Cache.drop
  finish cache (ok vm, s) = (ok (record { cache = cache; vm = vm }), s)
  finish cache (err e, s) = (err e, Cache.drop lib cache s)

  -- And once there is one for the cache.
  unfoldable pub with_cache : List ℕ → Result RxLxError CacheHandle × S → Result RxLxError Light × S
  unfolding Cache.init Vm.light finish
  with_cache seed (ok cache, s) =
      finish cache
        (Vm.light lib (Flags.recommended lib.get_flags) cache (Cache.init lib cache seed s))
  with_cache seed (err e, s) = (err e, s)

  unfoldable pub new : List ℕ → S → Result RxLxError Light × S
  unfolding Cache.alloc with_cache
  new seed s = with_cache seed (Cache.alloc lib (Flags.recommended lib.get_flags) s)

  unfoldable pub hash : Light → List ℕ → S → List ℕ × S
  unfolding Vm.hash
  hash hasher input s = Vm.hash lib hasher.vm input s

  unfoldable pub set_seed : Light → List ℕ → S → S
  unfolding Cache.init
  set_seed hasher seed s = Cache.init lib hasher.cache seed s

  -- The drop of the fields.
  unfoldable pub drop : Light → S → S
  unfolding Cache.drop Vm.drop
  drop hasher s = Vm.drop lib hasher.vm (Cache.drop lib hasher.cache s)
