-- ===== src/RxLx/Vm.antt =====
-- `Vm` of crates/rx-lx/src/lib.rs.
use Prim.Native.Nat.{bit_or}
use lumenyx.Prelude.{ℕ, ◌==◌, if◌then◌else◌, List, Result, ok, err}
use lumenyx.RxLx.{Library, CacheHandle, DatasetHandle, VmHandle, RxLxError, vm_creation_failed}
use lumenyx.RxLx.Flags.{flag_full_mem}

-- The handle of a machine, unless there is none.
abbrev pub made : ℕ → Result RxLxError VmHandle
made ptr = if ptr == 0 then err vm_creation_failed else ok (record { ptr = ptr })

module _ {S : Type 0} (lib : Library S) where
  unfoldable pub light : ℕ → CacheHandle → S → Result RxLxError VmHandle × S
  light flags cache s = let (ptr, s') = lib.create_vm flags cache.ptr 0 s in (made ptr, s')

  unfoldable pub fast : ℕ → DatasetHandle → S → Result RxLxError VmHandle × S
  fast flags dataset s =
      let (ptr, s') = lib.create_vm (bit_or flags flag_full_mem) 0 dataset.ptr s in (made ptr, s')

  unfoldable pub hash : VmHandle → List ℕ → S → List ℕ × S
  hash vm input s = lib.calculate_hash vm.ptr input s

  -- `Drop for Vm`
  unfoldable pub drop : VmHandle → S → S
  drop vm s = if vm.ptr == 0 then s else lib.destroy_vm vm.ptr s
