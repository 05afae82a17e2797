-- ===== src/RxLx/Owned.antt =====
-- The wrapper of crates/rx-lx/src/lib.rs frees what it allocates, on every path.
use lumenyx.Prelude.{
  ℕ, ◌≡◌, ◌≢◌, refl, ap, ◌∙◌, ◌⊎◌, inl, inr, ==_refl, ==_ne, List, ◌∷◌, Result, ok, err,
}
use lumenyx.RxLx.{
  Library, CacheHandle, DatasetHandle, VmHandle, Light, Fast, RxLxError, cache_allocation_failed,
  dataset_allocation_failed, vm_creation_failed,
}
use lumenyx.RxLx.Flags
use lumenyx.RxLx.Cache
use lumenyx.RxLx.Dataset
use lumenyx.RxLx.Vm
use lumenyx.RxLx.LightHasher
use lumenyx.RxLx.FastHasher
use lumenyx.RxLx.Laws.{
  Object, cache_memory, dataset_memory, machine, remove, IsTracked, IsAllocation,
}

module _ {S : Type 0} (lib : Library S) (live : S → List Object) where
  -- A handle's result: an error and nothing new, or a handle of a new object.
  abbrev IsGained : {H : Type 0} → (H → ℕ) → (ℕ → Object) → S → Result RxLxError H × S → Type 0
  IsGained ptr object s (r, s') =
      ((e : RxLxError) × (r ≡ err e) × (live s' ≡ live s))
      ⊎ ((h : _) × (r ≡ ok h) × (ptr h ≢ 0) × (live s' ≡ object (ptr h) ∷ live s))

  -- An error has freed all, and a hasher has just its objects, which its drop frees.
  unfoldable pub IsLightOwned : S → Result RxLxError Light × S → Type 0
  IsLightOwned s (err e, s') = live s' ≡ live s
  IsLightOwned s (ok h, s') =
      (live s' ≡ machine h.vm.ptr ∷ cache_memory h.cache.ptr ∷ live s)
      × (live (LightHasher.drop lib h s') ≡ live s)

  unfoldable pub IsFastOwned : S → Result RxLxError Fast × S → Type 0
  IsFastOwned s (err e, s') = live s' ≡ live s
  IsFastOwned s (ok h, s') =
      (live s'
        ≡ machine h.vm.ptr ∷ dataset_memory h.dataset.ptr ∷ cache_memory h.cache.ptr ∷ live s)
      × (live (FastHasher.drop lib h s') ≡ live s)

  module _ (law : IsTracked lib live) where
    cache_alloc : (f : ℕ) (s : S) → IsGained (λ c. c.ptr) cache_memory s (Cache.alloc lib f s)
    unfolding Cache.alloc
    cache_alloc f s = elim (law.alloc_cache f s) [
      | inl (z, l) ↦ inl (cache_allocation_failed, rw z refl, l)
      | inr (nz, l) ↦
          inr (record { ptr = (lib.alloc_cache f s).0; flags = f }, rw (==_ne _ 0 nz) refl, nz, l)
    ]

    dataset_alloc : (f : ℕ) (s : S) → IsGained (λ d. d.ptr) dataset_memory s (Dataset.alloc lib f s)
    unfolding Dataset.alloc
    dataset_alloc f s = elim (law.alloc_dataset f s) [
      | inl (z, l) ↦ inl (dataset_allocation_failed, rw z refl, l)
      | inr (nz, l) ↦
          inr (record { ptr = (lib.alloc_dataset f s).0; flags = f }, rw (==_ne _ 0 nz) refl, nz, l)
    ]

    vm_made :
        (s : S) (made : ℕ × S)
        → IsAllocation lib live machine s made
        → IsGained (λ m. m.ptr) machine s (Vm.made made.0, made.1)
    vm_made s (p, s') (inl (z, l)) = inl (vm_creation_failed, rw z refl, l)
    vm_made s (p, s') (inr (nz, l)) = inr (record { ptr = p }, rw (==_ne _ 0 nz) refl, nz, l)

    vm_light :
        (f : ℕ) (c : CacheHandle) (s : S) → IsGained (λ m. m.ptr) machine s (Vm.light lib f c s)
    unfolding Vm.light
    vm_light f c s = vm_made s (lib.create_vm f c.ptr 0 s) (law.create_vm f c.ptr 0 s)

    vm_fast :
        (f : ℕ) (d : DatasetHandle) (s : S) → IsGained (λ m. m.ptr) machine s (Vm.fast lib f d s)
    unfolding Vm.fast
    vm_fast f d s = vm_made s (lib.create_vm _ 0 d.ptr s) (law.create_vm _ 0 d.ptr s)

    cache_drop :
        (c : CacheHandle) (s : S)
        → c.ptr ≢ 0
        → live (Cache.drop lib c s) ≡ remove (cache_memory c.ptr) (live s)
    unfolding Cache.drop
    cache_drop c s nz = rw (==_ne c.ptr 0 nz) (law.release_cache c.ptr s)

    dataset_drop :
        (d : DatasetHandle) (s : S)
        → d.ptr ≢ 0
        → live (Dataset.drop lib d s) ≡ remove (dataset_memory d.ptr) (live s)
    unfolding Dataset.drop
    dataset_drop d s nz = rw (==_ne d.ptr 0 nz) (law.release_dataset d.ptr s)

    vm_drop :
        (m : VmHandle) (s : S)
        → m.ptr ≢ 0
        → live (Vm.drop lib m s) ≡ remove (machine m.ptr) (live s)
    unfolding Vm.drop
    vm_drop m s nz = rw (==_ne m.ptr 0 nz) (law.destroy_vm m.ptr s)

    light_finish :
        (s s' : S) (c : CacheHandle) (r : Result RxLxError VmHandle × S)
        → c.ptr ≢ 0
        → live s' ≡ cache_memory c.ptr ∷ live s
        → IsGained (λ m. m.ptr) machine s' r
        → IsLightOwned s (LightHasher.finish lib c r)
    unfolding IsLightOwned LightHasher.drop LightHasher.finish
    light_finish s s' c (r, t) nz l (inl (e, failed, same)) =
        rw failed (cache_drop c t nz ∙ rw (same, l, ==_refl c.ptr) refl)
    light_finish s s' c (r, t) nz l (inr (m, made, mz, gained)) = rw made (
      gained ∙ ap (◌∷◌ (machine m.ptr)) l,
      vm_drop m (Cache.drop lib c t) mz
          ∙ rw (cache_drop c t nz, gained, l, ==_refl c.ptr, ==_refl m.ptr) refl,
    )

    light_with_cache :
        (seed : List ℕ) (s : S) (r : Result RxLxError CacheHandle × S)
        → IsGained (λ c. c.ptr) cache_memory s r
        → IsLightOwned s (LightHasher.with_cache lib seed r)
    unfolding IsLightOwned LightHasher.with_cache Cache.init
    light_with_cache seed s (r, t) (inl (e, failed, same)) = rw failed same
    light_with_cache seed s (r, t) (inr (c, made, nz, gained)) =
        let t' = Cache.init lib c seed t in
        rw made (
          light_finish s t' c (Vm.light lib (Flags.recommended lib.get_flags) c t') nz
            (law.init_cache c.ptr seed t ∙ gained)
            (vm_light (Flags.recommended lib.get_flags) c t'))

    -- If the library's allocations are what they are documented to be, a new light hasher that fails
    -- has freed all that it allocated; and one that is made owns a cache and a machine, and frees both
    -- when it is dropped.
    pub light_new_lem : (seed : List ℕ) (s : S) → IsLightOwned s (LightHasher.new lib seed s)
    unfolding LightHasher.new
    light_new_lem seed s =
        light_with_cache seed s (Cache.alloc lib (Flags.recommended lib.get_flags) s)
          (cache_alloc (Flags.recommended lib.get_flags) s)

    fast_finish :
        (s s' : S) (c : CacheHandle) (d : DatasetHandle) (r : Result RxLxError VmHandle × S)
        → c.ptr ≢ 0
        → d.ptr ≢ 0
        → live s' ≡ dataset_memory d.ptr ∷ cache_memory c.ptr ∷ live s
        → IsGained (λ m. m.ptr) machine s' r
        → IsFastOwned s (FastHasher.finish lib c d r)
    unfolding IsFastOwned FastHasher.drop FastHasher.finish
    fast_finish s s' c d (r, t) nz dz l (inl (e, failed, same)) = rw failed (
        cache_drop c (Dataset.drop lib d t) nz
        ∙ rw (dataset_drop d t dz, same, l, ==_refl d.ptr, ==_refl c.ptr) refl)
    fast_finish s s' c d (r, t) nz dz l (inr (m, made, mz, gained)) = rw made (
      gained ∙ ap (◌∷◌ (machine m.ptr)) l,
      vm_drop m (Dataset.drop lib d (Cache.drop lib c t)) mz
          ∙ rw
              (
                dataset_drop d (Cache.drop lib c t) dz,
                cache_drop c t nz,
                gained,
                l,
                ==_refl c.ptr,
                ==_refl d.ptr,
                ==_refl m.ptr,
              )
              refl,
    )

    fast_with_dataset :
        (s s' : S) (c : CacheHandle) (r : Result RxLxError DatasetHandle × S)
        → c.ptr ≢ 0
        → live s' ≡ cache_memory c.ptr ∷ live s
        → IsGained (λ d. d.ptr) dataset_memory s' r
        → IsFastOwned s (FastHasher.with_dataset lib c r)
    unfolding IsFastOwned FastHasher.with_dataset Dataset.init
    fast_with_dataset s s' c (r, t) nz l (inl (e, failed, same)) =
        rw failed (cache_drop c t nz ∙ rw (same, l, ==_refl c.ptr) refl)
    fast_with_dataset s s' c (r, t) nz l (inr (d, made, dz, gained)) =
        let t' = Dataset.init lib d c t in
        rw made (
          fast_finish s t' c d (Vm.fast lib (Flags.recommended lib.get_flags) d t') nz dz
            (law.init_dataset d.ptr c.ptr 0 lib.item_count t
              ∙ gained
              ∙ ap (◌∷◌ (dataset_memory d.ptr)) l)
            (vm_fast (Flags.recommended lib.get_flags) d t'))

    fast_with_cache :
        (seed : List ℕ) (s : S) (r : Result RxLxError CacheHandle × S)
        → IsGained (λ c. c.ptr) cache_memory s r
        → IsFastOwned s (FastHasher.with_cache lib seed r)
    unfolding IsFastOwned FastHasher.with_cache Cache.init
    fast_with_cache seed s (r, t) (inl (e, failed, same)) = rw failed same
    fast_with_cache seed s (r, t) (inr (c, made, nz, gained)) =
        let t' = Cache.init lib c seed t in
        rw made (
          fast_with_dataset s t' c (Dataset.alloc lib (Flags.recommended lib.get_flags) t') nz
            (law.init_cache c.ptr seed t ∙ gained)
            (dataset_alloc (Flags.recommended lib.get_flags) t'))

    -- If the library's allocations are what they are documented to be, a new fast hasher that fails,
    -- at the cache, the dataset or the machine, has freed all that it allocated; and one that is made
    -- owns a cache, a dataset and a machine, and frees all three when it is dropped.
    pub fast_new_lem : (seed : List ℕ) (s : S) → IsFastOwned s (FastHasher.new lib seed s)
    unfolding FastHasher.new
    fast_new_lem seed s =
        fast_with_cache seed s (Cache.alloc lib (Flags.recommended lib.get_flags) s)
          (cache_alloc (Flags.recommended lib.get_flags) s)
