-- ===== src/Tests/RxLx.antt =====
-- The wrapper of the hash library over a stand-in that has memory for everything.
use lumenyx.Prelude.{
  ℕ, ◌+◌, ◌≡◌, refl, arith, inr, bit, ◌==◌, ==_refl, if◌then◌else◌, Option, none, some, List, [],
  ◌∷◌, ◌++◌,
}
use lumenyx.RxLx.{Library, Light, Fast}
use lumenyx.RxLx.Flags.{recommended}
use lumenyx.RxLx.LightHasher
use lumenyx.RxLx.FastHasher
use lumenyx.RxLx.Cache
use lumenyx.RxLx.Dataset
use lumenyx.RxLx.Vm
use lumenyx.RxLx.Laws.{
  Object, cache_memory, dataset_memory, machine, same, remove, IsTracked, IsKeyed,
}
use lumenyx.RxLx.Owned.{IsLightOwned, IsFastOwned, light_new_lem, fast_new_lem}
use lumenyx.RxLx.Seeds.{recommended_lem, light_eq_fast}

-- What is allocated, and what each object was filled from.
record Memory : Type 0 where
  next : ℕ
  live : List Object
  keys : Object → Option (List ℕ)

abbrev fill : Object → Option (List ℕ) → Memory → Memory
fill o key m = record m { keys = λ x. if same o x then key else m.keys x }

abbrev allocate : (ℕ → Object) → Memory → ℕ × Memory
allocate object m =
    (m.next + 1, record m { next = m.next + 1; live = object (m.next + 1) ∷ m.live })

abbrev free : Object → Memory → Memory
free o m = record m { live = remove o m.live }

abbrev rx_hash : List ℕ → List ℕ → List ℕ
rx_hash key input = key ++ input

abbrev hash_with_key : Option (List ℕ) → List ℕ → List ℕ
hash_with_key none input = []
hash_with_key (some key) input = rx_hash key input

abbrev library : Library Memory
library = record {
  get_flags = 10;
  alloc_cache = λ f. allocate cache_memory;
  init_cache = λ c key. fill (cache_memory c) (some key);
  release_cache = λ c. free (cache_memory c);
  alloc_dataset = λ f. allocate dataset_memory;
  item_count = 3;
  init_dataset = λ d c a n m. fill (dataset_memory d) (m.keys (cache_memory c)) m;
  release_dataset = λ d. free (dataset_memory d);
  create_vm = λ f c d m.
      let (p, m') = allocate machine m in
      let source = if bit 2 f == 1 then dataset_memory d else cache_memory c in
      (p, fill (machine p) (m.keys source) m');
  calculate_hash = λ p input m. (hash_with_key (m.keys (machine p)) input, m);
  destroy_vm = λ p. free (machine p);
}

abbrev empty : Memory
empty = record { next = 0; live = []; keys = λ o. none }

library-IsTracked : IsTracked library (λ m. m.live)
library-IsTracked = record {
  alloc_cache = λ f s. inr (λ e. omega arith, refl);
  init_cache = λ c key s. refl;
  release_cache = λ c s. refl;
  alloc_dataset = λ f s. inr (λ e. omega arith, refl);
  init_dataset = λ d c a n s. refl;
  release_dataset = λ d s. refl;
  create_vm = λ f c d s. inr (λ e. omega arith, refl);
  destroy_vm = λ m s. refl;
}

library-IsKeyed : IsKeyed library (λ m. m.keys) rx_hash
library-IsKeyed = record {
  init_cache = λ c key s. rw (==_refl c) refl;
  alloc_dataset = λ f c s. refl;
  init_dataset = λ d c s. rw (==_refl d) refl;
  create_light = λ f c s z nz. rw (z, ==_refl (s.next + 1)) refl;
  create_fast = λ f d s o nz. rw (o, ==_refl (s.next + 1)) refl;
  calculate_hash = λ m key input s h. rw h refl;
  no_full_mem = refl;
}

light_new_lem_example :
    IsLightOwned library (λ m. m.live) empty (LightHasher.new library (7 ∷ []) empty)
light_new_lem_example = light_new_lem library (λ m. m.live) library-IsTracked (7 ∷ []) empty

fast_new_lem_example :
    IsFastOwned library (λ m. m.live) empty (FastHasher.new library (7 ∷ []) empty)
fast_new_lem_example = fast_new_lem library (λ m. m.live) library-IsTracked (7 ∷ []) empty

recommended_lem_example : bit 3 (recommended 10) ≡ 1
recommended_lem_example = recommended_lem 10 3 (omega arith)

abbrev light : Light
light = record { cache = record { ptr = 1; flags = 8 }; vm = record { ptr = 2 } }

abbrev fast : Fast
fast = record {
  cache = record { ptr = 1; flags = 8 };
  dataset = record { ptr = 2; flags = 8 };
  vm = record { ptr = 3 };
}

light_eq_fast_example :
    (LightHasher.hash library light (9 ∷ []) (LightHasher.new library (7 ∷ []) empty).1).0
    ≡ (FastHasher.hash library fast (9 ∷ []) (FastHasher.new library (7 ∷ []) empty).1).0
unfolding LightHasher.new FastHasher.new LightHasher.with_cache LightHasher.finish
    FastHasher.with_cache FastHasher.with_dataset FastHasher.finish Cache.alloc Cache.init
    Dataset.alloc Dataset.init Vm.light Vm.fast
light_eq_fast_example =
    light_eq_fast library (λ m. m.keys) rx_hash library-IsKeyed (7 ∷ []) (9 ∷ []) empty empty
      (LightHasher.new library (7 ∷ []) empty).1 (FastHasher.new library (7 ∷ []) empty).1 light
      fast refl refl
