-- ===== src/Node/Worker.antt =====
-- The threads that search for nonces, `MinerState::new` of node/src/service.rs, as machines that take one
-- step from an access of shared memory to the next. Thread 0 builds the dataset of a seed, and the
-- others make their machines from it. What the library of the hash function answers is chosen by the
-- environment at each step, and so is the hash of a machine whose memory was dropped or overwritten.
pub mod Seeded
pub mod Turns
pub mod Runs
pub mod Broken
pub mod Nonces
use lumenyx.Prelude.{
  ℕ, zero, suc, ◌+◌, Bool, true, false, not, ◌&&◌, ◌||◌, Option, none, some, List, [], ◌∷◌, ◌++◌,
  replicate, leb, ◌==◌, if◌then◌else◌, u64_max, u256_max,
}
use lumenyx.Node.Miner.{increment_nonce, find, erase}
use lumenyx.Node.Pool.{to_le_bytes}
use lumenyx.Node.Mining.{MiningJob, FoundNonce}

abbrev pub chunk_iters : ℕ
chunk_iters = 20

-- A machine: over the thread's cache, which had a seed when the machine was made, or over a dataset.
pub data Vm : Type 0 where
  light : (made : ℕ) → Vm
  fast : (dataset : ℕ) → Vm

-- What a thread sends to the mining task.
pub data Found : Type 0 where
  found_nonce : FoundNonce → Found
  found_share : (job_id height parent_hash : ℕ) (nonce : List ℕ) → Found

-- What the threads share: the job of the channel, `shared_dataset`, `shared_dataset_ready` and
-- `shared_seed_height`; the datasets that are allocated, each with the seed it was filled from; and
-- what was sent.
pub record Shared : Type 0 where
  pub job : MiningJob
  pub dataset : Option ℕ
  pub dataset_ready : Bool
  pub seed_height : ℕ
  pub datasets : List (ℕ × ℕ)
  pub next : ℕ
  pub sent : List Found

-- Where a thread is in its loop.
pub data Pc : Type 0 where
  stopped polling : Pc
  clearing building waiting attaching : MiningJob → Pc
  publishing announcing : MiningJob → (dataset : ℕ) → (made : Bool) → Pc
  mining : MiningJob → (left : ℕ) → Pc

-- The variables of a thread; `cache` is the seed that its cache was filled from.
pub record Worker : Type 0 where
  pub pc : Pc
  pub cache : ℕ
  pub vm_opt : Option Vm
  pub last_seed_height : ℕ
  pub local_nonce : List ℕ
  pub last_processed_job_id : ℕ

-- The answers of the library in one step.
pub record Answers : Type 0 where
  pub dataset_ok : Bool
  pub fast_ok : Bool
  pub light_ok : Bool
  pub garbage : ℕ

-- The first nonce of a thread: the clock, in nanoseconds, and the thread's number.
unfoldable pub first_nonce : (thread_id seed_time : ℕ) → List ℕ
unfolding to_le_bytes
first_nonce thread_id seed_time =
    to_le_bytes 8 seed_time ++ to_le_bytes 8 thread_id ++ replicate 16 0

-- The start of a thread, which returns at once if it gets no cache.
unfoldable pub start : (thread_id : ℕ) (cache_ok : Bool) (seed_time : ℕ) → Worker
unfolding first_nonce
start thread_id cache_ok seed_time = record {
  pc = if cache_ok then polling else stopped;
  cache = 0;
  vm_opt = none;
  last_seed_height = u64_max;
  local_nonce = first_nonce thread_id seed_time;
  last_processed_job_id = 0;
}

-- The end of a change of seed.
abbrev pub go_on : Option Vm → MiningJob → Pc
go_on none job = polling
go_on (some vm) job = mining job 0

abbrev pub seeded : MiningJob → Option Vm → Worker → Worker
seeded job vm w = record w { vm_opt = vm; last_seed_height = job.seed_height; pc = go_on vm job }

-- `if let Ok(vm) = Vm::light(..)`: a failure leaves the machine that was there.
abbrev pub light_or_old : Answers → Worker → Option Vm
light_or_old a w = if a.light_ok then some (light w.cache) else w.vm_opt

-- The machine over a dataset, with the light one as its fallback.
abbrev pub fast_or_light : Answers → (made : Bool) → (dataset : ℕ) → Worker → Option Vm
fast_or_light a made id w = if made then some (fast id) else light_or_old a w

-- A look at the job of the channel.
unfoldable pub poll : (thread_id : ℕ) → MiningJob → Worker → Worker
poll thread_id job w =
    let taken = record w { last_processed_job_id = job.job_id } in
    let reseeding = record taken {
      cache = job.seed;
      pc = if thread_id == 0 then clearing job else waiting job;
    } in
    if (job.job_id == 0) || (job.job_id == w.last_processed_job_id)
    then w
    else if job.seed_height == w.last_seed_height
    then record taken { pc = go_on w.vm_opt job }
    else reseeding

-- Thread 0 allocates and fills a dataset and tries to make its machine; or goes without.
unfoldable pub build : Answers → MiningJob → Shared → Worker → Shared × Worker
build a job sh w =
    if a.dataset_ok
    then (
      record sh { datasets = (sh.next, w.cache) ∷ sh.datasets; next = sh.next + 1 },
      record w { pc = publishing job sh.next a.fast_ok },
    )
    else (record sh { dataset_ready = true }, seeded job (light_or_old a w) w)

-- `*lock = Some(ds)`, which drops the dataset that was there.
abbrev pub drop_old : Option ℕ → List (ℕ × ℕ) → List (ℕ × ℕ)
drop_old none datasets = datasets
drop_old (some old) datasets = erase old datasets

-- The machine of another thread, once the dataset is ready.
abbrev pub attached : Answers → Option ℕ → Worker → Option Vm
attached a none w = light_or_old a w
attached a (some id) w = fast_or_light a a.fast_ok id w

-- The seed that a thread's machine hashes with, if its memory is what it was made from.
unfoldable pub seed_used : (datasets : List (ℕ × ℕ)) → (cache : ℕ) → Option Vm → Option ℕ
seed_used datasets cache none = none
seed_used datasets cache (some (light made)) = if made == cache then some made else none
seed_used datasets cache (some (fast id)) = find id datasets

-- The threads by their numbers.
pub record System : Type 0 where
  pub shared : Shared
  pub worker : ℕ → Worker

abbrev pub update : (ℕ → Worker) → ℕ → Worker → ℕ → Worker
update f i w j = if i == j then w else f j

-- `job_tx.send(job)` of the mining task.
unfoldable pub send_job : MiningJob → System → System
send_job job s = record s { shared = record s.shared { job = job } }

module _ (rx_hash : (seed pre_hash : ℕ) → (nonce : List ℕ) → ℕ) where
  abbrev pub hash_with : Answers → (pre_hash : ℕ) → List ℕ → Option ℕ → ℕ
  hash_with a pre_hash nonce none = a.garbage
  hash_with a pre_hash nonce (some seed) = rx_hash seed pre_hash nonce

  -- One round of the search: the next nonce, its hash, and what is sent for it.
  unfoldable pub try_nonce : Answers → MiningJob → (left : ℕ) → Shared → Worker → Shared × Worker
  unfolding seed_used increment_nonce
  try_nonce a job left sh w =
      let nonce = increment_nonce w.local_nonce in
      let pow_hash = hash_with a job.pre_hash nonce (seed_used sh.datasets w.cache w.vm_opt) in
      let share = found_share job.job_id job.height job.parent_hash nonce in
      let block = found_nonce (record { job_id = job.job_id; nonce = nonce }) in
      let shared = if leb pow_hash job.share_target then sh.sent ++ share ∷ [] else sh.sent in
      let met = leb pow_hash job.target in
      (
        record sh { sent = if met then shared ++ block ∷ [] else shared },
        record w { local_nonce = nonce; pc = if met then polling else mining job left },
      )

  -- One step of a thread.
  unfoldable pub worker_step : (thread_id : ℕ) → Answers → Shared → Worker → Pc → Shared × Worker
  unfolding poll build try_nonce
  worker_step thread_id a sh w stopped = (sh, w)
  worker_step thread_id a sh w polling = (sh, poll thread_id sh.job w)
  worker_step thread_id a sh w (clearing job) =
      (record sh { dataset_ready = false }, record w { pc = building job })
  worker_step thread_id a sh w (building job) = build a job sh w
  worker_step thread_id a sh w (publishing job id made) = (
    record sh { datasets = drop_old sh.dataset sh.datasets; dataset = some id },
    record w { pc = announcing job id made },
  )
  worker_step thread_id a sh w (announcing job id made) = (
    record sh { seed_height = job.seed_height; dataset_ready = true },
    seeded job (fast_or_light a made id w) w,
  )
  worker_step thread_id a sh w (waiting job) =
      (sh, if sh.dataset_ready then record w { pc = attaching job } else w)
  worker_step thread_id a sh w (attaching job) = (sh, seeded job (attached a sh.dataset w) w)
  worker_step thread_id a sh w (mining job zero) = (
    sh,
    record w { pc = if sh.job.job_id == job.job_id then mining job chunk_iters else polling },
  )
  worker_step thread_id a sh w (mining job (suc left)) = try_nonce a job left sh w

  -- A turn of one thread.
  unfoldable pub turn : ℕ → Answers → System → System
  unfolding worker_step
  turn i a s =
      let (shared, w) = worker_step i a s.shared (s.worker i) (s.worker i).pc in
      record { shared = shared; worker = update s.worker i w }

-- The job that the channel starts with.
abbrev pub dummy_job : MiningJob
dummy_job = record {
  job_id = 0;
  height = 0;
  parent_hash = 0;
  pre_hash = 0;
  target = u256_max;
  share_target = u256_max;
  seed_height = 0;
  seed = 0;
}

-- What the threads share at the start.
unfoldable pub shared_start : Shared
shared_start = record {
  job = dummy_job;
  dataset = none;
  dataset_ready = false;
  seed_height = u64_max;
  datasets = [];
  next = 0;
  sent = [];
}
