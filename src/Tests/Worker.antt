-- ===== src/Tests/Worker.antt =====
-- The threads at concrete orders of their steps, over a stand-in for the hash.
use lumenyx.Prelude.{
  ℕ, ◌+◌, ◌≡◌, ◌≢◌, if◌then◌else◌, refl, arith, true, false, Bool, none, some, List, [], ◌∷◌, ◌==◌,
}
use lumenyx.Node.Mining.{MiningJob}
use lumenyx.Node.Worker.{
  mining, Answers, System, start, first_nonce, shared_start, seed_used, turn, worker_step, poll,
  build, try_nonce, send_job,
}
use lumenyx.Node.Worker.Nonces.{nonce_after, distinct_nonces}
use lumenyx.Node.Worker.Broken.{stale_dataset, dropped_in_use, Later, no_cache_no_mining, IsIdle}

abbrev rx_hash : ℕ → ℕ → List ℕ → ℕ
rx_hash seed pre_hash nonce = 100 + seed + pre_hash

abbrev seed_at : ℕ → ℕ
seed_at height = height + 5

abbrev job_at : ℕ → ℕ → MiningJob
job_at id height = record {
  job_id = id;
  height = height;
  parent_hash = 1;
  pre_hash = 2;
  target = 3;
  share_target = 4;
  seed_height = height;
  seed = seed_at height;
}

-- The library has memory for everything, for all but datasets, or for nothing.
abbrev plenty : Answers
plenty = record { dataset_ok = true; fast_ok = true; light_ok = true; garbage = 0 }

abbrev no_dataset : Answers
no_dataset = record { dataset_ok = false; fast_ok = true; light_ok = true; garbage = 0 }

abbrev started : (ℕ → Bool) → System
started cache_ok = record { shared = shared_start; worker = λ i. start i (cache_ok i) 0 }

abbrev all_ok : ℕ → Bool
all_ok i = true

abbrev first_fails : ℕ → Bool
first_fails i = if i == 0 then false else true

-- Turns of the threads of a list, in order.
turns : List ℕ → System → System
turns [] s = s
turns (i ∷ is) s = turns is (turn rx_hash i plenty s)

-- Thread 0 has built the dataset of the first job, and thread 1 has taken it.
first_dataset : System
unfolding send_job
first_dataset = turns (0 ∷ 0 ∷ 0 ∷ 0 ∷ 0 ∷ 1 ∷ 1 ∷ 1 ∷ []) (send_job (job_at 1 1) (started all_ok))

-- The second job has another seed: thread 0 is about to allocate, and thread 1 waits.
second_job : System
second_job = turns (0 ∷ 0 ∷ 0 ∷ 1 ∷ 1 ∷ []) (send_job (job_at 2 2) first_dataset)

-- Thread 1 still searches for the first job when thread 0 has filled the second dataset.
second_filled : System
second_filled = turns (0 ∷ 0 ∷ 0 ∷ 0 ∷ []) (send_job (job_at 2 2) first_dataset)

stale_dataset_example :
    let s' = turn rx_hash 1 plenty (turn rx_hash 1 plenty (turn rx_hash 0 no_dataset second_job)) in
    ((s'.worker 1).pc ≡ mining (job_at 2 2) 0)
    × (seed_used s'.shared.datasets (s'.worker 1).cache (s'.worker 1).vm_opt ≡ some 6)
unfolding turns first_dataset second_job turn worker_step poll build try_nonce send_job start
    shared_start
stale_dataset_example =
    stale_dataset rx_hash second_job 1 0 6 (job_at 2 2) no_dataset plenty (omega arith) refl refl
      refl refl refl refl

dropped_in_use_example :
    let s' = turn rx_hash 0 plenty second_filled in
    ((s'.worker 1).pc ≡ mining (job_at 1 1) 0)
    × (seed_used s'.shared.datasets (s'.worker 1).cache (s'.worker 1).vm_opt ≡ none)
unfolding turns first_dataset second_filled turn worker_step poll build try_nonce send_job start
    shared_start
dropped_in_use_example =
    dropped_in_use rx_hash second_filled 1 0 1 0 true (job_at 2 2) (job_at 1 1) plenty (omega arith)
      refl refl refl refl

no_cache_no_mining_example :
    let s' =
      turn rx_hash 1 plenty (turn rx_hash 1 plenty (send_job (job_at 1 1) (started first_fails))) in
    (s'.shared.sent ≡ []) × ((i : ℕ) → IsIdle (s'.worker i).pc)
no_cache_no_mining_example =
    no_cache_no_mining rx_hash first_fails (λ i. 0) refl
      (Later.step 1 plenty (Later.step 1 plenty (Later.send (job_at 1 1) Later.now)))

distinct_nonces_example : nonce_after 3 (first_nonce 0 1000) ≢ nonce_after 2 (first_nonce 1 1000)
distinct_nonces_example =
    distinct_nonces 0 1 1000 1000 3 2 (omega arith) (omega arith) (omega arith) (omega arith)
      (omega arith)
