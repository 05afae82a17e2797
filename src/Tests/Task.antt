-- ===== src/Tests/Task.antt =====
-- The mining task with its threads from its start, with the client of the imports.
use lumenyx.Prelude.{ℕ, ◌≡◌, refl, arith, inl, true, false, Bool, Option, none, some, [], ◌∷◌}
use lumenyx.Digest.{pre_runtime, lumenyx_engine_id}
use lumenyx.Primitives.{calculate_block_reward, base_block_reward}
use lumenyx.Node.Seed.{seed_height, get_seed}
use lumenyx.Node.Miner.{next_job_id, insert}
use lumenyx.Node.Target.{difficulty_to_target}
use lumenyx.Node.Import.{
  Header, RxLxPow, maybe_reseed, read_difficulty_from_storage, get_block_hash_by_height,
}
use lumenyx.Node.Pool.Sharechain.{new}
use lumenyx.Node.Payout.{prepare_pool_payout_digest_item}
use lumenyx.Node.Miner.{new as fresh}
use lumenyx.Node.Mining.{
  MiningJob, Mining, header_no_seal, on_import_notification, new_template, get_block_hash,
}
use lumenyx.Node.Worker.{
  Answers, System, start, shared_start, seed_used, turn, worker_step, poll, build, send_job,
}
use lumenyx.Node.Task.{idle, launch, bootstrap, launched, notified, searched, publish}
use lumenyx.Node.Task.Start.{bootstrap-eq-notified}
use lumenyx.Node.Task.Seeds.{task_seed}
use lumenyx.Tests.Support.{Store, write_digest}
use lumenyx.Tests.Import.{outside}

abbrev header : ℕ → ℕ → Header
header parent number = record {
  parent_hash = parent;
  number = number;
  state_root = [];
  extrinsics_root = [];
  logs = pre_runtime lumenyx_engine_id (7 ∷ []) ∷ [];
}

abbrev header_at : ℕ → Store → Option Header
header_at hash client = none

abbrev propose : Header → Store → Option Header
propose best client = some (header best.number 10)

-- The schedule of a chain whose blocks are hashed to their numbers.
abbrev seed_at : ℕ → ℕ
seed_at height = height

abbrev no_dataset : Answers
no_dataset = record { dataset_ok = false; fast_ok = true; light_ok = true; garbage = 0 }

abbrev all_ok : ℕ → Bool
all_ok i = true

abbrev job_ten : MiningJob
job_ten = record {
  job_id = 1;
  height = 10;
  parent_hash = 9;
  pre_hash = 10;
  target = difficulty_to_target 40;
  share_target = difficulty_to_target 1;
  seed_height = 0;
  seed = 0;
}

-- The task on the block 9.
abbrev on_nine : Mining
on_nine = record {
  job_id = 1;
  active_best_hash = some 9;
  templates = record {
    order = 1 ∷ [];
    map =
        (
          1,
          record {
            job_id = 1;
            height = 10;
            parent_hash = 9;
            rest = header 9 10;
            pre_hash = 10;
            target = difficulty_to_target 40;
            share_target = difficulty_to_target 1;
            seed_height = 0;
            seed = 0;
          },
        )
        ∷ [];
  };
  rx_lx_pow = record { cache = 0; vm = 0; seed_height = 0; seed = 0 };
  job = some job_ten;
}

launched_nine :
    launch outside header_at propose write_digest [] true new (some (header 8 9)) ≡ some on_nine
unfolding launch difficulty_to_target header_no_seal prepare_pool_payout_digest_item
    read_difficulty_from_storage new maybe_reseed seed_height next_job_id insert get_seed
    new_template calculate_block_reward get_block_hash base_block_reward get_block_hash_by_height
launched_nine = refl

abbrev machine : RxLxPow
machine = record { cache = 0; vm = 0; seed_height = 0; seed = 0 }

booted_nine :
    bootstrap outside header_at propose write_digest [] true new (some (header 8 9)) (idle machine)
    ≡ some on_nine
unfolding bootstrap difficulty_to_target header_no_seal prepare_pool_payout_digest_item
    read_difficulty_from_storage new maybe_reseed seed_height next_job_id insert get_seed
    new_template calculate_block_reward get_block_hash base_block_reward get_block_hash_by_height
booted_nine = refl

bootstrap-eq-notified_example :
    on_import_notification outside header_at propose write_digest [] true new true 9
      (header 8 9)
      (idle machine)
    ≡ on_nine
unfolding fresh
bootstrap-eq-notified_example =
    bootstrap-eq-notified outside header_at propose write_digest [] true new (header 8 9)
      (idle machine) on_nine refl refl booted_nine

-- The task after a best block whose successor has another seed.
later : Mining
later =
    on_import_notification outside header_at propose write_digest [] true new true 106_559
      (header 106_558 106_559) on_nine

threads : System
threads =
    publish later.job
      (publish on_nine.job (record { shared = shared_start; worker = λ i. start i (all_ok i) 0 }))

task_seed_example :
    let s =
      turn outside.rx_hash 0 no_dataset
        (turn outside.rx_hash 0 no_dataset (turn outside.rx_hash 0 no_dataset threads)) in
    seed_used s.shared.datasets (s.worker 0).cache (s.worker 0).vm_opt ≡ some 103_680
unfolding threads later turn worker_step poll build send_job start shared_start
    on_import_notification difficulty_to_target header_no_seal prepare_pool_payout_digest_item
    read_difficulty_from_storage new get_block_hash_by_height seed_height next_job_id
task_seed_example =
    task_seed outside header_at propose write_digest seed_at 0 0 _
      (searched 0 no_dataset refl (
        searched 0 no_dataset refl (
          searched 0 no_dataset refl (
            notified true new true 106_559 (header 106_558 106_559) (omega arith, refl)
              (launched [] true new (header 8 9) on_nine all_ok (λ i. 0) (omega arith, refl)
                (omega arith, refl) launched_nine)))))
      (inl refl) refl
