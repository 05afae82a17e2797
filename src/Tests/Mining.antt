-- ===== src/Tests/Mining.antt =====
-- The mining task at a concrete block, with the client of the imports.
use lumenyx.Prelude.{ℕ, ◌≡◌, refl, arith, true, false, Option, none, some, [], ◌∷◌, none-ne-some}
use lumenyx.Digest.{pre_runtime, lumenyx_engine_id}
use lumenyx.Node.Target.{difficulty_to_target, hash_meets_target}
use lumenyx.Node.Import.{
  Header, RxLxPow, machine_hash, read_difficulty_from_storage, get_block_hash_by_height,
}
use lumenyx.Node.Import.Accept.{IsSeeded, is_worked}
use lumenyx.Node.Pool.Sharechain.{new}
use lumenyx.Node.Payout.{prepare_pool_payout_digest_item}
use lumenyx.Node.Miner.{PowTemplate}
use lumenyx.Node.Mining.{Mining, on_import_notification, on_found, header_no_seal}
use lumenyx.Node.Mining.Found.{IsMined, header_on, own_block_passes}
use lumenyx.Node.Mining.Dropped.{bad_nonce_stalls}
use lumenyx.Tests.Support.{Store, write_digest}
use lumenyx.Tests.Import.{outside, nonce}

abbrev header : ℕ → ℕ → Header
header parent number = record {
  parent_hash = parent;
  number = number;
  state_root = [];
  extrinsics_root = [];
  logs = pre_runtime lumenyx_engine_id (7 ∷ []) ∷ [];
}

abbrev header_at : ℕ → Store → Option Header
header_at hash client = some (header 8 9)

-- A proposer that takes the number of the parent as its hash.
abbrev propose : Header → Store → Option Header
propose best client = some (header best.number 10)

abbrev machine : RxLxPow
machine = record { cache = 0; vm = 0; seed_height = 0; seed = 0 }

abbrev idle : Mining
idle = record {
  job_id = 3;
  active_best_hash = none;
  templates = record { order = []; map = [] };
  rx_lx_pow = machine;
  job = none;
}

machine-IsSeeded : IsSeeded outside [] (some machine)
unfolding IsSeeded get_block_hash_by_height
machine-IsSeeded = (refl, refl)

ten_worked :
    is_worked outside []
      (header_on outside header_at propose write_digest true new (header 8 9) (header 9 10))
      nonce
    ≡ true
unfolding hash_meets_target difficulty_to_target header_no_seal prepare_pool_payout_digest_item
    read_difficulty_from_storage new
ten_worked = refl

own_block_passes_example :
    IsMined outside header_at propose write_digest [] true new none nonce
      (header_on outside header_at propose write_digest true new (header 8 9) (header 9 10))
      (on_import_notification outside header_at propose write_digest [] true new true 9
        (header 8 9)
        idle)
unfolding IsSeeded
own_block_passes_example =
    own_block_passes outside header_at propose write_digest [] true new 9 (header 8 9) (header 9 10)
      idle none nonce (none-ne-some 9) (omega arith) refl refl refl machine-IsSeeded tt refl refl
      (omega arith) ten_worked

-- A template whose target the hash 5 does not meet.
abbrev hard : PowTemplate Header
hard = record {
  job_id = 4;
  height = 10;
  parent_hash = 9;
  rest = header 9 10;
  pre_hash = 10;
  target = 2;
  share_target = 100;
  seed_height = 0;
  seed = 0;
}

abbrev waiting : Mining
waiting = record idle { templates = record { order = 4 ∷ []; map = (4, hard) ∷ [] } }

bad_nonce_stalls_example :
    let after =
      on_found outside header_at propose write_digest [] false new none
        (record { job_id = 4; nonce = nonce })
        waiting in
    (after ≡ (record waiting { templates = record { order = []; map = [] } }, [], none))
    × (on_found outside header_at propose write_digest [] false new none
          (record { job_id = 5; nonce = nonce })
          after.0
        ≡ after)
unfolding machine_hash
bad_nonce_stalls_example =
    bad_nonce_stalls outside header_at propose write_digest [] false new none
      (record { job_id = 4; nonce = nonce }) (record { job_id = 5; nonce = nonce }) waiting hard
      refl refl refl
