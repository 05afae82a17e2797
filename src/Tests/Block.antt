-- ===== src/Tests/Block.antt =====
-- A first block of the runtime.
use lumenyx.Prelude.{ℕ, ◌≡◌, refl, arith, false, none, some, List, [], ◌∷◌}
use lumenyx.Primitives.{block_reward_pre, calculate_block_reward, base_block_reward, current_era}
use lumenyx.Halving.{
  issue_block_reward, on_initialize, check_halving, pay_reward, pool_payout_digest_from_header,
}
use lumenyx.TimeRules.{on_timestamp_set, check_mtp, push_ts}
use lumenyx.Difficulty.{on_finalize}
use lumenyx.Runtime.{authorship, initialize_pallets}
use lumenyx.Runtime.Block.{BlockState, Contents, genesis, block, execute_block}
use lumenyx.Runtime.Block.Sound.{IsConsistent, Blocks-IsConsistent}
use lumenyx.Tests.Support.{framework, AnyRaw}

abbrev empty_state : BlockState AnyRaw
empty_state = record {
  emission = record {
    current_halving_era = 0;
    total_emitted = 0;
    emission_finished = false;
    decimal_migration_done = false;
    raw = ([], 0);
  };
  times = record { ts_index = 0; last_timestamps = [] };
  difficulties = record {
    initialized = false;
    current_difficulty = none;
    last_effective_time_ms = 0;
    anchor = none;
  };
}

abbrev first : Contents (List ℕ) AnyRaw
first = record { logs = []; author = some (1 ∷ []); timestamp = 50_000; extrinsics = λ raw. raw }

abbrev after_first : BlockState AnyRaw
after_first = record {
  emission = record empty_state.emission {
    total_emitted = block_reward_pre;
    raw = ([], block_reward_pre);
  };
  times = record { ts_index = 0; last_timestamps = 50_000 ∷ [] };
  difficulties = (on_finalize 1 50_000 empty_state.difficulties).0;
}

first_block : execute_block framework 0 1 first empty_state ≡ some after_first
unfolding execute_block initialize_pallets authorship issue_block_reward calculate_block_reward
    base_block_reward on_initialize check_halving current_era pay_reward
    pool_payout_digest_from_header on_timestamp_set check_mtp push_ts
first_block = refl

Blocks-IsConsistent_example : IsConsistent 1 (50_000 ∷ []) after_first
Blocks-IsConsistent_example =
    Blocks-IsConsistent framework
      (block 0 first (genesis empty_state refl refl refl) (omega arith) (omega arith) first_block)
