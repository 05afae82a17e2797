-- ===== src/Runtime/Block.antt =====
-- A whole block of runtime/src/lib.rs: the hooks at its start, its timestamp, its extrinsics and the
-- hook at its end. `pallet_timestamp` is the framework's: it demands one timestamp in each block, and
-- calls the handler with it.
pub mod Sound
use lumenyx.Prelude.{
  ℕ, suc, ◌+◌, ◌≡◌, ◌≤◌, Bool, false, Option, none, some, List, [], ◌∷◌, ◌++◌, ok, err, u32_max,
  u64_max,
}
use lumenyx.Digest.{DigestItem}
use lumenyx.Halving.{Framework}
use lumenyx.Halving.{Storage as Emission}
use lumenyx.TimeRules.{on_timestamp_set}
use lumenyx.TimeRules.{Storage as Times}
use lumenyx.Difficulty.{on_finalize}
use lumenyx.Difficulty.{Storage as Difficulties}
use lumenyx.Runtime.{initialize_pallets}

-- The storage of the pallets that the block's hooks write.
pub record BlockState (Raw : Type 0) : Type 0 where
  pub emission : Emission Raw
  pub times : Times
  pub difficulties : Difficulties

-- What a block brings: its digest's logs, the author found there, its timestamp, and what its extrinsics
-- do to the accounts.
pub record Contents (AccountId Raw : Type 0) : Type 0 where
  pub logs : List DigestItem
  pub author : Option AccountId
  pub timestamp : ℕ
  pub extrinsics : Raw → Raw

-- `TimeRulesOnTimestampSet::on_timestamp_set`; `none` is the panic of its `expect`.
unfoldable pub time_rules_on_timestamp_set : ℕ → Times → Option Times
time_rules_on_timestamp_set now s = elim (on_timestamp_set now s).0 [
  | ok _ ↦ some (on_timestamp_set now s).1
  | err _ ↦ none
]

module _ (fw : Framework) where
  open fw use {AccountId, Raw}

  abbrev run_extrinsics : (Raw → Raw) → Emission Raw → Emission Raw
  run_extrinsics f s = record s { raw = f s.raw }

  -- A block on a state, with the number of accounts that the migration walks over; `none` is a block that
  -- is invalid.
  unfoldable pub execute_block :
      (accounts block_number : ℕ)
      → Contents AccountId Raw
      → BlockState Raw
      → Option (BlockState Raw)
  unfolding time_rules_on_timestamp_set
  execute_block accounts block_number b s =
      elim (initialize_pallets fw accounts b.author block_number b.logs s.emission) [
        | none ↦ none
        | some (emission, events) ↦ elim (time_rules_on_timestamp_set b.timestamp s.times) [
          | none ↦ none
          | some times ↦ some (record {
            emission = run_extrinsics b.extrinsics emission;
            times = times;
            difficulties = (on_finalize block_number b.timestamp s.difficulties).0;
          })
        ]
      ]

  -- The state after the blocks up to a number, with their timestamps, from an empty emission and no
  -- timestamps, with `u32` block numbers and `u64` timestamps.
  pub data Blocks : ℕ → List ℕ → BlockState Raw → Type 0 where
    genesis :
        (s : BlockState Raw)
        → s.emission.total_emitted ≡ 0
        → s.emission.decimal_migration_done ≡ false
        → s.times ≡ record { ts_index = 0; last_timestamps = [] }
        → Blocks 0 [] s
    block :
        {n : ℕ} {ts : List ℕ} {s s' : BlockState Raw} (accounts : ℕ) (b : Contents AccountId Raw)
        → Blocks n ts s
        → suc n ≤ u32_max
        → b.timestamp ≤ u64_max
        → execute_block accounts (suc n) b s ≡ some s'
        → Blocks (suc n) (ts ++ b.timestamp ∷ []) s'
