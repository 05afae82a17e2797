-- ===== src/Runtime/Chain.antt =====
-- The emitted total over a whole chain of blocks of runtime/src/lib.rs, and the block of the fork.
use lumenyx.Prelude.{
  ℕ, suc, ◌+◌, ◌*◌, ◌≤◌, min, ◌≡◌, ◌∙◌, arith, Bool, false, not, ◌&&◌, ◌||◌, Option, some, List,
  Option-cases, leb, ltb, u32_max, u128_max, inl, inr, if◌then◌else◌,
}
use lumenyx.Digest.{DigestItem}
use lumenyx.Primitives.{
  total_supply, fork_height_v2, block_reward, block_reward_pre, decimal_migration_factor,
  calculate_block_reward, base_block_reward,
}
use lumenyx.Primitives.Schedule.{reward_le}
use lumenyx.Halving.{
  Framework, Storage, Event, issue_block_reward, on_initialize, run_decimal_migration,
  check_halving,
}
use lumenyx.Runtime.{authorship, note_author, initialize_pallets}

module _ (fw : Framework) where
  open fw use {AccountId, Raw}

  -- The emission storage after block `n`, for any authors, digests and raw storage, with any effect
  -- of the block's extrinsics on the raw storage.
  pub data Chain : ℕ → Storage Raw → Type 0 where
    genesis : (s : Storage Raw) → s.total_emitted ≡ 0 → s.decimal_migration_done ≡ false → Chain 0 s
    block :
        {n : ℕ} {s s' : Storage Raw} (accounts : ℕ) (author : Option AccountId)
        (logs : List DigestItem) {events : List (Event fw)}
        → Chain n s
        → suc n ≤ u32_max
        → initialize_pallets fw accounts author (suc n) logs s ≡ some (s', events)
        → Chain (suc n) s'
    extrinsics :
        {n : ℕ} {s : Storage Raw} (raw : Raw) → Chain n s → Chain n (record s { raw = raw })

  on_initialize_total :
      (accounts n : ℕ) (s : Storage Raw) {s' : Storage Raw} {events : List (Event fw)}
      → on_initialize fw accounts n s ≡ some (s', events)
      → (s'.total_emitted ≡ (
          if leb fork_height_v2 n && not s.decimal_migration_done
          then min u128_max (s.total_emitted * decimal_migration_factor)
          else s.total_emitted))
        × (s'.decimal_migration_done ≡ (leb fork_height_v2 n || s.decimal_migration_done))
  unfolding on_initialize run_decimal_migration check_halving
  on_initialize_total accounts n s e = ground arith

  authorship_total :
      (author : Option AccountId) (n : ℕ) (logs : List DigestItem) (s : Storage Raw)
      → s.total_emitted ≤ total_supply
      → let s1 = (authorship fw author n logs s).0 in
        (s1.total_emitted ≤ total_supply)
        × (s1.total_emitted ≤ s.total_emitted + calculate_block_reward n)
        × (s1.decimal_migration_done ≡ s.decimal_migration_done)
  unfolding authorship issue_block_reward
  authorship_total author n logs s capped = ground arith

  block_total :
      (accounts : ℕ) (author : Option AccountId) (n : ℕ) (logs : List DigestItem) (s : Storage Raw)
      {s' : Storage Raw} {events : List (Event fw)}
      → initialize_pallets fw accounts author n logs s ≡ some (s', events)
      → let s1 = (authorship fw author n logs s).0 in
        (s'.total_emitted ≡ (
          if leb fork_height_v2 n && not s1.decimal_migration_done
          then min u128_max (s1.total_emitted * decimal_migration_factor)
          else s1.total_emitted))
        × (s'.decimal_migration_done ≡ (leb fork_height_v2 n || s1.decimal_migration_done))
  unfolding initialize_pallets
  block_total accounts author n logs s e =
      let s1 = (authorship fw author n logs s).0 in
      elim (Option-cases (on_initialize fw accounts n s1)) [
        | inl z ↦ ground arith
        | inr ((s2, ev), z) ↦ ground (arith, on_initialize_total accounts n s1 z)
      ]

-- The most that can be emitted after block `n`: one pre-fork reward a block, then the supply.
abbrev pub emitted_limit : ℕ → ℕ
emitted_limit n = if ltb n fork_height_v2 then n * block_reward_pre else total_supply

-- The total is within its limit, and the balances are migrated from the fork on.
pub record IsSound {Raw : Type 0} (n : ℕ) (s : Storage Raw) : Type 0 where
  pub limited : s.total_emitted ≤ emitted_limit n
  pub migrated : s.decimal_migration_done ≡ leb fork_height_v2 n

IsSound-capped :
    {Raw : Type 0} {n : ℕ} {s : Storage Raw} → IsSound n s → s.total_emitted ≤ total_supply
IsSound-capped h = let l = h.limited in ground arith

-- One block, on the totals and the flag alone.
totals_step :
    (n t t1 t' r : ℕ) (d1 : Bool)
    → t ≤ emitted_limit n
    → d1 ≡ leb fork_height_v2 n
    → t1 ≤ total_supply
    → t1 ≤ t + r
    → r ≤ base_block_reward (suc n)
    → t' ≡ (
        if leb fork_height_v2 (suc n) && not d1
        then min u128_max (t1 * decimal_migration_factor)
        else t1)
    → (t' ≤ emitted_limit (suc n))
      × ((leb fork_height_v2 (suc n) || d1) ≡ leb fork_height_v2 (suc n))
unfolding base_block_reward
totals_step n t t1 t' r d1 l m capped t1≤ r≤ e = ground arith

fork_issue :
    (fw : Framework) (author : fw.AccountId) (logs : List DigestItem) (s : Storage fw.Raw)
    → s.total_emitted ≤ fork_height_v2 * block_reward_pre
    → s.emission_finished ≡ false
    → let s1 = (authorship fw (some author) fork_height_v2 logs s).0 in
      (s1.total_emitted ≡ s.total_emitted + block_reward)
      × (s1.decimal_migration_done ≡ s.decimal_migration_done)
unfolding authorship note_author issue_block_reward calculate_block_reward base_block_reward
fork_issue fw author logs s t f = ground arith

module _ (fw : Framework) where
  -- At every height of every chain of `u32` block numbers from an empty emission, whatever the extrinsics
  -- do to the accounts, the emitted total is within the supply, from the fork on in the
  -- migrated units, and before it at most one pre-fork reward for each block; and the migration is
  -- done exactly from the fork on.
  pub Chain-IsSound : {n : ℕ} {s : Storage fw.Raw} → Chain fw n s → IsSound n s
  Chain-IsSound (genesis s z f) = record { limited = ground arith; migrated = f }
  Chain-IsSound (extrinsics raw c) =
      let ih = Chain-IsSound c in record { limited = ih.limited; migrated = ih.migrated }
  Chain-IsSound {s = s'} (block {n = n} {s = s} accounts author logs c h e) =
      let ih = Chain-IsSound c in
      let s1 = (authorship fw author (suc n) logs s).0 in
      let a = authorship_total fw author (suc n) logs s (IsSound-capped ih) in
      let b = block_total fw accounts author (suc n) logs s e in
      let r = reward_le (suc n) in
      let (l, m) =
        totals_step n s.total_emitted s1.total_emitted s'.total_emitted
          (calculate_block_reward (suc n)) s1.decimal_migration_done ih.limited (a.2 ∙ ih.migrated)
          a.0 a.1 r b.0 in
      record { limited = l; migrated = b.1 ∙ m }

  -- In the block of the fork, with an author, an emission that is not finished, no migration so far and a
  -- total of at most one pre-fork reward for each block, the reward of the block in the migrated units is
  -- added to the total in the old ones and the sum is then migrated: the reward is multiplied, too.
  pub fork_block_total :
      (accounts : ℕ) (author : fw.AccountId) (logs : List DigestItem) (s : Storage fw.Raw)
      {s' : Storage fw.Raw} {events : List (Event fw)}
      → s.total_emitted ≤ fork_height_v2 * block_reward_pre
      → s.emission_finished ≡ false
      → s.decimal_migration_done ≡ false
      → initialize_pallets fw accounts (some author) fork_height_v2 logs s ≡ some (s', events)
      → s'.total_emitted ≡ (s.total_emitted + block_reward) * decimal_migration_factor
  fork_block_total accounts author logs s {s' = s'} t f d e =
      let b = block_total fw accounts (some author) fork_height_v2 logs s e in
      let a = fork_issue fw author logs s t f in ground arith
