-- ===== src/Runtime/Block/Sound.antt =====
-- What holds of the storage and the timestamps of every chain of blocks of runtime/src/lib.rs.
use lumenyx.Prelude.{
  ℕ, suc, ◌≡◌, ◌≤◌, ◌⊎◌, inl, inr, refl, sym, subst, ap, ◌∙◌, arith, none, some, some-injective,
  none-ne-some, Option-cases, List, [], ◌∷◌, ◌++◌, Result, ok, err, u32_max,
}
use lumenyx.Halving.{Framework, Event}
use lumenyx.Halving.{Storage as Emission}
use lumenyx.TimeRules.{Error, on_timestamp_set}
use lumenyx.TimeRules.{Storage as Times}
use lumenyx.TimeRules.Window.{view, newest, index-le, on_timestamp_set-IsValid}
use lumenyx.TimeRules.Window.{IsValid as IsWindow}
use lumenyx.TimeRules.Window.History.{IsAbove, IsAbove-snoc, set-newest, no_timestamps}
use lumenyx.Difficulty.{on_finalize}
use lumenyx.Difficulty.Finalize.{on_finalize-IsValid}
use lumenyx.Difficulty.Finalize.{IsValid as IsDifficulty}
use lumenyx.Runtime.{initialize_pallets}
use lumenyx.Runtime.Chain.{Chain, IsSound, Chain-IsSound}
use lumenyx.Runtime.Block.{
  BlockState, Contents, time_rules_on_timestamp_set, execute_block, Blocks, genesis, block,
}

-- The buffer holds the newest of the timestamps.
record IsRecorded (n : ℕ) (ts : List ℕ) (s : Times) : Type 0 where
  window : IsWindow s
  index : s.ts_index ≤ n
  seen : view s ≡ newest ts
  above : IsAbove [] ts

-- The emission is within its limit, the buffer holds the newest eleven timestamps, each timestamp was
-- above the median of eleven before it, and from the first block on the difficulty is set and in range.
pub record IsConsistent {Raw : Type 0} (n : ℕ) (ts : List ℕ) (s : BlockState Raw) : Type 0 where
  pub emitted : IsSound n s.emission
  pub seen : view s.times ≡ newest ts
  pub above : IsAbove [] ts
  pub ranged : (n ≡ 0) ⊎ IsDifficulty s.difficulties

set_result :
    (r : Result Error (Unit {0})) (t s' : Times)
    → elim r [ ok _ ↦ some t | err _ ↦ none ] ≡ some s'
    → (r ≡ ok tt) × (t ≡ s')
set_result (ok x) t s' e = (refl, some-injective t s' e)
set_result (err x) t s' e = absurd (none-ne-some s' e)

-- A timestamp that does not panic.
set-IsRecorded :
    (n now : ℕ) (ts : List ℕ) (s s' : Times)
    → suc n ≤ u32_max
    → IsRecorded n ts s
    → time_rules_on_timestamp_set now s ≡ some s'
    → IsRecorded (suc n) (ts ++ now ∷ []) s'
unfolding time_rules_on_timestamp_set
set-IsRecorded n now ts s s' room v e =
    let (set, same) = set_result (on_timestamp_set now s).0 (on_timestamp_set now s).1 s' e in
    let (good, seen) = set-newest ts now s v.window (let i = v.index in omega arith) v.seen set in
    subst (IsRecorded (suc n) (ts ++ now ∷ [])) same (record {
      window = on_timestamp_set-IsValid now s v.window;
      index = let i = v.index in omega (arith, index-le now s);
      seen = seen;
      above = IsAbove-snoc [] ts now v.above good;
    })

module _ (fw : Framework) where
  -- The three parts of a block that is valid.
  executed :
      (accounts n : ℕ) (b : Contents fw.AccountId fw.Raw) (s s' : BlockState fw.Raw)
      → execute_block fw accounts n b s ≡ some s'
      → (emission : Emission fw.Raw) × (events : List (Event fw)) × (initialize_pallets fw accounts
            b.author n b.logs s.emission
          ≡ some (emission, events))
        × (s'.emission ≡ record emission { raw = b.extrinsics emission.raw })
        × (time_rules_on_timestamp_set b.timestamp s.times ≡ some s'.times)
        × (s'.difficulties ≡ (on_finalize n b.timestamp s.difficulties).0)
  unfolding execute_block
  executed accounts n b s s' e =
      elim (Option-cases (initialize_pallets fw accounts b.author n b.logs s.emission)) [
        | inl z ↦ absurd (none-ne-some s' (rw (z, execute_block) at e))
        | inr ((emission, events), z) ↦
            let e1 = rw (z, execute_block) at e in
            elim (Option-cases (time_rules_on_timestamp_set b.timestamp s.times)) [
              | inl y ↦ absurd (none-ne-some s' (rw (y, execute_block) at e1))
              | inr (times, y) ↦
                  let same = some-injective _ s' (rw (y, execute_block) at e1) in
                  (
                    emission,
                    events,
                    z,
                    ap (λ x. x.emission) (sym same),
                    y ∙ ap some (ap (λ x. x.times) same),
                    ap (λ x. x.difficulties) (sym same),
                  )
            ]
      ]

  -- The invariant of the induction.
  record IsReached (n : ℕ) (ts : List ℕ) (s : BlockState fw.Raw) : Type 0 where
    chain : Chain fw n s.emission
    recorded : IsRecorded n ts s.times
    ranged : (n ≡ 0) ⊎ IsDifficulty s.difficulties

  Blocks-IsReached :
      {n : ℕ} {ts : List ℕ} {s : BlockState fw.Raw} → Blocks fw n ts s → IsReached n ts s
  Blocks-IsReached (genesis s z f t) = record {
    chain = Chain.genesis s.emission z f;
    recorded = subst (IsRecorded 0 []) (sym t) (record {
      window = record { bounded = omega arith; unused = λ h. refl; index = omega arith };
      index = omega arith;
      seen = no_timestamps.0;
      above = no_timestamps.1;
    });
    ranged = inl refl;
  }
  Blocks-IsReached (block {n = n} {ts = ts} {s = s} {s' = s'} accounts b c room small e) =
      let v = Blocks-IsReached c in
      let (emission, events, z, em, t, d) = executed accounts (suc n) b s s' e in
      record {
        chain = subst (Chain fw (suc n)) (sym em) (
            Chain.extrinsics (b.extrinsics emission.raw)
              (Chain.block accounts b.author b.logs v.chain room z));
        recorded = set-IsRecorded n b.timestamp ts s.times s'.times room v.recorded t;
        ranged = inr (
            subst IsDifficulty (sym d)
              (on_finalize-IsValid (suc n) b.timestamp s.difficulties small));
      }

  -- In every chain of valid blocks from an empty emission and no timestamps, with `u32` block numbers and
  -- `u64` timestamps, whatever the extrinsics do to the accounts: the emission is within its limit and
  -- migrated exactly from the fork on; each timestamp was accepted against the last eleven of those
  -- before it, the newest of which are in the buffer; and after each block the difficulty is set and in
  -- range.
  pub Blocks-IsConsistent :
      {n : ℕ} {ts : List ℕ} {s : BlockState fw.Raw} → Blocks fw n ts s → IsConsistent n ts s
  Blocks-IsConsistent c =
      let v = Blocks-IsReached c in
      record {
        emitted = Chain-IsSound fw v.chain;
        seen = v.recorded.seen;
        above = v.recorded.above;
        ranged = v.ranged;
      }
