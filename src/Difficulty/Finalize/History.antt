-- ===== src/Difficulty/Finalize/History.antt =====
-- The difficulty after a whole history of blocks, by pallets/difficulty/src/lib.rs: from the fork on it
-- depends on the anchor and the last block alone.
use lumenyx.Prelude.{
  ℕ, ◌+◌, ◌-◌, ◌*◌, ◌/◌, ◌^◌, ◌≤◌, ◌<◌, max, ◌≡◌, ◌≢◌, refl, sym, ap, ◌∙◌, arith, true, some, List,
  [], ◌∷◌, ◌++◌, ltb, if◌then◌else◌, u64_max, false,
}
use lumenyx.Difficulty.{
  AnchorInfo, Storage, on_finalize, fork_height, safety_valve_ms, target_block_time_ms,
  half_life_ms, min_difficulty, calculate_asert_difficulty_inner,
}
use lumenyx.Difficulty.Asert.{IsInput, asert_behind}
use lumenyx.Difficulty.Finalize.{finalize_all, keeps_anchor, on_finalize_postfork}

-- Blocks from the fork on with `u64` timestamps, each at least the minimal solve time after the one
-- before it; however long after it.
unfoldable pub IsSpaced : (last : ℕ) → List (ℕ × ℕ) → Type 0
IsSpaced last [] = Unit
IsSpaced last ((n, t) ∷ blocks) =
    (fork_height ≤ n) × (last + 50 ≤ t) × (t ≤ u64_max) × IsSpaced t blocks

-- The timestamp of the last block, or the time before all of them.
abbrev pub last_time : ℕ → List (ℕ × ℕ) → ℕ
last_time last [] = last
last_time last ((n, t) ∷ blocks) = last_time t blocks

-- After a block that is spaced, the clock shows its timestamp.
clock_at :
    (n t : ℕ) (s : Storage) {a : AnchorInfo}
    → fork_height ≤ n
    → s.anchor ≡ some a
    → s.last_effective_time_ms ≢ 0
    → s.last_effective_time_ms + 50 ≤ t
    → t ≤ u64_max
    → (on_finalize n t s).0.last_effective_time_ms ≡ t
clock_at n t s post e some_time spaced small =
    let c = (on_finalize_postfork n t s post e some_time).1 in c ∙ ground arith

-- The last block of a history, where it is not too late after the one before it.
last_block :
    (n t k last : ℕ) (s : Storage) (a : AnchorInfo)
    → s.anchor ≡ some a
    → s.last_effective_time_ms ≡ last
    → last ≢ 0
    → IsSpaced last ((n, t) ∷ [])
    → t ≤ last + safety_valve_ms
    → calculate_asert_difficulty_inner a n t true ≡ k
    → ((on_finalize n t s).0.current_difficulty ≡ some k)
      × ((on_finalize n t s).0.last_effective_time_ms ≡ t)
unfolding IsSpaced
last_block n t k last s a anchored clock some_time (post, spaced, small, _) near formula =
    let nz : s.last_effective_time_ms ≢ 0 = λ z. some_time (sym clock ∙ z) in
    let e = (on_finalize_postfork n t s post anchored nz).0 in
    let in_time : ltb safety_valve_ms (t - s.last_effective_time_ms) ≡ false =
      ground (arith, clock, near) in
    (
      e
          ∙ ap
              (λ late.
                some (if late then min_difficulty else calculate_asert_difficulty_inner a n t true))
              in_time
          ∙ ap some formula,
      clock_at n t s post anchored nz (omega (arith, clock, spaced)) small,
    )

-- The same, after any blocks.
after_blocks :
    (blocks : List (ℕ × ℕ)) (n t k last : ℕ) (s : Storage) (a : AnchorInfo)
    → s.anchor ≡ some a
    → s.last_effective_time_ms ≡ last
    → last ≢ 0
    → IsSpaced last (blocks ++ (n, t) ∷ [])
    → t ≤ last_time last blocks + safety_valve_ms
    → calculate_asert_difficulty_inner a n t true ≡ k
    → let s' = finalize_all (blocks ++ (n, t) ∷ []) s in
      (s'.current_difficulty ≡ some k) × (s'.last_effective_time_ms ≡ t)
unfolding IsSpaced finalize_all
after_blocks [] n t k last s a anchored clock some_time spaced near formula =
    last_block n t k last s a anchored clock some_time spaced near formula
after_blocks ((n0, t0) ∷ blocks) n t k last s a anchored clock some_time (post, gap, small, rest)
      near formula =
    let nz : s.last_effective_time_ms ≢ 0 = λ z. some_time (sym clock ∙ z) in
    after_blocks blocks n t k t0 (on_finalize n0 t0 s).0 a (keeps_anchor n0 t0 s anchored)
      (clock_at n0 t0 s post anchored nz (omega (arith, clock, gap)) small)
      (λ z. omega (arith, z, gap)) rest near formula

-- From the fork on, whatever blocks came before, with gaps of any length from the minimal solve time on,
-- also those that the safety valve gave the minimal difficulty: a last block that arrives `k`
-- half-lives after the anchor's schedule for its height, and at most ten minutes after the block before
-- it, sets the anchor's difficulty divided by 2^k, down to the minimum, and the clock to its timestamp;
-- for an anchor below 2^112, 1 ≤ k < 128, `u32` heights and `u64` times.
pub history_behind :
    (blocks : List (ℕ × ℕ)) (n t k : ℕ) (s : Storage) (a : AnchorInfo)
    → s.anchor ≡ some a
    → s.last_effective_time_ms ≢ 0
    → IsSpaced s.last_effective_time_ms (blocks ++ (n, t) ∷ [])
    → t ≤ last_time s.last_effective_time_ms blocks + safety_valve_ms
    → IsInput a n t
    → a.anchor_difficulty < 2 ^ 112
    → 1 ≤ k
    → k < 128
    → t
      ≡ a.anchor_parent_time_ms
        + target_block_time_ms * (n - a.anchor_height + 1)
        + half_life_ms * k
    → let s' = finalize_all (blocks ++ (n, t) ∷ []) s in
      (s'.current_difficulty ≡ some (max min_difficulty (a.anchor_difficulty / 2 ^ k)))
      × (s'.last_effective_time_ms ≡ t)
history_behind blocks n t k s a anchored some_time spaced near input small some_k few behind =
    after_blocks blocks n t (max 1 (a.anchor_difficulty / 2 ^ k)) s.last_effective_time_ms s a
      anchored refl some_time spaced near (asert_behind a n t k true input small some_k few behind)
