-- ===== src/Difficulty/Finalize.antt =====
-- The `on_finalize` hook of pallets/difficulty/src/lib.rs: its invariant and its branches.
pub mod History
use lumenyx.Prelude.{
  if◌then◌else◌, ltb, ℕ, ◌+◌, ◌-◌, ◌≤◌, ◌<◌, min, max, ◌≡◌, ◌≢◌, refl, arith, ltb, true, false,
  some, List, [], ◌∷◌, if◌then◌else◌, u64_max, u128_max,
}
use lumenyx.Difficulty.{
  AnchorInfo, Storage, previous_effective_ms, read_difficulty, ensure_anchor, legacy_solve_ms,
  retarget, on_finalize, min_difficulty, fork_height, safety_valve_ms,
  calculate_asert_difficulty_inner, calculate_asert_difficulty_legacy,
  calculate_asert_difficulty_postfork,
}
use lumenyx.Difficulty.Asert.{asert_bounds}

-- What the storage holds after every block.
pub record IsValid (s : Storage) : Type 0 where
  pub set : (d : ℕ) × (s.current_difficulty ≡ some d) × (min_difficulty ≤ d) × (d ≤ u128_max)
  pub anchored : (a : AnchorInfo) × (s.anchor ≡ some a)
  pub time : s.last_effective_time_ms ≤ u64_max

retarget_bounds :
    (block_number now_ms prev : ℕ) (a : AnchorInfo)
    → now_ms ≤ u64_max
    → (min_difficulty ≤ (retarget block_number now_ms prev a).1)
      × ((retarget block_number now_ms prev a).1 ≤ u128_max)
      × ((retarget block_number now_ms prev a).0 ≤ u64_max)
unfolding retarget legacy_solve_ms calculate_asert_difficulty_legacy
    calculate_asert_difficulty_postfork
retarget_bounds block_number now_ms prev a h = ground (
  arith,
  asert_bounds a block_number now_ms true,
  asert_bounds a block_number (min u64_max (prev + legacy_solve_ms (now_ms - prev))) false,
)

abbrev anchor_after : ℕ → ℕ → Storage → AnchorInfo
anchor_after block_number now_ms s =
    let prev = previous_effective_ms now_ms s in
    let (old, s1) = read_difficulty (record s { last_effective_time_ms = prev }) in
    (ensure_anchor block_number now_ms prev old s1).0

anchor_stored :
    (block_number now_ms prev d : ℕ) (s : Storage)
    → (ensure_anchor block_number now_ms prev d s).1.anchor
      ≡ some (ensure_anchor block_number now_ms prev d s).0
unfolding ensure_anchor
anchor_stored block_number now_ms prev d s = ground arith

-- After any block with a `u64` timestamp, from any storage, the difficulty is set and in range, an anchor is stored and the
-- effective time fits `u64`.
pub on_finalize-IsValid :
    (block_number now_ms : ℕ) (s : Storage)
    → now_ms ≤ u64_max
    → IsValid (on_finalize block_number now_ms s).0
unfolding on_finalize
on_finalize-IsValid block_number now_ms s h =
    let prev = previous_effective_ms now_ms s in
    let r = read_difficulty (record s { last_effective_time_ms = prev }) in
    let a = anchor_after block_number now_ms s in
    let (lo, hi, t) = retarget_bounds block_number now_ms prev a h in
    record {
      set = ((retarget block_number now_ms prev a).1, refl, lo, hi);
      anchored = (a, anchor_stored block_number now_ms prev r.0 r.1);
      time = t;
    }

-- The hook, block after block: each block's number and timestamp.
pub finalize_all : List (ℕ × ℕ) → Storage → Storage
finalize_all [] s = s
finalize_all ((block_number, now_ms) ∷ blocks) s =
    finalize_all blocks (on_finalize block_number now_ms s).0

pub keeps_anchor :
    (block_number now_ms : ℕ) (s : Storage) {a : AnchorInfo}
    → s.anchor ≡ some a
    → (on_finalize block_number now_ms s).0.anchor ≡ some a
unfolding on_finalize
keeps_anchor block_number now_ms s e = ground arith

-- Whatever blocks follow, an anchor that is stored is never replaced.
pub finalize_all_keeps_anchor :
    (blocks : List (ℕ × ℕ)) (s : Storage) {a : AnchorInfo}
    → s.anchor ≡ some a
    → (finalize_all blocks s).anchor ≡ some a
unfolding finalize_all
finalize_all_keeps_anchor [] s e = e
finalize_all_keeps_anchor ((n, t) ∷ blocks) s e =
    finalize_all_keeps_anchor blocks (on_finalize n t s).0 (keeps_anchor n t s e)

-- From the fork on, with an anchor and an effective time stored: a gap above ten minutes since the
-- effective time sets the minimal difficulty and the clock to now; otherwise the difficulty is the
-- formula's at the real timestamp, for whatever history, and the effective time moves to now, but by
-- at least the minimal solve time.
pub on_finalize_postfork :
    (block_number now_ms : ℕ) (s : Storage) {a : AnchorInfo}
    → fork_height ≤ block_number
    → s.anchor ≡ some a
    → s.last_effective_time_ms ≢ 0
    → let s' = (on_finalize block_number now_ms s).0 in
      let last = s.last_effective_time_ms in
      let late = ltb safety_valve_ms (now_ms - last) in
      (s'.current_difficulty
        ≡ some (
            if late
            then min_difficulty
            else calculate_asert_difficulty_inner a block_number now_ms true))
      × (s'.last_effective_time_ms
          ≡ (if late then now_ms else min u64_max (max (last + 50) now_ms)))
unfolding on_finalize retarget calculate_asert_difficulty_postfork
on_finalize_postfork block_number now_ms s post e some_time = (ground arith, ground arith)

-- Before the fork, once it is set, the effective time moves forward by at least 50 ms and at most 25 s a block, unless
-- it reaches the end of `u64`, whatever the timestamp says.
on_finalize_prefork :
    (block_number now_ms : ℕ) (s : Storage)
    → block_number < fork_height
    → s.last_effective_time_ms ≢ 0
    → s.last_effective_time_ms + 25_000 ≤ u64_max
    → let last' = (on_finalize block_number now_ms s).0.last_effective_time_ms in
      (s.last_effective_time_ms + 50 ≤ last') × (last' ≤ s.last_effective_time_ms + 25_000)
unfolding on_finalize retarget
on_finalize_prefork block_number now_ms s pre some_time room = ground arith
