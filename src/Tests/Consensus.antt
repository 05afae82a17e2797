-- ===== src/Tests/Consensus.antt =====
-- The difficulty, the time rules, the seed and the mode of mining at concrete inputs.
use lumenyx.Prelude.{◌+◌, ◌*◌, ◌/◌, ◌%◌, ◌^◌, max, ◌≡◌, refl, arith, true, some, [], ◌∷◌}
use lumenyx.Prelude.Int.{negsuc}
use lumenyx.Difficulty.{
  AnchorInfo, Storage, half_life_ms, calculate_asert_difficulty_inner, approx_pow2_fixed_legacy,
  approx_pow2_fixed_robust,
}
use lumenyx.Difficulty.Pow2.{robust-eq-legacy}
use lumenyx.Difficulty.Finalize.{finalize_all}
use lumenyx.Difficulty.Finalize.History.{IsSpaced, history_behind}
use lumenyx.Difficulty.Asert.{asert_behind, asert_ahead}
use lumenyx.TimeRules.{check_mtp, timestamp_not_greater_than_mtp}
use lumenyx.TimeRules
use lumenyx.TimeRules.Window
use lumenyx.TimeRules.Window.{view, accepts, slide, set_all, set_all-slide}

robust-eq-legacy_example :
    approx_pow2_fixed_robust (negsuc 100_000) ≡ approx_pow2_fixed_legacy (negsuc 100_000)
robust-eq-legacy_example = robust-eq-legacy (negsuc 100_000) (omega arith, omega arith)

-- An anchor at block 1 and time 2500, of difficulty 1000.
abbrev anchor : AnchorInfo
anchor = record { anchor_height = 1; anchor_parent_time_ms = 0; anchor_difficulty = 1000 }

-- The same anchor, one half-life later.
abbrev late_anchor : AnchorInfo
late_anchor = record anchor { anchor_parent_time_ms = half_life_ms }

asert_behind_example :
    calculate_asert_difficulty_inner anchor 10 (25_000 + half_life_ms) true ≡ max 1 (1000 / 2 ^ 1)
asert_behind_example =
    asert_behind anchor 10 (25_000 + half_life_ms) 1 true
      (record { height = omega arith; time = omega arith; anchor_time = omega arith }) (omega arith)
      (omega arith) (omega arith) (omega arith)

asert_ahead_example :
    calculate_asert_difficulty_inner late_anchor 10 25_000 true ≡ max 1 (1000 * 2 ^ 1 % 2 ^ 112)
asert_ahead_example =
    asert_ahead late_anchor 10 25_000 1 true
      (record { height = omega arith; time = omega arith; anchor_time = omega arith }) (omega arith)
      (omega arith) (omega arith) (omega arith)

-- A storage with this anchor, an effective time of 20 s and a difficulty.
abbrev running : Storage
running = record {
  initialized = true;
  current_difficulty = some 900;
  last_effective_time_ms = 20_000;
  anchor = some anchor;
}

-- An anchor at the fork, and a block after it.
abbrev fork_anchor : AnchorInfo
fork_anchor = record {
  anchor_height = 125_000;
  anchor_parent_time_ms = 100_000;
  anchor_difficulty = 10_000;
}

abbrev at_fork : Storage
at_fork = record {
  initialized = true;
  current_difficulty = some 10_000;
  last_effective_time_ms = 102_500;
  anchor = some fork_anchor;
}

-- A block after more than ten minutes, and one that is eleven half-lives late.
history_behind_example :
    let s' = finalize_all ((125_001, 760_000) ∷ (125_002, 767_500) ∷ []) at_fork in
    (s'.current_difficulty ≡ some 4) × (s'.last_effective_time_ms ≡ 767_500)
unfolding IsSpaced
history_behind_example =
    history_behind ((125_001, 760_000) ∷ []) 125_002 767_500 11 at_fork fork_anchor refl
      (λ e. omega arith)
      (omega arith, omega arith, omega arith, (omega arith, omega arith, omega arith, tt))
      (omega arith) (record { height = omega arith; time = omega arith; anchor_time = omega arith })
      (omega arith) (omega arith) (omega arith) refl

-- A full ring of timestamps, 1 to 11.
abbrev full_ring : lumenyx.TimeRules.Storage
full_ring = record {
  ts_index = 0;
  last_timestamps = 1 ∷ 2 ∷ 3 ∷ 4 ∷ 5 ∷ 6 ∷ 7 ∷ 8 ∷ 9 ∷ 10 ∷ 11 ∷ [];
}

full_ring-IsValid : lumenyx.TimeRules.Window.IsValid full_ring
full_ring-IsValid = record {
  bounded = omega arith;
  unused = λ h. absurd (omega arith);
  index = omega arith;
}

set_all-slide_example :
    view (set_all (12 ∷ 3 ∷ 13 ∷ []) full_ring) ≡ slide (12 ∷ 3 ∷ 13 ∷ []) (view full_ring)
set_all-slide_example = set_all-slide (12 ∷ 3 ∷ 13 ∷ []) full_ring full_ring-IsValid (omega arith)
