-- ===== src/TimeRules.antt =====
-- The time rules pallet, pallets/time-rules/src/lib.rs: a block's timestamp against the median of the
-- last eleven, which a ring buffer holds.
pub mod Median
pub mod Window
use lumenyx.Prelude.{
  ℕ, ◌+◌, ◌/◌, ◌%◌, ◌^◌, Bool, List, [], ◌∷◌, ◌++◌, ltb, leb, if◌then◌else◌, length, get_or, set,
  take, Result, ok, err,
}

abbrev pub mtp_window : ℕ
mtp_window = 11

pub record Storage : Type 0 where
  pub ts_index : ℕ
  pub last_timestamps : List ℕ

pub data Error : Type 0 where
  timestamp_not_greater_than_mtp : Error

-- The order that `sort_unstable` brings numbers into, by insertion.
unfoldable pub insert_sorted : ℕ → List ℕ → List ℕ
insert_sorted x [] = x ∷ []
insert_sorted x (y ∷ ys) = if leb x y then x ∷ y ∷ ys else y ∷ insert_sorted x ys

unfoldable pub sort : List ℕ → List ℕ
unfolding insert_sorted
sort [] = []
sort (x ∷ xs) = insert_sorted x (sort xs)

-- `check_mtp`
unfoldable pub check_mtp : ℕ → Storage → Result Error (Unit {0})
check_mtp now_ms s =
    let v = s.last_timestamps in
    let mtp = get_or (sort (take mtp_window v)) (mtp_window / 2) 0 in
    if ltb (length v) mtp_window
    then ok tt
    else if ltb mtp now_ms
    then ok tt
    else err timestamp_not_greater_than_mtp

-- `push_ts`; the index is a `u32` that wraps.
unfoldable pub push_ts : ℕ → Storage → Storage
push_ts now_ms s =
    let v = s.last_timestamps in
    if ltb (length v) mtp_window then record s { last_timestamps = v ++ now_ms ∷ [] } else record {
      ts_index = (s.ts_index + 1) % 2 ^ 32;
      last_timestamps = set v (s.ts_index % mtp_window) now_ms;
    }

-- `on_timestamp_set`: the storage is written only if the check passes.
unfoldable pub on_timestamp_set : ℕ → Storage → Result Error (Unit {0}) × Storage
on_timestamp_set now_ms s = elim (check_mtp now_ms s) [
  | ok _ ↦ (ok tt, push_ts now_ms s)
  | err e ↦ (err e, s)
]
