-- ===== src/TimeRules/Window.antt =====
-- The ring buffer of pallets/time-rules/src/lib.rs as a window that slides over the accepted
-- timestamps, and the check as a count in that window.
pub mod History
use lumenyx.Prelude.{
  ℕ, zero, suc, ◌+◌, ◌-◌, ◌%◌, ◌^◌, ◌≤◌, ◌<◌, ◌≡◌, refl, sym, ap, ◌∙◌, arith, Bool, true, List, [],
  ◌∷◌, ◌++◌, ltb, ltb→lt, if◌then◌else◌, length, set, take, drop, ok, err, inl, inr, Bool-cases,
  u32_max, length-append, length-set, take_all,
}
use lumenyx.TimeRules.{
  Storage, mtp_window, timestamp_not_greater_than_mtp, check_mtp, push_ts, on_timestamp_set,
}
use lumenyx.TimeRules.Median.{count_below, count_below-append, nth-sort_below}
use mathlib.Core.List.{append_assoc, append-nil}

-- At most eleven timestamps, and the index stays at zero until there are eleven.
pub record IsValid (s : Storage) : Type 0 where
  pub bounded : length s.last_timestamps ≤ mtp_window
  pub unused : length s.last_timestamps < mtp_window → s.ts_index ≡ 0
  pub index : s.ts_index ≤ u32_max

-- The buffer read from its oldest entry on.
pub view : Storage → List ℕ
view s = let i = s.ts_index % mtp_window in drop i s.last_timestamps ++ take i s.last_timestamps

-- The newest eleven of a list.
pub newest : List ℕ → List ℕ
newest l = drop (length l - mtp_window) l

-- What the rule asks of a timestamp: fewer than eleven so far, or more than five of them below it.
pub accepts : ℕ → List ℕ → Bool
accepts now w = if ltb (length w) mtp_window then true else ltb 5 (count_below now w)

-- The abstract rule: a window of accepted timestamps, and one more.
pub slide : List ℕ → List ℕ → List ℕ
slide [] w = w
slide (now ∷ rest) w = slide rest (if accepts now w then newest (w ++ now ∷ []) else w)

-- The code's rule on a list of timestamps, each refused one dropped.
pub set_all : List ℕ → Storage → Storage
set_all [] s = s
set_all (now ∷ rest) s = set_all rest (on_timestamp_set now s).1

pub on_timestamp_set-IsValid :
    (now : ℕ) (s : Storage) → IsValid s → IsValid (on_timestamp_set now s).1
unfolding on_timestamp_set push_ts
on_timestamp_set-IsValid now s v = ground (
  arith,
  length-set s.last_timestamps (s.ts_index % mtp_window) now,
  length-append s.last_timestamps (now ∷ []),
)

count_below-rotate : (t i : ℕ) (l : List ℕ) → count_below t (drop i l ++ take i l) ≡ count_below t l
unfolding count_below
count_below-rotate t zero l = ap (count_below t) (append-nil l)
count_below-rotate t (suc i) [] = refl
count_below-rotate t (suc i) (x ∷ l) = ground (
  arith,
  count_below-append t (drop i l) (x ∷ take i l),
  count_below-append t (drop i l) (take i l),
  count_below-rotate t i l,
)

length-rotate : (i : ℕ) (l : List ℕ) → length (drop i l ++ take i l) ≡ length l
length-rotate zero l = ap length (append-nil l)
length-rotate (suc i) [] = refl
length-rotate (suc i) (x ∷ l) = omega (
  arith,
  length-append (drop i l) (x ∷ take i l),
  length-append (drop i l) (take i l),
  length-rotate i l,
)

length-view : (s : Storage) → length (view s) ≡ length s.last_timestamps
unfolding view
length-view s = length-rotate (s.ts_index % mtp_window) s.last_timestamps

-- From a valid buffer, the check passes exactly when the abstract rule accepts, and else returns its error.
pub check_mtp_lem :
    (now : ℕ) (s : Storage)
    → IsValid s
    → check_mtp now s ≡ (if accepts now (view s) then ok tt else err timestamp_not_greater_than_mtp)
unfolding check_mtp accepts view
check_mtp_lem now s v =
    let l = s.last_timestamps in
    let i = s.ts_index % mtp_window in
    rw (length-rotate i l, count_below-rotate now i l, take_all mtp_window l v.bounded)
      (elim (Bool-cases (ltb (length l) mtp_window)) [
        | inl short ↦ rw short
        | inr full ↦ rw (full, nth-sort_below now 5 l (ground arith))
      ])

drop-set : (i x : ℕ) (l : List ℕ) → drop (suc i) (set l i x) ≡ drop (suc i) l
drop-set zero x [] = refl
drop-set zero x (y ∷ l) = refl
drop-set (suc i) x [] = refl
drop-set (suc i) x (y ∷ l) = drop-set i x l

take-set : (i x : ℕ) (l : List ℕ) → i < length l → take (suc i) (set l i x) ≡ take i l ++ x ∷ []
take-set i x [] h = absurd (omega arith)
take-set zero x (y ∷ l) h = refl
take-set (suc i) x (y ∷ l) h = ap (◌∷◌ y) (take-set i x l (omega arith))

drop_one : (i : ℕ) (l r : List ℕ) → i < length l → drop 1 (drop i l ++ r) ≡ drop (suc i) l ++ r
drop_one i [] r h = absurd (omega arith)
drop_one zero (y ∷ l) r h = refl
drop_one (suc i) (y ∷ l) r h = drop_one i l r (omega arith)

-- Overwriting entry `i` and reading on from there.
rotate-set :
    (i x : ℕ) (l : List ℕ)
    → i < length l
    → drop (suc i) (set l i x) ++ take (suc i) (set l i x) ≡ drop 1 (drop i l ++ take i l) ++ x ∷ []
rotate-set i x l h =
    rw (drop-set i x l, take-set i x l h, drop_one i l (take i l) h)
      (sym (append_assoc (drop (suc i) l) (take i l) (x ∷ [])))

drop_all : (n : ℕ) (l : List ℕ) → length l ≤ n → drop n l ≡ []
drop_all zero [] h = refl
drop_all zero (x ∷ l) h = absurd (omega arith)
drop_all (suc n) [] h = refl
drop_all (suc n) (x ∷ l) h = drop_all n l (omega arith)

-- To start at entry 0 is to start past the last entry.
rotate_around :
    (l : List ℕ)
    → length l ≤ mtp_window
    → drop 0 l ++ take 0 l ≡ drop mtp_window l ++ take mtp_window l
rotate_around l h = append-nil l ∙ sym (rw (drop_all mtp_window l h, take_all mtp_window l h))

pub newest_short :
    (w : List ℕ) (now : ℕ) → length w < mtp_window → newest (w ++ now ∷ []) ≡ w ++ now ∷ []
unfolding newest
newest_short w now h =
    let e : length (w ++ now ∷ []) - mtp_window ≡ 0 = omega (arith, length-append w (now ∷ [])) in
    rw e

newest_full :
    (w : List ℕ) (now : ℕ) → length w ≡ mtp_window → newest (w ++ now ∷ []) ≡ drop 1 w ++ now ∷ []
unfolding newest
newest_full w now h =
    let e : length (w ++ now ∷ []) - mtp_window ≡ 1 = omega (arith, length-append w (now ∷ [])) in
    rw e (drop_one 0 w (now ∷ []) (omega arith))

-- The index after a push, as a place in the buffer.
next_place :
    (i x : ℕ) (l : List ℕ)
    → length l ≡ mtp_window
    → i < u32_max
    → let j = (i + 1) % 2 ^ 32 % mtp_window in
      drop j (set l (i % mtp_window) x) ++ take j (set l (i % mtp_window) x)
      ≡ drop 1 (drop (i % mtp_window) l ++ take (i % mtp_window) l) ++ x ∷ []
next_place i x l full room =
    let m = i % mtp_window in
    let l' = set l m x in
    let len : length l' ≡ mtp_window = length-set l m x ∙ full in
    elim (Bool-cases (ltb m 10)) [
      | inl inside ↦
          let e : (i + 1) % 2 ^ 32 % mtp_window ≡ suc m = ground arith in
          rw e (rotate-set m x l (omega arith))
      | inr last ↦
          let e : (i + 1) % 2 ^ 32 % mtp_window ≡ 0 = ground arith in
          let d : mtp_window ≡ suc m = ground arith in
          rw e (
            rotate_around l' (omega arith)
            ∙ ap (λ k. drop k l' ++ take k l') d
            ∙ rotate-set m x l (omega arith))
    ]

-- One accepted timestamp slides the window on, as long as the index does not wrap.
pub view-push_ts :
    (now : ℕ) (s : Storage)
    → IsValid s
    → s.ts_index < u32_max
    → view (push_ts now s) ≡ newest (view s ++ now ∷ [])
unfolding push_ts view
view-push_ts now s v room =
    let l = s.last_timestamps in
    let i = s.ts_index % mtp_window in
    elim (Bool-cases (ltb (length l) mtp_window)) [
      | inl short ↦
          let z : s.ts_index ≡ 0 = v.unused (ltb→lt _ _ short) in
          rw short (
            ap (λ k. drop (k % mtp_window) (l ++ now ∷ []) ++ take (k % mtp_window) (l ++ now ∷ []))
              z
            ∙ append-nil (l ++ now ∷ [])
            ∙ ap (λ w. w ++ now ∷ [])
                (sym
                  (ap (λ k. drop (k % mtp_window) l ++ take (k % mtp_window) l) z ∙ append-nil l))
            ∙ sym (newest_short (view s) now (omega (arith, length-view s, ltb→lt _ _ short))))
      | inr full ↦
          let f : length l ≡ mtp_window = ground arith in
          rw full (
            next_place s.ts_index now l f room ∙ sym (newest_full (view s) now (length-view s ∙ f)))
    ]

pub index-le : (now : ℕ) (s : Storage) → (on_timestamp_set now s).1.ts_index ≤ s.ts_index + 1
unfolding on_timestamp_set push_ts
index-le now s = ground arith

pub view-on_timestamp_set :
    (now : ℕ) (s : Storage)
    → IsValid s
    → s.ts_index < u32_max
    → view (on_timestamp_set now s).1
      ≡ (if accepts now (view s) then newest (view s ++ now ∷ []) else view s)
unfolding on_timestamp_set
view-on_timestamp_set now s v room = elim (Bool-cases (accepts now (view s))) [
  | inl good ↦
      let e : check_mtp now s ≡ ok tt = check_mtp_lem now s v ∙ rw good in
      rw (e, on_timestamp_set) (rw good (view-push_ts now s v room))
  | inr bad ↦
      let e : check_mtp now s ≡ err timestamp_not_greater_than_mtp =
        check_mtp_lem now s v ∙ rw bad in
      rw (e, on_timestamp_set) (rw bad)
]

-- From a valid buffer, a list of timestamps leaves in the buffer what the abstract rule keeps: each is
-- accepted as the rule says, and the newest eleven of those remain, oldest first, as long as the `u32`
-- index does not reach its end.
pub set_all-slide :
    (ts : List ℕ) (s : Storage)
    → IsValid s
    → s.ts_index + length ts ≤ u32_max
    → view (set_all ts s) ≡ slide ts (view s)
unfolding set_all slide
set_all-slide [] s v room = refl
set_all-slide (now ∷ rest) s v room =
    set_all-slide rest (on_timestamp_set now s).1 (on_timestamp_set-IsValid now s v)
      (omega (arith, index-le now s))
    ∙ ap (slide rest) (view-on_timestamp_set now s v (omega arith))
