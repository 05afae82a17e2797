-- ===== src/TimeRules/Window/History.antt =====
-- The window of pallets/time-rules/src/lib.rs as the newest of all timestamps of a chain.
use lumenyx.Prelude.{
  ℕ, suc, ◌-◌, ◌≤◌, ◌<◌, ◌≡◌, refl, sym, ap, ◌∙◌, arith, true, List, [], ◌∷◌, ◌++◌, ltb, ltb→lt,
  length, drop, ok, err, inl, inr, Bool-cases, u32_max, err-ne-ok, length-append,
}
use lumenyx.TimeRules.{
  Storage, Error, timestamp_not_greater_than_mtp, mtp_window, check_mtp, on_timestamp_set,
}
use lumenyx.TimeRules.Window.{IsValid, view, newest, accepts, check_mtp_lem, view-on_timestamp_set}
use mathlib.Core.List.{append_assoc, append-nil}

-- Every timestamp of a list is accepted after the newest eleven of those before it.
pub IsAbove : (before ts : List ℕ) → Type 0
IsAbove before [] = Unit
IsAbove before (t ∷ ts) = (accepts t (newest before) ≡ true) × IsAbove (before ++ t ∷ []) ts

pub IsAbove-snoc :
    (before ts : List ℕ) (t : ℕ)
    → IsAbove before ts
    → accepts t (newest (before ++ ts)) ≡ true
    → IsAbove before (ts ++ t ∷ [])
unfolding IsAbove
IsAbove-snoc before [] t a e = (ap (λ l. accepts t (newest l)) (sym (append-nil before)) ∙ e, tt)
IsAbove-snoc before (x ∷ ts) t (e0, a) e = (
  e0,
  IsAbove-snoc (before ++ x ∷ []) ts t a
      (ap (λ l. accepts t (newest l)) (append_assoc before (x ∷ []) ts) ∙ e),
)

newest-cons : (x : ℕ) (l : List ℕ) → mtp_window ≤ length l → newest (x ∷ l) ≡ newest l
unfolding newest
newest-cons x l h =
    let e : length (x ∷ l) - mtp_window ≡ suc (length l - mtp_window) = omega arith in
    ap (λ n. drop n (x ∷ l)) e

newest_all : (l : List ℕ) → length l ≤ mtp_window → newest l ≡ l
unfolding newest
newest_all l h = let e : length l - mtp_window ≡ 0 = omega arith in ap (λ n. drop n l) e

-- The newest of a list with one more are those of its newest with one more.
pub newest_again : (l : List ℕ) (t : ℕ) → newest (newest l ++ t ∷ []) ≡ newest (l ++ t ∷ [])
newest_again [] t = ap (λ w. newest (w ++ t ∷ [])) (newest_all [] (omega arith))
newest_again (x ∷ l) t = elim (Bool-cases (ltb (length l) mtp_window)) [
  | inl short ↦
      ap (λ w. newest (w ++ t ∷ [])) (newest_all (x ∷ l) (let s = ltb→lt _ _ short in omega arith))
  | inr long ↦
      let h : mtp_window ≤ length l = ground arith in
      ap (λ w. newest (w ++ t ∷ [])) (newest-cons x l h)
      ∙ newest_again l t
      ∙ sym (newest-cons x (l ++ t ∷ []) (omega (arith, h, length-append l (t ∷ []))))
]

set_refused :
    (now : ℕ) (s : Storage) (x : Error)
    → check_mtp now s ≡ err x
    → (on_timestamp_set now s).0 ≡ err x
unfolding on_timestamp_set
set_refused now s x f = rw (f, on_timestamp_set) refl

-- A timestamp that is set is accepted after the newest of all before it, and is then one of them.
pub set-newest :
    (ts : List ℕ) (now : ℕ) (s : Storage)
    → IsValid s
    → s.ts_index < u32_max
    → view s ≡ newest ts
    → (on_timestamp_set now s).0 ≡ ok tt
    → (accepts now (newest ts) ≡ true) × (view (on_timestamp_set now s).1 ≡ newest (ts ++ now ∷ []))
unfolding on_timestamp_set
set-newest ts now s v room e set = elim (Bool-cases (accepts now (view s))) [
  | inl good ↦ (
    ap (accepts now) (sym e) ∙ good,
    view-on_timestamp_set now s v room
        ∙ rw good (ap (λ w. newest (w ++ now ∷ [])) e ∙ newest_again ts now),
  )
  | inr bad ↦
      let x = timestamp_not_greater_than_mtp in
      absurd (err-ne-ok x tt (sym (set_refused now s x (check_mtp_lem now s v ∙ rw bad)) ∙ set))
]

-- A chain without timestamps.
pub no_timestamps :
    (view (record { ts_index = 0; last_timestamps = [] }) ≡ newest []) × IsAbove [] []
unfolding view newest IsAbove
no_timestamps = (refl, tt)
