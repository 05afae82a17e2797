-- ===== src/TimeRules/Median.antt =====
-- The median test of pallets/time-rules/src/lib.rs as a count: sorting moves no value over a bound.
use lumenyx.Prelude.{
  ℕ, zero, suc, ◌+◌, ◌≤◌, ◌<◌, ◌≡◌, refl, ap, ◌∙◌, arith, List, [], ◌∷◌, ◌++◌, ltb, leb,
  if◌then◌else◌, length, get_or, inl, inr, Bool-cases,
}
use lumenyx.TimeRules.{insert_sorted, sort}

-- How many values lie below `t`.
unfoldable pub count_below : ℕ → List ℕ → ℕ
count_below t [] = 0
count_below t (x ∷ xs) = if ltb x t then suc (count_below t xs) else count_below t xs

pub count_below-append :
    (t : ℕ) (xs ys : List ℕ) → count_below t (xs ++ ys) ≡ count_below t xs + count_below t ys
unfolding count_below
count_below-append t [] ys = omega arith
count_below-append t (x ∷ xs) ys = ground (arith, count_below-append t xs ys)

abbrev AllAbove : ℕ → List ℕ → Type 0
AllAbove x [] = Unit
AllAbove x (y ∷ ys) = (x ≤ y) × AllAbove x ys

abbrev IsSorted : List ℕ → Type 0
IsSorted [] = Unit
IsSorted (x ∷ xs) = AllAbove x xs × IsSorted xs

above_weaken : (x y : ℕ) (l : List ℕ) → x ≤ y → AllAbove y l → AllAbove x l
above_weaken x y [] h a = tt
above_weaken x y (z ∷ l) h a = (omega arith, above_weaken x y l h a.1)

insert-AllAbove : (x y : ℕ) (l : List ℕ) → x ≤ y → AllAbove x l → AllAbove x (insert_sorted y l)
unfolding insert_sorted
insert-AllAbove x y [] h a = (h, tt)
insert-AllAbove x y (z ∷ l) h a = ground (arith, insert-AllAbove x y l h a.1)

insert-IsSorted : (x : ℕ) (l : List ℕ) → IsSorted l → IsSorted (insert_sorted x l)
unfolding insert_sorted
insert-IsSorted x [] s = (tt, tt)
insert-IsSorted x (y ∷ l) s = elim (Bool-cases (leb x y)) [
  | inl le ↦ rw le ((ground arith, above_weaken x y l (ground arith) s.0), s)
  | inr gt ↦ rw gt (insert-AllAbove y x l (ground arith) s.0, insert-IsSorted x l s.1)
]

sort-IsSorted : (l : List ℕ) → IsSorted (sort l)
unfolding sort
sort-IsSorted [] = tt
sort-IsSorted (x ∷ l) = insert-IsSorted x (sort l) (sort-IsSorted l)

count_below-insert :
    (t x : ℕ) (l : List ℕ) → count_below t (insert_sorted x l) ≡ count_below t (x ∷ l)
unfolding insert_sorted count_below
count_below-insert t x [] = refl
count_below-insert t x (y ∷ l) = ground (arith, count_below-insert t x l)

count_below-sort : (t : ℕ) (l : List ℕ) → count_below t (sort l) ≡ count_below t l
unfolding sort count_below
count_below-sort t [] = refl
count_below-sort t (x ∷ l) = ground (arith, count_below-insert t x (sort l), count_below-sort t l)

length-insert : (x : ℕ) (l : List ℕ) → length (insert_sorted x l) ≡ suc (length l)
unfolding insert_sorted
length-insert x [] = refl
length-insert x (y ∷ l) = ground (arith, length-insert x l)

length-sort : (l : List ℕ) → length (sort l) ≡ length l
unfolding sort
length-sort [] = refl
length-sort (x ∷ l) = omega (arith, length-insert x (sort l), length-sort l)

none_below : (t x : ℕ) (l : List ℕ) → AllAbove x l → t ≤ x → count_below t l ≡ 0
unfolding count_below
none_below t x [] a h = refl
none_below t x (y ∷ l) a h = ground (arith, none_below t x l a.1 h)

nth_below :
    (t i : ℕ) (l : List ℕ)
    → IsSorted l
    → i < length l
    → ltb (get_or l i 0) t ≡ ltb i (count_below t l)
unfolding count_below
nth_below t i [] s h = absurd (omega arith)
nth_below t zero (x ∷ l) s h = ground (arith, none_below t x l s.0)
nth_below t (suc i) (x ∷ l) s h =
    ground (arith, nth_below t i l s.1 (omega arith), none_below t x l s.0)

-- The element at place `i` of the sorted list lies below `t` exactly when more than `i` elements do.
pub nth-sort_below :
    (t i : ℕ) (l : List ℕ) → i < length l → ltb (get_or (sort l) i 0) t ≡ ltb i (count_below t l)
nth-sort_below t i l h =
    nth_below t i (sort l) (sort-IsSorted l) (omega (arith, length-sort l))
    ∙ ap (ltb i) (count_below-sort t l)
