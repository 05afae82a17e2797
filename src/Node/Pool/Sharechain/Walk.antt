-- ===== src/Node/Pool/Sharechain/Walk.antt =====
-- The window of shares that `walk_back` of node/src/pool/sharechain.rs collects.
use lumenyx.Prelude.{
  ℕ, zero, suc, ◌≤◌, ◌≡◌, refl, ap, arith, ◌⊎◌, inl, inr, Bool, true, false, Option, none, some,
  List, [], ◌∷◌, bytes_eq, bytes_eq→≡, lookup, length,
}
use lumenyx.Node.Pool.{PoolShare, zero_hash}
use lumenyx.Node.Pool.Sharechain.{Sharechain, get, walk_round, walk_back}

-- The shares are a path of the chain from `current`: each is the one stored under the id that the one
-- before it names.
pub IsLinked : Sharechain → List ℕ → List PoolShare → Type 0
IsLinked sc current [] = Unit
IsLinked sc current (share ∷ shares) =
    (lookup current sc.shares ≡ some share)
    × (bytes_eq current zero_hash ≡ false)
    × IsLinked sc share.prev shares

-- The id that the last share names.
unfoldable pub end_of : List ℕ → List PoolShare → List ℕ
end_of current [] = current
end_of current (share ∷ shares) = end_of share.prev shares

-- What a walk of at most `count` shares promises.
pub IsWalk : Sharechain → List ℕ → ℕ → List PoolShare → Type 0
IsWalk sc tip count window =
    IsLinked sc tip window
    × (length window ≤ count)
    × ((length window ≡ count)
        ⊎ (end_of tip window ≡ zero_hash)
        ⊎ (lookup (end_of tip window) sc.shares ≡ none))

walk_round-IsWalk :
    (sc : Sharechain) (tip : List ℕ) (count : ℕ) (o : Option PoolShare) (z : Bool)
    (rest : PoolShare → List PoolShare)
    → lookup tip sc.shares ≡ o
    → bytes_eq tip zero_hash ≡ z
    → ((share : PoolShare) → IsWalk sc share.prev count (rest share))
    → IsWalk sc tip (suc count) (walk_round o z rest)
unfolding walk_round IsWalk IsLinked end_of
walk_round-IsWalk sc tip count none false rest e f walk = (tt, omega arith, inr (inr e))
walk_round-IsWalk sc tip count o true rest e f walk =
    (tt, omega arith, inr (inl (bytes_eq→≡ tip zero_hash f)))
walk_round-IsWalk sc tip count (some share) false rest e f walk =
    let (linked, short, ends) = walk share in
    (
      (e, f, linked),
      omega (arith, short),
      elim ends [ inl full ↦ inl (ap suc full) | inr over ↦ inr over ],
    )

-- The walk from a tip is a path of at most `count` shares, each the one its predecessor names, and it is
-- shorter only when it has reached the zero hash or a share that is not known.
pub walk_back-IsWalk :
    (sc : Sharechain) (tip : List ℕ) (count : ℕ) → IsWalk sc tip count (walk_back sc tip count)
unfolding walk_back IsWalk IsLinked get
walk_back-IsWalk sc tip zero = (tt, omega arith, inl refl)
walk_back-IsWalk sc tip (suc count) =
    walk_round-IsWalk sc tip count (get tip sc) (bytes_eq tip zero_hash)
      (λ share. walk_back sc share.prev count) refl refl
      (λ share. walk_back-IsWalk sc share.prev count)
