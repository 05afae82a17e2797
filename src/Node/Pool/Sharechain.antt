-- ===== src/Node/Pool/Sharechain.antt =====
-- The chain of shares, node/src/pool/sharechain.rs.
pub mod Work
pub mod Walk
pub mod Tip
pub mod Histories
pub mod Orders
use lumenyx.Prelude.{
  ℕ, zero, suc, Bool, true, false, not, Option, none, some, List, [], ◌∷◌, ltb, if◌then◌else◌,
  bytes_eq, lookup, insert, contains_key, length, saturating_add, u128_max,
}
use lumenyx.Node.Pool.{PoolShare, zero_hash, validate_id}

-- `Sharechain`
pub record Sharechain : Type 0 where
  pub shares : List (List ℕ × PoolShare)
  pub best_tip : Option (List ℕ)
  pub cumulative_work : List (List ℕ × ℕ)

-- `Sharechain::new`
unfoldable pub new : Sharechain
new = record { shares = []; best_tip = none; cumulative_work = [] }

abbrev pub unwrap_or_zero : Option ℕ → ℕ
unwrap_or_zero none = 0
unwrap_or_zero (some n) = n

-- The work of a share, zero if it is not known.
abbrev pub work_of : List ℕ → List (List ℕ × ℕ) → ℕ
work_of id works = unwrap_or_zero (lookup id works)

-- The work before a share: that of its predecessor.
unfoldable pub prev_work : PoolShare → Sharechain → ℕ
prev_work share sc =
    if bytes_eq share.prev zero_hash then 0 else work_of share.prev sc.cumulative_work

-- Whether a share of this work becomes the tip.
abbrev pub beats_tip : ℕ → Option (List ℕ) → List (List ℕ × ℕ) → Bool
beats_tip work none works = true
beats_tip work (some current_tip) works = ltb (work_of current_tip works) work

-- The chain after the checks of `insert`.
unfoldable pub add_share : PoolShare → Sharechain → Sharechain
unfolding prev_work
add_share share sc =
    let work = saturating_add u128_max (prev_work share sc) share.share_difficulty in
    let works = insert share.id work sc.cumulative_work in
    record {
      shares = insert share.id share sc.shares;
      best_tip = if beats_tip work sc.best_tip works then some share.id else sc.best_tip;
      cumulative_work = works;
    }

module _ (blake2_256 : List ℕ → List ℕ) where
  -- `Sharechain::insert`: the result, and the chain after the call.
  unfoldable pub insert_share : PoolShare → Sharechain → Bool × Sharechain
  unfolding validate_id add_share
  insert_share share sc =
      if contains_key share.id sc.shares
      then (false, sc)
      else if not (validate_id blake2_256 share)
      then (false, sc)
      else (true, add_share share sc)

-- `Sharechain::get`
unfoldable pub get : List ℕ → Sharechain → Option PoolShare
get id sc = lookup id sc.shares

-- One round of `walk_back`, from whether the current id is zero and what is stored under it.
unfoldable pub walk_round : Option PoolShare → Bool → (PoolShare → List PoolShare) → List PoolShare
walk_round share true rest = []
walk_round none false rest = []
walk_round (some share) false rest = share ∷ rest share

-- The loop of `walk_back` from a current id, for the number of shares still to collect.
unfoldable pub walk_back : Sharechain → List ℕ → ℕ → List PoolShare
unfolding walk_round
walk_back sc current zero = []
walk_back sc current (suc count) =
    walk_round (get current sc) (bytes_eq current zero_hash)
      (λ share. walk_back sc share.prev count)

-- `Sharechain::len`
unfoldable pub len : Sharechain → ℕ
len sc = length sc.shares

-- `Sharechain::is_empty`
unfoldable pub is_empty : Sharechain → Bool
is_empty sc = elim sc.shares [ [] ↦ true | _ ∷ _ ↦ false ]
