-- ===== src/Tests/Shares.antt =====
-- Chains of shares at concrete orders, with one byte of its contents as the id of a share.
use lumenyx.Prelude.{
  ℕ, ◌+◌, min, ◌≡◌, ◌≢◌, refl, ap, arith, inl, inr, true, false, List, [], ◌∷◌, length, take, drop,
  bytes_eq, bytes_eq→≡, Bool-cases, u128_max,
}
use lumenyx.Node.Pool.{PoolShare, zero_hash, validate_id}
use lumenyx.Node.Pool.Pplns.{compute_pplns_payouts}
use lumenyx.Node.Pool.Pplns.Sum.{share_weights}
use lumenyx.Node.Pool.Pplns.Fair.{IsFair, compute_pplns_payouts-IsFair}
use lumenyx.Node.Pool.Sharechain.{new, insert_share, add_share, get, work_of, prev_work}
use lumenyx.Node.Pool.Sharechain.Work.{new-IsValid}
use lumenyx.Node.Pool.Sharechain.Orders.{
  insert_all, IsParentFirst, tip_work, insert_all_order, late_parent,
}

abbrev short : List ℕ → List ℕ
short bytes = take 1 (drop 32 bytes)

abbrev share_of : (id prev miner : List ℕ) → ℕ → PoolShare
share_of id prev miner difficulty = record {
  id = id;
  prev = prev;
  main_parent = [];
  miner = miner;
  share_difficulty = difficulty;
  nonce = [];
  timestamp_ms = 0;
}

abbrev share_a : PoolShare
share_a = share_of (1 ∷ []) zero_hash (1 ∷ []) 10

abbrev share_b : PoolShare
share_b = share_of (2 ∷ []) zero_hash (2 ∷ []) 20

abbrev on_a : PoolShare
on_a = share_of [] (1 ∷ []) (3 ∷ []) 5

distinct : (j : List ℕ) → bytes_eq j (1 ∷ []) ≡ true → bytes_eq j (2 ∷ []) ≡ false
distinct j e = rw (bytes_eq→≡ j (1 ∷ []) e) refl

same_shares :
    (j : List ℕ)
    → get j (insert_all short (share_a ∷ share_b ∷ []) new)
      ≡ get j (insert_all short (share_b ∷ share_a ∷ []) new)
unfolding insert_all insert_share add_share new get
same_shares j = elim (Bool-cases (bytes_eq j (1 ∷ []))) [
  | inl e ↦ rw (e, distinct j e) refl
  | inr e ↦ rw e refl
]

insert_all_order_example :
    let a = insert_all short (share_a ∷ share_b ∷ []) new in
    let b = insert_all short (share_b ∷ share_a ∷ []) new in
    ((id : List ℕ) → work_of id a.cumulative_work ≡ work_of id b.cumulative_work)
    × (tip_work a.best_tip a.cumulative_work ≡ tip_work b.best_tip b.cumulative_work)
unfolding IsParentFirst
insert_all_order_example =
    insert_all_order short (share_a ∷ share_b ∷ []) (share_b ∷ share_a ∷ [])
      (inl refl, (inl refl, tt)) (inl refl, (inl refl, tt)) same_shares

empty_ne : on_a.id ≢ share_a.id
empty_ne e = let n = ap length e in omega arith

late_parent_example :
    (work_of [] (insert_all short (on_a ∷ share_a ∷ []) new).cumulative_work ≡ min u128_max 5)
    × (work_of [] (insert_all short (share_a ∷ on_a ∷ []) new).cumulative_work
        ≡ min u128_max (min u128_max (prev_work share_a new + 10) + 5))
unfolding new validate_id
late_parent_example =
    late_parent short share_a on_a new (new-IsValid short) refl refl refl refl empty_ne refl refl

compute_pplns_payouts-IsFair_example :
    IsFair (share_a ∷ share_b ∷ []) 1_000 (compute_pplns_payouts (share_a ∷ share_b ∷ []) 1_000 64)
unfolding share_weights
compute_pplns_payouts-IsFair_example =
    compute_pplns_payouts-IsFair (share_a ∷ share_b ∷ []) 1_000 64 (omega arith) (omega arith)
      (omega arith)
