-- ===== src/Node/Pool/Sharechain/Tip.antt =====
-- When a share of node/src/pool/sharechain.rs becomes the tip.
use lumenyx.Prelude.{
  ℕ, ◌+◌, ◌≤◌, ◌≡◌, ap, ◌∙◌, arith, true, false, not, some, List, bytes_eq, contains_key, insert,
  lt→ltb, if◌then◌else◌, u128_max, saturating_add,
}
use lumenyx.Node.Pool.{PoolShare, zero_hash, validate_id}
use lumenyx.Node.Pool.Sharechain.{
  Sharechain, work_of, prev_work, beats_tip, add_share, insert_share,
}
use lumenyx.Node.Pool.Sharechain.Work.{IsBest, work_of-insert_ne, contains-ne}

-- A share on the tip with some difficulty becomes the tip.
pub add_share_tip :
    (share : PoolShare) (sc : Sharechain) (tip : List ℕ)
    → IsBest (some tip) sc.cumulative_work
    → sc.best_tip ≡ some tip
    → contains_key share.id sc.cumulative_work ≡ false
    → share.prev ≡ tip
    → bytes_eq tip zero_hash ≡ false
    → 1 ≤ share.share_difficulty
    → work_of tip sc.cumulative_work + share.share_difficulty ≤ u128_max
    → (add_share share sc).best_tip ≡ some share.id
unfolding add_share prev_work IsBest
add_share_tip share sc tip (known, most) is_tip new_id on nz pos small =
    let work = saturating_add u128_max (prev_work share sc) share.share_difficulty in
    let works = insert share.id work sc.cumulative_work in
    let ne = contains-ne tip share.id sc.cumulative_work known new_id in
    let old : work_of tip works ≡ work_of tip sc.cumulative_work =
      work_of-insert_ne tip share.id work sc.cumulative_work ne in
    let z : bytes_eq share.prev zero_hash ≡ false = ap (λ x. bytes_eq x zero_hash) on ∙ nz in
    let before : prev_work share sc ≡ work_of tip sc.cumulative_work =
      ap (λ b. if b then 0 else work_of share.prev sc.cumulative_work) z
      ∙ ap (λ x. work_of x sc.cumulative_work) on in
    let beats : beats_tip work (some tip) works ≡ true =
      lt→ltb (work_of tip works) work (omega (arith, before, old, pos, small)) in
    ap (λ t. if beats_tip work t works then some share.id else sc.best_tip) is_tip
    ∙ ap (λ b. if b then some share.id else sc.best_tip) beats

-- A share that is not known and whose id is right is added.
pub insert_share_new :
    (blake2_256 : List ℕ → List ℕ) (share : PoolShare) (sc : Sharechain)
    → contains_key share.id sc.shares ≡ false
    → validate_id blake2_256 share ≡ true
    → insert_share blake2_256 share sc ≡ (true, add_share share sc)
unfolding insert_share
insert_share_new blake2_256 share sc new_id right =
    ap
      (λ b.
        if b
        then (false, sc)
        else if not (validate_id blake2_256 share)
        then (false, sc)
        else (true, add_share share sc))
      new_id
    ∙ ap (λ b. if not b then (false, sc) else (true, add_share share sc)) right
