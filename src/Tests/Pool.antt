-- ===== src/Tests/Pool.antt =====
-- The pool at concrete shares, with the contents of a share as its hash.
use lumenyx.Prelude.{ℕ, ◌≤◌, ◌≡◌, ◌⊎◌, refl, arith, true, some, List, [], ◌∷◌, length, u128_max}
use lumenyx.Primitives.{calculate_block_reward, base_block_reward}
use lumenyx.Digest.{pre_runtime, lumenyx_engine_id}
use lumenyx.Halving.{PoolPayoutDigest, pay_reward, pool_payout_digest_from_header}
use lumenyx.Node.Import.{Header}
use lumenyx.Node.Mining.{header_no_seal}
use lumenyx.Halving.Deposits.{exact_sum}
use lumenyx.Node.Pool.{PoolShare}
use lumenyx.Node.Pool.Sharechain.{Sharechain, new, insert_share, get, walk_back}
use lumenyx.Node.Pool.Sharechain.Work.{IsValid, new-IsValid, insert_share-IsValid}
use lumenyx.Node.Pool.Sharechain.Walk.{IsWalk, walk_back-IsWalk}
use lumenyx.Node.Pool.Pplns.{compute_pplns_payouts}
use lumenyx.Node.Pool.Pplns.Sum.{share_weights, amount_sum, compute_pplns_payouts_sum}
use lumenyx.Node.Payout.{
  tip_and_window, payout_digest, payout_item, prepare_pool_payout_digest_item,
}
use lumenyx.Node.Payout.Accepted.{paid_to_miners, prepared_item_is_paid}
use lumenyx.Node.Shares.{FoundShare, make_share}
use lumenyx.Tests.Support.{AnyRaw, framework, framework-IsCodec, write_digest}

abbrev blake : List ℕ → List ℕ
blake bytes = bytes

abbrev found_one : FoundShare
found_one = record { job_id = 1; height = 10; parent_hash = 4 ∷ []; nonce = 5 ∷ []; now_ms = 0 }

abbrev found_two : FoundShare
found_two = record { job_id = 1; height = 10; parent_hash = 4 ∷ []; nonce = 6 ∷ []; now_ms = 0 }

abbrev share_one : PoolShare
share_one = make_share blake (1 ∷ []) 300 found_one new

abbrev chain_one : Sharechain
chain_one = (insert_share blake share_one new).1

insert_share-IsValid_example : IsValid blake (insert_share blake share_one new).1
insert_share-IsValid_example = insert_share-IsValid blake share_one new (new-IsValid blake)

walk_back-IsWalk_example : IsWalk chain_one share_one.id 256 (walk_back chain_one share_one.id 256)
walk_back-IsWalk_example = walk_back-IsWalk chain_one share_one.id 256

compute_pplns_payouts_sum_example :
    let paid = compute_pplns_payouts (share_one ∷ []) 1_000 64 in
    (length paid ≤ 64) × ((paid ≡ []) ⊎ (amount_sum paid ≡ 1_000))
unfolding share_weights make_share
compute_pplns_payouts_sum_example =
    compute_pplns_payouts_sum (share_one ∷ []) 1_000 64 (omega arith) (omega arith)

weights_one : share_weights (tip_and_window chain_one).1 ≤ u128_max
unfolding share_weights tip_and_window walk_back insert_share make_share new get
weights_one = omega arith

prepared_one :
    prepare_pool_payout_digest_item write_digest true 10 chain_one
    ≡ some (
        payout_item write_digest (
          payout_digest
            (tip_and_window chain_one).0
            (calculate_block_reward 11)
            (tip_and_window chain_one).1))
unfolding prepare_pool_payout_digest_item insert_share make_share new calculate_block_reward
    base_block_reward walk_back get
prepared_one = refl

abbrev validator : List ℕ
validator = 9 ∷ []

abbrev no_raw : AnyRaw
no_raw = ([], 0)

abbrev digest_one : PoolPayoutDigest
digest_one =
    payout_digest (tip_and_window chain_one).0 (calculate_block_reward 11)
      (tip_and_window chain_one).1

-- A header of the proposer, with the miner's item.
abbrev proposed : Header
proposed = record {
  parent_hash = 4;
  number = 11;
  state_root = [];
  extrinsics_root = [];
  logs = pre_runtime lumenyx_engine_id (7 ∷ []) ∷ [];
}

prepared_item_is_paid_example :
    let item = payout_item write_digest digest_one in
    (pay_reward framework validator
        (calculate_block_reward 11)
        (header_no_seal (some item) proposed).logs
        no_raw
      ≡ paid_to_miners framework validator digest_one no_raw)
    × ((digest_one.payouts ≡ []) ⊎ (exact_sum digest_one.payouts ≡ calculate_block_reward 11))
unfolding pool_payout_digest_from_header
prepared_item_is_paid_example =
    prepared_item_is_paid framework write_digest framework-IsCodec 10 chain_one
      (payout_item write_digest digest_one) validator proposed no_raw (omega arith) weights_one
      prepared_one refl
