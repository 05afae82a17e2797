-- ===== src/Node/Mining/Found.antt =====
-- A block that is mined by the task of node/src/service.rs passes the import of node/src/pow_import.rs.
use lumenyx.Prelude.{
  ℕ, ◌+◌, ◌≤◌, ◌≡◌, ◌≢◌, refl, sym, ap, subst, ◌∙◌, arith, Bool, true, false, not, ◌==◌, ==_iff,
  ==_refl, Option-cases, ltb, Option, none, some, List, [], ◌∷◌, length, retain, Bool-cases, inl,
  inr, u32_max,
}
use lumenyx.Digest.{DigestItem, seal, lumenyx_engine_id}
use lumenyx.Halving.{PoolPayoutDigest}
use lumenyx.Node.Seed.{seed_height, get_seed}
use lumenyx.Node.Target.{difficulty_to_target, hash_meets_target}
use lumenyx.Node.Import.{
  Outside, Header, Params, RxLxPow, maybe_reseed, machine_hash, get_block_hash_by_height,
  read_difficulty_from_storage, check_hash, verify_pow, new, import_block, import_sealed, normalise,
  extract_seal_nonce, is_lumenyx_seal, should_be_best, compute_total_difficulty, custom,
  compute_block_hash_like_client, with_logs, after_import, ImportResult,
}
use lumenyx.Node.Import.Accept.{IsSeeded, machine_hash_own, is_worked}
use lumenyx.Node.Pool.Sharechain.{Sharechain}
use lumenyx.Node.Payout.{prepare_pool_payout_digest_item}
use lumenyx.Node.Miner.{PowTemplate, next_job_id, insert, remove}
use lumenyx.Node.Miner.{new as fresh}
use lumenyx.Node.Mining.{
  Mining, get_block_hash, header_no_seal, push_item, mined_block, new_template, job_of, arm,
  on_import_notification, on_found, use_nonce,
}

not_over : (hash target : ℕ) → hash_meets_target hash target ≡ true → ltb target hash ≡ false
unfolding hash_meets_target
not_over hash target met = ground arith

module _ (out : Outside) where
  -- A reseed, when the allocation succeeds, gives the seed of the height, over the machine's own cache.
  reseed_ok :
      (client : out.Client) (height : ℕ) (g : ℕ → ℕ) (pow : RxLxPow)
      → g (seed_height height) ≡ get_block_hash_by_height out client (seed_height height)
      → IsSeeded out client (some pow)
      → out.vm_ok height ≡ true
      → let (ok, pow') = maybe_reseed out height g pow in
        (ok ≡ true)
        × (pow'.cache ≡ pow'.vm)
        × (pow'.vm ≡ get_seed height (get_block_hash_by_height out client))
  unfolding IsSeeded maybe_reseed get_seed
  reseed_ok client height g pow same (own, s) v =
      elim (Bool-cases (seed_height height == pow.seed_height)) [
        | inl e ↦
            let at : seed_height height ≡ pow.seed_height =
              (==_iff (seed_height height) pow.seed_height).0 e in
            rw e (refl, own, s ∙ ap (get_block_hash_by_height out client) (sym at))
        | inr e ↦ rw e (rw v (refl, refl, same))
      ]

  check_hash_ok :
      (client : out.Client) (h : Header) (nonce : List ℕ) (pow : RxLxPow)
      → IsSeeded out client (some pow)
      → out.vm_ok h.number ≡ true
      → is_worked out client h nonce ≡ true
      → (check_hash out client h nonce (some pow)).0 ≡ true
  unfolding check_hash
  check_hash_ok client h nonce pow s v worked =
      let g = get_block_hash_by_height out client in
      let (ok, own, vm) = reseed_ok client h.number g pow refl s v in
      rw ok (
        subst
          (λ x.
            hash_meets_target x
              (difficulty_to_target (read_difficulty_from_storage out h.parent_hash client))
            ≡ true)
          (sym (
            machine_hash_own out (maybe_reseed out h.number g pow).1 _ (out.header_hash h) nonce own
              vm))
          worked)

  verify_pow_ok :
      (client : out.Client) (h : Header) (nonce : List ℕ) (rxlx : Option RxLxPow)
      → IsSeeded out client rxlx
      → out.cache_ok h.number ≡ true
      → out.vm_ok h.number ≡ true
      → is_worked out client h nonce ≡ true
      → (verify_pow out client h nonce rxlx).0 ≡ true
  unfolding verify_pow new get_seed IsSeeded
  verify_pow_ok client h nonce none s c v worked =
      rw c (rw v (check_hash_ok client h nonce _ (refl, refl) v worked))
  verify_pow_ok client h nonce (some pow) s c v worked = check_hash_ok client h nonce pow s v worked

  -- The local test of a nonce that meets the target for its header.
  worked_on :
      (client : out.Client) (h : Header) (nonce : List ℕ) (n parent seed : ℕ)
      → h.number ≡ n
      → h.parent_hash ≡ parent
      → seed ≡ get_seed n (get_block_hash_by_height out client)
      → is_worked out client h nonce ≡ true
      → ltb
          (difficulty_to_target (read_difficulty_from_storage out parent client))
          (out.rx_hash seed (out.header_hash h) nonce)
        ≡ false
  worked_on client h nonce n parent seed en ep es worked =
      let g = get_block_hash_by_height out client in
      let meets : ℕ → ℕ → Bool = λ s p.
        hash_meets_target (out.rx_hash s (out.header_hash h) nonce)
          (difficulty_to_target (read_difficulty_from_storage out p client)) in
      not_over _ _ (
        ap (meets seed) (sym ep)
        ∙ ap (λ s. meets s h.parent_hash) (es ∙ ap (λ k. get_seed k g) (sym en))
        ∙ worked)

  pub seed_height_le : (height : ℕ) → seed_height height ≤ height
  unfolding seed_height
  seed_height_le height = ground arith

  -- The two readings of a height's block agree on the heights that blocks have.
  pub get_block_hash_same :
      (header_at : ℕ → out.Client → Option Header) (propose : Header → out.Client → Option Header)
      (encode : PoolPayoutDigest → List ℕ) (client : out.Client) (height : ℕ)
      → height ≤ u32_max
      → get_block_hash out header_at propose encode client (seed_height height)
        ≡ get_block_hash_by_height out client (seed_height height)
  unfolding get_block_hash
  get_block_hash_same header_at propose encode client height small =
      ap (get_block_hash_by_height out client) (omega (arith, seed_height_le height))

retain_again :
    (p : DigestItem → Bool) (logs : List DigestItem) → retain p (retain p logs) ≡ retain p logs
retain_again p [] = refl
retain_again p (d ∷ logs) = elim (Bool-cases (p d)) [
  | inl e ↦ rw e (rw e (ap (◌∷◌ d) (retain_again p logs)))
  | inr e ↦ rw e (retain_again p logs)
]

-- The import finds the nonce of a mined block and changes nothing of the block.
mined_normal :
    (tpl : PowTemplate Header) (item : Option DigestItem) (proposed : Header) (nonce : List ℕ)
    → tpl.rest ≡ header_no_seal item proposed
    → length nonce ≡ 32
    → (extract_seal_nonce (mined_block tpl nonce) ≡ some nonce)
      × (normalise (mined_block tpl nonce) nonce ≡ mined_block tpl nonce)
unfolding extract_seal_nonce normalise mined_block header_no_seal
mined_normal tpl item proposed nonce e l = (
  rw l refl,
  rw e (
      ap
        (λ logs. record {
          header = with_logs logs proposed;
          post_digests = seal lumenyx_engine_id nonce ∷ [];
          fork_choice = none;
        })
        (retain_again (λ d. not (is_lumenyx_seal d)) (push_item item proposed.logs))),
)

module _ (out : Outside) where
  after_import_result :
      (hash td : ℕ) (inner : Option ImportResult × out.Client)
      → (after_import out hash td inner).0 ≡ inner.0
  after_import_result hash td (none, client) = refl
  after_import_result hash td (some result, client) = refl

  -- The block with the fork choice of the import, as the client gets it.
  abbrev pub chosen : out.Client → Params → Params
  chosen client p =
      let new_td = compute_total_difficulty out p.header.parent_hash client in
      let new_hash = compute_block_hash_like_client out p.header p.post_digests in
      record p { fork_choice = some (custom (should_be_best out client new_hash new_td)) }

  import_passes :
      (params : Params) (client : out.Client) (rxlx : Option RxLxPow) (nonce : List ℕ)
      → extract_seal_nonce params ≡ some nonce
      → normalise params nonce ≡ params
      → (verify_pow out client params.header nonce rxlx).0 ≡ true
      → (import_block out params client rxlx).0 ≡ (out.import_inner (chosen client params) client).0
  unfolding import_block import_sealed
  import_passes params client rxlx nonce e n v =
      ap (λ s. (import_sealed out params client rxlx s).0) e
      ∙ rw n (rw v (after_import_result _ _ (out.import_inner (chosen client params) client)))

module _ (out : Outside) (header_at : ℕ → out.Client → Option Header)
    (propose : Header → out.Client → Option Header) (encode : PoolPayoutDigest → List ℕ) where
  -- The header that is mined on a parent, of a header that was proposed.
  abbrev pub header_on : Bool → Sharechain → (best proposed : Header) → Header
  header_on pool_mode sc best proposed =
      header_no_seal (prepare_pool_payout_digest_item encode pool_mode best.number sc) proposed

  -- The task once it is armed with a template as its only one.
  abbrev pub armed_with : Mining → RxLxPow → PowTemplate Header → Mining
  armed_with m pow tpl = record m {
    job_id = tpl.job_id;
    rx_lx_pow = pow;
    templates = record { order = tpl.job_id ∷ []; map = (tpl.job_id, tpl) ∷ [] };
    job = some (job_of tpl);
  }

  -- On a new best block the task forgets its templates and arms itself.
  new_best :
      (client : out.Client) (pool_mode : Bool) (sc : Sharechain) (hash : ℕ) (best : Header)
      (m : Mining)
      → m.active_best_hash ≢ some hash
      → on_import_notification out header_at propose encode client pool_mode sc true hash best m
        ≡ arm out header_at propose encode client pool_mode sc best
            (record m { active_best_hash = some hash; templates = fresh })
  unfolding on_import_notification
  new_best client pool_mode sc hash best m other = elim (Option-cases m.active_best_hash) [
    | inl e ↦ rw e refl
    | inr (active, e) ↦ rw e (elim (Bool-cases (active == hash)) [
      | inl f ↦ absurd (other (e ∙ ap some ((==_iff active hash).0 f)))
      | inr f ↦ rw f refl
    ])
  ]

  -- Arming with a seed and a proposal.
  arm_lem :
      (client : out.Client) (pool_mode : Bool) (sc : Sharechain) (best proposed : Header)
      (m : Mining)
      → propose best client ≡ some proposed
      → (maybe_reseed out
          (best.number + 1)
          (get_block_hash out header_at propose encode client)
          m.rx_lx_pow).0
        ≡ true
      → let pow =
          (maybe_reseed out
            (best.number + 1)
            (get_block_hash out header_at propose encode client)
            m.rx_lx_pow).1 in
        let item = prepare_pool_payout_digest_item encode pool_mode best.number sc in
        let tpl =
          new_template out header_at propose encode client best
            (next_job_id m.job_id)
            pow.seed
            item
            proposed in
        arm out header_at propose encode client pool_mode sc best (record m { templates = fresh })
        ≡ armed_with m pow tpl
  unfolding arm new_template insert fresh
  arm_lem client pool_mode sc best proposed m p ok = rw ok (rw p refl)

  -- The nonce of the only template is taken to the import, if it meets the target.
  found_only :
      (client : out.Client) (pool_mode : Bool) (sc : Sharechain) (rxlx : Option RxLxPow)
      (nonce : List ℕ) (m : Mining) (pow : RxLxPow) (tpl : PowTemplate Header)
      → ltb tpl.target (machine_hash out pow tpl.pre_hash nonce) ≡ false
      → (on_found out header_at propose encode client pool_mode sc rxlx
          (record { job_id = tpl.job_id; nonce = nonce })
          (armed_with m pow tpl)).1
        ≡ (import_block out (mined_block tpl nonce) client rxlx).1
  unfolding on_found use_nonce remove
  found_only client pool_mode sc rxlx nonce m pow tpl met = rw (==_refl tpl.job_id) (rw met refl)

  -- What the finding of a nonce for the job on a new best block leads to.
  pub record IsMined (client : out.Client) (pool_mode : Bool) (sc : Sharechain)
      (rxlx : Option RxLxPow) (nonce : List ℕ) (h : Header) (m : Mining) : Type 0 where
    pub tpl : PowTemplate Header
    pub mined : tpl.rest ≡ h
    pub sent : m.job ≡ some (job_of tpl)
    pub handed :
        (on_found out header_at propose encode client pool_mode sc rxlx
          (record { job_id = m.job_id; nonce = nonce })
          m).1
        ≡ (import_block out (mined_block tpl nonce) client rxlx).1
    pub accepted :
        (import_block out (mined_block tpl nonce) client rxlx).0
        ≡ (out.import_inner (chosen out client (mined_block tpl nonce)) client).0

  -- If a block becomes the best and its successor's number fits `u32`, the proposer's header is for its
  -- successor, the task's and the import's states of the hash function are seeded and the allocation
  -- of their memory succeeds, then a nonce of 32 bytes that meets the target for the header that is
  -- mined, found while the client has the same state, is taken to the import under the number of the
  -- job that was sent, and the import lets the block through to the client.
  pub own_block_passes :
      (client : out.Client) (pool_mode : Bool) (sc : Sharechain) (hash : ℕ) (best proposed : Header)
      (m : Mining) (rxlx : Option RxLxPow) (nonce : List ℕ)
      → m.active_best_hash ≢ some hash
      → best.number + 1 ≤ u32_max
      → propose best client ≡ some proposed
      → proposed.parent_hash ≡ out.header_hash best
      → proposed.number ≡ best.number + 1
      → IsSeeded out client (some m.rx_lx_pow)
      → IsSeeded out client rxlx
      → out.cache_ok (best.number + 1) ≡ true
      → out.vm_ok (best.number + 1) ≡ true
      → length nonce ≡ 32
      → is_worked out client (header_on pool_mode sc best proposed) nonce ≡ true
      → IsMined client pool_mode sc rxlx nonce
          (header_on pool_mode sc best proposed)
          (on_import_notification out header_at propose encode client pool_mode sc true hash best m)
  unfolding new_template header_no_seal mined_block
  own_block_passes client pool_mode sc hash best proposed m rxlx nonce other small p parent number
        seeded import_seeded c v l worked =
      let n = best.number + 1 in
      let g = get_block_hash out header_at propose encode client in
      let h = header_on pool_mode sc best proposed in
      let item = prepare_pool_payout_digest_item encode pool_mode best.number sc in
      let pow = (maybe_reseed out n g m.rx_lx_pow).1 in
      let (ok, own, vm) =
        reseed_ok out client n g m.rx_lx_pow
          (get_block_hash_same out header_at propose encode client n small) seeded v in
      let tpl =
        new_template out header_at propose encode client best (next_job_id m.job_id) pow.seed item
          proposed in
      let m1 = record m { active_best_hash = some hash } in
      let armed : on_import_notification out header_at propose encode client pool_mode sc true hash
            best m
          ≡ armed_with m1 pow tpl =
        new_best client pool_mode sc hash best m other
        ∙ arm_lem client pool_mode sc best proposed m1 p ok in
      let unbeaten : ltb tpl.target (machine_hash out pow tpl.pre_hash nonce) ≡ false =
        ap (ltb tpl.target) (machine_hash_own out pow pow.vm tpl.pre_hash nonce own refl)
        ∙ worked_on out client h nonce n (out.header_hash best) pow.vm number parent vm worked in
      let (found, normal) = mined_normal tpl item proposed nonce refl l in
      subst (IsMined client pool_mode sc rxlx nonce h) (sym armed) (record {
        tpl = tpl;
        mined = refl;
        sent = refl;
        handed = found_only client pool_mode sc rxlx nonce m1 pow tpl unbeaten;
        accepted = import_passes out (mined_block tpl nonce) client rxlx nonce found normal (
            verify_pow_ok out client h nonce rxlx import_seeded
              (subst (λ k. out.cache_ok k ≡ true) (sym number) c)
              (subst (λ k. out.vm_ok k ≡ true) (sym number) v) worked);
      })
