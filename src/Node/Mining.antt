-- ===== src/Node/Mining.antt =====
-- The mining task of node/src/service.rs: the template on the best block, the notification of a new best
-- block, and the nonce that a worker found. The proposer is outside; the body and the storage changes of
-- a proposal, which go unread to the inner import, are left out.
pub mod Found
pub mod Dropped
use lumenyx.Prelude.{
  ℕ, ◌+◌, ◌%◌, ◌^◌, max, Bool, true, false, not, Option, none, some, List, [], ◌∷◌, ◌++◌, ltb, ◌==◌,
  if◌then◌else◌, retain,
}
use lumenyx.Digest.{DigestItem, seal, lumenyx_engine_id}
use lumenyx.Halving.{PoolPayoutDigest}
use lumenyx.Node.Seed.{seed_height}
use lumenyx.Node.Target.{difficulty_to_target}
use lumenyx.Node.Import.{
  Outside, Header, Params, RxLxPow, machine_hash, ImportResult, is_lumenyx_seal, with_logs,
  maybe_reseed, get_block_hash_by_height, read_difficulty_from_storage, import_block,
}
use lumenyx.Node.Pool.Sharechain.{Sharechain}
use lumenyx.Node.Payout.{prepare_pool_payout_digest_item}
use lumenyx.Node.Miner.{PowTemplate, TemplateLru2, next_job_id, new, insert, remove, len}
use lumenyx.Node.Shares.{share_difficulty_at}

-- `MiningJob`
pub record MiningJob : Type 0 where
  pub job_id : ℕ
  pub height : ℕ
  pub parent_hash : ℕ
  pub pre_hash : ℕ
  pub target : ℕ
  pub share_target : ℕ
  pub seed_height : ℕ
  pub seed : ℕ

-- `FoundNonce`
pub record FoundNonce : Type 0 where
  pub job_id : ℕ
  pub nonce : List ℕ

-- The variables of the task, and the job that the workers see.
pub record Mining : Type 0 where
  pub job_id : ℕ
  pub active_best_hash : Option ℕ
  pub templates : TemplateLru2 Header
  pub rx_lx_pow : RxLxPow
  pub job : Option MiningJob

-- The job of a template.
abbrev pub job_of : PowTemplate Header → MiningJob
job_of tpl = record {
  job_id = tpl.job_id;
  height = tpl.height;
  parent_hash = tpl.parent_hash;
  pre_hash = tpl.pre_hash;
  target = tpl.target;
  share_target = tpl.share_target;
  seed_height = tpl.seed_height;
  seed = tpl.seed;
}

-- The logs with the payout item, if there is one.
abbrev pub push_item : Option DigestItem → List DigestItem → List DigestItem
push_item none logs = logs
push_item (some item) logs = logs ++ item ∷ []

-- The header that is mined: the proposal's with the payout item and without seals.
unfoldable pub header_no_seal : Option DigestItem → Header → Header
header_no_seal item header =
    with_logs (retain (λ d. not (is_lumenyx_seal d)) (push_item item header.logs)) header

-- The parameters of the import of a mined block.
unfoldable pub mined_block : PowTemplate Header → List ℕ → Params
mined_block tpl nonce = record {
  header = tpl.rest;
  post_digests = seal lumenyx_engine_id nonce ∷ [];
  fork_choice = none;
}

module _ (out : Outside) (header_at : ℕ → out.Client → Option Header)
    (propose : Header → out.Client → Option Header) (encode : PoolPayoutDigest → List ℕ) where
  open out use {Client, header_hash}

  -- The closure `get_block_hash`, which cuts the height to `u32`.
  unfoldable pub get_block_hash : Client → ℕ → ℕ
  get_block_hash client height = get_block_hash_by_height out client (height % 2 ^ 32)

  -- `PowTemplate` on a parent, for a header that was proposed.
  unfoldable pub new_template :
      Client → (best : Header) → (job_id seed : ℕ) → Option DigestItem → Header → PowTemplate Header
  unfolding header_no_seal
  new_template client best job_id seed item header =
      let parent_hash = header_hash best in
      let difficulty = read_difficulty_from_storage out parent_hash client in
      record {
        job_id = job_id;
        height = best.number + 1;
        parent_hash = parent_hash;
        rest = header_no_seal item header;
        pre_hash = header_hash (header_no_seal item header);
        target = difficulty_to_target difficulty;
        share_target = difficulty_to_target (share_difficulty_at difficulty);
        seed_height = seed_height (best.number + 1);
        seed = seed;
      }

  -- The end of the arming: a template is kept and its job sent, unless there is no proposal.
  abbrev pub with_template : Option (PowTemplate Header) → Mining → Mining
  with_template none m = m
  with_template (some tpl) m = record m {
    templates = insert tpl m.templates;
    job = some (job_of tpl);
  }

  -- The template of a proposal, if there is one.
  abbrev pub template_of :
      Client
      → Header
      → (job_id seed : ℕ) → Option DigestItem
      → Option Header
      → Option (PowTemplate Header)
  template_of client best job_id seed item none = none
  template_of client best job_id seed item (some header) =
      some (new_template client best job_id seed item header)

  -- A new job on the best block, as at the start, on a new best block and after a block is mined.
  unfoldable pub arm : Client → (pool_mode : Bool) → Sharechain → (best : Header) → Mining → Mining
  unfolding maybe_reseed new_template
  arm client pool_mode sc best m =
      let new_job_id = next_job_id m.job_id in
      let (reseeded, pow) =
        maybe_reseed out (best.number + 1) (get_block_hash client) m.rx_lx_pow in
      let started = record m { job_id = new_job_id; rx_lx_pow = pow } in
      let item = prepare_pool_payout_digest_item encode pool_mode best.number sc in
      if reseeded
      then with_template (template_of client best new_job_id pow.seed item (propose best client))
          started
      else started

  -- The arm of `select!` for a block that was imported.
  unfoldable pub on_import_notification :
      Client
      → (pool_mode : Bool) → Sharechain
      → (is_new_best : Bool) → (hash : ℕ) → Header
      → Mining
      → Mining
  unfolding arm
  on_import_notification client pool_mode sc is_new_best hash header m =
      let cleared = record m { active_best_hash = some hash; templates = new } in
      let armed = arm client pool_mode sc header cleared in
      if not is_new_best then m else elim m.active_best_hash [
        | none ↦ armed
        | some active ↦ if active == hash then m else armed
      ]

  -- The new job after a mined block, if no template is left and the best header is found.
  unfoldable pub rearm : Client → (pool_mode : Bool) → Sharechain → Mining → Mining
  unfolding arm
  rearm client pool_mode sc m =
      if len m.templates == 0
      then elim m.active_best_hash [
        | none ↦ m
        | some hash ↦ elim (header_at hash client) [
          | none ↦ m
          | some best ↦ arm client pool_mode sc best m
        ]
      ]
      else m

  -- What a found nonce does with the template under its number.
  unfoldable pub use_nonce :
      Client
      → (pool_mode : Bool) → Sharechain
      → Option RxLxPow
      → List ℕ
      → Mining
      → Option (PowTemplate Header)
      → Mining × Client × Option RxLxPow
  unfolding mined_block rearm
  use_nonce client pool_mode sc rxlx nonce m none = (m, client, rxlx)
  use_nonce client pool_mode sc rxlx nonce m (some tpl) =
      let pow_hash = machine_hash out m.rx_lx_pow tpl.pre_hash nonce in
      let (_, client', rxlx') = import_block out (mined_block tpl nonce) client rxlx in
      if ltb tpl.target pow_hash
      then (m, client, rxlx)
      else (rearm client' pool_mode sc m, client', rxlx')

  -- The arm of `select!` for a nonce that a worker found: the task, the client and the state of the
  -- import's hash function after.
  unfoldable pub on_found :
      Client
      → (pool_mode : Bool) → Sharechain
      → Option RxLxPow
      → FoundNonce
      → Mining
      → Mining × Client × Option RxLxPow
  unfolding use_nonce
  on_found client pool_mode sc rxlx found m =
      let (tpl, templates) = remove found.job_id m.templates in
      use_nonce client pool_mode sc rxlx found.nonce (record m { templates = templates }) tpl
