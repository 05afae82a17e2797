-- ===== src/Node/Task.antt =====
-- The mining task of node/src/service.rs with its threads: its start, which sends the first job, and any
-- order of new best blocks, found nonces and steps of the threads.
pub mod Scheduled
pub mod Jobs
pub mod Steps
pub mod Seeds
pub mod Start
use lumenyx.Prelude.{
  ℕ, ◌+◌, ◌≡◌, ◌≤◌, Bool, true, Option, none, some, List, [], u32_max, if◌then◌else◌,
}
use lumenyx.Halving.{PoolPayoutDigest}
use lumenyx.Node.Seed.{seed_height}
use lumenyx.Node.Import.{Outside, Header, RxLxPow, maybe_reseed, get_block_hash_by_height}
use lumenyx.Node.Import.{new as new_pow}
use lumenyx.Node.Pool.Sharechain.{Sharechain}
use lumenyx.Node.Payout.{prepare_pool_payout_digest_item}
use lumenyx.Node.Miner.{next_job_id, new}
use lumenyx.Node.Mining.{
  MiningJob, FoundNonce, Mining, get_block_hash, with_template, template_of, on_import_notification,
  on_found,
}
use lumenyx.Node.Worker.{Answers, System, start, shared_start, turn, send_job}

-- The variables of the task before its first template.
abbrev pub idle : RxLxPow → Mining
idle pow = record {
  job_id = 0;
  active_best_hash = none;
  templates = record { order = []; map = [] };
  rx_lx_pow = pow;
  job = none;
}

-- The task before the first proposal.
abbrev pub started_on : (best_hash job_id : ℕ) → RxLxPow → Mining → Mining
started_on best_hash job_id pow m = record m {
  active_best_hash = some best_hash;
  job_id = job_id;
  rx_lx_pow = pow;
}

-- The channel after a step of the task that leaves this job in it.
abbrev pub publish : Option MiningJob → System → System
publish none s = s
publish (some job) s = send_job job s

module _ (out : Outside) (header_at : ℕ → out.Client → Option Header)
    (propose : Header → out.Client → Option Header) (encode : PoolPayoutDigest → List ℕ) where
  open out use {Client, header_hash}

  -- The first template, on the best header; `none` is a return from the task.
  unfoldable pub bootstrap :
      Client → (pool_mode : Bool) → Sharechain → (best : Option Header) → Mining → Option Mining
  bootstrap client pool_mode sc none m = none
  bootstrap client pool_mode sc (some best) m =
      let new_job_id = next_job_id m.job_id in
      let (reseeded, pow) =
        maybe_reseed out (best.number + 1) (get_block_hash out header_at propose encode client)
          m.rx_lx_pow in
      let started = started_on (header_hash best) new_job_id pow m in
      let item = prepare_pool_payout_digest_item encode pool_mode best.number sc in
      if reseeded
      then elim (propose best client) [
        | none ↦ none
        | some header ↦ some (
            with_template out header_at propose encode
              (template_of out header_at propose encode client best new_job_id pow.seed item
                (some header))
              started)
      ]
      else none

  -- The start of the task: its own state of the hash function, then the first template.
  unfoldable pub launch :
      Client → (pool_mode : Bool) → Sharechain → (best : Option Header) → Option Mining
  unfolding new_pow bootstrap
  launch client pool_mode sc best =
      elim (new_pow out 0 (get_block_hash out header_at propose encode client)) [
        | none ↦ none
        | some pow ↦ bootstrap client pool_mode sc best (idle pow)
      ]

  module _ (seed_at : ℕ → ℕ) where
    -- The client has the block of the schedule at the seed height of this height.
    abbrev pub HasSeed : Client → (height : ℕ) → Type 0
    HasSeed client height =
        (height ≤ u32_max)
        × (get_block_hash_by_height out client (seed_height height) ≡ seed_at (seed_height height))

    -- The two steps of the task.
    abbrev notify : Client → Bool → Sharechain → Bool → ℕ → Header → Mining → Mining
    notify = on_import_notification out header_at propose encode

    abbrev use_found :
        Client
        → Bool
        → Sharechain
        → Option RxLxPow
        → FoundNonce
        → Mining
        → Mining × Client × Option RxLxPow
    use_found = on_found out header_at propose encode

    -- The client, the task and the threads in every order of their steps, where a light machine can
    -- always be made and the client has the seed's block when a template is made.
    pub data Running : Client → Mining → System → Type 0 where
      launched :
          (client : Client) (pool_mode : Bool) (sc : Sharechain) (best : Header) (m : Mining)
          (cache_ok : ℕ → Bool) (seed_time : ℕ → ℕ)
          → HasSeed client 0
          → HasSeed client (best.number + 1)
          → launch client pool_mode sc (some best) ≡ some m
          → Running client m (
              publish m.job (record {
                shared = shared_start;
                worker = λ i. start i (cache_ok i) (seed_time i);
              }))
      moved :
          {client : Client} {m : Mining} {s : System} (client' : Client)
          → Running client m s
          → Running client' m s
      notified :
          {client : Client} {m : Mining} {s : System} (pool_mode : Bool) (sc : Sharechain)
          (is_new_best : Bool) (hash : ℕ) (header : Header)
          → HasSeed client (header.number + 1)
          → Running client m s
          → Running client
              (notify client pool_mode sc is_new_best hash header m)
              (publish (notify client pool_mode sc is_new_best hash header m).job s)
      found :
          {client : Client} {m : Mining} {s : System} (pool_mode : Bool) (sc : Sharechain)
          (rxlx : Option RxLxPow) (nonce : FoundNonce)
          → ((hash : ℕ) (best : Header)
              → m.active_best_hash ≡ some hash
              → header_at hash (use_found client pool_mode sc rxlx nonce m).1 ≡ some best
              → HasSeed (use_found client pool_mode sc rxlx nonce m).1 (best.number + 1))
          → Running client m s
          → Running
              (use_found client pool_mode sc rxlx nonce m).1
              (use_found client pool_mode sc rxlx nonce m).0
              (publish (use_found client pool_mode sc rxlx nonce m).0.job s)
      searched :
          {client : Client} {m : Mining} {s : System} (i : ℕ) (a : Answers)
          → a.light_ok ≡ true
          → Running client m s
          → Running client m (turn out.rx_hash i a s)
