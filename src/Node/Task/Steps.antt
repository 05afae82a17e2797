-- ===== src/Node/Task/Steps.antt =====
-- The start and the steps of the mining task of node/src/service.rs keep it on the schedule of seeds.
use lumenyx.Prelude.{
  ℕ, List, ◌+◌, ◌≡◌, ◌&&◌, if◌then◌else◌, refl, subst, inl, inr, Bool, true, false, Option, none,
  some, some-injective, none-ne-some, ◌==◌, Bool-cases, Option-cases, ltb,
}
use lumenyx.Halving.{PoolPayoutDigest}
use lumenyx.Node.Seed.{seed_height, get_seed}
use lumenyx.Node.Import.{Outside, Header, RxLxPow, machine_hash, maybe_reseed, import_block}
use lumenyx.Node.Import.{new as new_pow}
use lumenyx.Node.Pool.Sharechain.{Sharechain}
use lumenyx.Node.Payout.{prepare_pool_payout_digest_item}
use lumenyx.Node.Miner.{PowTemplate, next_job_id, len, remove}
use lumenyx.Node.Mining.{
  FoundNonce, Mining, get_block_hash, on_import_notification, rearm, use_nonce, on_found,
  mined_block,
}
use lumenyx.Node.Task.{idle, started_on, bootstrap, launch, HasSeed}
use lumenyx.Node.Task.Scheduled.{
  IsPow, IsOnSchedule, read_seed, reseed_seed, after_ok, arm-IsOnSchedule,
  with_template-IsOnSchedule,
}

-- The task starts only where the reseed succeeds and there is a proposal.
pub boot_result :
    (ok : Bool) (proposed : Option Header) (f : Header → Mining) (m : Mining) (Q : Mining → Type 0)
    → (if ok then elim proposed [ none ↦ none | some header ↦ some (f header) ] else none) ≡ some m
    → (ok ≡ true → (header : Header) → proposed ≡ some header → Q (f header))
    → Q m
boot_result false proposed f m Q e q = absurd (none-ne-some m e)
boot_result true none f m Q e q = absurd (none-ne-some m e)
boot_result true (some header) f m Q e q =
    subst Q (some-injective (f header) m e) (q refl header refl)

module _ (out : Outside) (header_at : ℕ → out.Client → Option Header)
    (propose : Header → out.Client → Option Header) (encode : PoolPayoutDigest → List ℕ)
    (seed_at : ℕ → ℕ) where
  pub on_import_notification-IsOnSchedule :
      (client : out.Client) (pool_mode : Bool) (sc : Sharechain) (is_new_best : Bool) (hash : ℕ)
      (header : Header) (m : Mining)
      → HasSeed out header_at propose encode seed_at client (header.number + 1)
      → IsOnSchedule seed_at m
      → IsOnSchedule seed_at (
          on_import_notification out header_at propose encode client pool_mode sc is_new_best hash
            header m)
  unfolding on_import_notification
  on_import_notification-IsOnSchedule client pool_mode sc false hash header m h v = v
  on_import_notification-IsOnSchedule client pool_mode sc true hash header m h v =
      let armed =
        arm-IsOnSchedule out header_at propose encode seed_at client pool_mode sc header _ h v in
      elim (Option-cases m.active_best_hash) [
        | inl e ↦ rw e armed
        | inr (active, e) ↦
            rw e (elim (Bool-cases (active == hash)) [ inl f ↦ rw f v | inr f ↦ rw f armed ])
      ]

  rearm-IsOnSchedule :
      (client : out.Client) (pool_mode : Bool) (sc : Sharechain) (m : Mining)
      → ((hash : ℕ) (best : Header)
          → m.active_best_hash ≡ some hash
          → header_at hash client ≡ some best
          → HasSeed out header_at propose encode seed_at client (best.number + 1))
      → IsOnSchedule seed_at m
      → IsOnSchedule seed_at (rearm out header_at propose encode client pool_mode sc m)
  unfolding rearm
  rearm-IsOnSchedule client pool_mode sc m h v = elim (Bool-cases (len m.templates == 0)) [
    | inr left ↦ rw left v
    | inl empty ↦ rw empty (elim (Option-cases m.active_best_hash) [
      | inl e ↦ rw e v
      | inr (hash, e) ↦ rw e (elim (Option-cases (header_at hash client)) [
        | inl f ↦ rw f v
        | inr (best, f) ↦ rw f (
            arm-IsOnSchedule out header_at propose encode seed_at client pool_mode sc best m
              (h hash best e f) v)
      ])
    ])
  ]

  -- The task after the local test of a nonce, whether it fails or not.
  tested :
      (client' client : out.Client) (pool_mode : Bool) (sc : Sharechain)
      (rxlx' rxlx : Option RxLxPow) (m : Mining) (over : Bool)
      → let after =
          if◌then◌else◌ {A = Mining × out.Client × Option RxLxPow} over
            (m, client, rxlx)
            (rearm out header_at propose encode client' pool_mode sc m, client', rxlx') in
        ((hash : ℕ) (best : Header)
          → m.active_best_hash ≡ some hash
          → header_at hash after.1 ≡ some best
          → HasSeed out header_at propose encode seed_at after.1 (best.number + 1))
        → IsOnSchedule seed_at m
        → IsOnSchedule seed_at after.0
  tested client' client pool_mode sc rxlx' rxlx m true h v = v
  tested client' client pool_mode sc rxlx' rxlx m false h v =
      rearm-IsOnSchedule client' pool_mode sc m h v

  use_nonce-IsOnSchedule :
      (client : out.Client) (pool_mode : Bool) (sc : Sharechain) (rxlx : Option RxLxPow)
      (nonce : List ℕ) (m : Mining) (tpl : Option (PowTemplate Header))
      → let after = use_nonce out header_at propose encode client pool_mode sc rxlx nonce m tpl in
        ((hash : ℕ) (best : Header)
          → m.active_best_hash ≡ some hash
          → header_at hash after.1 ≡ some best
          → HasSeed out header_at propose encode seed_at after.1 (best.number + 1))
        → IsOnSchedule seed_at m
        → IsOnSchedule seed_at after.0
  unfolding use_nonce
  use_nonce-IsOnSchedule client pool_mode sc rxlx nonce m none h v = v
  use_nonce-IsOnSchedule client pool_mode sc rxlx nonce m (some tpl) h v =
      tested (import_block out (mined_block tpl nonce) client rxlx).1 client pool_mode sc
        (import_block out (mined_block tpl nonce) client rxlx).2 rxlx m
        (ltb tpl.target (machine_hash out m.rx_lx_pow tpl.pre_hash nonce)) h v

  pub on_found-IsOnSchedule :
      (client : out.Client) (pool_mode : Bool) (sc : Sharechain) (rxlx : Option RxLxPow)
      (found : FoundNonce) (m : Mining)
      → let after = on_found out header_at propose encode client pool_mode sc rxlx found m in
        ((hash : ℕ) (best : Header)
          → m.active_best_hash ≡ some hash
          → header_at hash after.1 ≡ some best
          → HasSeed out header_at propose encode seed_at after.1 (best.number + 1))
        → IsOnSchedule seed_at m
        → IsOnSchedule seed_at after.0
  unfolding on_found
  on_found-IsOnSchedule client pool_mode sc rxlx found m h v =
      use_nonce-IsOnSchedule client pool_mode sc rxlx found.nonce
        (record m { templates = (remove found.job_id m.templates).1 })
        (remove found.job_id m.templates).0 h v

  bootstrap-IsOnSchedule :
      (client : out.Client) (pool_mode : Bool) (sc : Sharechain) (best : Header) (m m' : Mining)
      → HasSeed out header_at propose encode seed_at client (best.number + 1)
      → IsOnSchedule seed_at m
      → bootstrap out header_at propose encode client pool_mode sc (some best) m ≡ some m'
      → IsOnSchedule seed_at m'
  unfolding bootstrap
  bootstrap-IsOnSchedule client pool_mode sc best m m' h (p, s) started =
      let n = best.number + 1 in
      let g = get_block_hash out header_at propose encode client in
      let pow = (maybe_reseed out n g m.rx_lx_pow).1 in
      let (p', seeded) =
        reseed_seed out header_at propose encode seed_at n g m.rx_lx_pow
          (read_seed out header_at propose encode seed_at client n h) p in
      boot_result (maybe_reseed out n g m.rx_lx_pow).0 (propose best client) _ m'
        (IsOnSchedule seed_at) started
        (λ ok header got.
          with_template-IsOnSchedule out header_at propose encode seed_at client best
            (next_job_id m.job_id) pow.seed
            (prepare_pool_payout_digest_item encode pool_mode best.number sc) (some header)
            (started_on (out.header_hash best) (next_job_id m.job_id) pow m) h.0
            (after_ok seeded ok) (p', s))

  -- A new state of the hash function has the seed of its height.
  new_seed :
      (height : ℕ) (g : ℕ → ℕ) (pow : RxLxPow)
      → g (seed_height height) ≡ seed_at (seed_height height)
      → new_pow out height g ≡ some pow
      → IsPow seed_at pow
  unfolding new_pow get_seed
  new_seed height g pow s e = elim (Bool-cases (out.cache_ok height && out.vm_ok height)) [
    | inl ok ↦ subst (IsPow seed_at) (some-injective _ pow (rw ok at e)) s
    | inr failed ↦ absurd (none-ne-some pow (rw failed at e))
  ]

  launch_from :
      (client : out.Client) (pool_mode : Bool) (sc : Sharechain) (best : Header) (m : Mining)
      (pow : Option RxLxPow)
      → HasSeed out header_at propose encode seed_at client (best.number + 1)
      → ((p : RxLxPow) → pow ≡ some p → IsPow seed_at p)
      → elim pow [
        | none ↦ none
        | some p ↦ bootstrap out header_at propose encode client pool_mode sc (some best) (idle p)
      ]
        ≡ some m
      → IsOnSchedule seed_at m
  launch_from client pool_mode sc best m none h v e = absurd (none-ne-some m e)
  launch_from client pool_mode sc best m (some p) h v e =
      bootstrap-IsOnSchedule client pool_mode sc best (idle p) m h (v p refl, tt) e

  pub launch-IsOnSchedule :
      (client : out.Client) (pool_mode : Bool) (sc : Sharechain) (best : Header) (m : Mining)
      → HasSeed out header_at propose encode seed_at client 0
      → HasSeed out header_at propose encode seed_at client (best.number + 1)
      → launch out header_at propose encode client pool_mode sc (some best) ≡ some m
      → IsOnSchedule seed_at m
  unfolding launch
  launch-IsOnSchedule client pool_mode sc best m h0 h started =
      launch_from client pool_mode sc best m
        (new_pow out 0 (get_block_hash out header_at propose encode client)) h
        (λ p. new_seed 0 _ p (read_seed out header_at propose encode seed_at client 0 h0)) started
