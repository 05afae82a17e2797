-- ===== src/Node/Task/Scheduled.antt =====
-- Each job that the mining task of node/src/service.rs sends has the seed of its height.
use lumenyx.Prelude.{
  ℕ, List, ◌+◌, ◌≤◌, ◌<◌, ◌≡◌, refl, sym, ap, ◌∙◌, arith, ◌⊎◌, inl, inr, Bool, true, false, Option,
  none, some, ◌==◌, ==_iff, Bool-cases, u32_max, u64_max,
}
use lumenyx.Digest.{DigestItem}
use lumenyx.Halving.{PoolPayoutDigest}
use lumenyx.Node.Seed.{seed_height, get_seed}
use lumenyx.Node.Import.{Outside, Header, RxLxPow, maybe_reseed}
use lumenyx.Node.Pool.Sharechain.{Sharechain}
use lumenyx.Node.Payout.{prepare_pool_payout_digest_item}
use lumenyx.Node.Miner.{next_job_id}
use lumenyx.Node.Mining.{
  MiningJob, Mining, get_block_hash, with_template, template_of, new_template, arm,
}
use lumenyx.Node.Mining.Found.{get_block_hash_same, seed_height_le}
use lumenyx.Node.Task.{HasSeed}

-- What a reseed gives, where it succeeds.
pub after_ok : {A : Type 0} {ok : Bool} → (ok ≡ false) ⊎ A → ok ≡ true → A
after_ok (inl failed) e = ground arith
after_ok (inr a) e = a

module _ (seed_at : ℕ → ℕ) where
  -- A job has the seed height of its height, and the seed of that.
  pub record IsScheduled (job : MiningJob) : Type 0 where
    pub at : job.seed_height ≡ seed_height job.height
    pub seeded : job.seed ≡ seed_at job.seed_height
    pub small : job.seed_height < u64_max

  -- The state of the hash function has the seed of its seed height.
  abbrev pub IsPow : RxLxPow → Type 0
  IsPow pow = pow.seed ≡ seed_at pow.seed_height

  abbrev pub IsSent : Option MiningJob → Type 0
  IsSent none = Unit
  IsSent (some job) = IsScheduled job

  -- The task works with the seeds of the schedule.
  abbrev pub IsOnSchedule : Mining → Type 0
  IsOnSchedule m = IsPow m.rx_lx_pow × IsSent m.job

module _ (out : Outside) (header_at : ℕ → out.Client → Option Header)
    (propose : Header → out.Client → Option Header) (encode : PoolPayoutDigest → List ℕ)
    (seed_at : ℕ → ℕ) where
  -- The seed that the task reads for a height is that of the schedule.
  pub read_seed :
      (client : out.Client) (height : ℕ)
      → HasSeed out header_at propose encode seed_at client height
      → get_block_hash out header_at propose encode client (seed_height height)
        ≡ seed_at (seed_height height)
  read_seed client height (small, e) =
      get_block_hash_same out header_at propose encode client height small ∙ e

  -- A reseed keeps the state on the schedule, and gives the seed of the height if it succeeds.
  pub reseed_seed :
      (height : ℕ) (g : ℕ → ℕ) (pow : RxLxPow)
      → g (seed_height height) ≡ seed_at (seed_height height)
      → IsPow seed_at pow
      → let (ok, pow') = maybe_reseed out height g pow in
        IsPow seed_at pow' × ((ok ≡ false) ⊎ (pow'.seed ≡ seed_at (seed_height height)))
  unfolding maybe_reseed get_seed
  reseed_seed height g pow e p = elim (Bool-cases (seed_height height == pow.seed_height)) [
    | inl same ↦
        rw same
          (p, inr (p ∙ ap seed_at (sym ((==_iff (seed_height height) pow.seed_height).0 same))))
    | inr differ ↦ rw differ (elim (Bool-cases (out.vm_ok height)) [
      | inl ok ↦ rw ok (e, inr e)
      | inr failed ↦ rw failed (p, inl refl)
    ])
  ]

  -- A template with the seed of its height, kept and sent.
  pub with_template-IsOnSchedule :
      (client : out.Client) (best : Header) (id seed : ℕ) (item : Option DigestItem)
      (header : Option Header) (m : Mining)
      → best.number + 1 ≤ u32_max
      → seed ≡ seed_at (seed_height (best.number + 1))
      → IsOnSchedule seed_at m
      → IsOnSchedule seed_at (
          with_template out header_at propose encode
            (template_of out header_at propose encode client best id seed item header)
            m)
  unfolding new_template
  with_template-IsOnSchedule client best id seed item none m small e v = v
  with_template-IsOnSchedule client best id seed item (some header) m small e (p, s) = (
    p,
    record { at = refl; seeded = e; small = omega (arith, seed_height_le out (best.number + 1)) },
  )

  pub arm-IsOnSchedule :
      (client : out.Client) (pool_mode : Bool) (sc : Sharechain) (best : Header) (m : Mining)
      → HasSeed out header_at propose encode seed_at client (best.number + 1)
      → IsOnSchedule seed_at m
      → IsOnSchedule seed_at (arm out header_at propose encode client pool_mode sc best m)
  unfolding arm
  arm-IsOnSchedule client pool_mode sc best m h (p, s) =
      let n = best.number + 1 in
      let g = get_block_hash out header_at propose encode client in
      let ok = (maybe_reseed out n g m.rx_lx_pow).0 in
      let pow = (maybe_reseed out n g m.rx_lx_pow).1 in
      let (p', seeded) = reseed_seed n g m.rx_lx_pow (read_seed client n h) p in
      elim (Bool-cases ok) [
        | inl e ↦ rw e (
            with_template-IsOnSchedule client best (next_job_id m.job_id) pow.seed
              (prepare_pool_payout_digest_item encode pool_mode best.number sc)
              (propose best client) _ h.0 (after_ok seeded e) (p', s))
        | inr e ↦ rw e (p', s)
      ]
