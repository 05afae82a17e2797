-- ===== src/Node/Worker/Seeded.antt =====
-- Which seed the threads of node/src/service.rs hash with, in every order of their steps.
use lumenyx.Prelude.{
  ℕ, zero, suc, ◌<◌, ◌≡◌, ◌≢◌, refl, sym, ap, subst, ◌∙◌, arith, ◌⊎◌, inl, inr, Bool, true, false,
  Option, none, some, List, ◌==◌, ==_iff, ==_refl, if◌then◌else◌, Bool-cases, ◌||◌, u64_max,
}
use lumenyx.Node.Miner.{find}
use lumenyx.Node.Mining.{MiningJob}
use lumenyx.Node.Worker.{
  Vm, Shared, Pc, stopped, polling, clearing, waiting, mining, Worker, Answers, poll, seeded,
  seed_used, worker_step, go_on, light_or_old, fast_or_light, chunk_iters,
}

not_zero : (a b : ℕ) → ((a == 0) || (a == b)) ≡ false → a ≢ 0
not_zero a b h = ground arith

module _ (seed_at : ℕ → ℕ) where
  -- A job has the seed of its seed height.
  abbrev pub IsJob : MiningJob → Type 0
  IsJob job =
      (job.job_id ≡ 0) ⊎ ((job.seed ≡ seed_at job.seed_height) × (job.seed_height < u64_max))

  -- The machine of a thread has the seed of the height that it was made for, or there is none yet.
  abbrev pub IsSeeded : (datasets : List (ℕ × ℕ)) → Worker → Type 0
  IsSeeded datasets w =
      ((w.vm_opt ≡ none) × (w.last_seed_height ≡ u64_max))
      ⊎ (seed_used datasets w.cache w.vm_opt ≡ some (seed_at w.last_seed_height))

  -- What is true of a thread between two changes of seed.
  abbrev pub IsRunning : (datasets : List (ℕ × ℕ)) → Worker → Pc → Type 0
  IsRunning datasets w stopped = Unit
  IsRunning datasets w polling = IsSeeded datasets w
  IsRunning datasets w (mining job left) =
      IsSeeded datasets w × (seed_used datasets w.cache w.vm_opt ≡ some job.seed)
  IsRunning datasets w _ = ⊥

  -- The cache is filled from the seed of a job.
  abbrev pub IsFilled : MiningJob → Worker → Type 0
  IsFilled job w = IsJob job × (w.cache ≡ job.seed) × (job.job_id ≢ 0)

  -- After a change of seed the machine has the seed of the job.
  pub seeded-IsRunning :
      (datasets : List (ℕ × ℕ)) (w : Worker) (job : MiningJob) (vm : Option Vm)
      → IsJob job
      → job.job_id ≢ 0
      → seed_used datasets w.cache vm ≡ some job.seed
      → IsRunning datasets (seeded job vm w) (go_on vm job)
  seeded-IsRunning datasets w job none (inl z) nz e = absurd (nz z)
  seeded-IsRunning datasets w job (some vm) (inl z) nz e = absurd (nz z)
  seeded-IsRunning datasets w job none (inr (s, small)) nz e = inr (e ∙ ap some s)
  seeded-IsRunning datasets w job (some vm) (inr (s, small)) nz e = (inr (e ∙ ap some s), e)

  -- A job of the same seed goes to the machine that is there.
  kept-IsRunning :
      (datasets : List (ℕ × ℕ)) (w : Worker) (job : MiningJob) (vm : Option Vm)
      → w.vm_opt ≡ vm
      → IsJob job
      → job.job_id ≢ 0
      → job.seed_height ≡ w.last_seed_height
      → IsSeeded datasets w
      → IsRunning datasets
          (record w { pc = go_on vm job; last_processed_job_id = job.job_id })
          (go_on vm job)
  kept-IsRunning datasets w job vm e (inl z) nz h r = absurd (nz z)
  kept-IsRunning datasets w job none e (inr (s, small)) nz h r = r
  kept-IsRunning datasets w job (some vm) e (inr (s, small)) nz h (inl (absent, top)) =
      absurd (omega arith)
  kept-IsRunning datasets w job (some vm) e (inr (s, small)) nz h (inr used) =
      (inr used, used ∙ ap (λ k. some (seed_at k)) (sym h) ∙ ap some (sym s))

  -- After a look at the channel a thread runs, or its cache is filled from the job's seed.
  pub poll_lem :
      (P : Worker → Pc → Type 0) (i : ℕ) (datasets : List (ℕ × ℕ)) (w : Worker) (job : MiningJob)
      → w.pc ≡ polling
      → IsJob job
      → IsSeeded datasets w
      → ((w' : Worker) (p : Pc) → IsRunning datasets w' p → P w' p)
      → ((w' : Worker) → IsFilled job w' → P w' (if i == 0 then clearing job else waiting job))
      → P (poll i job w) (poll i job w).pc
  unfolding poll
  poll_lem P i datasets w job at j r runs fills =
      elim (Bool-cases ((job.job_id == 0) || (job.job_id == w.last_processed_job_id))) [
        | inl e ↦ rw e (subst (P w) (sym at) (runs w polling r))
        | inr e ↦ rw e (elim (Bool-cases (job.seed_height == w.last_seed_height)) [
          | inl f ↦ rw f (
              runs _ _ (
                kept-IsRunning datasets w job w.vm_opt refl j (not_zero _ _ e) ((==_iff _ _).0 f)
                  r))
          | inr f ↦ rw f (fills _ (j, refl, not_zero _ _ e))
        ])
      ]

  branch-IsRunning :
      (datasets : List (ℕ × ℕ)) (w : Worker) (b : Bool) (p q : Pc)
      → IsRunning datasets w p
      → IsRunning datasets w q
      → IsRunning datasets w (if b then p else q)
  branch-IsRunning datasets w true p q r r' = r
  branch-IsRunning datasets w false p q r r' = r'

pub light_seed :
    (a : Answers) (w : Worker) (datasets : List (ℕ × ℕ))
    → a.light_ok ≡ true
    → seed_used datasets w.cache (light_or_old a w) ≡ some w.cache
unfolding seed_used
light_seed a w datasets l = rw l (rw (==_refl w.cache) refl)

pub fast_seed :
    (a : Answers) (made : Bool) (id : ℕ) (w : Worker) (datasets : List (ℕ × ℕ)) (s : ℕ)
    → a.light_ok ≡ true
    → w.cache ≡ s
    → find id datasets ≡ some s
    → seed_used datasets w.cache (fast_or_light a made id w) ≡ some s
unfolding seed_used
fast_seed a true id w datasets s l c e = e
fast_seed a false id w datasets s l c e = light_seed a w datasets l ∙ ap some c

module _ (rx_hash : (seed pre_hash : ℕ) → (nonce : List ℕ) → ℕ) (seed_at : ℕ → ℕ) where
  -- A search step keeps a thread running; it uses no more than what it sends.
  pub mine-IsRunning :
      (i : ℕ) (a : Answers) (sh : Shared) (w : Worker) (job : MiningJob) (left : ℕ)
      (datasets : List (ℕ × ℕ))
      → IsRunning seed_at datasets w (mining job left)
      → let (sh', w') = worker_step rx_hash i a sh w (mining job left) in
        IsRunning seed_at datasets w' w'.pc × (sh' ≡ record sh { sent = sh'.sent })
  unfolding worker_step
  mine-IsRunning i a sh w job zero datasets r = (
    branch-IsRunning seed_at datasets w (sh.job.job_id == job.job_id) (mining job chunk_iters)
        polling r r.0,
    refl,
  )
  mine-IsRunning i a sh w job (suc left) datasets r =
      (branch-IsRunning seed_at datasets w _ polling (mining job left) r.0 r, refl)
