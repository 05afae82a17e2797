-- ===== src/Node/Task/Jobs.antt =====
-- The threads of node/src/service.rs work only on jobs that the mining task sent.
use lumenyx.Prelude.{
  ℕ, zero, suc, ◌≡◌, refl, sym, subst, ◌⊎◌, inl, inr, Bool, true, false, Option, none, some, List,
  ◌==◌, ◌||◌, Bool-cases, if◌then◌else◌,
}
use lumenyx.Node.Mining.{MiningJob}
use lumenyx.Node.Worker.{
  Vm, Pc, stopped, polling, clearing, building, waiting, attaching, publishing, announcing, mining,
  Shared, Worker, Answers, System, start, shared_start, poll, build, go_on, worker_step, turn,
  send_job, chunk_iters,
}

module _ (rx_hash : (seed pre_hash : ℕ) → (nonce : List ℕ) → ℕ) (Q : MiningJob → Type 0) where
  -- The job that a thread is at.
  abbrev pub OnPc : Pc → Type 0
  OnPc stopped = Unit
  OnPc polling = Unit
  OnPc (clearing job) = Q job
  OnPc (building job) = Q job
  OnPc (waiting job) = Q job
  OnPc (attaching job) = Q job
  OnPc (publishing job id made) = Q job
  OnPc (announcing job id made) = Q job
  OnPc (mining job left) = Q job

  -- The channel's job and the jobs of the threads.
  pub record HasJobs (s : System) : Type 0 where
    pub channel : (s.shared.job.job_id ≡ 0) ⊎ Q s.shared.job
    pub threads : (i : ℕ) → OnPc (s.worker i).pc

  OnPc-go_on : (vm : Option Vm) (job : MiningJob) → Q job → OnPc (go_on vm job)
  OnPc-go_on none job q = tt
  OnPc-go_on (some vm) job q = q

  OnPc-if : (b : Bool) (p p' : Pc) → OnPc p → OnPc p' → OnPc (if b then p else p')
  OnPc-if true p p' o o' = o
  OnPc-if false p p' o o' = o'

  OnPc-poll :
      (i : ℕ) (job : MiningJob) (w : Worker)
      → (job.job_id ≡ 0) ⊎ Q job
      → OnPc w.pc
      → OnPc (poll i job w).pc
  unfolding poll
  OnPc-poll i job w (inl z) o =
      let skipped : ((job.job_id == 0) || (job.job_id == w.last_processed_job_id)) ≡ true =
        rw z refl in
      rw skipped o
  OnPc-poll i job w (inr q) o =
      elim (Bool-cases ((job.job_id == 0) || (job.job_id == w.last_processed_job_id))) [
        | inl e ↦ rw e o
        | inr e ↦ rw e (elim (Bool-cases (job.seed_height == w.last_seed_height)) [
          | inl f ↦ rw f (OnPc-go_on w.vm_opt job q)
          | inr f ↦ rw f (OnPc-if (i == 0) (clearing job) (waiting job) q q)
        ])
      ]

  OnPc-build :
      (a : Answers) (job : MiningJob) (sh : Shared) (w : Worker)
      → Q job
      → ((build a job sh w).0.job ≡ sh.job) × OnPc (build a job sh w).1.pc
  unfolding build
  OnPc-build a job sh w q = elim (Bool-cases a.dataset_ok) [
    | inl e ↦ rw e (refl, q)
    | inr e ↦ rw e (refl, OnPc-go_on _ job q)
  ]

  -- A step of a thread keeps the channel's job, and takes its own from there.
  step_jobs :
      (i : ℕ) (a : Answers) (sh : Shared) (w : Worker) (p : Pc)
      → w.pc ≡ p
      → (sh.job.job_id ≡ 0) ⊎ Q sh.job
      → OnPc p
      → ((worker_step rx_hash i a sh w p).0.job ≡ sh.job)
        × OnPc (worker_step rx_hash i a sh w p).1.pc
  unfolding worker_step
  step_jobs i a sh w stopped at c o = (refl, subst OnPc (sym at) tt)
  step_jobs i a sh w polling at c o = (refl, OnPc-poll i sh.job w c (subst OnPc (sym at) tt))
  step_jobs i a sh w (clearing job) at c o = (refl, o)
  step_jobs i a sh w (building job) at c o = OnPc-build a job sh w o
  step_jobs i a sh w (waiting job) at c o = (
    refl,
    elim (Bool-cases sh.dataset_ready) [ inl e ↦ rw e o | inr e ↦ rw e (subst OnPc (sym at) o) ],
  )
  step_jobs i a sh w (attaching job) at c o = (refl, OnPc-go_on _ job o)
  step_jobs i a sh w (publishing job id made) at c o = (refl, o)
  step_jobs i a sh w (announcing job id made) at c o = (refl, OnPc-go_on _ job o)
  step_jobs i a sh w (mining job zero) at c o =
      (refl, OnPc-if (sh.job.job_id == job.job_id) (mining job chunk_iters) polling o tt)
  step_jobs i a sh w (mining job (suc left)) at c o =
      (refl, OnPc-if _ polling (mining job left) tt o)

  pub turn-HasJobs : (i : ℕ) (a : Answers) (s : System) → HasJobs s → HasJobs (turn rx_hash i a s)
  unfolding turn
  turn-HasJobs i a s v =
      let (same, o) =
        step_jobs i a s.shared (s.worker i) (s.worker i).pc refl v.channel (v.threads i) in
      record {
        channel = rw same v.channel;
        threads = λ j. elim (Bool-cases (i == j)) [ inl e ↦ rw e o | inr e ↦ rw e (v.threads j) ];
      }

  pub send_job-HasJobs :
      (job : MiningJob) (s : System) → Q job → HasJobs s → HasJobs (send_job job s)
  unfolding send_job
  send_job-HasJobs job s q v = record { channel = inr q; threads = v.threads }

  pub start-HasJobs :
      (cache_ok : ℕ → Bool) (seed_time : ℕ → ℕ)
      → HasJobs (record { shared = shared_start; worker = λ i. start i (cache_ok i) (seed_time i) })
  unfolding start shared_start
  start-HasJobs cache_ok seed_time = record {
    channel = inl refl;
    threads = λ i. OnPc-if (cache_ok i) polling stopped tt tt;
  }
