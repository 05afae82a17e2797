-- ===== src/Node/Worker/Runs.antt =====
-- The threads of node/src/service.rs over any sequence of their steps and of new jobs.
use lumenyx.Prelude.{
  ℕ, zero, suc, ◌≡◌, ◌≢◌, refl, sym, subst, ◌∙◌, arith, ◌⊎◌, inl, inr, Bool, true, false, Option,
  none, some, none-ne-some, List, [], ◌||◌, ◌==◌, ==_iff, if◌then◌else◌, Bool-cases,
}
use lumenyx.Node.Mining.{MiningJob}
use lumenyx.Node.Worker.{
  Vm, light, fast, Shared, Pc, stopped, polling, clearing, building, waiting, attaching, publishing,
  announcing, mining, Worker, Answers, System, start, shared_start, poll, build, go_on, seed_used,
  worker_step, turn, send_job, chunk_iters,
}
use lumenyx.Node.Worker.Seeded.{IsJob}
use lumenyx.Node.Worker.Turns.{IsReady, IsLight, IsAllocated, builder_step, other_step}

-- Where the threads can be that build no dataset.
abbrev pub IsOther : Pc → Type 0
IsOther (clearing job) = ⊥
IsOther (building job) = ⊥
IsOther (publishing job id made) = ⊥
IsOther (announcing job id made) = ⊥
IsOther _ = Unit

IsOther-go_on : (vm : Option Vm) (job : MiningJob) → IsOther (go_on vm job)
IsOther-go_on none job = tt
IsOther-go_on (some vm) job = tt

IsOther-if : (b : Bool) (p q : Pc) → IsOther p → IsOther q → IsOther (if b then p else q)
IsOther-if true p q o o' = o
IsOther-if false p q o o' = o'

IsOther-poll :
    (i : ℕ) (job : MiningJob) (w : Worker) → i ≢ 0 → IsOther w.pc → IsOther (poll i job w).pc
unfolding poll
IsOther-poll i job w nz o =
    elim (Bool-cases ((job.job_id == 0) || (job.job_id == w.last_processed_job_id))) [
      | inl e ↦ rw e o
      | inr e ↦ rw e (elim (Bool-cases (job.seed_height == w.last_seed_height)) [
        | inl f ↦ rw f (IsOther-go_on w.vm_opt job)
        | inr f ↦ rw f (let z : (i == 0) ≡ false = ground arith in rw z tt)
      ])
    ]

module _ (rx_hash : (seed pre_hash : ℕ) → (nonce : List ℕ) → ℕ) (seed_at : ℕ → ℕ) where
  -- A step of a thread other than 0 changes what is shared only by what it sends.
  keeps_shared :
      (i : ℕ) (a : Answers) (sh : Shared) (w : Worker) (p : Pc)
      → i ≢ 0
      → w.pc ≡ p
      → IsOther p
      → let (sh', w') = worker_step rx_hash i a sh w p in
        (sh'.datasets ≡ sh.datasets)
        × (sh'.dataset ≡ sh.dataset)
        × (sh'.next ≡ sh.next)
        × IsOther w'.pc
  unfolding worker_step
  keeps_shared i a sh w stopped nz at o = (refl, refl, refl, subst IsOther (sym at) tt)
  keeps_shared i a sh w polling nz at o =
      (refl, refl, refl, IsOther-poll i sh.job w nz (subst IsOther (sym at) tt))
  keeps_shared i a sh w (clearing job) nz at o = absurd o
  keeps_shared i a sh w (building job) nz at o = absurd o
  keeps_shared i a sh w (waiting job) nz at o = (
    refl,
    refl,
    refl,
    elim (Bool-cases sh.dataset_ready) [
      | inl e ↦ rw e tt
      | inr e ↦ rw e (subst IsOther (sym at) tt)
    ],
  )
  keeps_shared i a sh w (attaching job) nz at o = (refl, refl, refl, IsOther-go_on _ job)
  keeps_shared i a sh w (publishing job id made) nz at o = absurd o
  keeps_shared i a sh w (announcing job id made) nz at o = absurd o
  keeps_shared i a sh w (mining job zero) nz at o = (
    refl,
    refl,
    refl,
    IsOther-if (sh.job.job_id == job.job_id) (mining job chunk_iters) polling tt tt,
  )
  keeps_shared i a sh w (mining job (suc left)) nz at o =
      (refl, refl, refl, IsOther-if _ polling (mining job left) tt tt)

  none_before :
      (a : Answers) (sh : Shared) (w : Worker) (p : Pc)
      → (worker_step rx_hash 0 a sh w p).0.dataset ≡ none
      → sh.dataset ≡ none
  unfolding worker_step build
  none_before a sh w stopped d = d
  none_before a sh w polling d = d
  none_before a sh w (clearing job) d = d
  none_before a sh w (building job) d = ground arith
  none_before a sh w (waiting job) d = d
  none_before a sh w (attaching job) d = d
  none_before a sh w (publishing job id made) d = absurd (none-ne-some id (sym d))
  none_before a sh w (announcing job id made) d = d
  none_before a sh w (mining job zero) d = d
  none_before a sh w (mining job (suc left)) d = d

  same_job :
      (i : ℕ) (a : Answers) (sh : Shared) (w : Worker) (p : Pc)
      → (worker_step rx_hash i a sh w p).0.job ≡ sh.job
  unfolding worker_step build
  same_job i a sh w (building job) = ground arith
  same_job i a sh w (mining job zero) = refl
  same_job i a sh w (mining job (suc left)) = refl
  same_job i a sh w stopped = refl
  same_job i a sh w polling = refl
  same_job i a sh w (clearing job) = refl
  same_job i a sh w (waiting job) = refl
  same_job i a sh w (attaching job) = refl
  same_job i a sh w (publishing job id made) = refl
  same_job i a sh w (announcing job id made) = refl

-- What thread 0 knows does not depend on the job of the channel or on what was sent.
IsReady-sent :
    (seed_at : ℕ → ℕ) (sh sh' : Shared) (w : Worker) (p : Pc)
    → sh'.datasets ≡ sh.datasets
    → sh'.dataset ≡ sh.dataset
    → sh'.next ≡ sh.next
    → IsReady seed_at sh w p
    → IsReady seed_at sh' w p
IsReady-sent seed_at sh sh' w stopped e f g r = r
IsReady-sent seed_at sh sh' w polling e f g r = rw e r
IsReady-sent seed_at sh sh' w (clearing job) e f g r = r
IsReady-sent seed_at sh sh' w (building job) e f g r = r
IsReady-sent seed_at sh sh' w (waiting job) e f g r = r
IsReady-sent seed_at sh sh' w (attaching job) e f g r = r
IsReady-sent seed_at sh sh' w (publishing job id made) e f g r = rw e (rw f (rw g r))
IsReady-sent seed_at sh sh' w (announcing job id made) e f g r = rw e r
IsReady-sent seed_at sh sh' w (mining job left) e f g r = rw e r

-- What is true of all threads together.
pub record IsSound (seed_at : ℕ → ℕ) (s : System) : Type 0 where
  pub job : IsJob seed_at s.shared.job
  pub allocated : IsAllocated s.shared
  pub builder : IsReady seed_at s.shared (s.worker 0) (s.worker 0).pc
  pub other : (i : ℕ) → i ≢ 0 → IsOther (s.worker i).pc
  pub without_dataset :
      (i : ℕ) → i ≢ 0 → s.shared.dataset ≡ none → IsLight seed_at (s.worker i) (s.worker i).pc

module _ (rx_hash : (seed pre_hash : ℕ) → (nonce : List ℕ) → ℕ) (seed_at : ℕ → ℕ) where
  -- The states that the threads and the mining task lead to, where a light machine can always be made
  -- and each job has the seed of its seed height.
  pub data Reach : System → Type 0 where
    begin :
        (cache_ok : ℕ → Bool) (seed_time : ℕ → ℕ)
        → Reach (record { shared = shared_start; worker = λ i. start i (cache_ok i) (seed_time i) })
    step :
        {s : System} (i : ℕ) (a : Answers)
        → a.light_ok ≡ true
        → Reach s
        → Reach (turn rx_hash i a s)
    send : {s : System} (job : MiningJob) → IsJob seed_at job → Reach s → Reach (send_job job s)

  begin-IsSound :
      (cache_ok : ℕ → Bool) (seed_time : ℕ → ℕ)
      → IsSound seed_at
          (record { shared = shared_start; worker = λ i. start i (cache_ok i) (seed_time i) })
  unfolding start shared_start
  begin-IsSound cache_ok seed_time = record {
    job = inl refl;
    allocated = λ id e. absurd (none-ne-some id e);
    builder = elim (Bool-cases (cache_ok 0)) [ inl e ↦ rw e (inl (refl, refl)) | inr e ↦ rw e tt ];
    other = λ i nz. IsOther-if (cache_ok i) polling stopped tt tt;
    without_dataset = λ i nz d. elim (Bool-cases (cache_ok i)) [
      | inl e ↦ rw e (inl (refl, refl))
      | inr e ↦ rw e tt
    ];
  }

  -- A turn of thread 0.
  builder-IsSound :
      (a : Answers) (s : System)
      → a.light_ok ≡ true
      → IsSound seed_at s
      → IsSound seed_at (turn rx_hash 0 a s)
  unfolding turn
  builder-IsSound a s l v =
      let w = s.worker 0 in
      let (ready, al) =
        builder_step rx_hash seed_at a s.shared w w.pc refl l v.job v.allocated v.builder in
      record {
        job = rw (same_job rx_hash seed_at 0 a s.shared w w.pc) v.job;
        allocated = al;
        builder = ready;
        other = λ i nz. let z : (0 == i) ≡ false = ground arith in rw z (v.other i nz);
        without_dataset = λ i nz d.
            let z : (0 == i) ≡ false = ground arith in
            rw z (v.without_dataset i nz (none_before rx_hash seed_at a s.shared w w.pc d));
      }

  -- A turn of another thread.
  other-IsSound :
      (i : ℕ) (a : Answers) (s : System)
      → i ≢ 0
      → a.light_ok ≡ true
      → IsSound seed_at s
      → IsSound seed_at (turn rx_hash i a s)
  unfolding turn
  other-IsSound i a s nz l v =
      let w = s.worker i in
      let sh' = (worker_step rx_hash i a s.shared w w.pc).0 in
      let (e, f, g, o) = keeps_shared rx_hash seed_at i a s.shared w w.pc nz refl (v.other i nz) in
      let z : (i == 0) ≡ false = ground arith in
      record {
        job = rw (same_job rx_hash seed_at i a s.shared w w.pc) v.job;
        allocated = rw f (rw g v.allocated);
        builder =
            rw z (IsReady-sent seed_at s.shared sh' (s.worker 0) (s.worker 0).pc e f g v.builder);
        other = λ j nz'. elim (Bool-cases (i == j)) [
          | inl same ↦ rw same o
          | inr differ ↦ rw differ (v.other j nz')
        ];
        without_dataset = λ j nz' d. elim (Bool-cases (i == j)) [
          | inl same ↦ rw same (
              other_step rx_hash seed_at i a s.shared w w.pc nz refl l v.job (sym f ∙ d)
                (v.without_dataset i nz (sym f ∙ d)))
          | inr differ ↦ rw differ (v.without_dataset j nz' (sym f ∙ d))
        ];
      }

  Reach-IsSound : {s : System} → Reach s → IsSound seed_at s
  unfolding send_job
  Reach-IsSound (begin cache_ok seed_time) = begin-IsSound cache_ok seed_time
  Reach-IsSound (step {s = s} i a l r) = elim (Bool-cases (i == 0)) [
    | inl e ↦
        subst (λ k. IsSound seed_at (turn rx_hash k a s)) (sym ((==_iff i 0).0 e))
          (builder-IsSound a s l (Reach-IsSound r))
    | inr e ↦ other-IsSound i a s (ground arith) l (Reach-IsSound r)
  ]
  Reach-IsSound (send {s = s} job j r) =
      let v = Reach-IsSound r in
      record {
        job = j;
        allocated = v.allocated;
        builder =
            IsReady-sent seed_at s.shared (send_job job s).shared (s.worker 0) (s.worker 0).pc refl
              refl refl v.builder;
        other = v.other;
        without_dataset = v.without_dataset;
      }

  -- A light machine is right whatever the datasets are.
  light_machine :
      (w : Worker) (vm : Option Vm) (datasets : List (ℕ × ℕ)) (seed : ℕ)
      → seed_used [] w.cache vm ≡ some seed
      → seed_used datasets w.cache vm ≡ some seed
  unfolding seed_used
  light_machine w none datasets seed e = e
  light_machine w (some (light made)) datasets seed e = e
  light_machine w (some (fast id)) datasets seed e = absurd (none-ne-some seed e)

  builder_seed :
      {s : System} (left : ℕ) (job : MiningJob)
      → Reach s
      → (s.worker 0).pc ≡ mining job left
      → seed_used s.shared.datasets (s.worker 0).cache (s.worker 0).vm_opt ≡ some job.seed
  builder_seed {s} left job r at =
      (subst (IsReady seed_at s.shared (s.worker 0)) at (Reach-IsSound r).builder).1

  other_seed :
      {s : System} (i left : ℕ) (job : MiningJob)
      → Reach s
      → i ≢ 0
      → s.shared.dataset ≡ none
      → (s.worker i).pc ≡ mining job left
      → seed_used s.shared.datasets (s.worker i).cache (s.worker i).vm_opt ≡ some job.seed
  other_seed {s} i left job r nz d at =
      light_machine (s.worker i) (s.worker i).vm_opt s.shared.datasets job.seed
        (subst (IsLight seed_at (s.worker i)) at ((Reach-IsSound r).without_dataset i nz d)).1

  -- In every order of the threads' steps and of new jobs, where a light machine can always be made and
  -- each job has the seed of its seed height, a thread that searches hashes with the seed of its job,
  -- from memory that is as the machine was made, if it is thread 0, or if no dataset was published so
  -- far.
  pub miner_seed :
      {s : System} (i left : ℕ) (job : MiningJob)
      → Reach s
      → (i ≡ 0) ⊎ (s.shared.dataset ≡ none)
      → (s.worker i).pc ≡ mining job left
      → seed_used s.shared.datasets (s.worker i).cache (s.worker i).vm_opt ≡ some job.seed
  miner_seed {s} i left job r h at = elim (Bool-cases (i == 0)) [
    | inl e ↦
        let z = (==_iff i 0).0 e in
        subst
          (λ k. seed_used s.shared.datasets (s.worker k).cache (s.worker k).vm_opt ≡ some job.seed)
          (sym z) (builder_seed left job r (subst (λ k. (s.worker k).pc ≡ mining job left) z at))
    | inr e ↦
        let nz : i ≢ 0 = ground arith in
        other_seed i left job r nz (elim h [ inl z ↦ absurd (nz z) | inr d ↦ d ]) at
  ]
