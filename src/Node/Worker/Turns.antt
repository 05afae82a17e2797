-- ===== src/Node/Worker/Turns.antt =====
-- One step of thread 0, and one of another thread, of node/src/service.rs.
use lumenyx.Prelude.{
  ℕ, zero, suc, ◌<◌, ◌≡◌, ◌≢◌, refl, sym, ap, subst, ◌∙◌, arith, inl, inr, true, false, Option,
  none, some, List, [], ◌==◌, ==_iff, ==_refl, Bool-cases,
}
use lumenyx.Node.Miner.{find}
use lumenyx.Node.Miner.Templates.{find-erase}
use lumenyx.Node.Mining.{MiningJob}
use lumenyx.Node.Worker.{
  Shared, Pc, stopped, polling, clearing, building, waiting, attaching, publishing, announcing,
  mining, Worker, Answers, build, seeded, drop_old, worker_step, go_on, light_or_old, fast_or_light,
}
use lumenyx.Node.Worker.Seeded.{
  IsJob, IsRunning, IsFilled, seeded-IsRunning, poll_lem, light_seed, fast_seed, mine-IsRunning,
}

module _ (seed_at : ℕ → ℕ) where
  -- What is true of thread 0 at each place of its loop.
  abbrev pub IsReady : Shared → Worker → Pc → Type 0
  IsReady sh w (clearing job) = IsFilled seed_at job w
  IsReady sh w (building job) = IsFilled seed_at job w
  IsReady sh w (publishing job id made) =
      IsFilled seed_at job w
      × (find id sh.datasets ≡ some job.seed)
      × (sh.dataset ≢ some id)
      × (id < sh.next)
  IsReady sh w (announcing job id made) =
      IsFilled seed_at job w × (find id sh.datasets ≡ some job.seed)
  IsReady sh w stopped = Unit
  IsReady sh w polling = IsRunning seed_at sh.datasets w polling
  IsReady sh w (mining job left) = IsRunning seed_at sh.datasets w (mining job left)
  IsReady sh w _ = ⊥

  -- What is true of another thread as long as there was no dataset: its machine is a light one.
  abbrev pub IsLight : Worker → Pc → Type 0
  IsLight w (waiting job) = IsFilled seed_at job w
  IsLight w (attaching job) = IsFilled seed_at job w
  IsLight w stopped = Unit
  IsLight w polling = IsRunning seed_at [] w polling
  IsLight w (mining job left) = IsRunning seed_at [] w (mining job left)
  IsLight w _ = ⊥

  pub running-IsReady :
      (sh : Shared) (w : Worker) (p : Pc) → IsRunning seed_at sh.datasets w p → IsReady sh w p
  running-IsReady sh w stopped r = tt
  running-IsReady sh w polling r = r
  running-IsReady sh w (mining job left) r = r
  running-IsReady sh w (clearing job) r = absurd r
  running-IsReady sh w (building job) r = absurd r
  running-IsReady sh w (waiting job) r = absurd r
  running-IsReady sh w (attaching job) r = absurd r
  running-IsReady sh w (publishing job id made) r = absurd r
  running-IsReady sh w (announcing job id made) r = absurd r

  pub running-IsLight : (w : Worker) (p : Pc) → IsRunning seed_at [] w p → IsLight w p
  running-IsLight w stopped r = tt
  running-IsLight w polling r = r
  running-IsLight w (mining job left) r = r
  running-IsLight w (clearing job) r = absurd r
  running-IsLight w (building job) r = absurd r
  running-IsLight w (waiting job) r = absurd r
  running-IsLight w (attaching job) r = absurd r
  running-IsLight w (publishing job id made) r = absurd r
  running-IsLight w (announcing job id made) r = absurd r

drop_old_keeps :
    (id : ℕ) (current : Option ℕ) (datasets : List (ℕ × ℕ))
    → current ≢ some id
    → find id (drop_old current datasets) ≡ find id datasets
drop_old_keeps id none datasets other = refl
drop_old_keeps id (some old) datasets other =
    find-erase id old datasets ∙ elim (Bool-cases (id == old)) [
      | inl e ↦ absurd (other (ap some (sym ((==_iff id old).0 e))))
      | inr e ↦ rw e refl
    ]

-- The current dataset is one of those that were allocated.
abbrev pub IsAllocated : Shared → Type 0
IsAllocated sh = (id : ℕ) → sh.dataset ≡ some id → id < sh.next

module _ (rx_hash : (seed pre_hash : ℕ) → (nonce : List ℕ) → ℕ) (seed_at : ℕ → ℕ) where
  build-IsReady :
      (a : Answers) (sh : Shared) (w : Worker) (job : MiningJob)
      → a.light_ok ≡ true
      → IsAllocated sh
      → IsFilled seed_at job w
      → let (sh', w') = build a job sh w in IsReady seed_at sh' w' w'.pc × IsAllocated sh'
  unfolding build
  build-IsReady a sh w job l al (j, c, nz) = elim (Bool-cases a.dataset_ok) [
    | inl e ↦ rw e (
      (
        (j, c, nz),
        rw (==_refl sh.next) (ap some c),
        λ d. let small = al sh.next d in absurd (omega arith),
        omega arith,
      ),
      λ id d. let small = al id d in omega arith,
    )
    | inr e ↦ rw e (
      running-IsReady seed_at sh (seeded job (light_or_old a w) w) (go_on (light_or_old a w) job) (
          seeded-IsRunning seed_at sh.datasets w job (light_or_old a w) j nz
            (light_seed a w sh.datasets l ∙ ap some c)),
      al,
    )
  ]

  -- A step of thread 0, where a light machine can always be made.
  pub builder_step :
      (a : Answers) (sh : Shared) (w : Worker) (p : Pc)
      → w.pc ≡ p
      → a.light_ok ≡ true
      → IsJob seed_at sh.job
      → IsAllocated sh
      → IsReady seed_at sh w p
      → let (sh', w') = worker_step rx_hash 0 a sh w p in
        IsReady seed_at sh' w' w'.pc × IsAllocated sh'
  unfolding worker_step
  builder_step a sh w stopped at l j al r = (subst (IsReady seed_at sh w) (sym at) tt, al)
  builder_step a sh w polling at l j al r = (
    poll_lem seed_at (IsReady seed_at sh) 0 sh.datasets w sh.job at j r (running-IsReady seed_at sh)
        (λ w' f. f),
    al,
  )
  builder_step a sh w (clearing job) at l j al r = (r, al)
  builder_step a sh w (building job) at l j al r = build-IsReady a sh w job l al r
  builder_step a sh w (waiting job) at l j al r = absurd r
  builder_step a sh w (attaching job) at l j al r = absurd r
  builder_step a sh w (publishing job id made) at l j al (f, e, other, small) =
      ((f, drop_old_keeps id sh.dataset sh.datasets other ∙ e), λ k d. ground arith)
  builder_step a sh w (announcing job id made) at l j al ((i, c, nz), e) = (
    running-IsReady seed_at (record sh { seed_height = job.seed_height; dataset_ready = true })
        (seeded job (fast_or_light a made id w) w) (go_on (fast_or_light a made id w) job)
        (seeded-IsRunning seed_at sh.datasets w job (fast_or_light a made id w) i nz
          (fast_seed a made id w sh.datasets job.seed l c e)),
    al,
  )
  builder_step a sh w (mining job zero) at l j al r =
      let (sh', w') = worker_step rx_hash 0 a sh w (mining job 0) in
      (
        running-IsReady seed_at sh' w' w'.pc
            (mine-IsRunning rx_hash seed_at 0 a sh w job 0 sh.datasets r).0,
        al,
      )
  builder_step a sh w (mining job (suc left)) at l j al r =
      let (sh', w') = worker_step rx_hash 0 a sh w (mining job (suc left)) in
      (
        running-IsReady seed_at sh' w' w'.pc
            (mine-IsRunning rx_hash seed_at 0 a sh w job (suc left) sh.datasets r).0,
        al,
      )

  -- A step of another thread leaves the datasets alone.
  pub other_step :
      (i : ℕ) (a : Answers) (sh : Shared) (w : Worker) (p : Pc)
      → i ≢ 0
      → w.pc ≡ p
      → a.light_ok ≡ true
      → IsJob seed_at sh.job
      → sh.dataset ≡ none
      → IsLight seed_at w p
      → let (sh', w') = worker_step rx_hash i a sh w p in IsLight seed_at w' w'.pc
  unfolding worker_step
  other_step i a sh w stopped nz at l j d r = subst (IsLight seed_at w) (sym at) tt
  other_step i a sh w polling nz at l j d r =
      poll_lem seed_at (IsLight seed_at) i [] w sh.job at j r (running-IsLight seed_at)
        (λ w' f. let e : (i == 0) ≡ false = ground arith in rw e f)
  other_step i a sh w (clearing job) nz at l j d r = absurd r
  other_step i a sh w (building job) nz at l j d r = absurd r
  other_step i a sh w (waiting job) nz at l j d r = elim (Bool-cases sh.dataset_ready) [
    | inl e ↦ rw e r
    | inr e ↦ rw e (subst (IsLight seed_at w) (sym at) r)
  ]
  other_step i a sh w (attaching job) nz at l j d (k, c, z) = rw d (
      running-IsLight seed_at (seeded job (light_or_old a w) w) (go_on (light_or_old a w) job) (
        seeded-IsRunning seed_at [] w job (light_or_old a w) k z (light_seed a w [] l ∙ ap some c)))
  other_step i a sh w (publishing job id made) nz at l j d r = absurd r
  other_step i a sh w (announcing job id made) nz at l j d r = absurd r
  other_step i a sh w (mining job left) nz at l j d r =
      let w' = (worker_step rx_hash i a sh w (mining job left)).1 in
      running-IsLight seed_at w' w'.pc (mine-IsRunning rx_hash seed_at i a sh w job left [] r).0
