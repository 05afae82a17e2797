-- ===== src/Node/Worker/Broken.antt =====
-- Orders of steps of the threads of node/src/service.rs in which a thread does not search as it should.
use lumenyx.Prelude.{
  ℕ, ◌≡◌, ◌≢◌, refl, sym, ap, subst, ◌∙◌, arith, inl, inr, Bool, true, false, none, some, List, [],
  ◌||◌, ◌==◌, ==_iff, ==_refl, Bool-cases,
}
use lumenyx.Node.Miner.{find, erase}
use lumenyx.Node.Miner.Templates.{find-erase}
use lumenyx.Node.Mining.{MiningJob}
use lumenyx.Node.Worker.{
  fast, Shared, Pc, stopped, polling, clearing, building, waiting, attaching, publishing,
  announcing, mining, Worker, Answers, System, start, shared_start, poll, build, seed_used,
  worker_step, turn, send_job,
}

polling-ne-stopped : polling ≢ stopped
polling-ne-stopped e = subst (elim [ polling ↦ Unit | _ ↦ ⊥ ]) e tt

-- A thread that has no machine and does not build one.
abbrev pub IsIdle : Pc → Type 0
IsIdle stopped = Unit
IsIdle polling = Unit
IsIdle (waiting job) = Unit
IsIdle _ = ⊥

module _ (rx_hash : (seed pre_hash : ℕ) → (nonce : List ℕ) → ℕ) where
  -- A thread that waits while the flag is set takes the dataset that is there.
  attach_current :
      (s : System) (i id seed : ℕ) (job : MiningJob) (b : Answers)
      → (s.worker i).pc ≡ waiting job
      → s.shared.dataset_ready ≡ true
      → s.shared.dataset ≡ some id
      → find id s.shared.datasets ≡ some seed
      → b.fast_ok ≡ true
      → let s' = turn rx_hash i b (turn rx_hash i b s) in
        ((s'.worker i).pc ≡ mining job 0)
        × (seed_used s'.shared.datasets (s'.worker i).cache (s'.worker i).vm_opt ≡ some seed)
  unfolding turn worker_step seed_used
  attach_current s i id seed job b at ready d e ok =
      rw (==_refl i) (rw at (rw ready (rw d (rw ok (refl, e)))))

  -- If the allocation of a dataset fails while an old one is still there, a thread that waits for the
  -- new one makes its machine from the old one, and searches for the new job with the old seed.
  pub stale_dataset :
      (s : System) (i old seed : ℕ) (job : MiningJob) (a b : Answers)
      → i ≢ 0
      → (s.worker 0).pc ≡ building job
      → (s.worker i).pc ≡ waiting job
      → s.shared.dataset ≡ some old
      → find old s.shared.datasets ≡ some seed
      → a.dataset_ok ≡ false
      → b.fast_ok ≡ true
      → let s' = turn rx_hash i b (turn rx_hash i b (turn rx_hash 0 a s)) in
        ((s'.worker i).pc ≡ mining job 0)
        × (seed_used s'.shared.datasets (s'.worker i).cache (s'.worker i).vm_opt ≡ some seed)
  unfolding turn worker_step build
  stale_dataset s i old seed job a b nz at0 at d e failed ok =
      let z : (0 == i) ≡ false = ground arith in
      attach_current (turn rx_hash 0 a s) i old seed job b (rw z at) (rw at0 (rw failed refl))
        (rw at0 (rw failed d)) (rw at0 (rw failed e)) ok

  erased_is_gone : (id : ℕ) (datasets : List (ℕ × ℕ)) → find id (erase id datasets) ≡ none
  erased_is_gone id datasets = find-erase id id datasets ∙ rw (==_refl id) refl

  -- When thread 0 puts its dataset in the place of another, the memory is gone that the machine of
  -- every other thread over the old one still searches with.
  pub dropped_in_use :
      (s : System) (i old new left : ℕ) (made : Bool) (job job' : MiningJob) (a : Answers)
      → i ≢ 0
      → (s.worker 0).pc ≡ publishing job new made
      → s.shared.dataset ≡ some old
      → (s.worker i).pc ≡ mining job' left
      → (s.worker i).vm_opt ≡ some (fast old)
      → let s' = turn rx_hash 0 a s in
        ((s'.worker i).pc ≡ mining job' left)
        × (seed_used s'.shared.datasets (s'.worker i).cache (s'.worker i).vm_opt ≡ none)
  unfolding turn worker_step seed_used
  dropped_in_use s i old new left made job job' a nz at0 d at m =
      let z : (0 == i) ≡ false = ground arith in
      rw z (rw at0 (rw d (rw m (at, erased_is_gone old s.shared.datasets))))

  -- What follows from a state by turns of the threads and new jobs, whatever the library answers.
  pub data Later (s : System) : System → Type 0 where
    now : Later s s
    step : {s' : System} (i : ℕ) (a : Answers) → Later s s' → Later s (turn rx_hash i a s')
    send : {s' : System} (job : MiningJob) → Later s s' → Later s (send_job job s')

  abbrev IsLost : System → Type 0
  IsLost s =
      ((s.worker 0).pc ≡ stopped)
      × (s.shared.dataset_ready ≡ false)
      × (s.shared.sent ≡ [])
      × ((i : ℕ) → IsIdle (s.worker i).pc × ((s.worker i).vm_opt ≡ none))

  poll_no_vm :
      (i : ℕ) (job : MiningJob) (w : Worker)
      → i ≢ 0
      → IsIdle w.pc
      → w.vm_opt ≡ none
      → IsIdle (poll i job w).pc × ((poll i job w).vm_opt ≡ none)
  unfolding poll
  poll_no_vm i job w nz o v =
      elim (Bool-cases ((job.job_id == 0) || (job.job_id == w.last_processed_job_id))) [
        | inl e ↦ rw e (o, v)
        | inr e ↦ rw e (elim (Bool-cases (job.seed_height == w.last_seed_height)) [
          | inl f ↦ rw f (rw v (tt, refl))
          | inr f ↦ rw f (let z : (i == 0) ≡ false = ground arith in rw z (tt, v))
        ])
      ]

  step_no_vm :
      (i : ℕ) (a : Answers) (sh : Shared) (w : Worker) (p : Pc)
      → w.pc ≡ p
      → ((i ≡ 0) → p ≡ stopped)
      → sh.dataset_ready ≡ false
      → IsIdle p
      → w.vm_opt ≡ none
      → let (sh', w') = worker_step rx_hash i a sh w p in
        (sh' ≡ sh) × IsIdle w'.pc × (w'.vm_opt ≡ none) × ((i ≡ 0) → w'.pc ≡ stopped)
  unfolding worker_step
  step_no_vm i a sh w stopped at first ready o v = (refl, subst IsIdle (sym at) tt, v, λ z. at)
  step_no_vm i a sh w polling at first ready o v =
      let nz : i ≢ 0 = λ z. polling-ne-stopped (first z) in
      let (idle, none_yet) = poll_no_vm i sh.job w nz (subst IsIdle (sym at) tt) v in
      (refl, idle, none_yet, λ z. absurd (nz z))
  step_no_vm i a sh w (waiting job) at first ready o v =
      rw ready (refl, subst IsIdle (sym at) tt, v, λ z. at ∙ first z)
  step_no_vm i a sh w (clearing job) at first ready o v = absurd o
  step_no_vm i a sh w (building job) at first ready o v = absurd o
  step_no_vm i a sh w (attaching job) at first ready o v = absurd o
  step_no_vm i a sh w (publishing job id made) at first ready o v = absurd o
  step_no_vm i a sh w (announcing job id made) at first ready o v = absurd o
  step_no_vm i a sh w (mining job left) at first ready o v = absurd o

  turn-IsLost : (i : ℕ) (a : Answers) (s : System) → IsLost s → IsLost (turn rx_hash i a s)
  unfolding turn
  turn-IsLost i a s (first, ready, unsent, all) =
      let w = s.worker i in
      let (same, idle, none_yet, still) =
        step_no_vm i a s.shared w w.pc refl (λ z. ap (λ k. (s.worker k).pc) z ∙ first) ready
          (all i).0 (all i).1 in
      (
        elim (Bool-cases (i == 0)) [ inl e ↦ rw e (still ((==_iff i 0).0 e)) | inr e ↦ rw e first ],
        ap (λ sh. sh.dataset_ready) same ∙ ready,
        ap (λ sh. sh.sent) same ∙ unsent,
        λ j. elim (Bool-cases (i == j)) [ inl e ↦ rw e (idle, none_yet) | inr e ↦ rw e (all j) ],
      )

  later-IsLost : {s s' : System} → IsLost s → Later s s' → IsLost s'
  unfolding send_job
  later-IsLost v now = v
  later-IsLost v (step {s' = s'} i a l) = turn-IsLost i a s' (later-IsLost v l)
  later-IsLost v (send job l) = later-IsLost v l

  begin-IsLost :
      (cache_ok : ℕ → Bool) (seed_time : ℕ → ℕ)
      → cache_ok 0 ≡ false
      → IsLost (record { shared = shared_start; worker = λ i. start i (cache_ok i) (seed_time i) })
  unfolding start shared_start
  begin-IsLost cache_ok seed_time e = (
    rw e refl,
    refl,
    refl,
    λ i. elim (Bool-cases (cache_ok i)) [ inl f ↦ rw f (tt, refl) | inr f ↦ rw f (tt, refl) ],
  )

  -- If thread 0 gets no cache, no thread ever sends a nonce or a share: whatever jobs come and whatever
  -- the library answers, none of the others gets past the wait for the first dataset.
  pub no_cache_no_mining :
      {s' : System} (cache_ok : ℕ → Bool) (seed_time : ℕ → ℕ)
      → cache_ok 0 ≡ false
      → Later
          (record { shared = shared_start; worker = λ i. start i (cache_ok i) (seed_time i) })
          s'
      → (s'.shared.sent ≡ []) × ((i : ℕ) → IsIdle (s'.worker i).pc)
  no_cache_no_mining cache_ok seed_time e l =
      let (first, ready, unsent, all) = later-IsLost (begin-IsLost cache_ok seed_time e) l in
      (unsent, λ i. (all i).0)
