-- ===== src/Node/Task/Seeds.antt =====
-- The seed that the threads of node/src/service.rs hash with, under any order of the steps of the mining
-- task and of the threads.
use lumenyx.Prelude.{ℕ, ◌≡◌, subst, ap, ◌∙◌, ◌⊎◌, inr, Option, none, some, List}
use lumenyx.Halving.{PoolPayoutDigest}
use lumenyx.Node.Seed.{seed_height}
use lumenyx.Node.Import.{Outside, Header}
use lumenyx.Node.Mining.{MiningJob, Mining}
use lumenyx.Node.Worker.{System, mining, seed_used}
use lumenyx.Node.Worker.Runs.{Reach, miner_seed}
use lumenyx.Node.Task.{Running, launched, moved, notified, found, searched, publish}
use lumenyx.Node.Task.Scheduled.{IsScheduled, IsSent, IsOnSchedule}
use lumenyx.Node.Task.Steps.{
  launch-IsOnSchedule, on_import_notification-IsOnSchedule, on_found-IsOnSchedule,
}
use lumenyx.Node.Task.Jobs.{OnPc, HasJobs, turn-HasJobs, send_job-HasJobs, start-HasJobs}

module _ (rx_hash : (seed pre_hash : ℕ) → (nonce : List ℕ) → ℕ) (seed_at : ℕ → ℕ) where
  -- The threads are in an order of their steps with jobs of the schedule.
  record IsServed (s : System) : Type 0 where
    reach : Reach rx_hash seed_at s
    jobs : HasJobs rx_hash (IsScheduled seed_at) s

  publish-IsServed :
      (job : Option MiningJob) (s : System)
      → IsSent seed_at job
      → IsServed s
      → IsServed (publish job s)
  publish-IsServed none s sent v = v
  publish-IsServed (some job) s sent v = record {
    reach = Reach.send job (inr (sent.seeded, sent.small)) v.reach;
    jobs = send_job-HasJobs rx_hash (IsScheduled seed_at) job s sent v.jobs;
  }

module _ (out : Outside) (header_at : ℕ → out.Client → Option Header)
    (propose : Header → out.Client → Option Header) (encode : PoolPayoutDigest → List ℕ)
    (seed_at : ℕ → ℕ) where
  Running-IsServed :
      {client : out.Client} {m : Mining} {s : System}
      → Running out header_at propose encode seed_at client m s
      → IsOnSchedule seed_at m × IsServed out.rx_hash seed_at s
  Running-IsServed (launched client pool_mode sc best m cache_ok seed_time h0 h e) =
      let v =
        launch-IsOnSchedule out header_at propose encode seed_at client pool_mode sc best m h0 h
          e in
      (
        v,
        publish-IsServed out.rx_hash seed_at m.job _ v.1 (record {
          reach = Reach.begin cache_ok seed_time;
          jobs = start-HasJobs out.rx_hash (IsScheduled seed_at) cache_ok seed_time;
        }),
      )
  Running-IsServed (moved client' r) = Running-IsServed r
  Running-IsServed (notified {client = client} {m = m} pool_mode sc is_new_best hash header h r) =
      let (v, served) = Running-IsServed r in
      let v' =
        on_import_notification-IsOnSchedule out header_at propose encode seed_at client pool_mode sc
          is_new_best hash header m h v in
      (v', publish-IsServed out.rx_hash seed_at _ _ v'.1 served)
  Running-IsServed (found {client = client} {m = m} pool_mode sc rxlx nonce h r) =
      let (v, served) = Running-IsServed r in
      let v' =
        on_found-IsOnSchedule out header_at propose encode seed_at client pool_mode sc rxlx nonce m
          h v in
      (v', publish-IsServed out.rx_hash seed_at _ _ v'.1 served)
  Running-IsServed (searched {s = s} i a ok r) =
      let (v, served) = Running-IsServed r in
      (
        v,
        record {
          reach = Reach.step i a ok served.reach;
          jobs = turn-HasJobs out.rx_hash (IsScheduled seed_at) i a s served.jobs;
        },
      )

  -- From the start of the mining task, in every order of new best blocks, found nonces, changes of the
  -- client and steps of the threads, where a light machine can always be made and the client has the
  -- block of the schedule at the seed height of each height that a template is made for, a thread that
  -- searches for a block hashes with the hash of that block of the schedule at the seed height of its
  -- job's height, if it is thread 0, or if no dataset was published so far.
  pub task_seed :
      {client : out.Client} {m : Mining} {s : System} (i left : ℕ) (job : MiningJob)
      → Running out header_at propose encode seed_at client m s
      → (i ≡ 0) ⊎ (s.shared.dataset ≡ none)
      → (s.worker i).pc ≡ mining job left
      → seed_used s.shared.datasets (s.worker i).cache (s.worker i).vm_opt
        ≡ some (seed_at (seed_height job.height))
  task_seed {s = s} i left job r h at =
      let served = (Running-IsServed r).1 in
      let scheduled : IsScheduled seed_at job =
        subst (OnPc out.rx_hash (IsScheduled seed_at)) at (served.jobs.threads i) in
      miner_seed out.rx_hash seed_at i left job served.reach h at
      ∙ ap some (scheduled.seeded ∙ ap seed_at scheduled.at)
