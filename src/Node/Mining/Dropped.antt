-- ===== src/Node/Mining/Dropped.antt =====
-- A found nonce that fails the local test of the task of node/src/service.rs leaves it without a
-- template.
use lumenyx.Prelude.{ℕ, ◌≡◌, refl, Bool, true, ltb, ==_refl, Option, List, [], ◌∷◌}
use lumenyx.Halving.{PoolPayoutDigest}
use lumenyx.Node.Import.{Outside, Header, RxLxPow, machine_hash}
use lumenyx.Node.Pool.Sharechain.{Sharechain}
use lumenyx.Node.Miner.{PowTemplate, remove}
use lumenyx.Node.Mining.{FoundNonce, Mining, on_found, use_nonce}

module _ (out : Outside) (header_at : ℕ → out.Client → Option Header)
    (propose : Header → out.Client → Option Header) (encode : PoolPayoutDigest → List ℕ) where
  -- If a nonce for the only template fails the local test, nothing is imported, the job of the workers
  -- stays, the template is gone, and a further nonce, for whatever job, changes nothing.
  pub bad_nonce_stalls :
      (client : out.Client) (pool_mode : Bool) (sc : Sharechain) (rxlx : Option RxLxPow)
      (found found' : FoundNonce) (m : Mining) (tpl : PowTemplate Header)
      → m.templates.order ≡ found.job_id ∷ []
      → m.templates.map ≡ (found.job_id, tpl) ∷ []
      → ltb tpl.target (machine_hash out m.rx_lx_pow tpl.pre_hash found.nonce) ≡ true
      → let after = on_found out header_at propose encode client pool_mode sc rxlx found m in
        (after ≡ (record m { templates = record { order = []; map = [] } }, client, rxlx))
        × (on_found out header_at propose encode client pool_mode sc rxlx found' after.0 ≡ after)
  unfolding on_found use_nonce remove
  bad_nonce_stalls client pool_mode sc rxlx found found' m tpl order map failed =
      rw order (rw map (rw (==_refl found.job_id) (rw failed (refl, refl))))
