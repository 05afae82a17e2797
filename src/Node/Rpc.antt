-- ===== src/Node/Rpc.antt =====
-- The methods of node/src/rpc.rs that read and set the mode of mining, and the handle of
-- node/src/pool_mode_handle.rs that they share with the mining task.
pub mod Mode
use lumenyx.Prelude.{ℕ, Bool, true, false, Option, none, some, List, [], ◌∷◌, Result, ok, err}
use lumenyx.Node.PoolMode.{Disk, IoError, write_persisted_pool_mode}

-- A channel of tokio's `watch`, which keeps the last value.
pub record Watch (W : Type 0) : Type 0 where
  pub channel : Bool → W
  pub send : Bool → W → W
  pub borrow : W → Bool

-- What the methods answer with, but for the mode.
pub data RpcError : Type 0 where
  invalid_params : RpcError
  failed_to_persist : IoError → RpcError

-- The answer of `setPoolMode` once the handle has been set.
abbrev pub answer : (mode : Bool) → Result IoError (Unit {0}) → Result RpcError Bool
answer mode (ok _) = ok mode
answer mode (err e) = err (failed_to_persist e)

module _ {W : Type 0} (watch : Watch W) where
  -- `PoolModeHandle::new`, `set` and `get`.
  unfoldable pub new_handle : Bool → W
  new_handle initial = watch.channel initial

  unfoldable pub set_handle : Bool → W → W
  set_handle enabled handle = watch.send enabled handle

  unfoldable pub get_handle : W → Bool
  get_handle handle = watch.borrow handle

  -- `lumenyx_getPoolMode`
  unfoldable pub get_pool_mode : W → Bool
  unfolding get_handle
  get_pool_mode handle = get_handle handle

  -- `lumenyx_setPoolMode`, on the parameter if there is one that can be read.
  unfoldable pub set_pool_mode : Option Bool → W → Disk → Result RpcError Bool × W × Disk
  unfolding set_handle get_handle write_persisted_pool_mode
  set_pool_mode none handle disk = (err invalid_params, handle, disk)
  set_pool_mode (some enabled) handle disk =
      let handle' = set_handle enabled handle in
      let (written, disk') = write_persisted_pool_mode enabled disk in
      (answer (get_handle handle') written, handle', disk')
