-- ===== src/Node/Rpc/Mode.antt =====
-- What a call of `lumenyx_setPoolMode` of node/src/rpc.rs leaves behind.
use lumenyx.Prelude.{
  ◌≡◌, ◌⊎◌, inl, inr, refl, sym, ◌∙◌, arith, Bool, true, false, ◌&&◌, some, leb, length, err-ne-ok,
  if◌then◌else◌, Result, ok, err, Bool-cases,
}
use lumenyx.Node.PoolMode.{
  Disk, IoError, io_error, mode_text, write_persisted_pool_mode, start_mode,
}
use lumenyx.Node.PoolMode.Persist.{IsWritten, write_read}
use lumenyx.Node.Rpc.{Watch, RpcError, failed_to_persist, answer, get_pool_mode, set_pool_mode}

-- What the documentation of the channel says of a value that is sent: it is kept if there is a receiver,
-- and dropped if there is none.
pub record IsWatch {W : Type 0} (watch : Watch W) (has_receiver : W → Bool) : Type 0 where
  pub borrow_channel : (v : Bool) → watch.borrow (watch.channel v) ≡ v
  pub channel_has : (v : Bool) → has_receiver (watch.channel v) ≡ true
  pub send_has : (v : Bool) (w : W) → has_receiver (watch.send v w) ≡ has_receiver w
  pub kept : (v : Bool) (w : W) → has_receiver w ≡ true → watch.borrow (watch.send v w) ≡ v
  pub dropped :
      (v : Bool) (w : W) → has_receiver w ≡ false → watch.borrow (watch.send v w) ≡ watch.borrow w

-- Whether a write of the mode gets to the disk: the directory is known and open for writing, and there is
-- room for the whole text.
unfoldable pub takes : (mode : Bool) → Disk → Bool
takes mode disk = disk.known && (disk.writable && leb (length (mode_text mode)) disk.room)

-- What the caller is told of a mode that is set, what the node then mines by, and what the next start
-- reads: of a write that got to the disk, and of one that did not.
pub IsAnswered : (took flag mode now : Bool) → Result RpcError Bool → Disk → Type 0
IsAnswered took flag mode now result disk =
    ((took ≡ true) × (result ≡ ok now) × (start_mode flag disk ≡ mode))
    ⊎ ((took ≡ false) × (result ≡ err (failed_to_persist io_error)))

module _ {W : Type 0} (watch : Watch W) where
  -- A write succeeds exactly when it gets to the disk.
  write_took :
      (mode : Bool) (disk : Disk)
      → (write_persisted_pool_mode mode disk).0 ≡ (if takes mode disk then ok tt else err io_error)
  unfolding takes write_persisted_pool_mode
  write_took mode disk = ground arith

  took_ok :
      (took : Bool) (r : Result IoError (Unit {0}))
      → r ≡ (if took then ok tt else err io_error)
      → r ≡ ok tt
      → took ≡ true
  took_ok true r e o = refl
  took_ok false r e o = absurd (err-ne-ok io_error tt (sym e ∙ o))

  took_err :
      (took : Bool) (r : Result IoError (Unit {0}))
      → r ≡ (if took then ok tt else err io_error)
      → r ≡ err io_error
      → took ≡ false
  took_err true r e o = absurd (err-ne-ok io_error tt (sym o ∙ e))
  took_err false r e o = refl

  answered :
      (took flag mode now : Bool) (disk : Disk) (written : Result IoError (Unit {0}) × Disk)
      → written.0 ≡ (if took then ok tt else err io_error)
      → IsWritten mode flag disk written
      → IsAnswered took flag mode now (answer now written.0) written.1
  unfolding IsWritten IsAnswered
  answered took flag mode now disk (r, d) w (inl (e, _)) = inr (took_err took r w e, rw e refl)
  answered took flag mode now disk (r, d) w (inr (inl (e, _, s))) =
      inl (took_ok took r w e, rw e refl, s)
  answered took flag mode now disk (r, d) w (inr (inr (e, _))) =
      inr (took_err took r w e, rw e refl)

  -- With a receiver of the channel the node mines in the new mode from the call on, whether the file
  -- could be written or not, and without one in the old mode. Where the file can be read: if the
  -- directory is known and open for writing and has room for the text, the answer is the mode that the
  -- node mines in, and the next start has the new one; and if not, the answer is the error of the write.
  pub set_pool_mode_lem :
      (has_receiver : W → Bool) (flag mode : Bool) (handle : W) (disk : Disk)
      → IsWatch watch has_receiver
      → disk.readable ≡ true
      → let (result, handle', disk') = set_pool_mode watch (some mode) handle disk in
        (get_pool_mode watch handle'
          ≡ (if has_receiver handle then mode else get_pool_mode watch handle))
        × IsAnswered (takes mode disk) flag mode (get_pool_mode watch handle') result disk'
  unfolding set_pool_mode get_pool_mode
  set_pool_mode_lem has_receiver flag mode handle disk law readable = (
    elim (Bool-cases (has_receiver handle)) [
      | inl e ↦ rw e (law.kept mode handle e)
      | inr e ↦ rw e (law.dropped mode handle e)
    ],
    answered (takes mode disk) flag mode (watch.borrow (watch.send mode handle)) disk
        (write_persisted_pool_mode mode disk) (write_took mode disk)
        (write_read mode flag disk readable),
  )
