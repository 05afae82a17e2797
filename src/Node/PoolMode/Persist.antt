-- ===== src/Node/PoolMode/Persist.antt =====
-- What a write of the mode by node/src/pool_mode_handle.rs means for the next start.
use lumenyx.Prelude.{
  zero, suc, ◌≡◌, ◌⊎◌, inl, inr, refl, sym, subst, arith, Bool, true, false, Option, some, List, [],
  ℕ, take_all, Result, ok, err,
}
use lumenyx.Node.PoolMode.{
  Disk, IoError, io_error, parse_mode, read_persisted_pool_mode, write_persisted_pool_mode,
  start_mode,
}

-- A write that fails and changes nothing; or that succeeds and is what the next start reads; or that
-- fails half-way, where the next start takes the flag unless the word that was written is whole.
unfoldable pub IsWritten : Bool → Bool → Disk → Result IoError (Unit {0}) × Disk → Type 0
IsWritten mode flag disk (result, disk') =
    ((result ≡ err io_error) × (disk' ≡ disk))
    ⊎ (((result ≡ ok tt)
          × (read_persisted_pool_mode disk' ≡ ok (some mode))
          × (start_mode flag disk' ≡ mode))
        ⊎ ((result ≡ err io_error)
            × ((start_mode flag disk' ≡ mode) ⊎ (start_mode flag disk' ≡ flag))))

abbrev a_disk : Bool → Bool → ℕ → Option (List ℕ) → Disk
a_disk known writable room file = record {
  known = known;
  writable = writable;
  readable = true;
  room = room;
  pool_mode_conf = file;
}

-- What the next start reads after so many bytes of the text.
torn :
    (mode flag : Bool) (room : ℕ) (file : Option (List ℕ))
    → let disk = a_disk true true room file in
      IsWritten mode flag disk (write_persisted_pool_mode mode disk)
unfolding IsWritten write_persisted_pool_mode start_mode parse_mode
torn true flag zero file = inr (inr (refl, inr refl))
torn true flag (suc zero) file = inr (inr (refl, inr refl))
torn true flag (suc (suc zero)) file = inr (inr (refl, inr refl))
torn true flag (suc (suc (suc zero))) file = inr (inr (refl, inr refl))
torn true flag (suc (suc (suc (suc zero)))) file = inr (inr (refl, inl refl))
torn true flag (suc (suc (suc (suc (suc n))))) file =
    let t = take_all {A = ℕ} n [] (omega arith) in inr (inl (ground arith, rw t refl, rw t refl))
torn false flag zero file = inr (inr (refl, inr refl))
torn false flag (suc zero) file = inr (inr (refl, inr refl))
torn false flag (suc (suc zero)) file = inr (inr (refl, inr refl))
torn false flag (suc (suc (suc zero))) file = inr (inr (refl, inr refl))
torn false flag (suc (suc (suc (suc zero)))) file = inr (inr (refl, inr refl))
torn false flag (suc (suc (suc (suc (suc zero))))) file = inr (inr (refl, inl refl))
torn false flag (suc (suc (suc (suc (suc (suc n)))))) file =
    let t = take_all {A = ℕ} n [] (omega arith) in inr (inl (ground arith, rw t refl, rw t refl))

written :
    (mode flag known writable : Bool) (room : ℕ) (file : Option (List ℕ))
    → let disk = a_disk known writable room file in
      IsWritten mode flag disk (write_persisted_pool_mode mode disk)
unfolding IsWritten write_persisted_pool_mode
written mode flag false writable room file = inl (refl, refl)
written mode flag true false room file = inl (refl, refl)
written mode flag true true room file = torn mode flag room file

-- Where the file can be read: a write fails and changes nothing; or it succeeds and the next start has
-- the mode that was written, whatever the flag of the command line; or it fails half-way, and the next
-- start has the mode that was to be written, or that of the flag.
pub write_read :
    (mode flag : Bool) (disk : Disk)
    → disk.readable ≡ true
    → IsWritten mode flag disk (write_persisted_pool_mode mode disk)
write_read mode flag disk h =
    subst
      (λ r.
        let d = record disk { readable = r } in
        IsWritten mode flag d (write_persisted_pool_mode mode d))
      (sym h) (written mode flag disk.known disk.writable disk.room disk.pool_mode_conf)
