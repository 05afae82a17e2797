-- ===== src/Runtime/Fees.antt =====
-- The handlers of fees of runtime/src/lib.rs. The credit of a fee is already taken from the payer; the
-- framework's `resolve` gives it to an account or hands it back, and a credit that is dropped is burnt.
use lumenyx.Prelude.{ℕ, ◌+◌, ◌≡◌, Option, none, some, Result, ok, err}

module _ {AccountId Raw : Type 0} (resolve : AccountId → (credit : ℕ) → Raw → Result ℕ Raw)
    (drop_credit : (credit : ℕ) → Raw → Raw) where
  -- `let _ = resolve(..)`, which drops a credit that is handed back.
  abbrev resolve_or_drop : Result ℕ Raw → Raw → Raw
  resolve_or_drop (ok raw') raw = raw'
  resolve_or_drop (err credit) raw = drop_credit credit raw

  -- `EvmBaseFeeToAuthor::on_nonzero_unbalanced`, for the author that `pallet_authorship` has.
  unfoldable pub evm_base_fee_to_author : Option AccountId → (credit : ℕ) → Raw → Raw
  evm_base_fee_to_author none credit raw = drop_credit credit raw
  evm_base_fee_to_author (some author) credit raw = resolve_or_drop (resolve author credit raw) raw

  -- `ToAuthor::on_nonzero_unbalanced`, for the fees of the other transactions.
  unfoldable pub to_author : Option AccountId → (credit : ℕ) → Raw → Raw
  to_author none credit raw = drop_credit credit raw
  to_author (some author) credit raw = resolve_or_drop (resolve author credit raw) raw

  -- Where a dropped credit leaves the issuance, the fee of a block without an author, or of one whose
  -- author cannot take it, is burnt.
  unresolved_fee_burnt :
      (issuance : Raw → ℕ) (author : AccountId) (credit : ℕ) (raw : Raw)
      → ((amount : ℕ) (r : Raw) → issuance (drop_credit amount r) + amount ≡ issuance r)
      → resolve author credit raw ≡ err credit
      → (issuance (evm_base_fee_to_author none credit raw) + credit ≡ issuance raw)
        × (issuance (evm_base_fee_to_author (some author) credit raw) + credit ≡ issuance raw)
        × (issuance (to_author (some author) credit raw) + credit ≡ issuance raw)
  unfolding evm_base_fee_to_author to_author
  unresolved_fee_burnt issuance author credit raw burns back =
      rw back (burns credit raw, burns credit raw, burns credit raw)
