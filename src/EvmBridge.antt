-- ===== src/EvmBridge.antt =====
-- The bridge between the native and the EVM accounts, pallets/evm-bridge/src/lib.rs. An EVM address is
-- its 20 bytes. The framework runs a call in a storage layer: an error leaves the state as it was, so
-- that a call gives an error or a new state.
pub mod Replay
pub mod Calls
use lumenyx.Prelude.{
  ℕ, ◌+◌, ◌-◌, Bool, true, false, not, ◌&&◌, ◌||◌, Option, none, some, List, [], ◌∷◌, ◌++◌, ◌==◌,
  if◌then◌else◌, length, get_or, set, drop, bytes_eq, lookup, insert, saturating_add, u64_max,
  Result, ok, err, ◌>>=◌, ◌>>◌,
}

-- `Error`, with the errors of the framework and of the currency.
pub data Error : Type 0 where
  amount_zero bad_nonce invalid_signature : Error
  bad_origin transfer_failed : Error

-- What the pallet takes from outside: the accounts, the currency on a ledger, the mapping of addresses,
-- the codec of the payload, and the cryptography.
pub record Config : Type 1 where
  pub AccountId : Type 0
  pub Ledger : Type 0
  pub transfer : (from to : AccountId) → ℕ → Ledger → Option Ledger
  pub into_account_id : List ℕ → AccountId
  pub encode_payload :
      (tag : List ℕ)
      → (chain_id : ℕ) → (evm_address : List ℕ) → AccountId
      → (amount nonce : ℕ) → List ℕ
  pub keccak_256 : List ℕ → List ℕ
  pub ecdsa_recover : (sig msg_hash : List ℕ) → Option (List ℕ)
  pub evm_chain_id : ℕ

pub record Storage (Ledger : Type 0) : Type 0 where
  pub withdraw_nonce : List (List ℕ × ℕ)
  pub ledger : Ledger

abbrev pub nonce_or_zero : Option ℕ → ℕ
nonce_or_zero none = 0
nonce_or_zero (some n) = n

-- `WithdrawNonce::get`
abbrev pub nonce_of : {Ledger : Type 0} → List ℕ → Storage Ledger → ℕ
nonce_of evm_address s = nonce_or_zero (lookup evm_address s.withdraw_nonce)

-- b"LUMENYX_EVM_BRIDGE_WITHDRAW"
abbrev pub withdraw_tag : List ℕ
withdraw_tag =
    b'L' ∷ b'U' ∷ b'M' ∷ b'E' ∷ b'N' ∷ b'Y' ∷ b'X' ∷ b'_' ∷ b'E' ∷ b'V' ∷ b'M' ∷ b'_' ∷ b'B' ∷ b'R'
    ∷ b'I' ∷ b'D' ∷ b'G' ∷ b'E' ∷ b'_' ∷ b'W' ∷ b'I' ∷ b'T' ∷ b'H' ∷ b'D' ∷ b'R' ∷ b'A' ∷ b'W' ∷ []

-- b"\x19Ethereum Signed Message:\n32"
abbrev pub eip191_prefix : List ℕ
eip191_prefix =
    25 ∷ b'E' ∷ b't' ∷ b'h' ∷ b'e' ∷ b'r' ∷ b'e' ∷ b'u' ∷ b'm' ∷ 32 ∷ b'S' ∷ b'i' ∷ b'g' ∷ b'n'
    ∷ b'e' ∷ b'd' ∷ 32 ∷ b'M' ∷ b'e' ∷ b's' ∷ b's' ∷ b'a' ∷ b'g' ∷ b'e' ∷ b':' ∷ 10 ∷ b'3' ∷ b'2'
    ∷ []

-- The guard `ensure!`.
abbrev pub ensure : Bool → Error → Result Error (Unit {0})
ensure true e = ok tt
ensure false e = err e

abbrev pub ok_or {ℓ} : {A : Type ℓ} → Error → Option A → Result Error A
ok_or e none = err e
ok_or e (some a) = ok a

-- The recovery byte of a signature with 27 taken off; `none` if it is none of the four.
unfoldable pub normalize_v : List ℕ → Option (List ℕ)
normalize_v sig =
    let v = get_or sig 64 0 in
    if (v == 27) || (v == 28)
    then some (set sig 64 (v - 27))
    else if not (v == 0) && not (v == 1)
    then none
    else some sig

module _ (cfg : Config) where
  open cfg use {
    AccountId, Ledger, transfer, into_account_id, encode_payload, keccak_256, ecdsa_recover,
    evm_chain_id,
  }

  pub data Event : Type 0 where
    deposited : (from : AccountId) (evm_address : List ℕ) (amount : ℕ) → Event
    withdrawn : (evm_address : List ℕ) (to : AccountId) (amount nonce : ℕ) → Event

  -- `ensure_signed`
  abbrev pub ensure_signed : Option AccountId → Result Error AccountId
  ensure_signed origin = ok_or bad_origin origin

  -- `eip191_hash_32`
  unfoldable pub eip191_hash_32 : List ℕ → List ℕ
  eip191_hash_32 msg32 = keccak_256 (eip191_prefix ++ msg32)

  -- `eth_address_from_pubkey64`
  unfoldable pub eth_address_from_pubkey64 : List ℕ → List ℕ
  eth_address_from_pubkey64 pubkey64 = drop 12 (keccak_256 pubkey64)

  abbrev pub recovers_to : List ℕ → Option (List ℕ) → Bool
  recovers_to expected none = false
  recovers_to expected (some pubkey64) = bytes_eq (eth_address_from_pubkey64 pubkey64) expected

  -- `ensure_evm_sig_matches`
  unfoldable pub ensure_evm_sig_matches : List ℕ → List ℕ → List ℕ → Bool
  unfolding normalize_v eth_address_from_pubkey64
  ensure_evm_sig_matches expected msg_hash sig = elim (normalize_v sig) [
    | none ↦ false
    | some sig_bytes ↦ recovers_to expected (ecdsa_recover sig_bytes msg_hash)
  ]

  -- The digest that the owner of an address signs.
  unfoldable pub withdraw_digest : List ℕ → AccountId → ℕ → ℕ → List ℕ
  unfolding eip191_hash_32
  withdraw_digest evm_address to amount nonce =
      eip191_hash_32
        (keccak_256 (encode_payload withdraw_tag evm_chain_id evm_address to amount nonce))

  -- `deposit`
  unfoldable pub deposit :
      Option AccountId → List ℕ → ℕ → Storage Ledger → Result Error (Storage Ledger × Event)
  deposit origin evm_address amount s = do
    from ← ensure_signed origin
    ensure (not (amount == 0)) amount_zero
    ledger ← ok_or transfer_failed (transfer from (into_account_id evm_address) amount s.ledger)
    ok (record s { ledger = ledger }, deposited from evm_address amount)

  -- `withdraw`
  unfoldable pub withdraw :
      Option AccountId
      → (evm_address : List ℕ) → (to : AccountId) → (amount nonce : ℕ) → (sig : List ℕ)
      → Storage Ledger
      → Result Error (Storage Ledger × Event)
  unfolding ensure_evm_sig_matches withdraw_digest
  withdraw origin evm_address to amount nonce sig s = do
    _ ← ensure_signed origin
    ensure (not (amount == 0)) amount_zero
    ensure (nonce == nonce_of evm_address s) bad_nonce
    ensure (ensure_evm_sig_matches evm_address (withdraw_digest evm_address to amount nonce) sig)
        invalid_signature
    let nonces =
        insert evm_address (saturating_add u64_max (nonce_of evm_address s) 1) s.withdraw_nonce
    ledger ← ok_or transfer_failed (transfer (into_account_id evm_address) to amount s.ledger)
    ok (
      record s { withdraw_nonce = nonces; ledger = ledger },
      withdrawn evm_address to amount nonce,
    )
