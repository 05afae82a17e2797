-- ===== src/Runtime.antt =====
-- The runtime, runtime/src/lib.rs: the block author, the reward handler, the order of the pallets and
-- the precompiles. `pallet_authorship` is the framework's: it calls the handler in its
-- `on_initialize`, and the framework runs the pallets' hooks in the order of `construct_runtime!`.
pub mod Chain
pub mod Precompiles
pub mod Ethereum
pub mod Block
pub mod Fees
use lumenyx.Prelude.{
  bytes_eq, ℕ, Bool, true, false, Option, none, some, List, [], ◌∷◌, ◌++◌, ◌==◌, if◌then◌else◌,
  take, any, Result, ok, err,
}
use lumenyx.Digest.{DigestItem, pre_runtime, lumenyx_engine_id}
use lumenyx.Halving.{Framework, Storage, Event, issue_block_reward, on_initialize}

-- The pre-runtime items of a digest, as `pallet_authorship` hands them to `find_author`.
unfoldable pub pre_runtime_items : List DigestItem → List (List ℕ × List ℕ)
pre_runtime_items [] = []
pre_runtime_items (pre_runtime id bytes ∷ logs) = (id, bytes) ∷ pre_runtime_items logs
pre_runtime_items (_ ∷ logs) = pre_runtime_items logs

-- `PowAuthorFinder::find_author`, over the codec of `MinerAddressDigest` and the conversion of raw
-- bytes to an account.
module _ {AccountId : Type 0} (decode_miner : List ℕ → Option (List ℕ))
    (from : List ℕ → AccountId) where
  unfoldable pub find_author : List (List ℕ × List ℕ) → Option AccountId
  find_author [] = none
  find_author ((id, bytes) ∷ digests) =
      let rest = find_author digests in
      if bytes_eq id lumenyx_engine_id
      then elim (decode_miner bytes) [ some miner ↦ some (from miner) | none ↦ rest ]
      else rest

  -- `FindAuthorTruncated::find_author`: the first 20 bytes of the author.
  unfoldable pub find_author_truncated :
      (AccountId → List ℕ) → List (List ℕ × List ℕ) → Option (List ℕ)
  unfolding find_author
  find_author_truncated into digests = elim (find_author digests) [
    | some author ↦ some (take 20 (into author))
    | none ↦ none
  ]

module _ (fw : Framework) where
  open fw use {AccountId, Raw}

  -- `BlockRewardHandler::note_author`: the result of `issue_block_reward` is dropped.
  unfoldable pub note_author :
      AccountId → ℕ → List DigestItem → Storage Raw → Storage Raw × List (Event fw)
  note_author author block_number logs s =
      let (_, s', events) = issue_block_reward fw author block_number logs s in (s', events)

  -- The handler is called for the author that was found, if any.
  unfoldable pub authorship :
      Option AccountId → ℕ → List DigestItem → Storage Raw → Storage Raw × List (Event fw)
  unfolding note_author
  authorship none block_number logs s = (s, [])
  authorship (some author) block_number logs s = note_author author block_number logs s

  -- The hooks at the start of a block, in the order of `construct_runtime!`: `Authorship` notes the
  -- author, then `Halving` runs. `none` is a panic.
  unfoldable pub initialize_pallets :
      ℕ
      → Option AccountId
      → ℕ
      → List DigestItem
      → Storage Raw
      → Option (Storage Raw × List (Event fw))
  initialize_pallets accounts author block_number logs s =
      let (s1, events1) = authorship author block_number logs s in
      elim (on_initialize fw accounts block_number s1) [
        | none ↦ none
        | some (s2, events2) ↦ some (s2, events1 ++ events2)
      ]

-- The precompiled contracts.
pub data Precompile : Type 0 where
  ec_recover sha256 ripemd160 identity modexp bn128_add bn128_mul bn128_pairing blake2f : Precompile

-- `hash`: the address with a low word; addresses are numbers.
unfoldable pub hash : ℕ → ℕ
hash a = a

-- `LumenyxPrecompiles::used_addresses`
unfoldable pub used_addresses : List ℕ
unfolding hash
used_addresses = hash 1 ∷ hash 2 ∷ hash 3 ∷ hash 4 ∷ hash 5 ∷ hash 6 ∷ hash 7 ∷ hash 8 ∷ hash 9 ∷ []

-- The contract that `LumenyxPrecompiles::execute` runs at an address.
unfoldable pub execute : ℕ → Option Precompile
unfolding hash
execute address =
    if address == hash 1
    then some ec_recover
    else if address == hash 2
    then some sha256
    else if address == hash 3
    then some ripemd160
    else if address == hash 4
    then some identity
    else if address == hash 5
    then some modexp
    else if address == hash 6
    then some bn128_add
    else if address == hash 7
    then some bn128_mul
    else if address == hash 8
    then some bn128_pairing
    else if address == hash 9
    then some blake2f
    else none

-- `LumenyxPrecompiles::is_precompile`
unfoldable pub is_precompile : ℕ → Bool
unfolding used_addresses
is_precompile address = any (λ a. a == address) used_addresses
