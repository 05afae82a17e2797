-- ===== src/Node/Start.antt =====
-- The start of a node: the chain specifications of node/src/chain_spec.rs and their choice in
-- node/src/command.rs, and the key files of node/src/service.rs and node/src/command.rs. A string is its
-- characters' numbers.
pub mod Keys
use lumenyx.Prelude.{
  ℕ, ◌^◌, Bool, true, false, Option, none, some, List, [], ◌∷◌, length, take, leb, ◌==◌,
  if◌then◌else◌, bytes_eq, Result, ok, err,
}
use lumenyx.Node.PoolMode.{trim_start, trim_end}

abbrev pub token_decimals : ℕ
token_decimals = 18

abbrev pub token_symbol : List ℕ
token_symbol = b'L' ∷ b'U' ∷ b'M' ∷ b'O' ∷ []

abbrev pub dev : List ℕ
dev = b'd' ∷ b'e' ∷ b'v' ∷ []

abbrev pub local : List ℕ
local = b'l' ∷ b'o' ∷ b'c' ∷ b'a' ∷ b'l' ∷ []

abbrev pub mainnet : List ℕ
mainnet = b'm' ∷ b'a' ∷ b'i' ∷ b'n' ∷ b'n' ∷ b'e' ∷ b't' ∷ []

abbrev pub lumenyx_mainnet : List ℕ
lumenyx_mainnet = b'l' ∷ b'u' ∷ b'm' ∷ b'e' ∷ b'n' ∷ b'y' ∷ b'x' ∷ b'_' ∷ mainnet

abbrev pub lumenyx_dev : List ℕ
lumenyx_dev = b'l' ∷ b'u' ∷ b'm' ∷ b'e' ∷ b'n' ∷ b'y' ∷ b'x' ∷ b'_' ∷ dev

abbrev pub lumenyx_testnet : List ℕ
lumenyx_testnet =
    b'l' ∷ b'u' ∷ b'm' ∷ b'e' ∷ b'n' ∷ b'y' ∷ b'x' ∷ b'_' ∷ b't' ∷ b'e' ∷ b's' ∷ b't' ∷ b'n' ∷ b'e'
    ∷ b't' ∷ []

abbrev pub lumenyx_local_testnet : List ℕ
lumenyx_local_testnet =
    b'l' ∷ b'u' ∷ b'm' ∷ b'e' ∷ b'n' ∷ b'y' ∷ b'x' ∷ b'_' ∷ b'l' ∷ b'o' ∷ b'c' ∷ b'a' ∷ b'l' ∷ b'_'
    ∷ b't' ∷ b'e' ∷ b's' ∷ b't' ∷ b'n' ∷ b'e' ∷ b't' ∷ []

pub data ChainType : Type 0 where
  development local_chain live : ChainType

-- A specification: its id and type, the accounts that `development_genesis` endows with 2^60 each, the
-- first difficulty, the endowed account of the EVM, and what `chain_properties` tells of the token. The
-- name, the message of the genesis and the empty list of boot nodes are left out.
pub record ChainSpec (AccountId : Type 0) : Type 0 where
  pub id : List ℕ
  pub chain_type : ChainType
  pub balances : List (AccountId × ℕ)
  pub initial_difficulty : ℕ
  pub evm_accounts : List (ℕ × ℕ)
  pub ss58_format : ℕ
  pub decimals : ℕ
  pub symbol : List ℕ

pub data StartError : Type 0 where
  no_wasm bad_json : StartError

module _ {AccountId : Type 0} where
  abbrev pub endow : List AccountId → List (AccountId × ℕ)
  endow [] = []
  endow (k ∷ ks) = (k, 2 ^ 60) ∷ endow ks

  -- The builder of a specification that is made from the runtime's code, if the code is there.
  abbrev pub built :
      (wasm : Bool)
      → (id : List ℕ) → ChainType
      → List AccountId
      → Result StartError (ChainSpec AccountId)
  built wasm id chain_type endowed =
      if wasm
      then ok (record {
        id = id;
        chain_type = chain_type;
        balances = endow endowed;
        initial_difficulty = 1;
        evm_accounts =
            (0xd43593c715fdd31c61141abd04a99fd6822c8558, 0xffffffffffffffffffffffff) ∷ [];
        ss58_format = 42;
        decimals = token_decimals;
        symbol = token_symbol;
      })
      else err no_wasm

  -- The accounts of well-known names, and the reader of specifications in JSON, are parameters.
  module _ (wasm : Bool) (alice bob alice_stash bob_stash charlie dave : AccountId)
      (from_json_bytes : Result StartError (ChainSpec AccountId))
      (from_json_file : List ℕ → Result StartError (ChainSpec AccountId)) where
    unfoldable pub development_config : Result StartError (ChainSpec AccountId)
    development_config =
        built wasm lumenyx_dev development (alice ∷ bob ∷ alice_stash ∷ bob_stash ∷ [])

    unfoldable pub local_testnet_config : Result StartError (ChainSpec AccountId)
    local_testnet_config =
        built wasm lumenyx_local_testnet local_chain (alice ∷ bob ∷ charlie ∷ dave ∷ [])

    unfoldable pub testnet_config : Result StartError (ChainSpec AccountId)
    testnet_config = built wasm lumenyx_testnet live []

    -- The frozen raw specification that is part of the node.
    unfoldable pub mainnet_config : Result StartError (ChainSpec AccountId)
    mainnet_config = from_json_bytes

    unfoldable pub load_spec : List ℕ → Result StartError (ChainSpec AccountId)
    unfolding development_config local_testnet_config mainnet_config
    load_spec id =
        if bytes_eq id dev
        then development_config
        else if bytes_eq id local
        then local_testnet_config
        else if bytes_eq id []
        then mainnet_config
        else if bytes_eq id mainnet
        then mainnet_config
        else from_json_file id

-- The folder that `run` makes the network key in.
unfoldable pub chain_folder : List ℕ → List ℕ
chain_folder chain_id =
    if bytes_eq chain_id dev
    then lumenyx_dev
    else if bytes_eq chain_id local
    then lumenyx_local_testnet
    else lumenyx_mainnet

-- A file: its contents, if it exists, whether it can be read and opened for writing, and how many bytes
-- of a write get to the disk before it fails.
pub record File : Type 0 where
  pub contents : Option (List ℕ)
  pub readable : Bool
  pub writable : Bool
  pub room : ℕ

-- `let _ = fs::write(..)`
unfoldable pub write_file : List ℕ → File → File
write_file bytes f = if f.writable then record f { contents = some (take f.room bytes) } else f

-- `if !secret_key_path.exists()`: the key of the network, in both places.
unfoldable pub ensure_network_key : (generated : List ℕ) → File → File
unfolding write_file
ensure_network_key generated f = elim f.contents [ some _ ↦ f | none ↦ write_file generated f ]

-- The keys of the framework and the crate for hexadecimal strings.
pub record Crypto (Pair : Type 0) : Type 0 where
  pub from_seed : List ℕ → Pair
  pub encode : List ℕ → List ℕ
  pub decode : List ℕ → Option (List ℕ)

abbrev pub seed_of_length : Option (List ℕ) → Option (List ℕ)
seed_of_length none = none
seed_of_length (some seed) = if length seed == 32 then some seed else none

module _ {Pair : Type 0} (crypto : Crypto Pair) where
  -- The seed in the contents of a key file.
  unfoldable pub parse_seed : List ℕ → Option (List ℕ)
  unfolding trim_start trim_end
  parse_seed text = seed_of_length (crypto.decode (trim_end (trim_start text)))

  -- The seed that is kept, if the file is there and can be read.
  unfoldable pub kept_seed : File → Option (List ℕ)
  unfolding parse_seed
  kept_seed f = elim f.contents [
    | none ↦ none
    | some text ↦ if f.readable then parse_seed text else none
  ]

  -- The pair of a seed that is kept, or else one that is generated, whose seed is written.
  unfoldable pub take_or_write : Option (List ℕ) → Pair × List ℕ → File → Pair × File
  unfolding write_file
  take_or_write (some kept) generated f = (crypto.from_seed kept, f)
  take_or_write none (pair, seed) f = (pair, write_file (crypto.encode seed) f)

  -- `get_or_create_miner_key`, with the pair and the seed that would be generated.
  unfoldable pub get_or_create_miner_key : (generated : Pair × List ℕ) → File → Pair × File
  unfolding kept_seed take_or_write
  get_or_create_miner_key generated f = take_or_write (kept_seed f) generated f
