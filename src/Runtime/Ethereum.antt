-- ===== src/Runtime/Ethereum.antt =====
-- The Ethereum side of runtime/src/lib.rs: calls that carry their own signature, the runtime API for calls
-- and contracts, and the transactions of a block. Words of 256 bits and addresses are numbers.
pub mod Calls
use lumenyx.Prelude.{
  ℕ, ◌%◌, ◌^◌, min, Bool, true, false, Option, none, some, List, [], ◌∷◌, if◌then◌else◌, u64_max,
  Result, ok, err,
}

-- A call of the runtime: of `pallet_ethereum`, whose one call has a transaction, or of another pallet.
pub data RuntimeCall (Transaction Other : Type 0) : Type 0 where
  transact : Transaction → RuntimeCall Transaction Other
  other : Other → RuntimeCall Transaction Other

-- An extrinsic: its call, and the signature if it has one.
pub record Extrinsic (Transaction Other Signature : Type 0) : Type 0 where
  pub signature : Option Signature
  pub function : RuntimeCall Transaction Other

-- `pallet_ethereum::Call` as a call that carries its signature, and its dispatch.
pub record EthereumPallet (Transaction Info Error Validity State : Type 0) : Type 0 where
  pub is_self_contained : Transaction → Bool
  pub check_self_contained : Transaction → Option (Result Error ℕ)
  pub validate_self_contained : Transaction → ℕ → Info → (len : ℕ) → Option (Result Error Validity)
  pub pre_dispatch_self_contained :
      Transaction → ℕ → Info → (len : ℕ) → Option (Result Error (Unit {0}))
  pub dispatch : (origin : ℕ) → Transaction → State → State

module _ {Transaction Other Info Error Validity State : Type 0}
    (pallet : EthereumPallet Transaction Info Error Validity State) where
  unfoldable pub is_self_contained : RuntimeCall Transaction Other → Bool
  is_self_contained (transact t) = pallet.is_self_contained t
  is_self_contained (other c) = false

  unfoldable pub check_self_contained : RuntimeCall Transaction Other → Option (Result Error ℕ)
  check_self_contained (transact t) = pallet.check_self_contained t
  check_self_contained (other c) = none

  unfoldable pub validate_self_contained :
      RuntimeCall Transaction Other → ℕ → Info → (len : ℕ) → Option (Result Error Validity)
  validate_self_contained (transact t) info dispatch_info len =
      pallet.validate_self_contained t info dispatch_info len
  validate_self_contained (other c) info dispatch_info len = none

  unfoldable pub pre_dispatch_self_contained :
      RuntimeCall Transaction Other → ℕ → Info → (len : ℕ) → Option (Result Error (Unit {0}))
  pre_dispatch_self_contained (transact t) info dispatch_info len =
      pallet.pre_dispatch_self_contained t info dispatch_info len
  pre_dispatch_self_contained (other c) info dispatch_info len = none

  unfoldable pub apply_self_contained : RuntimeCall Transaction Other → ℕ → State → Option State
  apply_self_contained (transact t) info s = some (pallet.dispatch info t s)
  apply_self_contained (other c) info s = none

module _ {Transaction Other Signature : Type 0} where
  -- `extrinsic_filter`
  unfoldable pub extrinsic_filter : List (Extrinsic Transaction Other Signature) → List Transaction
  extrinsic_filter [] = []
  extrinsic_filter (xt ∷ xts) =
      let rest = extrinsic_filter xts in elim xt.function [ transact t ↦ t ∷ rest | other _ ↦ rest ]

  -- `convert_transaction`
  unfoldable pub convert_transaction : Transaction → Extrinsic Transaction Other Signature
  convert_transaction t = record { signature = none; function = transact t }

  -- `TransactionConverter::convert_transaction`, to the opaque extrinsics of the node. `none` is the
  -- panic of `expect`.
  unfoldable pub convert_opaque :
      {Opaque : Type 0}
      → (encode : Extrinsic Transaction Other Signature → List ℕ)
      → (decode : List ℕ → Option Opaque) → Transaction
      → Option Opaque
  unfolding convert_transaction
  convert_opaque encode decode t = decode (encode (convert_transaction t))

-- `TransactionAction`
pub data TransactionAction : Type 0 where
  call_of : (to : ℕ) → TransactionAction
  creation : TransactionAction

-- `TransactionData`
pub record TransactionData : Type 0 where
  pub action : TransactionAction
  pub input : List ℕ
  pub nonce : ℕ
  pub gas_limit : ℕ
  pub gas_price : Option ℕ
  pub max_fee_per_gas : Option ℕ
  pub max_priority_fee_per_gas : Option ℕ
  pub value : ℕ
  pub chain_id : Option ℕ
  pub access_list : List (ℕ × List ℕ)

-- The arguments of `call` and `create` of the runtime API that they share.
pub record Request : Type 0 where
  pub from : ℕ
  pub input : List ℕ
  pub value : ℕ
  pub gas_limit : ℕ
  pub max_fee_per_gas : Option ℕ
  pub max_priority_fee_per_gas : Option ℕ
  pub nonce : Option ℕ
  pub estimate : Bool
  pub access_list : Option (List (ℕ × List ℕ))

-- The arguments of `Runner::call` and `Runner::create` that they share.
pub record Arguments (Weight Config : Type 0) : Type 0 where
  pub source : ℕ
  pub input : List ℕ
  pub value : ℕ
  pub gas_limit : ℕ
  pub max_fee_per_gas : Option ℕ
  pub max_priority_fee_per_gas : Option ℕ
  pub nonce : Option ℕ
  pub access_list : List (ℕ × List ℕ)
  pub is_transactional : Bool
  pub validate : Bool
  pub weight_limit : Option Weight
  pub proof_size_base_cost : Option ℕ
  pub config : Config

abbrev pub evm_chain_id : ℕ
evm_chain_id = 7777

-- `unwrap_or_default`
abbrev pub or_default {ℓ} : {A : Type ℓ} → A → Option A → A
or_default d none = d
or_default d (some x) = x

-- The transaction that is weighed, with the limit of its gas.
unfoldable pub transaction_data : TransactionAction → (gas_limit : ℕ) → Request → TransactionData
transaction_data action gas_limit r = record {
  action = action;
  input = r.input;
  nonce = or_default 0 r.nonce;
  gas_limit = gas_limit;
  gas_price = none;
  max_fee_per_gas = r.max_fee_per_gas;
  max_priority_fee_per_gas = r.max_priority_fee_per_gas;
  value = r.value;
  chain_id = some evm_chain_id;
  access_list = or_default [] r.access_list;
}

-- `low_u64`
abbrev pub low_u64 : ℕ → ℕ
low_u64 x = x % 2 ^ 64

-- The EVM of the framework.
pub record Evm (Weight Config Error RunnerError CallInfo CreateInfo : Type 0) : Type 0 where
  pub config : Config
  pub with_estimate : Config → Config
  pub transaction_weight : TransactionData → Option Weight × Option ℕ
  pub run_call : (to : ℕ) → Arguments Weight Config → Result RunnerError CallInfo
  pub run_create : Arguments Weight Config → Result RunnerError CreateInfo
  pub error_of : RunnerError → Error

abbrev pub map_err {ℓ} : {E F A : Type ℓ} → (E → F) → Result E A → Result F A
map_err f (ok a) = ok a
map_err f (err e) = err (f e)

module _ {Weight Config Error RunnerError CallInfo CreateInfo : Type 0}
    (evm : Evm Weight Config Error RunnerError CallInfo CreateInfo) where
  -- What the runner gets for a transaction.
  unfoldable pub arguments : TransactionData → Request → Arguments Weight Config
  arguments t r =
      let (weight_limit, proof_size_base_cost) = evm.transaction_weight t in
      record {
        source = r.from;
        input = r.input;
        value = r.value;
        gas_limit = low_u64 t.gas_limit;
        max_fee_per_gas = r.max_fee_per_gas;
        max_priority_fee_per_gas = r.max_priority_fee_per_gas;
        nonce = r.nonce;
        access_list = or_default [] r.access_list;
        is_transactional = false;
        validate = true;
        weight_limit = weight_limit;
        proof_size_base_cost = proof_size_base_cost;
        config = if r.estimate then evm.with_estimate evm.config else evm.config;
      }

  -- `EthereumRuntimeRPCApi::call`
  unfoldable pub call_data : (to : ℕ) → Request → TransactionData
  unfolding transaction_data
  call_data to r = transaction_data (call_of to) (min r.gas_limit u64_max) r

  unfoldable pub call : (to : ℕ) → Request → Result Error CallInfo
  unfolding call_data arguments
  call to r = map_err evm.error_of (evm.run_call to (arguments (call_data to r) r))

  -- `EthereumRuntimeRPCApi::create`
  unfoldable pub create_data : Request → TransactionData
  unfolding transaction_data
  create_data r = transaction_data creation r.gas_limit r

  unfoldable pub create : Request → Result Error CreateInfo
  unfolding create_data arguments
  create r = map_err evm.error_of (evm.run_create (arguments (create_data r) r))
