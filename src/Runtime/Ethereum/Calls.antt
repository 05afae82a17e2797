-- ===== src/Runtime/Ethereum/Calls.antt =====
-- The transactions and the gas of the Ethereum side of runtime/src/lib.rs.
use native.Mathlib.Nat.{mod-eq_of_lt}
use lumenyx.Prelude.{
  ℕ, ◌%◌, ◌^◌, ◌≤◌, min, ◌≡◌, ◌↔◌, ◌⊎◌, inl, inr, refl, ap, arith, Option, some, List, [], ◌∷◌,
  u64_max,
}
use lumenyx.Runtime.Ethereum.{
  Extrinsic, other, EthereumPallet, apply_self_contained, extrinsic_filter, convert_transaction,
  convert_opaque, TransactionAction, call_of, creation, TransactionData, Request, Arguments, Evm,
  arguments, call_data, create_data, map_err, call, create,
}

module _ {Transaction Other Signature : Type 0} where
  -- What a block has of unsigned extrinsics that the node made from transactions, among extrinsics of
  -- other calls: the filter finds just these transactions, in their order.
  unfoldable pub extrinsics_of :
      List (Transaction ⊎ (Other × Option Signature)) → List (Extrinsic Transaction Other Signature)
  unfolding convert_transaction
  extrinsics_of [] = []
  extrinsics_of (inl t ∷ items) = convert_transaction t ∷ extrinsics_of items
  extrinsics_of (inr (c, g) ∷ items) =
      record { signature = g; function = other c } ∷ extrinsics_of items

  abbrev pub transactions_of : List (Transaction ⊎ (Other × Option Signature)) → List Transaction
  transactions_of [] = []
  transactions_of (inl t ∷ items) = t ∷ transactions_of items
  transactions_of (inr _ ∷ items) = transactions_of items

  extrinsic_filter-extrinsics_of :
      (items : List (Transaction ⊎ (Other × Option Signature)))
      → extrinsic_filter (extrinsics_of items) ≡ transactions_of items
  unfolding extrinsic_filter extrinsics_of
  extrinsic_filter-extrinsics_of [] = refl
  extrinsic_filter-extrinsics_of (inl t ∷ items) = ap (◌∷◌ t) (extrinsic_filter-extrinsics_of items)
  extrinsic_filter-extrinsics_of (inr _ ∷ items) = extrinsic_filter-extrinsics_of items

  -- If the node's codec of extrinsics is the runtime's, a transaction that the node converts comes out
  -- of its bytes, is found by the filter, and is dispatched with the signer as its origin.
  pub convert_opaque_lem :
      {Info Error Validity State : Type 0}
      (pallet : EthereumPallet Transaction Info Error Validity State)
      (encode : Extrinsic Transaction Other Signature → List ℕ)
      (decode : List ℕ → Option (Extrinsic Transaction Other Signature)) (t : Transaction)
      (signer : ℕ) (s : State)
      → ((x : Extrinsic Transaction Other Signature) → decode (encode x) ≡ some x)
      → (x : Extrinsic Transaction Other Signature) × (convert_opaque encode decode t ≡ some x)
        × (extrinsic_filter (x ∷ []) ≡ t ∷ [])
        × (apply_self_contained pallet x.function signer s ≡ some (pallet.dispatch signer t s))
  unfolding convert_opaque extrinsic_filter apply_self_contained
  convert_opaque_lem pallet encode decode t signer s codec =
      (convert_transaction t, codec (convert_transaction t), refl, refl)

-- `low_u64` keeps just the numbers that fit.
kept_iff : (g : ℕ) → (g % 2 ^ 64 ≡ g) ↔ (g ≤ u64_max)
kept_iff g = (λ e. omega arith, λ h. mod-eq_of_lt (omega arith))

module _ {Weight Config Error RunnerError CallInfo CreateInfo : Type 0}
    (evm : Evm Weight Config Error RunnerError CallInfo CreateInfo) where
  -- A run of the EVM for a request: the transaction that is weighed, with its limit of gas, and the
  -- arguments that the runner gets, with its own limit and the weight of that transaction.
  pub record IsWeighed (r : Request) (action : TransactionAction) (weighed_gas run_gas : ℕ)
      (args : Arguments Weight Config) : Type 0 where
    pub weighed : TransactionData
    pub same_action : weighed.action ≡ action
    pub weighed_limit : weighed.gas_limit ≡ weighed_gas
    pub run_limit : args.gas_limit ≡ run_gas
    pub weight : (args.weight_limit, args.proof_size_base_cost) ≡ evm.transaction_weight weighed
    pub same_value : (args.value ≡ r.value) × (weighed.value ≡ r.value)
    pub same_input : (args.input ≡ r.input) × (weighed.input ≡ r.input)

  -- `call` of the runtime API answers with the run of a call that is weighed and run with the same limit
  -- of gas, the one that is asked for, up to the end of `u64`. `create` answers with the run of a creation
  -- that is weighed with the limit that is asked for, and run with its low 64 bits, which are the same
  -- limit only if it fits. The weight that limits a run is that of the transaction that was weighed, with
  -- the value and the input of the request.
  pub gas_limits :
      (to : ℕ) (r : Request)
      → ((args : Arguments Weight Config) × IsWeighed r
            (call_of to)
            (min r.gas_limit u64_max)
            (min r.gas_limit u64_max)
            args
          × (call evm to r ≡ map_err evm.error_of (evm.run_call to args)))
        × ((args : Arguments Weight Config) × IsWeighed r creation r.gas_limit
              (r.gas_limit % 2 ^ 64)
              args
            × (create evm r ≡ map_err evm.error_of (evm.run_create args))
            × ((args.gas_limit ≡ r.gas_limit) ↔ (r.gas_limit ≤ u64_max)))
  unfolding call create arguments call_data create_data
  gas_limits to r = (
    (
      arguments evm (call_data evm to r) r,
      record {
        weighed = call_data evm to r;
        same_action = refl;
        weighed_limit = refl;
        run_limit = mod-eq_of_lt (omega arith);
        weight = refl;
        same_value = (refl, refl);
        same_input = (refl, refl);
      },
      refl,
    ),
    (
      arguments evm (create_data evm r) r,
      record {
        weighed = create_data evm r;
        same_action = refl;
        weighed_limit = refl;
        run_limit = refl;
        weight = refl;
        same_value = (refl, refl);
        same_input = (refl, refl);
      },
      refl,
      kept_iff r.gas_limit,
    ),
  )
