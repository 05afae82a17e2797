-- ===== src/Tests/Ethereum.antt =====
-- The Ethereum side of the runtime on a small machine.
use lumenyx.Prelude.{ℕ, ◌+◌, ◌^◌, ◌≤◌, ◌≡◌, ◌↔◌, false, none, some, [], u64_max, ok}
use lumenyx.Runtime.Ethereum.{Request, call_of, creation, Arguments, Evm, map_err, call, create}
use lumenyx.Runtime.Ethereum.Calls.{IsWeighed, gas_limits}

abbrev evm : Evm ℕ ℕ ℕ ℕ ℕ ℕ
evm = record {
  config = 0;
  with_estimate = λ c. c + 1;
  transaction_weight = λ t. (some t.gas_limit, some t.value);
  run_call = λ to a. ok a.gas_limit;
  run_create = λ a. ok a.gas_limit;
  error_of = λ e. e;
}

-- A request for more gas than 64 bits hold.
abbrev a_request : Request
a_request = record {
  from = 1;
  input = [];
  value = 0;
  gas_limit = 2 ^ 64 + 5;
  max_fee_per_gas = none;
  max_priority_fee_per_gas = none;
  nonce = none;
  estimate = false;
  access_list = none;
}

gas_limits_example :
    ((args : Arguments ℕ ℕ) × IsWeighed evm a_request (call_of 2) u64_max u64_max args
      × (call evm 2 a_request ≡ map_err evm.error_of (evm.run_call 2 args)))
    × ((args : Arguments ℕ ℕ) × IsWeighed evm a_request creation (2 ^ 64 + 5) 5 args
        × (create evm a_request ≡ map_err evm.error_of (evm.run_create args))
        × ((args.gas_limit ≡ a_request.gas_limit) ↔ (a_request.gas_limit ≤ u64_max)))
gas_limits_example = gas_limits evm 2 a_request
