-- ===== src/Runtime/Precompiles.antt =====
-- The precompile set of runtime/src/lib.rs is consistent.
use lumenyx.Prelude.{ℕ, ◌≡◌, ◌≢◌, ◌↔◌, arith, true, none}
use lumenyx.Runtime.{execute, is_precompile}

-- An address is announced as a precompile exactly when a contract runs there.
pub is_precompile_iff : (address : ℕ) → (is_precompile address ≡ true) ↔ (execute address ≢ none)
unfolding execute is_precompile
is_precompile_iff address = (λ h. ground arith, λ h. ground arith)

-- No two addresses run the same contract.
pub execute_injective :
    (address other : ℕ) → execute address ≢ none → execute other ≡ execute address → other ≡ address
unfolding execute
execute_injective address other h e = ground arith
