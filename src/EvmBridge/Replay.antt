-- ===== src/EvmBridge/Replay.antt =====
-- Signatures of pallets/evm-bridge/src/lib.rs are used at most once.
use lumenyx.Prelude.{
  ℕ, ◌+◌, ◌≤◌, ◌<◌, ◌≡◌, ◌≢◌, sym, ap, subst, arith, inl, inr, Option, List, u64_max, ok, lookup,
  bytes-cases,
}
use lumenyx.EvmBridge.{Config, Storage, Event, nonce_of, nonce_or_zero, deposit, withdraw}
use lumenyx.EvmBridge.Calls.{IsWithdrawal, withdraw_checks, deposit_checks}

module _ (cfg : Config) where
  -- The states that calls of the pallet lead to; a call that fails leaves the state, and other calls may
  -- change the ledger.
  pub data Later : Storage cfg.Ledger → Storage cfg.Ledger → Type 0 where
    now : {s : Storage cfg.Ledger} → Later s s
    other_call :
        {s s' : Storage cfg.Ledger} (ledger : cfg.Ledger)
        → Later s s'
        → Later s (record s' { ledger = ledger })
    deposit_call :
        {s s' s2 : Storage cfg.Ledger} (origin : Option cfg.AccountId) (evm_address : List ℕ)
        (amount : ℕ) {ev : Event cfg}
        → Later s s'
        → deposit cfg origin evm_address amount s' ≡ ok (s2, ev)
        → Later s s2
    withdraw_call :
        {s s' s2 : Storage cfg.Ledger} (origin : Option cfg.AccountId) (evm_address : List ℕ)
        (to : cfg.AccountId) (amount nonce : ℕ) (sig : List ℕ) {ev : Event cfg}
        → Later s s'
        → withdraw cfg origin evm_address to amount nonce sig s' ≡ ok (s2, ev)
        → Later s s2

  withdrawal_grows :
      {evm_address : List ℕ} {to : cfg.AccountId} {amount nonce : ℕ} {sig : List ℕ}
      {s s' : Storage cfg.Ledger} (other : List ℕ) (limit : ℕ)
      → IsWithdrawal cfg evm_address to amount nonce sig s s'
      → limit ≤ u64_max
      → limit ≤ nonce_of other s
      → limit ≤ nonce_of other s'
  withdrawal_grows {evm_address = evm_address} {s = s} {s' = s'} other limit w small h =
      elim (bytes-cases other evm_address) [
        | inl (e, _) ↦
            let g : nonce_of evm_address s ≡ nonce_of other s = ap (λ x. nonce_of x s) (sym e) in
            subst (λ x. limit ≤ nonce_of x s') (sym e)
              (omega (arith, w.advanced, w.expected, g, h, small))
        | inr (ne, _) ↦ omega (arith, w.kept other ne, h)
      ]

  Later-grows :
      {s s' : Storage cfg.Ledger} (evm_address : List ℕ) (limit : ℕ)
      → Later s s'
      → limit ≤ u64_max
      → limit ≤ nonce_of evm_address s
      → limit ≤ nonce_of evm_address s'
  Later-grows evm_address limit now small h = h
  Later-grows evm_address limit (other_call ledger l) small h =
      Later-grows evm_address limit l small h
  Later-grows evm_address limit (deposit_call {s' = s1} {s2 = s2} origin to amount {ev = ev} l e)
        small h =
      let (_, _, _, _, same) = deposit_checks cfg origin to amount s1 s2 ev e in
      let q : nonce_of evm_address s2 ≡ nonce_of evm_address s1 =
        ap (λ m. nonce_or_zero (lookup evm_address m)) same in
      omega (arith, Later-grows evm_address limit l small h, q)
  Later-grows evm_address limit
        (withdraw_call {s' = s1} {s2 = s2} origin from to amount nonce sig {ev = ev} l e) small h =
      withdrawal_grows evm_address limit
        (withdraw_checks cfg origin from to amount nonce sig s1 s2 ev e) small
        (Later-grows evm_address limit l small h)

  -- After a withdrawal with a nonce below the end of `u64`, no call with the same address and nonce
  -- succeeds in any later state, whoever sends it, for whatever receiver, amount and signature.
  pub withdraw_once :
      (origin origin' : Option cfg.AccountId) (evm_address : List ℕ) (to to' : cfg.AccountId)
      (amount amount' nonce : ℕ) (sig sig' : List ℕ) (s s1 s2 s3 : Storage cfg.Ledger)
      (ev ev' : Event cfg)
      → nonce < u64_max
      → withdraw cfg origin evm_address to amount nonce sig s ≡ ok (s1, ev)
      → Later s1 s2
      → withdraw cfg origin' evm_address to' amount' nonce sig' s2 ≢ ok (s3, ev')
  withdraw_once origin origin' evm_address to to' amount amount' nonce sig sig' s s1 s2 s3 ev ev'
        small first later second =
      let w = withdraw_checks cfg origin evm_address to amount nonce sig s s1 ev first in
      let w' = withdraw_checks cfg origin' evm_address to' amount' nonce sig' s2 s3 ev' second in
      let g =
        Later-grows evm_address (nonce + 1) later (omega arith)
          (omega (arith, w.advanced, small)) in
      omega (arith, w'.expected, g)
