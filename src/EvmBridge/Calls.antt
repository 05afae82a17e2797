-- ===== src/EvmBridge/Calls.antt =====
-- When the calls of pallets/evm-bridge/src/lib.rs succeed, and what they do then.
use lumenyx.Prelude.{
  ℕ, ◌+◌, ◌≤◌, min, ◌≡◌, ◌≢◌, refl, sym, ap, subst, ◌∙◌, arith, Bool, true, false, not, Option,
  none, some, List, ◌==◌, ==_iff, insert, lookup-insert, lookup-insert_ne, u64_max, Result, ok,
  err-ne-ok, ok-injective, bind_ok,
}
use lumenyx.EvmBridge.{
  Config, Storage, Error, amount_zero, bad_nonce, invalid_signature, transfer_failed, bad_origin,
  nonce_of, nonce_or_zero, ensure, ok_or, Event, deposited, withdrawn, ensure_signed,
  ensure_evm_sig_matches, withdraw_digest, deposit, withdraw,
}

ensure_ok : (b : Bool) (e : Error) → Path (Result Error (Unit {0})) (ensure b e) (ok tt) → b ≡ true
ensure_ok true e h = refl
ensure_ok false e h = absurd (err-ne-ok e tt h)

ok_or_ok :
    {A : Type 0} (e : Error) (o : Option A) (a : A)
    → Path (Result Error A) (ok_or e o) (ok a)
    → o ≡ some a
ok_or_ok e none a h = absurd (err-ne-ok e a h)
ok_or_ok e (some x) a h = ap some (ok-injective x a h)

positive_of : (amount : ℕ) → not (amount == 0) ≡ true → 1 ≤ amount
positive_of amount h = ground arith

module _ (cfg : Config) where
  -- What a withdrawal that succeeds has checked and done.
  pub record IsWithdrawal (evm_address : List ℕ) (to : cfg.AccountId) (amount nonce : ℕ)
      (sig : List ℕ) (s s' : Storage cfg.Ledger) : Type 0 where
    pub positive : 1 ≤ amount
    pub expected : nonce ≡ nonce_of evm_address s
    pub signed :
        ensure_evm_sig_matches cfg evm_address (withdraw_digest cfg evm_address to amount nonce) sig
        ≡ true
    pub advanced : nonce_of evm_address s' ≡ min u64_max (nonce + 1)
    pub kept : (other : List ℕ) → other ≢ evm_address → nonce_of other s' ≡ nonce_of other s
    pub paid : cfg.transfer (cfg.into_account_id evm_address) to amount s.ledger ≡ some s'.ledger

  -- If `withdraw` succeeds, the amount is positive, the nonce is the stored one, the signature over the
  -- chain, the address, the receiver, the amount and the nonce recovers to the address, the transfer was
  -- made, and the address's nonce alone has moved, by one up to the limit of `u64`.
  pub withdraw_checks :
      (origin : Option cfg.AccountId) (evm_address : List ℕ) (to : cfg.AccountId) (amount nonce : ℕ)
      (sig : List ℕ) (s s' : Storage cfg.Ledger) (ev : Event cfg)
      → withdraw cfg origin evm_address to amount nonce sig s ≡ ok (s', ev)
      → IsWithdrawal evm_address to amount nonce sig s s'
  unfolding withdraw
  withdraw_checks origin evm_address to amount nonce sig s s' ev e =
      let (_, _, e1) = bind_ok (ensure_signed cfg origin) _ (s', ev) e in
      let (_, pos, e2) = bind_ok (ensure (not (amount == 0)) amount_zero) _ (s', ev) e1 in
      let (_, exp, e3) =
        bind_ok (ensure (nonce == nonce_of evm_address s) bad_nonce) _ (s', ev) e2 in
      let (_, sgn, e4) =
        bind_ok
          (ensure
            (ensure_evm_sig_matches cfg evm_address
              (withdraw_digest cfg evm_address to amount nonce) sig)
            invalid_signature)
          _ (s', ev) e3 in
      let (ledger, pay, e5) =
        bind_ok
          (ok_or transfer_failed
            (cfg.transfer (cfg.into_account_id evm_address) to amount s.ledger))
          _ (s', ev) e4 in
      let expected : nonce ≡ nonce_of evm_address s =
        (==_iff nonce (nonce_of evm_address s)).0
          (ensure_ok (nonce == nonce_of evm_address s) bad_nonce exp) in
      let next = min u64_max (nonce_of evm_address s + 1) in
      let s2 : Storage cfg.Ledger = record s {
        withdraw_nonce = insert evm_address next s.withdraw_nonce;
        ledger = ledger;
      } in
      let same : s2 ≡ s' =
        ap (λ x. x.0) (ok-injective (s2, withdrawn evm_address to amount nonce) (s', ev) e5) in
      subst (IsWithdrawal evm_address to amount nonce sig s) same (record {
        positive = positive_of amount (ensure_ok (not (amount == 0)) amount_zero pos);
        expected = expected;
        signed = ensure_ok _ invalid_signature sgn;
        advanced =
            ap nonce_or_zero (lookup-insert evm_address next s.withdraw_nonce)
            ∙ ap (λ n. min u64_max (n + 1)) (sym expected);
        kept = λ other ne.
            ap nonce_or_zero (lookup-insert_ne other evm_address next s.withdraw_nonce ne);
        paid = ok_or_ok transfer_failed _ ledger pay;
      })

  -- If `deposit` succeeds, the amount is positive, the signer's transfer to the account of the address
  -- was made, and no nonce has moved.
  pub deposit_checks :
      (origin : Option cfg.AccountId) (evm_address : List ℕ) (amount : ℕ)
      (s s' : Storage cfg.Ledger) (ev : Event cfg)
      → deposit cfg origin evm_address amount s ≡ ok (s', ev)
      → (from : cfg.AccountId) × (origin ≡ some from)
        × (1 ≤ amount)
        × (cfg.transfer from (cfg.into_account_id evm_address) amount s.ledger ≡ some s'.ledger)
        × (s'.withdraw_nonce ≡ s.withdraw_nonce)
  unfolding deposit
  deposit_checks origin evm_address amount s s' ev e =
      let (from, signer, e1) = bind_ok (ensure_signed cfg origin) _ (s', ev) e in
      let (_, pos, e2) = bind_ok (ensure (not (amount == 0)) amount_zero) _ (s', ev) e1 in
      let (ledger, pay, e3) =
        bind_ok
          (ok_or transfer_failed
            (cfg.transfer from (cfg.into_account_id evm_address) amount s.ledger))
          _ (s', ev) e2 in
      let s2 : Storage cfg.Ledger = record s { ledger = ledger } in
      let same : s2 ≡ s' =
        ap (λ x. x.0) (ok-injective (s2, deposited from evm_address amount) (s', ev) e3) in
      (
        from,
        ok_or_ok bad_origin origin from signer,
        positive_of amount (ensure_ok (not (amount == 0)) amount_zero pos),
        ok_or_ok transfer_failed _ ledger pay ∙ ap (λ x. some x.ledger) same,
        ap (λ x. x.withdraw_nonce) (sym same),
      )
