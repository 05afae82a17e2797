-- ===== src/Tests/Bridge.antt =====
-- The bridge at a concrete withdrawal, with a signature scheme where the signature names the key.
use lumenyx.Prelude.{
  ℕ, zero, suc, ◌-◌, ◌≡◌, ◌≢◌, refl, arith, none, some, List, [], ◌∷◌, ◌++◌, leb, if◌then◌else◌, ok,
}
use lumenyx.EvmBridge.{Config, Storage, withdrawn, withdraw}
use lumenyx.EvmBridge.Calls.{IsWithdrawal, withdraw_checks}
use lumenyx.EvmBridge.Replay.{now, withdraw_once}

abbrev repeated : ℕ → ℕ → List ℕ
repeated zero b = []
repeated (suc n) b = b ∷ repeated n b

-- One account, 0, that holds the ledger; the key is 32 bytes, and the hash does nothing.
abbrev config : Config
config = record {
  AccountId = ℕ;
  Ledger = ℕ;
  transfer = λ from to amt ledger. if leb amt ledger then some (ledger - amt) else none;
  into_account_id = λ address. 0;
  encode_payload = λ tag chain_id address to amount nonce. to ∷ amount ∷ nonce ∷ [];
  keccak_256 = λ bytes. bytes;
  ecdsa_recover = λ sig hash. some (repeated 32 9);
  evm_chain_id = 7777;
}

abbrev owner : List ℕ
owner = repeated 20 9

abbrev signature : List ℕ
signature = repeated 64 1 ++ 27 ∷ []

abbrev before : Storage ℕ
before = record { withdraw_nonce = []; ledger = 100 }

abbrev after : Storage ℕ
after = record { withdraw_nonce = (owner, 1) ∷ []; ledger = 70 }

withdrawal :
    withdraw config (some 5) owner 6 30 0 signature before ≡ ok (after, withdrawn owner 6 30 0)
unfolding withdraw
withdrawal = refl

withdraw_checks_example : IsWithdrawal config owner 6 30 0 signature before after
withdraw_checks_example =
    withdraw_checks config (some 5) owner 6 30 0 signature before after (withdrawn owner 6 30 0)
      withdrawal

withdraw_once_example :
    withdraw config (some 8) owner 6 30 0 signature after ≢ ok (before, withdrawn owner 6 30 0)
withdraw_once_example =
    withdraw_once config (some 5) (some 8) owner 6 6 30 30 0 signature signature before after after
      before (withdrawn owner 6 30 0) (withdrawn owner 6 30 0) (omega arith) withdrawal now
