-- ===== src/Tests/Support.antt =====
-- Stand-ins for what the code takes from outside: a storage of byte strings, a codec, a ledger.
use lumenyx.Prelude.{
  ℕ, zero, suc, ◌+◌, ◌≡◌, ◌≢◌, ◌≤◌, ◌⊎◌, ◌||◌, leb, arith, refl, ap, ◌∙◌, Bool, Bool-cases, true,
  false, Option, none, some, List, [], ◌∷◌, ◌++◌, length, if◌then◌else◌, bytes_eq, lookup, insert,
  lookup-insert, lookup-insert_ne, inl, inr, bytes-cases,
}
use lumenyx.Halving.{Framework, PoolPayoutDigest, AccountInfo}
use lumenyx.Halving.Deposits.{IsMinting}
use lumenyx.Halving.Migration.{IsMap}
use lumenyx.Node.Payout.Accepted.{IsCodec}

-- A codec that writes one number for each number, with lengths in front.
abbrev pub write_list : List ℕ → List ℕ
write_list xs = length xs ∷ xs

unfoldable pub read_n : ℕ → List ℕ → Option (List ℕ × List ℕ)
read_n zero bytes = some ([], bytes)
read_n (suc n) [] = none
read_n (suc n) (x ∷ bytes) = elim (read_n n bytes) [
  | none ↦ none
  | some (xs, rest) ↦ some (x ∷ xs, rest)
]

abbrev pub write_payouts : List (List ℕ × ℕ) → List ℕ
write_payouts [] = []
write_payouts ((acct, amt) ∷ payouts) = (length acct ∷ acct) ++ amt ∷ write_payouts payouts

abbrev pub cons_payout : List ℕ → ℕ → Option (List (List ℕ × ℕ)) → Option (List (List ℕ × ℕ))
cons_payout acct amt none = none
cons_payout acct amt (some payouts) = some ((acct, amt) ∷ payouts)

abbrev pub read_payout :
    (List ℕ → Option (List (List ℕ × ℕ))) → Option (List ℕ × List ℕ) → Option (List (List ℕ × ℕ))
read_payout more none = none
read_payout more (some (acct, [])) = none
read_payout more (some (acct, amt ∷ rest)) = cons_payout acct amt (more rest)

unfoldable pub read_payouts : ℕ → List ℕ → Option (List (List ℕ × ℕ))
unfolding read_n
read_payouts zero bytes = some []
read_payouts (suc count) [] = none
read_payouts (suc count) (n ∷ bytes) = read_payout (read_payouts count) (read_n n bytes)

abbrev pub write_digest : PoolPayoutDigest → List ℕ
write_digest d =
    (length d.sharechain_tip ∷ d.sharechain_tip)
    ++ d.block_reward ∷ length d.payouts ∷ write_payouts d.payouts

abbrev pub digest_of : List ℕ → ℕ → Option (List (List ℕ × ℕ)) → Option PoolPayoutDigest
digest_of tip reward none = none
digest_of tip reward (some payouts) =
    some (record { sharechain_tip = tip; block_reward = reward; payouts = payouts })

abbrev pub read_rest : Option (List ℕ × List ℕ) → Option PoolPayoutDigest
read_rest (some (tip, reward ∷ count ∷ rest)) = digest_of tip reward (read_payouts count rest)
read_rest _ = none

unfoldable pub read_digest : List ℕ → Option PoolPayoutDigest
unfolding read_n read_payouts
read_digest [] = none
read_digest (n ∷ bytes) = read_rest (read_n n bytes)

read_n_lem : (xs rest : List ℕ) → read_n (length xs) (xs ++ rest) ≡ some (xs, rest)
unfolding read_n
read_n_lem [] rest = refl
read_n_lem (x ∷ xs) rest = rw (read_n_lem xs rest) refl

read_payouts_lem :
    (payouts : List (List ℕ × ℕ))
    → read_payouts (length payouts) (write_payouts payouts) ≡ some payouts
unfolding read_payouts
read_payouts_lem [] = refl
read_payouts_lem ((acct, amt) ∷ payouts) =
    ap (read_payout (read_payouts (length payouts))) (read_n_lem acct (amt ∷ write_payouts payouts))
    ∙ ap (cons_payout acct amt) (read_payouts_lem payouts)

pub read_digest_lem : (d : PoolPayoutDigest) → read_digest (write_digest d) ≡ some d
unfolding read_digest
read_digest_lem d =
    ap read_rest
      (read_n_lem d.sharechain_tip (d.block_reward ∷ length d.payouts ∷ write_payouts d.payouts))
    ∙ ap (digest_of d.sharechain_tip d.block_reward) (read_payouts_lem d.payouts)

-- A storage of byte strings, with its keys in the order of their first writes.
abbrev pub Store : Type 0
Store = List (List ℕ × List ℕ)

abbrev pub keys : Store → List (List ℕ)
keys [] = []
keys ((k, v) ∷ m) = k ∷ keys m

abbrev pub first_key : List (List ℕ) → Option (List ℕ)
first_key [] = none
first_key (k ∷ ks) = some k

-- The key after one, or the first if it is none of them.
abbrev pub key_after : List ℕ → List (List ℕ) → Option (List ℕ) → Option (List ℕ)
key_after j [] start = start
key_after j (k ∷ ks) start = if bytes_eq j k then first_key ks else key_after j ks start

abbrev pub store_next : List ℕ → Store → Option (List ℕ)
store_next j m = key_after j (keys m) (first_key (keys m))

pub keys-insert : (k v : List ℕ) (m : Store) → lookup k m ≢ none → keys (insert k v m) ≡ keys m
keys-insert k v [] there = absurd (there refl)
keys-insert k v ((k', v') ∷ m) there = elim (bytes-cases k k') [
  | inl (same, e) ↦ rw e (ap (λ x. x ∷ keys m) same)
  | inr (ne, e) ↦ rw e (ap (◌∷◌ k') (keys-insert k v m (λ z. there (rw e z))))
]

-- The framework over such a storage: a deposit is kept under the key of a number, `raw` holds the
-- issuance beside it.
abbrev pub AnyRaw : Type 0
AnyRaw = Store × ℕ

abbrev pub one_info : AccountInfo
one_info = record {
  nonce = 0;
  consumers = 0;
  providers = 1;
  sufficients = 0;
  free = 5;
  reserved = 0;
  frozen = 0;
}

abbrev pub read_info : List ℕ → Option AccountInfo
read_info (free ∷ []) = some (record one_info { free = free })
read_info _ = none

abbrev pub read_number : List ℕ → Option ℕ
read_number (n ∷ []) = some n
read_number _ = none

-- The accounts are the keys of the store.
abbrev pub has_account : List ℕ → AnyRaw → Bool
has_account who raw = elim (lookup who raw.0) [ some _ ↦ true | none ↦ false ]

abbrev pub existential_deposit : ℕ
existential_deposit = 500

abbrev pub takes_deposit : List ℕ → ℕ → AnyRaw → Bool
takes_deposit who amt raw = has_account who raw || leb existential_deposit amt

abbrev pub framework : Framework
framework = record {
  AccountId = List ℕ;
  Raw = AnyRaw;
  get = λ k raw. lookup k raw.0;
  put = λ k v raw. (insert k v raw.0, raw.1);
  next_key = λ k raw. store_next k raw.0;
  starts_with = λ k prefix. elim k [ [] ↦ false | _ ∷ _ ↦ true ];
  deposit_creating = λ who amt raw. if takes_deposit who amt raw then (raw.0, raw.1 + amt) else raw;
  decode_account = λ bytes. some bytes;
  decode_digest = read_digest;
  decode_info = read_info;
  encode_info = λ i. i.free ∷ [];
  decode_u128 = read_number;
  encode_u128 = λ n. n ∷ [];
  decode_u256 = read_number;
  encode_u256 = λ n. n ∷ [];
  account_prefix = [];
  total_issuance_key = 200 ∷ [];
  base_fee_key = 201 ∷ [];
}

abbrev pub issuance : AnyRaw → ℕ
issuance raw = raw.1

takes_it :
    (who : List ℕ) (amt : ℕ) (raw : AnyRaw)
    → (has_account who raw ≡ true) ⊎ (existential_deposit ≤ amt)
    → takes_deposit who amt raw ≡ true
takes_it who amt raw (inl h) = rw h refl
takes_it who amt raw (inr h) = ground arith

pub framework-IsMinting : IsMinting framework issuance has_account existential_deposit
framework-IsMinting = record {
  at_most = λ who amt raw. elim (Bool-cases (takes_deposit who amt raw)) [
    | inl e ↦ rw e (omega arith)
    | inr e ↦ rw e (omega arith)
  ];
  mints = λ who amt raw can room. rw (takes_it who amt raw can) refl;
  keeps = λ who other amt raw h. elim (Bool-cases (takes_deposit other amt raw)) [
    | inl e ↦ rw e h
    | inr e ↦ rw e h
  ];
}

pub framework-IsMap : IsMap framework
framework-IsMap = record {
  same_key = λ k v raw. lookup-insert k v raw.0;
  other_key = λ j k v raw ne. lookup-insert_ne j k v raw.0 ne;
  key_order =
      λ j k v raw there. ap (λ ks. key_after j ks (first_key ks)) (keys-insert k v raw.0 there);
}

pub framework-IsCodec : IsCodec framework write_digest
unfolding IsCodec
framework-IsCodec d = read_digest_lem d
