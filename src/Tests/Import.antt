-- ===== src/Tests/Import.antt =====
-- Import, fork choice, targets and seals at concrete blocks, with a client that is its auxiliary store.
use lumenyx.Prelude.{
  ℕ, ◌+◌, ◌*◌, ◌≤◌, min, max, ◌≡◌, ◌≢◌, ◌↔◌, refl, ap, arith, Bool, true, false, none, some, List,
  [], ◌∷◌, lookup, insert, lookup-insert, u256_max,
}
use lumenyx.Digest.{pre_runtime, lumenyx_engine_id}
use lumenyx.Node.Seed.{seed_height, get_seed}
use lumenyx.Node.Target.{pow_limit, difficulty_to_target, hash_meets_target}
use lumenyx.Node.Target.Work.{meets_iff}
use lumenyx.Node.Import.{
  Outside, Header, Params, ImportResult, imported, known_bad, verify, extract_seal_nonce, normalise,
  import_block, read_td, read_difficulty_from_storage, compute_block_hash_like_client, best_leaf,
  verify_pow, td_key, machine_hash, get_block_hash_by_height,
}
use lumenyx.Node.Import.Digests.{sealed_block, unsealed_block, sealed_roundtrip}
use lumenyx.Node.Import.Heaviest.{best_leaf_order}
use lumenyx.Node.Import.Accept.{IsSeeded, IsStore, is_worked, import_needs_work, import_records_td}
use lumenyx.Tests.Support.{Store, read_number}

-- The hash of a header is its number, every height's block is itself, and every nonce has the hash 5.
abbrev pub outside : Outside
outside = record {
  Client = Store;
  header_hash = λ h. h.number;
  hash_at = λ height client. some height;
  best_hash = λ client. 0;
  get_aux = λ k client. lookup k client;
  insert_aux = λ k v client. insert k v client;
  difficulty_at = λ hash client. some (40 ∷ []);
  import_inner = λ p client. (some (imported true), client);
  decode_u128 = read_number;
  decode_u256 = read_number;
  encode_u256 = λ n. n ∷ [];
  as_bytes = λ hash. hash ∷ [];
  rx_hash = λ seed pre_hash nonce. 5;
  stale_hash = λ cache made pre_hash nonce. 7;
  cache_ok = λ height. true;
  vm_ok = λ height. true;
}

outside-IsStore : IsStore outside
outside-IsStore = record { reads = λ k v client. lookup-insert k v client; decodes = λ n h. refl }

abbrev pub nonce : List ℕ
nonce =
    0 ∷ 1 ∷ 2 ∷ 3 ∷ 4 ∷ 5 ∷ 6 ∷ 7 ∷ 8 ∷ 9 ∷ 10 ∷ 11 ∷ 12 ∷ 13 ∷ 14 ∷ 15 ∷ 16 ∷ 17 ∷ 18 ∷ 19 ∷ 20
    ∷ 21 ∷ 22 ∷ 23 ∷ 24 ∷ 25 ∷ 26 ∷ 27 ∷ 28 ∷ 29 ∷ 30 ∷ 31 ∷ []

abbrev mined : Header
mined = record {
  parent_hash = 9;
  number = 10;
  state_root = [];
  extrinsics_root = [];
  logs = pre_runtime lumenyx_engine_id (7 ∷ []) ∷ [];
}

abbrev block_ten : Params
block_ten = unsealed_block mined nonce

sealed_roundtrip_example :
    (verify (sealed_block mined nonce) ≡ some (unsealed_block mined nonce))
    × (extract_seal_nonce (unsealed_block mined nonce) ≡ some nonce)
    × (normalise (unsealed_block mined nonce) nonce ≡ unsealed_block mined nonce)
sealed_roundtrip_example = sealed_roundtrip mined nonce refl (omega arith)

meets_iff_example :
    (hash_meets_target 5 (difficulty_to_target 40) ≡ true) ↔ (5 * max 40 1 ≤ pow_limit)
meets_iff_example = meets_iff 5 40 (omega arith)

extracted : extract_seal_nonce block_ten ≡ some nonce
unfolding extract_seal_nonce
extracted = refl

imported_ten : (import_block outside block_ten [] none).0 ≡ some (imported true)
unfolding import_block extract_seal_nonce verify_pow seed_height normalise hash_meets_target
    difficulty_to_target machine_hash get_seed get_block_hash_by_height
imported_ten = refl

-- Whether a store holds anything.
abbrev holds : Store → Bool
holds [] = false
holds (x ∷ m) = true

abbrev is_imported : ImportResult → Bool
is_imported (imported best) = true
is_imported _ = false

accepted-ne : imported true ≢ known_bad
accepted-ne e = let q : true ≡ false = ap is_imported e in ground arith

changed_ten : (import_block outside block_ten [] none).1 ≢ []
unfolding import_block extract_seal_nonce verify_pow seed_height normalise hash_meets_target
    difficulty_to_target machine_hash get_seed get_block_hash_by_height
changed_ten e = let q : true ≡ false = ap holds e in ground arith

import_needs_work_example :
    (n : List ℕ) × (extract_seal_nonce block_ten ≡ some n)
    × (is_worked outside [] (normalise block_ten n).header n ≡ true)
unfolding IsSeeded
import_needs_work_example = import_needs_work outside block_ten [] none tt changed_ten

import_records_td_example :
    let p = normalise block_ten nonce in
    read_td outside
      (compute_block_hash_like_client outside p.header p.post_digests)
      (import_block outside block_ten [] none).1
    ≡ min u256_max (
        read_td outside p.header.parent_hash []
        + read_difficulty_from_storage outside p.header.parent_hash [])
import_records_td_example =
    import_records_td outside outside-IsStore block_ten [] none nonce (imported true) extracted
      imported_ten accepted-ne

-- Total difficulties of three blocks; the last two are equal.
abbrev three : Store
three =
    (td_key outside 1, 100 ∷ []) ∷ (td_key outside 2, 200 ∷ []) ∷ (td_key outside 3, 200 ∷ []) ∷ []

best_leaf_order_example :
    best_leaf outside three (1 ∷ 3 ∷ 2 ∷ []) none ≡ best_leaf outside three (2 ∷ 1 ∷ 3 ∷ []) none
best_leaf_order_example =
    best_leaf_order outside three (1 ∷ 3 ∷ 2 ∷ []) (2 ∷ 1 ∷ 3 ∷ []) (λ h. ground arith)
