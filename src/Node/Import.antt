-- ===== src/Node/Import.antt =====
-- The import of blocks, node/src/pow_import.rs, and what it uses of node/src/service.rs: the verifier
-- that moves the seal, the proof of work over the cached state of the hash function, the total
-- difficulty of a block in the auxiliary store, and the choice of the best chain. A block hash is its
-- big-endian value.
pub mod Digests
pub mod Heaviest
pub mod Accept
use lumenyx.Prelude.{
  ℕ, ◌+◌, ◌^◌, Bool, true, false, not, ◌&&◌, ◌||◌, Option, none, some, List, [], ◌∷◌, ◌++◌, ltb,
  ◌==◌, if◌then◌else◌, any, retain, length, bytes_eq, saturating_add, min, u32_max, u256_max,
  Result, ok, err,
}
use lumenyx.Digest.{
  DigestItem, pre_runtime, consensus, seal, other, runtime_environment_updated, lumenyx_engine_id,
}
use lumenyx.Node.Seed.{seed_height, get_seed}
use lumenyx.Node.Target.{fallback_difficulty, difficulty_to_target, hash_meets_target}

pub record Header : Type 0 where
  pub parent_hash : ℕ
  pub number : ℕ
  pub state_root : List ℕ
  pub extrinsics_root : List ℕ
  pub logs : List DigestItem

pub data ForkChoice : Type 0 where
  longest_chain : ForkChoice
  custom : Bool → ForkChoice

-- The part of `BlockImportParams` that the node reads or writes.
pub record Params : Type 0 where
  pub header : Header
  pub post_digests : List DigestItem
  pub fork_choice : Option ForkChoice

pub data ImportResult : Type 0 where
  imported : (is_new_best : Bool) → ImportResult
  already_in_chain known_bad unknown_parent missing_state : ImportResult

-- `matches!(d, DigestItem::Seal(id, _) if *id == LUMENYX_ENGINE_ID)`, and the same for `Consensus`.
abbrev pub is_lumenyx_seal : DigestItem → Bool
is_lumenyx_seal (seal id bytes) = bytes_eq id lumenyx_engine_id
is_lumenyx_seal _ = false

abbrev pub is_lumenyx_consensus : DigestItem → Bool
is_lumenyx_consensus (consensus id bytes) = bytes_eq id lumenyx_engine_id
is_lumenyx_consensus _ = false

abbrev pub is_seal : DigestItem → Bool
is_seal (seal id bytes) = true
is_seal _ = false

abbrev pub with_logs : List DigestItem → Header → Header
with_logs logs h = record h { logs = logs }

-- What `RxLxVerifier::verify` moves; its test for a pre-runtime item is false on all of these.
abbrev pub is_moved : DigestItem → Bool
is_moved d = is_lumenyx_seal d || is_lumenyx_consensus d

-- `RxLxVerifier::verify`; `none` is the error.
unfoldable pub verify : Params → Option Params
verify block =
    let moved = retain is_moved block.header.logs in
    let kept = retain (λ d. not (is_moved d)) block.post_digests in
    if any is_seal moved
    then some (record block {
      header = with_logs (retain (λ d. not (is_moved d)) block.header.logs) block.header;
      post_digests = kept ++ moved;
    })
    else none

-- `remove_seal_from_header`
unfoldable pub remove_seal_from_header : Header → Header
remove_seal_from_header h = with_logs (retain (λ d. not (is_lumenyx_seal d)) h.logs) h

-- `ensure_single_seal_in_post_digests`
unfoldable pub ensure_single_seal_in_post_digests : Params → List ℕ → Params
ensure_single_seal_in_post_digests params nonce = record params {
  post_digests =
      retain (λ d. not (is_lumenyx_seal d)) params.post_digests
      ++ seal lumenyx_engine_id nonce ∷ [];
}

-- The first steps of `import_block` on a block with a nonce.
unfoldable pub normalise : Params → List ℕ → Params
unfolding remove_seal_from_header ensure_single_seal_in_post_digests
normalise params nonce =
    ensure_single_seal_in_post_digests
      (record params { header = remove_seal_from_header params.header }) nonce

-- The payload of the first seal, if there is one.
unfoldable pub first_seal : List DigestItem → Option (List ℕ)
first_seal [] = none
first_seal (seal id bytes ∷ logs) =
    let rest = first_seal logs in if bytes_eq id lumenyx_engine_id then some bytes else rest
first_seal (_ ∷ logs) = first_seal logs

abbrev pub nonce_of : List ℕ → Option (List ℕ)
nonce_of bytes = if length bytes == 32 then some bytes else none

-- `extract_seal_nonce`: of the post digests, or else of the header.
unfoldable pub extract_seal_nonce : Params → Option (List ℕ)
unfolding first_seal
extract_seal_nonce params = elim (first_seal params.post_digests) [
  | some bytes ↦ nonce_of bytes
  | none ↦ elim (first_seal params.header.logs) [ some bytes ↦ nonce_of bytes | none ↦ none ]
]

-- `RxLxPow`: the seeds that the cache was last filled from and the virtual machine was made from, and
-- the seed recorded with its height.
pub record RxLxPow : Type 0 where
  pub cache : ℕ
  pub vm : ℕ
  pub seed_height : ℕ
  pub seed : ℕ

-- What the node takes from outside: the client with its stores, the codecs, the hash functions, and
-- whether an allocation for the hash function succeeds at a height.
pub record Outside : Type 1 where
  pub Client : Type 0
  pub header_hash : Header → ℕ
  pub hash_at : ℕ → Client → Option ℕ
  pub best_hash : Client → ℕ
  pub get_aux : List ℕ → Client → Option (List ℕ)
  pub insert_aux : List ℕ → List ℕ → Client → Client
  pub difficulty_at : ℕ → Client → Option (List ℕ)
  pub import_inner : Params → Client → Option ImportResult × Client
  pub decode_u128 : List ℕ → Option ℕ
  pub decode_u256 : List ℕ → Option ℕ
  pub encode_u256 : ℕ → List ℕ
  pub as_bytes : ℕ → List ℕ
  pub rx_hash : (seed pre_hash : ℕ) → (nonce : List ℕ) → ℕ
  pub stale_hash : (cache made pre_hash : ℕ) → (nonce : List ℕ) → ℕ
  pub cache_ok : ℕ → Bool
  pub vm_ok : ℕ → Bool

-- `AUX_TD_PREFIX`, b"lumenyx:td:"
abbrev pub aux_td_prefix : List ℕ
aux_td_prefix = b'l' ∷ b'u' ∷ b'm' ∷ b'e' ∷ b'n' ∷ b'y' ∷ b'x' ∷ b':' ∷ b't' ∷ b'd' ∷ b':' ∷ []

abbrev pub unwrap_or : ℕ → Option ℕ → ℕ
unwrap_or d none = d
unwrap_or d (some n) = n

abbrev pub and_then : (List ℕ → Option ℕ) → Option (List ℕ) → Option ℕ
and_then f none = none
and_then f (some bytes) = f bytes

-- The choice between a leaf and the best so far, each with its total difficulty.
unfoldable pub heavier : ℕ × ℕ → ℕ × ℕ → ℕ × ℕ
heavier (h, td) (best_h, best_td) =
    if ltb best_td td || ((td == best_td) && ltb h best_h) then (h, td) else (best_h, best_td)

module _ (out : Outside) where
  open out use {
    Client, header_hash, hash_at, best_hash, get_aux, insert_aux, difficulty_at, import_inner,
    decode_u128, decode_u256, encode_u256, as_bytes, rx_hash, stale_hash, cache_ok, vm_ok,
  }

  -- `td_key`
  abbrev pub td_key : ℕ → List ℕ
  td_key hash = aux_td_prefix ++ as_bytes hash

  -- `read_td`
  unfoldable pub read_td : ℕ → Client → ℕ
  read_td hash client = unwrap_or 0 (and_then decode_u256 (get_aux (td_key hash) client))

  -- `write_td`
  unfoldable pub write_td : ℕ → ℕ → Client → Client
  write_td hash td client = insert_aux (td_key hash) (encode_u256 td) client

  -- `get_block_hash_by_height`; the height saturates at the end of `u32`.
  unfoldable pub get_block_hash_by_height : Client → ℕ → ℕ
  get_block_hash_by_height client height = unwrap_or 0 (hash_at (min height u32_max) client)

  -- `read_difficulty_from_storage`
  unfoldable pub read_difficulty_from_storage : ℕ → Client → ℕ
  read_difficulty_from_storage at client =
      unwrap_or fallback_difficulty (and_then decode_u128 (difficulty_at at client))

  -- `compute_block_hash_like_client`
  unfoldable pub compute_block_hash_like_client : Header → List DigestItem → ℕ
  compute_block_hash_like_client h post_digests = header_hash (with_logs (h.logs ++ post_digests) h)

  -- `RxLxPow::new`; `none` is an error.
  unfoldable pub new : ℕ → (ℕ → ℕ) → Option RxLxPow
  new height get_block_hash =
      let s = get_seed height get_block_hash in
      if cache_ok height && vm_ok height
      then some (record { cache = s; vm = s; seed_height = seed_height height; seed = s })
      else none

  -- `RxLxPow::maybe_reseed`: whether it succeeded, and the state after.
  unfoldable pub maybe_reseed : ℕ → (ℕ → ℕ) → RxLxPow → Bool × RxLxPow
  maybe_reseed height get_block_hash pow =
      let new_seed_height = seed_height height in
      let s = get_seed height get_block_hash in
      if new_seed_height == pow.seed_height
      then (true, pow)
      else if vm_ok height
      then (true, record { cache = s; vm = s; seed_height = new_seed_height; seed = s })
      else (false, record pow { cache = s })

  -- `RxLxPow::hash`. A machine reads the cache that it was made over: if that was filled again with
  -- another seed since, what the library answers is `stale_hash`.
  unfoldable pub machine_hash : RxLxPow → (pre_hash : ℕ) → (nonce : List ℕ) → ℕ
  machine_hash pow pre_hash nonce =
      if pow.cache == pow.vm
      then rx_hash pow.vm pre_hash nonce
      else stale_hash pow.cache pow.vm pre_hash nonce

  -- The state of `verify_pow` after its first use.
  abbrev pub get_or_new : ℕ → (ℕ → ℕ) → Option RxLxPow → Option RxLxPow
  get_or_new height get_block_hash none = new height get_block_hash
  get_or_new height get_block_hash (some pow) = some pow

  -- The end of `verify_pow`, with the state of the hash function.
  unfoldable pub check_hash : Client → Header → List ℕ → Option RxLxPow → Bool × Option RxLxPow
  unfolding maybe_reseed read_difficulty_from_storage
  check_hash client h nonce none = (false, none)
  check_hash client h nonce (some pow) =
      let (reseeded, pow') = maybe_reseed h.number (get_block_hash_by_height client) pow in
      let target = difficulty_to_target (read_difficulty_from_storage h.parent_hash client) in
      let pow_hash = machine_hash pow' (header_hash h) nonce in
      if reseeded then (hash_meets_target pow_hash target, some pow') else (false, some pow')

  -- `verify_pow`
  unfoldable pub verify_pow : Client → Header → List ℕ → Option RxLxPow → Bool × Option RxLxPow
  unfolding new check_hash
  verify_pow client h nonce rxlx =
      check_hash client h nonce (get_or_new h.number (get_block_hash_by_height client) rxlx)

  -- `compute_total_difficulty`
  unfoldable pub compute_total_difficulty : ℕ → Client → ℕ
  compute_total_difficulty parent_hash client =
      saturating_add u256_max (read_td parent_hash client)
        (read_difficulty_from_storage parent_hash client)

  -- `should_be_best`
  unfoldable pub should_be_best : Client → (new_hash new_td : ℕ) → Bool
  should_be_best client new_hash new_td =
      let best_td = read_td (best_hash client) client in
      if ltb best_td new_td
      then true
      else if ltb new_td best_td
      then false
      else ltb new_hash (best_hash client)

  -- The end of `import_block`: the total difficulty is written unless the inner import fails.
  abbrev pub after_import :
      (new_hash new_td : ℕ) → Option ImportResult × Client → Option ImportResult × Client
  after_import new_hash new_td (none, client) = (none, client)
  after_import new_hash new_td (some result, client) =
      (some result, write_td new_hash new_td client)

  -- `import_block` after the nonce is extracted; a result of `none` is the error of the inner import.
  unfoldable pub import_sealed :
      Params
      → Client
      → Option RxLxPow
      → Option (List ℕ)
      → Option ImportResult × Client × Option RxLxPow
  unfolding write_td
  import_sealed params client rxlx none = (some known_bad, client, rxlx)
  import_sealed params client rxlx (some nonce) =
      let p = normalise params nonce in
      let (valid, rxlx') = verify_pow client p.header nonce rxlx in
      let new_td = compute_total_difficulty p.header.parent_hash client in
      let new_hash = compute_block_hash_like_client p.header p.post_digests in
      let is_best = should_be_best client new_hash new_td in
      let (result, client') =
        after_import new_hash new_td
          (import_inner (record p { fork_choice = some (custom is_best) }) client) in
      if valid then (result, client', rxlx') else (some known_bad, client, rxlx')

  -- `import_block`
  unfoldable pub import_block :
      Params → Client → Option RxLxPow → Option ImportResult × Client × Option RxLxPow
  unfolding import_sealed
  import_block params client rxlx = import_sealed params client rxlx (extract_seal_nonce params)

  -- The loop of `TotalDifficultySelectChain::best_chain` over the leaves.
  unfoldable pub best_leaf : Client → List ℕ → Option (ℕ × ℕ) → Option (ℕ × ℕ)
  unfolding heavier
  best_leaf client [] best = best
  best_leaf client (h ∷ leaves) none = best_leaf client leaves (some (h, read_td h client))
  best_leaf client (h ∷ leaves) (some best) =
      best_leaf client leaves (some (heavier (h, read_td h client) best))
