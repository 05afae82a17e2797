-- ===== src/Node/Start/Keys.antt =====
-- The key of the miner over restarts, and the folders of node/src/command.rs.
use lumenyx.Prelude.{
  ℕ, ◌*◌, ◌≤◌, ◌≡◌, refl, sym, ap, subst, ◌∙◌, arith, ◌⊎◌, inl, inr, Bool, true, false,
  Option-cases, Option, none, some, List, [], ◌∷◌, length, take_all, if◌then◌else◌, bytes_eq,
  Result, ok, err-ne-ok, ok-injective,
}
use lumenyx.Node.PoolMode.{is_whitespace, trim_start, trim_end}
use lumenyx.Node.Start.{
  ChainSpec, ChainType, development, local_chain, built, lumenyx_dev, lumenyx_local_testnet,
  StartError, no_wasm, load_spec, chain_folder, lumenyx_mainnet, ensure_network_key, dev, local,
  mainnet, File, Crypto, write_file, seed_of_length, parse_seed, kept_seed, take_or_write,
  get_or_create_miner_key,
}

-- No character of a string is white space.
unfoldable pub IsSolid : List ℕ → Type 0
IsSolid [] = Unit
IsSolid (c ∷ cs) = (is_whitespace c ≡ false) × IsSolid cs

trim_start_solid : (s : List ℕ) → IsSolid s → trim_start s ≡ s
unfolding IsSolid trim_start
trim_start_solid [] h = refl
trim_start_solid (c ∷ cs) (h, hs) = rw h refl

trim_end_solid : (s : List ℕ) → IsSolid s → trim_end s ≡ s
unfolding IsSolid trim_end
trim_end_solid [] h = refl
trim_end_solid (c ∷ []) (h, hs) = rw h refl
trim_end_solid (c ∷ d ∷ ds) (h, hs) = rw (trim_end_solid (d ∷ ds) hs) refl

-- A hexadecimal string has two characters for each byte, none of them white space, and is read back.
pub record IsHex {Pair : Type 0} (crypto : Crypto Pair) : Type 0 where
  pub read_back : (bytes : List ℕ) → crypto.decode (crypto.encode bytes) ≡ some bytes
  pub solid : (bytes : List ℕ) → IsSolid (crypto.encode bytes)
  pub doubled : (bytes : List ℕ) → length (crypto.encode bytes) ≡ 2 * length bytes

module _ {Pair : Type 0} (crypto : Crypto Pair) where
  parse_encoded :
      (seed : List ℕ)
      → IsHex crypto
      → length seed ≡ 32
      → parse_seed crypto (crypto.encode seed) ≡ some seed
  unfolding parse_seed
  parse_encoded seed law n =
      let s = law.solid seed in
      let e : trim_end (trim_start (crypto.encode seed)) ≡ crypto.encode seed =
        ap trim_end (trim_start_solid (crypto.encode seed) s)
        ∙ trim_end_solid (crypto.encode seed) s in
      ap (λ t. seed_of_length (crypto.decode t)) e
      ∙ ap seed_of_length (law.read_back seed)
      ∙ rw n refl

  written :
      (seed : List ℕ) (f : File)
      → IsHex crypto
      → length seed ≡ 32
      → f.readable ≡ true
      → f.writable ≡ true
      → 64 ≤ f.room
      → kept_seed crypto (write_file (crypto.encode seed) f) ≡ some seed
  unfolding kept_seed write_file
  written seed f law n readable writable room =
      let long : length (crypto.encode seed) ≤ f.room = omega (arith, law.doubled seed, n, room) in
      rw (writable, readable, take_all f.room (crypto.encode seed) long) (parse_encoded seed law n)

  -- What a start has when a seed is kept.
  again :
      (pair : Pair) (seed kept : List ℕ) (f : File)
      → kept_seed crypto f ≡ some kept
      → get_or_create_miner_key crypto (pair, seed) f ≡ (crypto.from_seed kept, f)
  unfolding get_or_create_miner_key take_or_write
  again pair seed kept f e = ap (λ k. take_or_write crypto k (pair, seed) f) e

  -- If the file of the key can be read and written, and the disk has room for the 64 characters of a
  -- seed, then whatever was in the file, every later start has the wallet of the first one, whatever
  -- it would have generated, and leaves the file as it is.
  pub miner_key_kept :
      (pair pair' : Pair) (seed seed' : List ℕ) (f : File)
      → IsHex crypto
      → length seed ≡ 32
      → crypto.from_seed seed ≡ pair
      → f.readable ≡ true
      → f.writable ≡ true
      → 64 ≤ f.room
      → let (first, f') = get_or_create_miner_key crypto (pair, seed) f in
        get_or_create_miner_key crypto (pair', seed') f' ≡ (first, f')
  unfolding get_or_create_miner_key take_or_write
  miner_key_kept pair pair' seed seed' f law n own readable writable room =
      elim (Option-cases (kept_seed crypto f)) [
        | inl e ↦
            let f' = write_file (crypto.encode seed) f in
            subst
              (λ k.
                let (first, f') = take_or_write crypto k (pair, seed) f in
                get_or_create_miner_key crypto (pair', seed') f' ≡ (first, f'))
              (sym e)
              (again pair' seed' seed f' (written seed f law n readable writable room)
                ∙ ap (λ p. (p, f')) own)
        | inr (kept, e) ↦
            subst
              (λ k.
                let (first, f') = take_or_write crypto k (pair, seed) f in
                get_or_create_miner_key crypto (pair', seed') f' ≡ (first, f'))
              (sym e) (again pair' seed' kept f e)
      ]

abbrev a_file : Option (List ℕ) → Bool → Bool → ℕ → File
a_file contents readable writable room = record {
  contents = contents;
  readable = readable;
  writable = writable;
  room = room;
}

made_once :
    (generated generated' : List ℕ) (contents : Option (List ℕ)) (readable writable : Bool)
    (room : ℕ)
    → let f' = ensure_network_key generated (a_file contents readable writable room) in
      ensure_network_key generated' f' ≡ f'
unfolding ensure_network_key write_file
made_once generated generated' (some bytes) readable writable room = refl
made_once generated generated' none readable true room = refl
made_once generated generated' none readable false room = refl

-- A key of the network is made once: what is generated later changes nothing, also when the first write
-- failed half-way.
pub network_key_once :
    (generated generated' : List ℕ) (f : File)
    → let f' = ensure_network_key generated f in ensure_network_key generated' f' ≡ f'
network_key_once generated generated' f =
    made_once generated generated' f.contents f.readable f.writable f.room

module _ {AccountId : Type 0} where
  built_id :
      (wasm : Bool) (id : List ℕ) (chain_type : ChainType) (endowed : List AccountId)
      (spec : ChainSpec AccountId)
      → built wasm id chain_type endowed ≡ ok spec
      → spec.id ≡ id
  built_id true id chain_type endowed spec e =
      sym (ap (λ (x : ChainSpec AccountId). x.id) (ok-injective _ spec e))
  built_id false id chain_type endowed spec e = absurd (err-ne-ok no_wasm spec e)

  module _ (wasm : Bool) (alice bob alice_stash bob_stash charlie dave : AccountId)
      (frozen : ChainSpec AccountId)
      (from_json_file : List ℕ → Result StartError (ChainSpec AccountId)) where
    folder_cases :
        (is_dev is_local is_empty is_mainnet : Bool) (id : List ℕ) (spec : ChainSpec AccountId)
        → frozen.id ≡ lumenyx_mainnet
        → (if is_dev
            then built wasm lumenyx_dev development (alice ∷ bob ∷ alice_stash ∷ bob_stash ∷ [])
            else if is_local
            then built wasm lumenyx_local_testnet local_chain (alice ∷ bob ∷ charlie ∷ dave ∷ [])
            else if is_empty
            then ok frozen
            else if is_mainnet
            then ok frozen
            else from_json_file id)
          ≡ ok spec
        → let folder =
            if is_dev
            then lumenyx_dev
            else if is_local
            then lumenyx_local_testnet
            else lumenyx_mainnet in
          (spec.id ≡ folder) ⊎ ((from_json_file id ≡ ok spec) × (folder ≡ lumenyx_mainnet))
    folder_cases true l n m id spec f e =
        inl (
          built_id wasm lumenyx_dev development (alice ∷ bob ∷ alice_stash ∷ bob_stash ∷ []) spec e)
    folder_cases false true n m id spec f e =
        inl (
          built_id wasm lumenyx_local_testnet local_chain (alice ∷ bob ∷ charlie ∷ dave ∷ []) spec
            e)
    folder_cases false false true m id spec f e =
        inl (sym (ap (λ (x : ChainSpec AccountId). x.id) (ok-injective frozen spec e)) ∙ f)
    folder_cases false false false true id spec f e =
        inl (sym (ap (λ (x : ChainSpec AccountId). x.id) (ok-injective frozen spec e)) ∙ f)
    folder_cases false false false false id spec f e = inr (e, refl)

    -- For the chains that have a name, the key of the network is made in the folder of the
    -- specification that is loaded, if the frozen one has the id `lumenyx_mainnet`; for a specification
    -- in a file it is made in the folder of the mainnet.
    pub chain_folder_lem :
        (id : List ℕ) (spec : ChainSpec AccountId)
        → frozen.id ≡ lumenyx_mainnet
        → load_spec wasm alice bob alice_stash bob_stash charlie dave (ok frozen) from_json_file id
          ≡ ok spec
        → (spec.id ≡ chain_folder id)
          ⊎ ((from_json_file id ≡ ok spec) × (chain_folder id ≡ lumenyx_mainnet))
    unfolding load_spec chain_folder
    chain_folder_lem id spec f e =
        folder_cases (bytes_eq id dev) (bytes_eq id local) (bytes_eq id []) (bytes_eq id mainnet) id
          spec f e
