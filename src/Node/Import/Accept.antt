-- ===== src/Node/Import/Accept.antt =====
-- What `import_block` of node/src/pow_import.rs lets in, and the total difficulty that it records.
use lumenyx.Prelude.{
  ℕ, ◌+◌, ◌≤◌, min, ◌≡◌, ◌≢◌, refl, sym, ap, subst, ◌∙◌, arith, ◌⊎◌, inl, inr, Bool, true, false,
  ◌&&◌, ◌==◌, ==_iff, ==_refl, if◌then◌else◌, Option, none, some, some-injective, none-ne-some,
  List, Bool-cases, u256_max,
}
use lumenyx.Node.Seed.{seed_height, get_seed}
use lumenyx.Node.Target.{difficulty_to_target, hash_meets_target}
use lumenyx.Node.Import.{
  Outside, Header, Params, RxLxPow, ImportResult, known_bad, custom, extract_seal_nonce, normalise,
  read_td, write_td, td_key, get_block_hash_by_height, read_difficulty_from_storage,
  compute_block_hash_like_client, new, maybe_reseed, machine_hash, check_hash, verify_pow,
  compute_total_difficulty, should_be_best, after_import, import_sealed, import_block, unwrap_or,
  and_then,
}

module _ (out : Outside) where
  -- The machine works with the hash of the block at its seed height, and its cache is still the one that
  -- it was made over.
  unfoldable pub IsSeeded : out.Client → Option RxLxPow → Type 0
  IsSeeded client none = Unit
  IsSeeded client (some pow) =
      (pow.cache ≡ pow.vm) × (pow.vm ≡ get_block_hash_by_height out client pow.seed_height)

  new-IsSeeded :
      (client : out.Client) (height : ℕ)
      → IsSeeded client (new out height (get_block_hash_by_height out client))
  unfolding IsSeeded new get_seed
  new-IsSeeded client height = elim (Bool-cases (out.cache_ok height && out.vm_ok height)) [
    | inl e ↦ rw e (refl, refl)
    | inr e ↦ rw e tt
  ]

  -- A machine over its own cache hashes with its seed.
  pub machine_hash_own :
      (pow : RxLxPow) (seed pre_hash : ℕ) (nonce : List ℕ)
      → pow.cache ≡ pow.vm
      → pow.vm ≡ seed
      → machine_hash out pow pre_hash nonce ≡ out.rx_hash seed pre_hash nonce
  unfolding machine_hash
  machine_hash_own pow seed pre_hash nonce own made =
      let b : (pow.cache == pow.vm) ≡ true = rw own (==_refl pow.vm) in
      rw b (ap (λ s. out.rx_hash s pre_hash nonce) made)

  -- A reseed that succeeds leaves a machine with the seed of the height, over its own cache.
  pub maybe_reseed_lem :
      (client : out.Client) (height : ℕ) (pow : RxLxPow)
      → IsSeeded client (some pow)
      → let (ok, pow') = maybe_reseed out height (get_block_hash_by_height out client) pow in
        (ok ≡ false)
        ⊎ ((pow'.cache ≡ pow'.vm)
            × (pow'.vm ≡ get_seed height (get_block_hash_by_height out client)))
  unfolding IsSeeded maybe_reseed get_seed
  maybe_reseed_lem client height pow (own, s) =
      elim (Bool-cases (seed_height height == pow.seed_height)) [
        | inl e ↦
            let same : seed_height height ≡ pow.seed_height =
              (==_iff (seed_height height) pow.seed_height).0 e in
            rw e (inr (own, s ∙ ap (get_block_hash_by_height out client) (sym same)))
        | inr e ↦ rw e (elim (Bool-cases (out.vm_ok height)) [
          | inl f ↦ rw f (inr (refl, refl))
          | inr f ↦ rw f (inl refl)
        ])
      ]

  -- The work of a header with a nonce, under the seed of its height.
  abbrev pub work_hash : out.Client → Header → List ℕ → ℕ
  work_hash client h nonce =
      out.rx_hash (get_seed h.number (get_block_hash_by_height out client)) (out.header_hash h)
        nonce

  -- The test of a nonce.
  abbrev pub is_worked : out.Client → Header → List ℕ → Bool
  is_worked client h nonce =
      hash_meets_target (work_hash client h nonce)
        (difficulty_to_target (read_difficulty_from_storage out h.parent_hash client))

  check_hash_lem :
      (client : out.Client) (h : Header) (nonce : List ℕ) (rxlx : Option RxLxPow)
      → IsSeeded client rxlx
      → ((check_hash out client h nonce rxlx).0 ≡ false) ⊎ (is_worked client h nonce ≡ true)
  unfolding check_hash
  check_hash_lem client h nonce none s = inl refl
  check_hash_lem client h nonce (some pow) s =
      let (ok, pow') = maybe_reseed out h.number (get_block_hash_by_height out client) pow in
      let target = difficulty_to_target (read_difficulty_from_storage out h.parent_hash client) in
      elim (Bool-cases ok) [
        | inr e ↦ inl (rw e refl)
        | inl e ↦ elim (maybe_reseed_lem client h.number pow s) [
          | inl bad ↦ absurd (ground arith)
          | inr (own, vm) ↦
              elim (Bool-cases
                (hash_meets_target (machine_hash out pow' (out.header_hash h) nonce) target)) [
                  | inl met ↦ inr (
                      subst (λ x. hash_meets_target x target ≡ true)
                        (machine_hash_own pow' _ (out.header_hash h) nonce own vm) met)
                  | inr unmet ↦ inl (rw e unmet)
                ]
        ]
      ]

  verify_pow_lem :
      (client : out.Client) (h : Header) (nonce : List ℕ) (rxlx : Option RxLxPow)
      → IsSeeded client rxlx
      → ((verify_pow out client h nonce rxlx).0 ≡ false) ⊎ (is_worked client h nonce ≡ true)
  unfolding verify_pow
  verify_pow_lem client h nonce none s =
      check_hash_lem client h nonce (new out h.number (get_block_hash_by_height out client))
        (new-IsSeeded client h.number)
  verify_pow_lem client h nonce (some pow) s = check_hash_lem client h nonce (some pow) s

  sealed_needs_work :
      (params : Params) (client : out.Client) (rxlx : Option RxLxPow) (sealed : Option (List ℕ))
      → IsSeeded client rxlx
      → (import_sealed out params client rxlx sealed).1 ≢ client
      → (nonce : List ℕ) × (sealed ≡ some nonce)
        × (is_worked client (normalise params nonce).header nonce ≡ true)
  unfolding import_sealed
  sealed_needs_work params client rxlx none s changed = absurd (changed refl)
  sealed_needs_work params client rxlx (some nonce) s changed =
      let h = (normalise params nonce).header in
      elim (verify_pow_lem client h nonce rxlx s) [
        | inl bad ↦ absurd (changed (rw bad refl))
        | inr good ↦ (nonce, refl, good)
      ]

  -- From a machine that is seeded, an import that changes the client's state, at all, is of a block with
  -- a seal of 32 bytes whose hash, with the seed of the block's height, meets the target of the
  -- difficulty in its parent's state.
  pub import_needs_work :
      (params : Params) (client : out.Client) (rxlx : Option RxLxPow)
      → IsSeeded client rxlx
      → (import_block out params client rxlx).1 ≢ client
      → (nonce : List ℕ) × (extract_seal_nonce params ≡ some nonce)
        × (is_worked client (normalise params nonce).header nonce ≡ true)
  unfolding import_block
  import_needs_work params client rxlx s changed =
      sealed_needs_work params client rxlx (extract_seal_nonce params) s changed

  -- What the auxiliary store and the codec promise.
  pub record IsStore : Type 0 where
    pub reads :
        (k v : List ℕ) (client : out.Client) → out.get_aux k (out.insert_aux k v client) ≡ some v
    pub decodes : (n : ℕ) → n ≤ u256_max → out.decode_u256 (out.encode_u256 n) ≡ some n

  write_read :
      IsStore
      → (hash td : ℕ) (client : out.Client) → td ≤ u256_max
      → read_td out hash (write_td out hash td client) ≡ td
  unfolding read_td write_td
  write_read store hash td client h =
      ap (λ x. unwrap_or 0 (and_then (λ bytes. out.decode_u256 bytes) x))
        (store.reads (td_key out hash) (out.encode_u256 td) client)
      ∙ ap (unwrap_or 0) (store.decodes td h)

  after_import_td :
      IsStore
      → (hash td : ℕ) (inner : Option ImportResult × out.Client) (result : ImportResult)
      → td ≤ u256_max
      → (after_import out hash td inner).0 ≡ some result
      → read_td out hash (after_import out hash td inner).1 ≡ td
  after_import_td store hash td (none, client) result h e = absurd (none-ne-some result e)
  after_import_td store hash td (some r, client) result h e = write_read store hash td client h

  td_within :
      (parent_hash : ℕ) (client : out.Client)
      → compute_total_difficulty out parent_hash client ≤ u256_max
  unfolding compute_total_difficulty
  td_within parent_hash client = omega arith

  sealed_records_td :
      IsStore
      → (params : Params) (client : out.Client) (rxlx : Option RxLxPow) (nonce : List ℕ)
        (result : ImportResult)
      → (import_sealed out params client rxlx (some nonce)).0 ≡ some result
      → result ≢ known_bad
      → let p = normalise params nonce in
        read_td out
          (compute_block_hash_like_client out p.header p.post_digests)
          (import_sealed out params client rxlx (some nonce)).1
        ≡ compute_total_difficulty out p.header.parent_hash client
  unfolding import_sealed
  sealed_records_td store params client rxlx nonce result r good =
      let p = normalise params nonce in
      let hash = compute_block_hash_like_client out p.header p.post_digests in
      let td = compute_total_difficulty out p.header.parent_hash client in
      let inner =
        out.import_inner
          (record p { fork_choice = some (custom (should_be_best out client hash td)) }) client in
      let ends : Bool → Option ImportResult =
        λ valid. if valid then (after_import out hash td inner).0 else some known_bad in
      let ends_step : ends (verify_pow out client p.header nonce rxlx).0
          ≡ (import_sealed out params client rxlx (some nonce)).0 =
        elim (Bool-cases (verify_pow out client p.header nonce rxlx).0) [
          | inl e ↦ rw e refl
          | inr e ↦ rw e refl
        ] in
      elim (Bool-cases (verify_pow out client p.header nonce rxlx).0) [
        | inl e ↦ rw e (
            after_import_td store hash td inner result (td_within p.header.parent_hash client)
              (subst (λ b. ends b ≡ some result) e (ends_step ∙ r)))
        | inr e ↦ absurd (
            good (
              sym (
                some-injective known_bad result
                  (subst (λ b. ends b ≡ some result) e (ends_step ∙ r)))))
      ]

  -- If the auxiliary store reads back what is written and the codec of a total difficulty decodes what
  -- it encodes, then a block with a nonce that is imported, by any result but `KnownBad`, has in the store
  -- the total difficulty of its parent and the difficulty in its parent's state, added with the limit of
  -- 256 bits.
  pub import_records_td :
      IsStore
      → (params : Params) (client : out.Client) (rxlx : Option RxLxPow) (nonce : List ℕ)
        (result : ImportResult)
      → extract_seal_nonce params ≡ some nonce
      → (import_block out params client rxlx).0 ≡ some result
      → result ≢ known_bad
      → let p = normalise params nonce in
        read_td out
          (compute_block_hash_like_client out p.header p.post_digests)
          (import_block out params client rxlx).1
        ≡ min u256_max (
            read_td out p.header.parent_hash client
            + read_difficulty_from_storage out p.header.parent_hash client)
  unfolding import_block compute_total_difficulty
  import_records_td store params client rxlx nonce result e r good =
      let p = normalise params nonce in
      ap
        (λ s.
          read_td out (compute_block_hash_like_client out p.header p.post_digests)
            (import_sealed out params client rxlx s).1)
        e
      ∙ sealed_records_td store params client rxlx nonce result
          (ap (λ s. (import_sealed out params client rxlx s).0) (sym e) ∙ r) good
