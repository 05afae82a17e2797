-- ===== src/Node/Import/Digests.antt =====
-- The seal on its way through the verifier of node/src/service.rs and the import of
-- node/src/pow_import.rs.
use lumenyx.Prelude.{
  ℕ, ◌≡◌, ◌↔◌, refl, sym, ap, ◌∙◌, arith, Bool, false, not, none, some, none-ne-some, List, [], ◌∷◌,
  ◌++◌, if◌then◌else◌, any, retain, length, bytes_eq, Bool-cases, inl, inr,
}
use mathlib.Core.List.{append-nil}
use lumenyx.Digest.{
  DigestItem, pre_runtime, consensus, seal, other, runtime_environment_updated, lumenyx_engine_id,
}
use lumenyx.Node.Import.{
  Header, Params, is_lumenyx_seal, is_seal, is_moved, with_logs, verify, extract_seal_nonce,
  normalise,
}

abbrev pub sealed : List ℕ → DigestItem
sealed nonce = seal lumenyx_engine_id nonce

-- A test that no item passes, and its complement.
retain-none :
    (p : DigestItem → Bool) (logs : List DigestItem) → any p logs ≡ false → retain p logs ≡ []
retain-none p [] h = refl
retain-none p (d ∷ logs) h = elim (Bool-cases (p d)) [
  | inl e ↦ absurd (ground arith)
  | inr e ↦ rw e (retain-none p logs (ground arith))
]

retain-not :
    (p : DigestItem → Bool) (logs : List DigestItem)
    → any p logs ≡ false
    → retain (λ d. not (p d)) logs ≡ logs
retain-not p [] h = refl
retain-not p (d ∷ logs) h = elim (Bool-cases (p d)) [
  | inl e ↦ absurd (ground arith)
  | inr e ↦ rw e (ap (◌∷◌ d) (retain-not p logs (ground arith)))
]

retain-append :
    (p : DigestItem → Bool) (xs ys : List DigestItem)
    → retain p (xs ++ ys) ≡ retain p xs ++ retain p ys
retain-append p [] ys = refl
retain-append p (d ∷ xs) ys = elim (Bool-cases (p d)) [
  | inl e ↦ rw e (ap (◌∷◌ d) (retain-append p xs ys))
  | inr e ↦ rw e (retain-append p xs ys)
]

retain_twice :
    (p : DigestItem → Bool) (logs : List DigestItem) → retain p (retain (λ d. not (p d)) logs) ≡ []
retain_twice p [] = refl
retain_twice p (d ∷ logs) = elim (Bool-cases (p d)) [
  | inl e ↦ rw e (retain_twice p logs)
  | inr e ↦ rw e (rw e (retain_twice p logs))
]

seal_of_moved :
    (logs : List DigestItem) → any is_seal (retain is_moved logs) ≡ any is_lumenyx_seal logs
seal_of_moved [] = refl
seal_of_moved (seal id bytes ∷ logs) = elim (Bool-cases (bytes_eq id lumenyx_engine_id)) [
  | inl e ↦ rw e refl
  | inr e ↦ rw e (seal_of_moved logs)
]
seal_of_moved (consensus id bytes ∷ logs) = elim (Bool-cases (bytes_eq id lumenyx_engine_id)) [
  | inl e ↦ rw e (seal_of_moved logs)
  | inr e ↦ rw e (seal_of_moved logs)
]
seal_of_moved (pre_runtime id bytes ∷ logs) = seal_of_moved logs
seal_of_moved (other bytes ∷ logs) = seal_of_moved logs
seal_of_moved (runtime_environment_updated ∷ logs) = seal_of_moved logs

-- What the seal leaves behind: with a nonce, the normalised parameters have no seal of the engine in
-- the header and exactly one, of this nonce, in the post digests.
pub normalise_single :
    (params : Params) (nonce : List ℕ)
    → let p = normalise params nonce in
      (retain is_lumenyx_seal p.header.logs ≡ [])
      × (retain is_lumenyx_seal p.post_digests ≡ sealed nonce ∷ [])
unfolding normalise
normalise_single params nonce = (
  retain_twice is_lumenyx_seal params.header.logs,
  retain-append is_lumenyx_seal (retain (λ d. not (is_lumenyx_seal d)) params.post_digests)
        (sealed nonce ∷ [])
      ∙ ap (λ x. x ++ sealed nonce ∷ []) (retain_twice is_lumenyx_seal params.post_digests),
)

-- The verifier refuses a block exactly if its header has no seal of the engine.
pub verify_iff :
    (block : Params) → (verify block ≡ none) ↔ (any is_lumenyx_seal block.header.logs ≡ false)
unfolding verify
verify_iff block =
    let s = seal_of_moved block.header.logs in
    elim (Bool-cases (any is_seal (retain is_moved block.header.logs))) [
      | inl e ↦ rw e (λ h. absurd (none-ne-some _ (sym h)), λ f. absurd (ground arith))
      | inr e ↦ rw e (λ h. sym s ∙ e, λ f. refl)
    ]

-- A header with a seal at its end, as a block that arrives.
abbrev pub sealed_block : Header → List ℕ → Params
sealed_block mined nonce = record {
  header = with_logs (mined.logs ++ sealed nonce ∷ []) mined;
  post_digests = [];
  fork_choice = none;
}

-- The header without its seal, which stands apart.
abbrev pub unsealed_block : Header → List ℕ → Params
unsealed_block mined nonce = record {
  header = mined;
  post_digests = sealed nonce ∷ [];
  fork_choice = none;
}

any_seal_moved :
    (logs : List DigestItem) → any is_moved logs ≡ false → any is_lumenyx_seal logs ≡ false
any_seal_moved [] h = refl
any_seal_moved (d ∷ logs) h = let ih = any_seal_moved logs in ground arith

-- If the header of a block is one without seals and consensus items of the engine, with a seal of a
-- nonce of 32 bytes put at its end, then the verifier moves the seal, the import finds the nonce, and
-- its normalisation changes nothing more: the header is the one that was mined.
pub sealed_roundtrip :
    (mined : Header) (nonce : List ℕ)
    → any is_moved mined.logs ≡ false
    → length nonce ≡ 32
    → (verify (sealed_block mined nonce) ≡ some (unsealed_block mined nonce))
      × (extract_seal_nonce (unsealed_block mined nonce) ≡ some nonce)
      × (normalise (unsealed_block mined nonce) nonce ≡ unsealed_block mined nonce)
unfolding verify extract_seal_nonce normalise
sealed_roundtrip mined nonce clean l =
    let seals = sealed nonce ∷ [] in
    let moved : retain is_moved (mined.logs ++ seals) ≡ seals =
      retain-append is_moved mined.logs seals
      ∙ ap (λ x. x ++ seals) (retain-none is_moved mined.logs clean) in
    let kept : retain (λ d. not (is_moved d)) (mined.logs ++ seals) ≡ mined.logs =
      retain-append (λ d. not (is_moved d)) mined.logs seals
      ∙ append-nil (retain (λ d. not (is_moved d)) mined.logs)
      ∙ retain-not is_moved mined.logs clean in
    (
      ap
            (λ m.
              if any is_seal m
              then some (record {
                header = with_logs (retain (λ d. not (is_moved d)) (mined.logs ++ seals)) mined;
                post_digests = m;
                fork_choice = none;
              })
              else none)
            moved
          ∙ ap
              (λ logs. some (record {
                header = with_logs logs mined;
                post_digests = seals;
                fork_choice = none;
              }))
              kept,
      rw l refl,
      ap
          (λ logs. record {
            header = with_logs logs mined;
            post_digests = seals;
            fork_choice = none;
          })
          (retain-not is_lumenyx_seal mined.logs (any_seal_moved mined.logs clean)),
    )
