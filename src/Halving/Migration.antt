-- ===== src/Halving/Migration.antt =====
-- The migration of pallets/halving/src/lib.rs scales each account of the prefix exactly once.
use lumenyx.Prelude.{
  ℕ, zero, suc, ◌≤◌, ◌≡◌, ◌≢◌, refl, sym, ap, subst, ◌∙◌, arith, inl, inr, Bool, true, false,
  Option, none, some, none-ne-some, List, [], ◌∷◌, if◌then◌else◌, length, any, bytes_eq,
  bytes-cases,
}
use lumenyx.Halving.{
  Framework, AccountInfo, scale_info, migrate_info, migrate_value, migrate_account,
  migrate_accounts,
}

abbrev pub mem : List ℕ → List (List ℕ) → Bool
mem j ks = any (λ k. bytes_eq j k) ks

module _ (fw : Framework) where
  open fw use {Raw, get, put, next_key, starts_with, decode_info, encode_info, account_prefix}

  -- What the raw storage promises: a write is read back and changes no other key, and a write to a key
  -- that is there leaves the order of the keys.
  pub record IsMap : Type 0 where
    pub same_key : (k v : List ℕ) (raw : Raw) → get k (put k v raw) ≡ some v
    pub other_key : (j k v : List ℕ) (raw : Raw) → j ≢ k → get j (put k v raw) ≡ get j raw
    pub key_order :
        (j k v : List ℕ) (raw : Raw) → get k raw ≢ none → next_key j (put k v raw) ≡ next_key j raw

  -- The value of an account after the migration: its balances are scaled, if it decodes.
  pub scaled_value : List ℕ → Option AccountInfo → List ℕ
  scaled_value bytes none = bytes
  scaled_value bytes (some info) = encode_info (scale_info info)

  pub scaled : Option (List ℕ) → Option (List ℕ)
  scaled none = none
  scaled (some bytes) = some (scaled_value bytes (decode_info bytes))

  -- The keys that follow each other from a key on, to the end of the prefix, are those of a list, each
  -- once.
  unfoldable pub IsWalk : Raw → Option (List ℕ) → List (List ℕ) → Type 0
  IsWalk raw none [] = Unit
  IsWalk raw (some k) [] = starts_with k account_prefix ≡ false
  IsWalk raw none (k ∷ ks) = ⊥
  IsWalk raw (some k) (k' ∷ ks) =
      (k ≡ k')
      × (starts_with k account_prefix ≡ true)
      × (mem k' ks ≡ false)
      × IsWalk raw (next_key k raw) ks

  module _ (m : IsMap) where
    migrate_info_same :
        (k bytes : List ℕ) (raw : Raw) (info : Option AccountInfo)
        → get k raw ≡ some bytes
        → get k (migrate_info fw k raw info) ≡ some (scaled_value bytes info)
    unfolding scaled_value
    migrate_info_same k bytes raw none e = e
    migrate_info_same k bytes raw (some info) e = m.same_key k (encode_info (scale_info info)) raw

    migrate_value_same :
        (k : List ℕ) (raw : Raw) (v : Option (List ℕ))
        → get k raw ≡ v
        → get k (migrate_value fw k raw v) ≡ scaled v
    unfolding scaled
    migrate_value_same k raw none e = e
    migrate_value_same k raw (some bytes) e = migrate_info_same k bytes raw (decode_info bytes) e

    migrate_account_same :
        (k : List ℕ) (raw : Raw) → get k (migrate_account fw k raw) ≡ scaled (get k raw)
    unfolding migrate_account
    migrate_account_same k raw = migrate_value_same k raw (get k raw) refl

    migrate_info_other :
        (j k : List ℕ) (raw : Raw) (info : Option AccountInfo)
        → j ≢ k
        → get j (migrate_info fw k raw info) ≡ get j raw
    migrate_info_other j k raw none ne = refl
    migrate_info_other j k raw (some info) ne =
        m.other_key j k (encode_info (scale_info info)) raw ne

    migrate_value_other :
        (j k : List ℕ) (raw : Raw) (v : Option (List ℕ))
        → j ≢ k
        → get j (migrate_value fw k raw v) ≡ get j raw
    migrate_value_other j k raw none ne = refl
    migrate_value_other j k raw (some bytes) ne = migrate_info_other j k raw (decode_info bytes) ne

    migrate_info_order :
        (j k : List ℕ) (raw : Raw) (info : Option AccountInfo)
        → get k raw ≢ none
        → next_key j (migrate_info fw k raw info) ≡ next_key j raw
    migrate_info_order j k raw none ne = refl
    migrate_info_order j k raw (some info) ne =
        m.key_order j k (encode_info (scale_info info)) raw ne

    migrate_value_order :
        (j k : List ℕ) (raw : Raw) (v : Option (List ℕ))
        → get k raw ≡ v
        → next_key j (migrate_value fw k raw v) ≡ next_key j raw
    migrate_value_order j k raw none e = refl
    migrate_value_order j k raw (some bytes) e =
        migrate_info_order j k raw (decode_info bytes) (λ z. none-ne-some bytes (sym z ∙ e))

    migrate_account_order :
        (j k : List ℕ) (raw : Raw) → next_key j (migrate_account fw k raw) ≡ next_key j raw
    unfolding migrate_account
    migrate_account_order j k raw = migrate_value_order j k raw (get k raw) refl

    migrate_account-IsWalk :
        (k : List ℕ) (raw : Raw) (key : Option (List ℕ)) (ks : List (List ℕ))
        → IsWalk raw key ks
        → IsWalk (migrate_account fw k raw) key ks
    unfolding IsWalk
    migrate_account-IsWalk k raw none [] w = w
    migrate_account-IsWalk k raw (some j) [] w = w
    migrate_account-IsWalk k raw none (k' ∷ ks) w = w
    migrate_account-IsWalk k raw (some j) (k' ∷ ks) (a, b, c, d) = (
      a,
      b,
      c,
      subst (λ x. IsWalk (migrate_account fw k raw) x ks) (sym (migrate_account_order j k raw))
          (migrate_account-IsWalk k raw (next_key j raw) ks d),
    )

    -- If the raw storage reads back what is written, with no effect on other keys and on the order of
    -- keys, the keys of the prefix are those of a list, and the loop has as many rounds, then every key
    -- of the list holds its account scaled, once, and every other key what it held.
    pub migrate_accounts_lem :
        (fuel : ℕ) (key : Option (List ℕ)) (ks : List (List ℕ)) (raw : Raw) (j : List ℕ)
        → IsWalk raw key ks
        → length ks ≤ fuel
        → get j (migrate_accounts fw fuel key raw)
          ≡ (if mem j ks then scaled (get j raw) else get j raw)
    unfolding migrate_accounts migrate_account IsWalk
    migrate_accounts_lem fuel none [] raw j w h = refl
    migrate_accounts_lem zero (some k) [] raw j w h = refl
    migrate_accounts_lem (suc fuel) (some k) [] raw j w h = rw w refl
    migrate_accounts_lem fuel none (k' ∷ ks) raw j w h = absurd w
    migrate_accounts_lem zero (some k) (k' ∷ ks) raw j w h = absurd (omega arith)
    migrate_accounts_lem (suc fuel) (some k) (k' ∷ ks) raw j (same, b, fresh, d) h =
        let raw' = migrate_account fw k raw in
        let d' = migrate_account-IsWalk k raw (next_key k raw) ks d in
        let d2 = subst (λ x. IsWalk raw' x ks) (sym (migrate_account_order k k raw)) d' in
        let ih = migrate_accounts_lem fuel (next_key k raw') ks raw' j d2 (omega arith) in
        let step : migrate_accounts fw (suc fuel) (some k) raw
            ≡ migrate_accounts fw fuel (next_key k raw') raw' =
          ap (λ x. if x then migrate_accounts fw fuel (next_key k raw') raw' else raw) b in
        ap (get j) step ∙ ih ∙ elim (bytes-cases j k') [
          | inl (e, t) ↦
              let gone : mem j ks ≡ false = ap (λ x. mem x ks) e ∙ fresh in
              let here : get j raw' ≡ scaled (get j raw) =
                subst (λ x. get x raw' ≡ scaled (get x raw)) (same ∙ sym e)
                  (migrate_account_same k raw) in
              rw (gone, t) here
          | inr (ne, t) ↦
              let kept : get j raw' ≡ get j raw =
                migrate_value_other j k raw (get k raw) (λ e. ne (e ∙ same)) in
              rw (t, kept) refl
        ]
