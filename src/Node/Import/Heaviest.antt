-- ===== src/Node/Import/Heaviest.antt =====
-- The best chain of node/src/pow_import.rs is the heaviest, whatever the order of the leaves.
use lumenyx.Prelude.{
  ℕ, ◌≤◌, ◌<◌, ◌≡◌, ◌≢◌, ◌↔◌, refl, sym, ap, subst, ◌∙◌, arith, ◌⊎◌, inl, inr, Bool, true, false,
  ◌&&◌, ◌||◌, ltb, ◌==◌, any, none, some, List, [], ◌∷◌, Bool-cases,
}
use lumenyx.Node.Import.{Outside, read_td, heavier, best_leaf, should_be_best}

abbrev pub mem : ℕ → List ℕ → Bool
mem h leaves = any (λ x. x == h) leaves

-- The order of the pairs of a hash and its total difficulty: more difficulty first, then the smaller
-- hash.
pub IsBeaten : ℕ × ℕ → ℕ × ℕ → Type 0
IsBeaten (h, td) (best_h, best_td) = (td < best_td) ⊎ ((td ≡ best_td) × (best_h ≤ h))

IsBeaten-refl : (a : ℕ × ℕ) → IsBeaten a a
unfolding IsBeaten
IsBeaten-refl (h, td) = inr (refl, omega arith)

IsBeaten-trans : (a b c : ℕ × ℕ) → IsBeaten a b → IsBeaten b c → IsBeaten a c
unfolding IsBeaten
IsBeaten-trans (h, td) (h', td') (h2, td2) x y = ground arith

IsBeaten-antisym : (a b : ℕ × ℕ) → IsBeaten a b → IsBeaten b a → a ≡ b
unfolding IsBeaten
IsBeaten-antisym (h, td) (h', td') x y =
    let e : h ≡ h' = ground arith in let f : td ≡ td' = ground arith in cc

heavier_beats : (a b : ℕ × ℕ) → IsBeaten a (heavier a b) × IsBeaten b (heavier a b)
unfolding IsBeaten heavier
heavier_beats (h, td) (h', td') = ground arith

heavier_one : (a b : ℕ × ℕ) → (heavier a b ≡ a) ⊎ (heavier a b ≡ b)
unfolding heavier
heavier_one (h, td) (best_h, best_td) =
    elim (Bool-cases (ltb best_td td || ((td == best_td) && ltb h best_h))) [
      | inl e ↦ rw e (inl refl)
      | inr e ↦ rw e (inr refl)
    ]

mem-ne : (h : ℕ) (leaves : List ℕ) → mem h leaves ≡ true → leaves ≢ []
mem-ne h leaves m e = let q : mem h leaves ≡ false = ap (mem h) e in absurd (ground arith)

cons-ne : (x : ℕ) (xs : List ℕ) → x ∷ xs ≢ []
cons-ne x xs e = mem-ne x (x ∷ xs) (ground arith) e

module _ (out : Outside) (client : out.Client) where
  abbrev pub weigh : ℕ → ℕ × ℕ
  weigh h = (h, read_td out h client)

  best_from : List ℕ → ℕ × ℕ → ℕ × ℕ
  best_from [] b = b
  best_from (x ∷ leaves) b = best_from leaves (heavier (weigh x) b)

  best_leaf_from :
      (leaves : List ℕ) (b : ℕ × ℕ)
      → best_leaf out client leaves (some b) ≡ some (best_from leaves b)
  unfolding best_leaf best_from
  best_leaf_from [] b = refl
  best_leaf_from (x ∷ leaves) b = best_leaf_from leaves (heavier (weigh x) b)

  best_from_start : (leaves : List ℕ) (b : ℕ × ℕ) → IsBeaten b (best_from leaves b)
  unfolding best_from
  best_from_start [] b = IsBeaten-refl b
  best_from_start (x ∷ leaves) b =
      let c = heavier (weigh x) b in
      IsBeaten-trans b c (best_from leaves c) (heavier_beats (weigh x) b).1
        (best_from_start leaves c)

  best_from_all :
      (leaves : List ℕ) (b : ℕ × ℕ) (h : ℕ)
      → mem h leaves ≡ true
      → IsBeaten (weigh h) (best_from leaves b)
  unfolding best_from
  best_from_all [] b h m = absurd (ground arith)
  best_from_all (x ∷ leaves) b h m =
      let c = heavier (weigh x) b in
      elim (Bool-cases (x == h)) [
        | inl e ↦
            let same : x ≡ h = ground arith in
            subst (λ y. IsBeaten (weigh y) (best_from leaves c)) same
              (IsBeaten-trans (weigh x) c (best_from leaves c) (heavier_beats (weigh x) b).0
                (best_from_start leaves c))
        | inr e ↦ best_from_all leaves c h (ground arith)
      ]

  best_from_one :
      (leaves : List ℕ) (b : ℕ × ℕ)
      → (best_from leaves b ≡ b)
        ⊎ ((h : ℕ) × (mem h leaves ≡ true) × (best_from leaves b ≡ weigh h))
  unfolding best_from
  best_from_one [] b = inl refl
  best_from_one (x ∷ leaves) b = elim (best_from_one leaves (heavier (weigh x) b)) [
    | inl e ↦ elim (heavier_one (weigh x) b) [
      | inl f ↦ inr (x, ground arith, e ∙ f)
      | inr f ↦ inl (e ∙ f)
    ]
    | inr (h, m, e) ↦ inr (h, ground arith, e)
  ]

  all_from :
      (leaves : List ℕ)
      → leaves ≢ []
      → (b : ℕ × ℕ) × (best_leaf out client leaves none ≡ some b)
        × ((h : ℕ) × (mem h leaves ≡ true) × (b ≡ weigh h))
        × ((h : ℕ) → mem h leaves ≡ true → IsBeaten (weigh h) b)
  unfolding best_leaf
  all_from [] ne = absurd (ne refl)
  all_from (x ∷ leaves) ne = (
    best_from leaves (weigh x),
    best_leaf_from leaves (weigh x),
    elim (best_from_one leaves (weigh x)) [
      | inl e ↦ (x, ground arith, e)
      | inr (h, m, e) ↦ (h, ground arith, e)
    ],
    λ h m. elim (Bool-cases (x == h)) [
      | inl e ↦
          let same : x ≡ h = ground arith in
          subst (λ y. IsBeaten (weigh y) (best_from leaves (weigh x))) same
            (best_from_start leaves (weigh x))
      | inr e ↦ best_from_all leaves (weigh x) h (ground arith)
    ],
  )

  -- Two nodes with the same leaves and difficulties choose the same one, whatever the orders of their
  -- leaves.
  pub best_leaf_order :
      (xs ys : List ℕ)
      → ((h : ℕ) → mem h xs ≡ mem h ys)
      → best_leaf out client xs none ≡ best_leaf out client ys none
  best_leaf_order [] [] same = refl
  best_leaf_order [] (y ∷ ys) same = absurd (let q = same y in ground arith)
  best_leaf_order (x ∷ xs) [] same = absurd (let q = same x in ground arith)
  best_leaf_order (x ∷ xs) (y ∷ ys) same =
      let (a, ea, (ha, ma, wa), alla) = all_from (x ∷ xs) (cons-ne x xs) in
      let (b, eb, (hb, mb, wb), allb) = all_from (y ∷ ys) (cons-ne y ys) in
      let ab : IsBeaten a b = subst (λ z. IsBeaten z b) (sym wa) (allb ha (sym (same ha) ∙ ma)) in
      let ba : IsBeaten b a = subst (λ z. IsBeaten z a) (sym wb) (alla hb (same hb ∙ mb)) in
      ea ∙ ap some (IsBeaten-antisym a b ab ba) ∙ sym eb

  -- A new block that is not the best block becomes the best exactly if, of it and the best block, the
  -- comparison of the leaves falls on it.
  should_be_best_iff :
      (new_hash new_td : ℕ)
      → new_hash ≢ out.best_hash client
      → (should_be_best out client new_hash new_td ≡ true)
        ↔ (heavier (new_hash, new_td) (weigh (out.best_hash client)) ≡ (new_hash, new_td))
  unfolding should_be_best heavier
  should_be_best_iff new_hash new_td ne =
      let best = out.best_hash client in
      let td = read_td out best client in
      elim (Bool-cases (ltb td new_td || ((new_td == td) && ltb new_hash best))) [
        | inl e ↦ rw e (λ s. refl, λ s. ground arith)
        | inr e ↦ rw e (λ s. absurd (ground arith), λ s. absurd (ne (sym (ap (λ x. x.0) s))))
      ]
