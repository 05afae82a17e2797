-- ===== src/Node/Miner/Templates.antt =====
-- The cache of templates of node/src/service.rs keeps the two that were put in last.
use lumenyx.Prelude.{
  ℕ, zero, suc, ◌-◌, ◌≤◌, ◌≡◌, refl, sym, ap, ◌∙◌, arith, Bool, true, false, not, Option, none,
  some, List, [], ◌∷◌, ◌++◌, ltb, ◌==◌, ==_refl, ==_iff, if◌then◌else◌, length, length-retain-le,
  retain, drop, any, Bool-cases, inl, inr,
}
use lumenyx.Node.Miner.{PowTemplate, TemplateLru2, find, erase, new, evict, insert, remove}

abbrev pub mem : ℕ → List ℕ → Bool
mem k ks = any (λ x. x == k) ks

-- No number twice.
pub IsDistinct : List ℕ → Type 0
IsDistinct [] = Unit
IsDistinct (k ∷ ks) = (mem k ks ≡ false) × IsDistinct ks

pub find-erase :
    {V : Type 0} (j k : ℕ) (m : List (ℕ × V))
    → find j (erase k m) ≡ (if j == k then none else find j m)
find-erase j k [] = ground arith
find-erase j k ((k', v) ∷ m) = ground (arith, find-erase j k m)

mem-retain :
    (j k : ℕ) (ks : List ℕ)
    → mem j (retain (λ x. not (x == k)) ks) ≡ (if j == k then false else mem j ks)
mem-retain j k [] = ground arith
mem-retain j k (x ∷ ks) = ground (arith, mem-retain j k ks)

retain-IsDistinct :
    (k : ℕ) (ks : List ℕ) → IsDistinct ks → IsDistinct (retain (λ x. not (x == k)) ks)
unfolding IsDistinct
retain-IsDistinct k [] d = d
retain-IsDistinct k (x ∷ ks) (fresh, d) = elim (Bool-cases (x == k)) [
  | inl e ↦ rw e (retain-IsDistinct k ks d)
  | inr e ↦ rw e (mem-retain x k ks ∙ ground arith, retain-IsDistinct k ks d)
]

mem-append : (j : ℕ) (xs ys : List ℕ) → mem j (xs ++ ys) ≡ (if mem j xs then true else mem j ys)
mem-append j [] ys = refl
mem-append j (x ∷ xs) ys = ground (arith, mem-append j xs ys)

append-IsDistinct :
    (ks : List ℕ) (k : ℕ) → IsDistinct ks → mem k ks ≡ false → IsDistinct (ks ++ k ∷ [])
unfolding IsDistinct
append-IsDistinct [] k d h = (refl, tt)
append-IsDistinct (x ∷ ks) k (fresh, d) h =
    (mem-append x ks (k ∷ []) ∙ ground arith, append-IsDistinct ks k d (ground arith))

-- The last two.
abbrev pub newest : List ℕ → List ℕ
newest order = drop (length order - 2) order

mem-drop : (k n : ℕ) (ks : List ℕ) → mem k ks ≡ false → mem k (drop n ks) ≡ false
mem-drop k zero ks h = h
mem-drop k (suc n) [] h = h
mem-drop k (suc n) (x ∷ ks) h = mem-drop k n ks (ground arith)

module _ {V : Type 0} where
  erase_keys :
      (id old : ℕ) (order : List ℕ) (found : Option V)
      → mem old order ≡ false
      → found ≡ (if mem id (old ∷ order) then found else none)
      → (if id == old then none else found)
        ≡ (if mem id order then if id == old then none else found else none)
  erase_keys id old order found fresh k = elim (Bool-cases (id == old)) [
    | inl e ↦ rw e (elim (Bool-cases (mem id order)) [ inl f ↦ rw f refl | inr f ↦ rw f refl ])
    | inr e ↦
        let q : mem id (old ∷ order) ≡ mem id order = ground arith in
        rw e (k ∙ ap (λ b. if b then found else none) q)
  ]

  guarded :
      (b : Bool) (found : Option V)
      → (if b then found else none) ≡ (if b then if b then found else none else none)
  guarded true found = refl
  guarded false found = refl

  removed_key :
      (gone there : Bool) (found : Option V)
      → found ≡ (if there then found else none)
      → (if gone then none else found)
        ≡ (if if gone then false else there then if gone then none else found else none)
  removed_key true there found k = refl
  removed_key false there found k = k

  kept_key :
      (id old : ℕ) (order : List ℕ) (found : Option V)
      → mem old order ≡ false
      → (if mem id order then if id == old then none else found else none)
        ≡ (if mem id order then found else none)
  kept_key id old order found gone = elim (Bool-cases (id == old)) [
    | inl e ↦
        let q : mem id order ≡ false = ap (λ x. mem x order) ((==_iff id old).0 e) ∙ gone in
        rw q refl
    | inr e ↦ rw e refl
  ]

module _ {Rest : Type 0} where
  -- The order has at most two numbers, each once, and they are those of the templates.
  pub record IsValid (t : TemplateLru2 Rest) : Type 0 where
    pub bounded : length t.order ≤ 2
    pub distinct : IsDistinct t.order
    pub keyed : (id : ℕ) → find id t.map ≡ (if mem id t.order then find id t.map else none)

  evict_lem :
      (order : List ℕ) (map : List (ℕ × PowTemplate Rest))
      → IsDistinct order
      → ((id : ℕ) → find id map ≡ (if mem id order then find id map else none))
      → let t = evict order map in
        (t.order ≡ newest order)
        × ((id : ℕ) → find id t.map ≡ (if mem id t.order then find id map else none))
        × IsDistinct t.order
        × (length t.order ≤ 2)
  unfolding evict IsDistinct
  evict_lem [] map d k = (refl, k, d, omega arith)
  evict_lem (old ∷ order) map (fresh, d) k = elim (Bool-cases (ltb 2 (length (old ∷ order)))) [
    | inl e ↦
        let keys : (id : ℕ)
            → find id (erase old map) ≡ (if mem id order then find id (erase old map) else none) =
          λ id. rw (find-erase id old map) (erase_keys id old order (find id map) fresh (k id)) in
        let (o, f, d', b) = evict_lem order (erase old map) d keys in
        let t = evict order (erase old map) in
        let gone : mem old t.order ≡ false =
          ap (mem old) o ∙ mem-drop old (length order - 2) order fresh in
        let n : length (old ∷ order) - 2 ≡ suc (length order - 2) = ground arith in
        rw e (
          o ∙ ap (λ x. drop x (old ∷ order)) (sym n),
          λ id.
              f id
              ∙ ap (λ x. if mem id t.order then x else none) (find-erase id old map)
              ∙ kept_key id old t.order (find id map) gone,
          d',
          b,
        )
    | inr e ↦
        let n : length (old ∷ order) - 2 ≡ 0 = ground arith in
        rw e (sym (ap (λ x. drop x (old ∷ order)) n), k, (fresh, d), ground arith)
  ]

  pub new-IsValid : IsValid new
  unfolding new IsDistinct
  new-IsValid = record { bounded = omega arith; distinct = tt; keyed = λ id. refl }

  found_put :
      (id : ℕ) (tpl : PowTemplate Rest) (t : TemplateLru2 Rest)
      → find id ((tpl.job_id, tpl) ∷ erase tpl.job_id t.map)
        ≡ (if id == tpl.job_id then some tpl else find id t.map)
  found_put id tpl t = elim (Bool-cases (id == tpl.job_id)) [
    | inl e ↦ rw e refl
    | inr e ↦ rw e (find-erase id tpl.job_id t.map ∙ ap (λ b. if b then none else find id t.map) e)
  ]

  put_keys :
      (id : ℕ) (tpl : PowTemplate Rest) (t : TemplateLru2 Rest)
      → IsValid t
      → let map = (tpl.job_id, tpl) ∷ erase tpl.job_id t.map in
        let order = retain (λ x. not (x == tpl.job_id)) t.order ++ tpl.job_id ∷ [] in
        find id map ≡ (if mem id order then find id map else none)
  put_keys id tpl t v =
      let kept = retain (λ x. not (x == tpl.job_id)) t.order in
      let a = mem-append id kept (tpl.job_id ∷ []) in
      let r = mem-retain id tpl.job_id t.order in
      elim (Bool-cases (id == tpl.job_id)) [
        | inl e ↦ let q : mem id (kept ++ tpl.job_id ∷ []) ≡ true = ground arith in rw q refl
        | inr e ↦
            let q : mem id (kept ++ tpl.job_id ∷ []) ≡ mem id t.order = ground arith in
            rw (found_put id tpl t, e, q) (v.keyed id)
      ]

  inserted :
      (tpl : PowTemplate Rest) (t : TemplateLru2 Rest)
      → IsValid t
      → let map = (tpl.job_id, tpl) ∷ erase tpl.job_id t.map in
        let order = retain (λ x. not (x == tpl.job_id)) t.order ++ tpl.job_id ∷ [] in
        let t' = evict order map in
        (t'.order ≡ newest order)
        × ((id : ℕ) → find id t'.map ≡ (if mem id t'.order then find id map else none))
        × IsDistinct t'.order
        × (length t'.order ≤ 2)
  inserted tpl t v =
      let kept = retain (λ x. not (x == tpl.job_id)) t.order in
      evict_lem (kept ++ tpl.job_id ∷ []) ((tpl.job_id, tpl) ∷ erase tpl.job_id t.map)
        (append-IsDistinct kept tpl.job_id (retain-IsDistinct tpl.job_id t.order v.distinct) (
          mem-retain tpl.job_id tpl.job_id t.order
          ∙ ap (λ b. if b then false else mem tpl.job_id t.order) (==_refl tpl.job_id)))
        (λ id. put_keys id tpl t v)

  -- `insert` keeps the cache well-formed.
  pub insert-IsValid :
      (tpl : PowTemplate Rest) (t : TemplateLru2 Rest) → IsValid t → IsValid (insert tpl t)
  unfolding insert
  insert-IsValid tpl t v =
      let (o, f, d, b) = inserted tpl t v in
      record {
        bounded = b;
        distinct = d;
        keyed = λ id.
            f id
            ∙ guarded (mem id (insert tpl t).order)
                (find id ((tpl.job_id, tpl) ∷ erase tpl.job_id t.map))
            ∙ ap (λ x. if mem id (insert tpl t).order then x else none) (sym (f id));
      }

  -- From a valid cache, after `insert`, the order is the last two of the old order, less the template's number, with that
  -- number at its end; under the number is the template, under another of the order what was there, and
  -- nothing else.
  insert_lem :
      (tpl : PowTemplate Rest) (t : TemplateLru2 Rest) (id : ℕ)
      → IsValid t
      → let t' = insert tpl t in
        (t'.order ≡ newest (retain (λ x. not (x == tpl.job_id)) t.order ++ tpl.job_id ∷ []))
        × (find id t'.map ≡ (
            if mem id t'.order then if id == tpl.job_id then some tpl else find id t.map else none))
  unfolding insert
  insert_lem tpl t id v =
      let (o, f, _, _) = inserted tpl t v in
      (o, f id ∙ ap (λ x. if mem id (insert tpl t).order then x else none) (found_put id tpl t))

  -- `remove` keeps the cache well-formed, and gives what was under the number, which is then gone.
  pub remove_lem :
      (job_id : ℕ) (t : TemplateLru2 Rest)
      → IsValid t
      → let (found, t') = remove job_id t in
        (found ≡ find job_id t.map) × (find job_id t'.map ≡ none) × IsValid t'
  unfolding remove
  remove_lem job_id t v = (
    refl,
    find-erase job_id job_id t.map
        ∙ ap (λ b. if b then none else find job_id t.map) (==_refl job_id),
    record {
      bounded = omega (arith, v.bounded, length-retain-le (λ x. not (x == job_id)) t.order);
      distinct = retain-IsDistinct job_id t.order v.distinct;
      keyed = λ id.
          rw (find-erase id job_id t.map, mem-retain id job_id t.order)
            (removed_key (id == job_id) (mem id t.order) (find id t.map) (v.keyed id));
    },
  )
