-- ===== src/Node/Pool/Sharechain/Work.antt =====
-- What `Sharechain::insert` of node/src/pool/sharechain.rs keeps: every share is stored under its own
-- id, no share or work is ever replaced, and the tip has the most work.
use lumenyx.Prelude.{
  ℕ, ◌+◌, ◌≤◌, min, ◌≡◌, ◌↔◌, refl, sym, ap, subst, ◌∙◌, arith, inl, inr, true, false, ◌&&◌, Option,
  none, some, some-injective, List, ltb, ltb→lt, contains_key-insert, contains_key-insert_ne,
  if◌then◌else◌, bytes_eq, bytes_eq→≡, bytes_eq_refl, bytes-cases, Bool-cases, lookup, insert,
  contains_key, lookup-insert, lookup-insert_ne, saturating_add, u128_max,
}
use lumenyx.Node.Pool.{PoolShare, compute_id, validate_id}
use lumenyx.Node.Pool.Sharechain.{
  Sharechain, new, work_of, unwrap_or_zero, prev_work, beats_tip, add_share, insert_share, get,
}

-- The tip is a known share and no share has more work; there is no tip only if there are no shares.
unfoldable pub IsBest : Option (List ℕ) → List (List ℕ × ℕ) → Type 0
IsBest none works = (id : List ℕ) → lookup id works ≡ none
IsBest (some tip) works =
    (contains_key tip works ≡ true) × ((id : List ℕ) → work_of id works ≤ work_of tip works)

work_of-insert : (id : List ℕ) (w : ℕ) (m : List (List ℕ × ℕ)) → work_of id (insert id w m) ≡ w
work_of-insert id w m = ap unwrap_or_zero (lookup-insert id w m)

pub work_of-insert_ne :
    (j id : List ℕ) (w : ℕ) (m : List (List ℕ × ℕ))
    → (j ≡ id → ⊥)
    → work_of j (insert id w m) ≡ work_of j m
work_of-insert_ne j id w m ne = ap unwrap_or_zero (lookup-insert_ne j id w m ne)

pub contains-ne :
    {V : Type 0} (tip id : List ℕ) (m : List (List ℕ × V))
    → contains_key tip m ≡ true
    → contains_key id m ≡ false
    → tip ≡ id
    → ⊥
contains-ne tip id m h new_id e =
    let q : contains_key tip m ≡ contains_key id m = ap (λ x. contains_key x m) e in ground arith

-- No work exceeds a limit after an insertion that keeps to it.
insert_within :
    (id : List ℕ) (w limit : ℕ) (m : List (List ℕ × ℕ))
    → w ≤ limit
    → ((j : List ℕ) → work_of j m ≤ limit)
    → (j : List ℕ) → work_of j (insert id w m) ≤ limit
insert_within id w limit m h old j = elim (bytes-cases j id) [
  | inl (e, _) ↦
      subst (λ x. work_of x (insert id w m) ≤ limit) (sym e)
        (subst (λ x. x ≤ limit) (sym (work_of-insert id w m)) h)
  | inr (ne, _) ↦ subst (λ x. x ≤ limit) (sym (work_of-insert_ne j id w m ne)) (old j)
]

insert-IsBest :
    (id : List ℕ) (w : ℕ) (tip : Option (List ℕ)) (m : List (List ℕ × ℕ))
    → contains_key id m ≡ false
    → IsBest tip m
    → IsBest (if beats_tip w tip (insert id w m) then some id else tip) (insert id w m)
unfolding IsBest
insert-IsBest id w none m new_id best = (
  contains_key-insert id w m,
  λ j.
      subst (λ x. work_of j (insert id w m) ≤ x) (sym (work_of-insert id w m))
        (insert_within id w w m (omega arith)
          (λ j. subst (λ x. x ≤ w) (sym (ap unwrap_or_zero (best j))) (omega arith)) j),
)
insert-IsBest id w (some tip) m new_id (known, most) =
    let ne = contains-ne tip id m known new_id in
    let tip_work = work_of-insert_ne tip id w m ne in
    elim (Bool-cases (ltb (work_of tip (insert id w m)) w)) [
      | inl e ↦ rw e (
        contains_key-insert id w m,
        λ j.
            subst (λ x. work_of j (insert id w m) ≤ x) (sym (work_of-insert id w m))
              (insert_within id w w m (omega arith)
                (λ j. omega (arith, most j, tip_work, ltb→lt (work_of tip (insert id w m)) w e)) j),
      )
      | inr e ↦ rw e (
        contains_key-insert_ne tip id w m ne ∙ known,
        λ j.
            insert_within id w (work_of tip (insert id w m)) m (ground arith)
              (λ j. omega (arith, most j, tip_work)) j,
      )
    ]

-- Every share is valid and stored under its id, the known works are those of the known shares, and the
-- tip is the best.
pub record IsValid (blake2_256 : List ℕ → List ℕ) (sc : Sharechain) : Type 0 where
  pub stored :
      (id : List ℕ) (share : PoolShare)
      → lookup id sc.shares ≡ some share
      → (share.id ≡ id) × (compute_id blake2_256 share ≡ id)
  pub worked : (id : List ℕ) → contains_key id sc.cumulative_work ≡ contains_key id sc.shares
  pub best : IsBest sc.best_tip sc.cumulative_work

-- The work that a share is given.
abbrev share_work : PoolShare → Sharechain → ℕ
share_work share sc = saturating_add u128_max (prev_work share sc) share.share_difficulty

module _ (blake2_256 : List ℕ → List ℕ) where
  pub new-IsValid : IsValid blake2_256 new
  unfolding new IsBest
  new-IsValid = record {
    stored = λ id share e. ground arith;
    worked = λ id. refl;
    best = λ id. refl;
  }

  add_share_stored :
      (share : PoolShare) (sc : Sharechain)
      → compute_id blake2_256 share ≡ share.id
      → ((id : List ℕ) (old : PoolShare)
          → lookup id sc.shares ≡ some old
          → (old.id ≡ id) × (compute_id blake2_256 old ≡ id))
      → (id : List ℕ) (found : PoolShare) → lookup id (insert share.id share sc.shares) ≡ some found
      → (found.id ≡ id) × (compute_id blake2_256 found ≡ id)
  add_share_stored share sc right old id found e = elim (bytes-cases id share.id) [
    | inl (same, _) ↦
        let lands = subst (λ x. lookup x (insert share.id share sc.shares) ≡ some found) same e in
        let f : share ≡ found =
          some-injective share found (sym (lookup-insert share.id share sc.shares) ∙ lands) in
        (ap (λ x. x.id) (sym f) ∙ sym same, ap (compute_id blake2_256) (sym f) ∙ right ∙ sym same)
    | inr (ne, _) ↦ old id found (sym (lookup-insert_ne id share.id share sc.shares ne) ∙ e)
  ]

  add_share_worked :
      (share : PoolShare) (w : ℕ) (sc : Sharechain)
      → ((id : List ℕ) → contains_key id sc.cumulative_work ≡ contains_key id sc.shares)
      → (id : List ℕ)
      → contains_key id (insert share.id w sc.cumulative_work)
        ≡ contains_key id (insert share.id share sc.shares)
  add_share_worked share w sc old id = elim (bytes-cases id share.id) [
    | inl (same, _) ↦ rw same (
        contains_key-insert share.id w sc.cumulative_work
        ∙ sym (contains_key-insert share.id share sc.shares))
    | inr (ne, _) ↦
        contains_key-insert_ne id share.id w sc.cumulative_work ne
        ∙ old id
        ∙ sym (contains_key-insert_ne id share.id share sc.shares ne)
  ]

  insert_get :
      (share : PoolShare) (w : ℕ) (sc : Sharechain) (id : List ℕ)
      → (lookup id (insert share.id share sc.shares)
          ≡ (if bytes_eq id share.id then some share else lookup id sc.shares))
        × (work_of id (insert share.id w sc.cumulative_work)
            ≡ (if bytes_eq id share.id then w else work_of id sc.cumulative_work))
  insert_get share w sc id = elim (bytes-cases id share.id) [
    | inl (same, e) ↦
        rw (e, same)
          (lookup-insert share.id share sc.shares, work_of-insert share.id w sc.cumulative_work)
    | inr (ne, e) ↦ rw e (
      lookup-insert_ne id share.id share sc.shares ne,
      work_of-insert_ne id share.id w sc.cumulative_work ne,
    )
  ]

  -- `insert` answers true exactly for a share that is not known and whose id is the hash of its
  -- contents.
  pub insert_share_iff :
      (share : PoolShare) (sc : Sharechain)
      → ((insert_share blake2_256 share sc).0 ≡ true)
        ↔ ((contains_key share.id sc.shares ≡ false) × (share.id ≡ compute_id blake2_256 share))
  unfolding insert_share validate_id
  insert_share_iff share sc = elim (Bool-cases (contains_key share.id sc.shares)) [
    | inl e ↦ rw e (λ h. ground arith, λ (h, _). ground arith)
    | inr e ↦ rw e (elim (Bool-cases (bytes_eq share.id (compute_id blake2_256 share))) [
      | inl right ↦
          rw right (λ h. (refl, bytes_eq→≡ share.id (compute_id blake2_256 share) right), λ h. refl)
      | inr wrong ↦ rw wrong (
        λ h. ground arith,
        λ (_, same).
            let r = bytes_eq_refl share.id in
            let q : bytes_eq share.id share.id ≡ bytes_eq share.id (compute_id blake2_256 share) =
              ap (bytes_eq share.id) same in
            ground arith,
      )
    ])
  ]

  -- Whatever share arrives, a well-formed chain stays well-formed; so its tip has the most work.
  pub insert_share-IsValid :
      (share : PoolShare) (sc : Sharechain)
      → IsValid blake2_256 sc
      → IsValid blake2_256 (insert_share blake2_256 share sc).1
  unfolding insert_share add_share validate_id
  insert_share-IsValid share sc v = elim (Bool-cases (contains_key share.id sc.shares)) [
    | inl e ↦ rw e v
    | inr e ↦ rw e (elim (Bool-cases (bytes_eq share.id (compute_id blake2_256 share))) [
      | inl right ↦ rw right record {
        stored =
            add_share_stored share sc
              (sym (bytes_eq→≡ share.id (compute_id blake2_256 share) right)) v.stored;
        worked = add_share_worked share (share_work share sc) sc v.worked;
        best =
            insert-IsBest share.id (share_work share sc) sc.best_tip sc.cumulative_work
              (v.worked share.id ∙ e) v.best;
      }
      | inr wrong ↦ rw wrong v
    ])
  ]

  -- After `insert`, a share and its work are found under its id if the answer is true, and under every
  -- other id, or if the answer is false, what was found before: nothing is ever replaced.
  insert_share_get :
      (share : PoolShare) (sc : Sharechain) (id : List ℕ)
      → let (accepted, sc') = insert_share blake2_256 share sc in
        (get id sc' ≡ (if accepted && bytes_eq id share.id then some share else get id sc))
        × (work_of id sc'.cumulative_work ≡ (
            if accepted && bytes_eq id share.id
            then min u128_max (prev_work share sc + share.share_difficulty)
            else work_of id sc.cumulative_work))
  unfolding insert_share add_share get
  insert_share_get share sc id = elim (Bool-cases (contains_key share.id sc.shares)) [
    | inl e ↦ rw e (refl, refl)
    | inr e ↦ rw e (elim (Bool-cases (validate_id blake2_256 share)) [
      | inl right ↦ rw right (insert_get share (share_work share sc) sc id)
      | inr wrong ↦ rw wrong (refl, refl)
    ])
  ]
