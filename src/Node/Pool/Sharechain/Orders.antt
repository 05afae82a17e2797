-- ===== src/Node/Pool/Sharechain/Orders.antt =====
-- Chains of shares that grow in different orders, node/src/pool/sharechain.rs.
use lumenyx.Prelude.{
  clash, ℕ, ◌+◌, ◌≤◌, min, ◌≡◌, ◌≢◌, refl, sym, ap, ◌∙◌, arith, inl, inr, Bool, true, false, Option,
  none, some, List, [], ◌∷◌, bytes_eq, Bool-cases, lookup, contains_key, lookup-insert,
  contains_key-insert_ne, is_some, u128_max,
}
use lumenyx.Node.Pool.{PoolShare, zero_hash, validate_id}
use lumenyx.Node.Pool.Sharechain.{
  Sharechain, new, work_of, unwrap_or_zero, prev_work, add_share, insert_share, get,
}
use lumenyx.Node.Pool.Sharechain.Tip.{insert_share_new}
use lumenyx.Node.Pool.Sharechain.Work.{
  IsBest, IsValid, new-IsValid, insert_share-IsValid, work_of-insert_ne,
}
use lumenyx.Node.Pool.Sharechain.Histories.{
  HasWork_unique, unknown, add_share-IsWorked, IsWorked, IsRooted,
}

-- The work of the tip.
unfoldable pub tip_work : Option (List ℕ) → List (List ℕ × ℕ) → ℕ
tip_work none works = 0
tip_work (some tip) works = work_of tip works

tip_bound :
    (tip : Option (List ℕ)) (works : List (List ℕ × ℕ)) (id : List ℕ)
    → IsBest tip works
    → work_of id works ≤ tip_work tip works
unfolding tip_work IsBest
tip_bound none works id best = rw (best id) (omega arith)
tip_bound (some tip) works id (known, most) = most id

tip_attained :
    (tip : Option (List ℕ)) (works : List (List ℕ × ℕ))
    → IsBest tip works
    → (id : List ℕ) × (tip_work tip works ≡ work_of id works)
unfolding tip_work IsBest
tip_attained none works best = ([], sym (ap unwrap_or_zero (best [])))
tip_attained (some tip) works best = (tip, refl)

-- Chains with the same works have tips of the same work.
tip_work_le :
    (tip tip' : Option (List ℕ)) (works works' : List (List ℕ × ℕ))
    → IsBest tip works
    → IsBest tip' works'
    → ((id : List ℕ) → work_of id works ≡ work_of id works')
    → tip_work tip works ≤ tip_work tip' works'
tip_work_le tip tip' works works' best best' agree =
    let (id, e) = tip_attained tip works best in
    omega (arith, e, agree id, tip_bound tip' works' id best')

module _ (blake2_256 : List ℕ → List ℕ) where
  -- The chain after shares that arrive in order.
  unfoldable pub insert_all : List PoolShare → Sharechain → Sharechain
  insert_all [] sc = sc
  insert_all (share ∷ shares) sc = insert_all shares (insert_share blake2_256 share sc).1

  -- When a share arrives, the one before it is known, or there is none.
  unfoldable pub IsParentFirst : List PoolShare → Sharechain → Type 0
  IsParentFirst [] sc = Unit
  IsParentFirst (share ∷ shares) sc =
      IsRooted share sc × IsParentFirst shares (insert_share blake2_256 share sc).1

  insert_share-IsWorked :
      (share : PoolShare) (sc : Sharechain)
      → IsRooted share sc
      → IsWorked sc
      → IsWorked (insert_share blake2_256 share sc).1
  unfolding insert_share
  insert_share-IsWorked share sc rooted old = elim (Bool-cases (contains_key share.id sc.shares)) [
    | inl e ↦ rw e old
    | inr e ↦ rw e (elim (Bool-cases (validate_id blake2_256 share)) [
      | inl right ↦ rw right (add_share-IsWorked share sc e rooted old)
      | inr wrong ↦ rw wrong old
    ])
  ]

  insert_all-IsWorked :
      (shares : List PoolShare) (sc : Sharechain)
      → IsParentFirst shares sc
      → IsWorked sc
      → IsWorked (insert_all shares sc)
  unfolding insert_all IsParentFirst
  insert_all-IsWorked [] sc ordered old = old
  insert_all-IsWorked (share ∷ shares) sc (rooted, ordered) old =
      insert_all-IsWorked shares (insert_share blake2_256 share sc).1 ordered
        (insert_share-IsWorked share sc rooted old)

  insert_all-IsValid :
      (shares : List PoolShare) (sc : Sharechain)
      → IsValid blake2_256 sc
      → IsValid blake2_256 (insert_all shares sc)
  unfolding insert_all
  insert_all-IsValid [] sc v = v
  insert_all-IsValid (share ∷ shares) sc v =
      insert_all-IsValid shares (insert_share blake2_256 share sc).1
        (insert_share-IsValid blake2_256 share sc v)

  new-IsWorked : IsWorked new
  unfolding new
  new-IsWorked id known = clash true refl (sym known)

  no_work :
      (id : List ℕ) (sc : Sharechain)
      → IsValid blake2_256 sc
      → contains_key id sc.shares ≡ false
      → work_of id sc.cumulative_work ≡ 0
  no_work id sc v e = ap unwrap_or_zero (unknown (lookup id sc.cumulative_work) (v.worked id ∙ e))

  same_works :
      (xs ys : List PoolShare) (id : List ℕ)
      → IsParentFirst xs new
      → IsParentFirst ys new
      → ((j : List ℕ) → get j (insert_all xs new) ≡ get j (insert_all ys new))
      → work_of id (insert_all xs new).cumulative_work
        ≡ work_of id (insert_all ys new).cumulative_work
  unfolding get
  same_works xs ys id ordered ordered' agree =
      let a = insert_all xs new in
      let b = insert_all ys new in
      let v = insert_all-IsValid xs new (new-IsValid blake2_256) in
      let v' = insert_all-IsValid ys new (new-IsValid blake2_256) in
      let both : contains_key id a.shares ≡ contains_key id b.shares = ap is_some (agree id) in
      elim (Bool-cases (contains_key id a.shares)) [
        | inl e ↦
            HasWork_unique a.shares b.shares id (work_of id a.cumulative_work)
              (work_of id b.cumulative_work) agree
              (insert_all-IsWorked xs new ordered new-IsWorked id e)
              (insert_all-IsWorked ys new ordered' new-IsWorked id (sym both ∙ e))
        | inr e ↦ no_work id a v e ∙ sym (no_work id b v' (sym both ∙ e))
      ]

  -- Two nodes that end with the same shares, and that each got every share after the one before it,
  -- give each share the same work, and have tips of the same work, in whatever orders the shares came.
  pub insert_all_order :
      (xs ys : List PoolShare)
      → IsParentFirst xs new
      → IsParentFirst ys new
      → ((j : List ℕ) → get j (insert_all xs new) ≡ get j (insert_all ys new))
      → let a = insert_all xs new in
        let b = insert_all ys new in
        ((id : List ℕ) → work_of id a.cumulative_work ≡ work_of id b.cumulative_work)
        × (tip_work a.best_tip a.cumulative_work ≡ tip_work b.best_tip b.cumulative_work)
  insert_all_order xs ys ordered ordered' agree =
      let a = insert_all xs new in
      let b = insert_all ys new in
      let v = insert_all-IsValid xs new (new-IsValid blake2_256) in
      let v' = insert_all-IsValid ys new (new-IsValid blake2_256) in
      let works = λ (id : List ℕ). same_works xs ys id ordered ordered' agree in
      let le =
        tip_work_le a.best_tip b.best_tip a.cumulative_work b.cumulative_work v.best v'.best
          works in
      let ge =
        tip_work_le b.best_tip a.best_tip b.cumulative_work a.cumulative_work v'.best v.best
          (λ id. sym (works id)) in
      (works, omega (arith, le, ge))

  -- What a new and valid share changes: its own work and no other.
  module _ (share : PoolShare) (sc : Sharechain) (missing : contains_key share.id sc.shares ≡ false)
      (right : validate_id blake2_256 share ≡ true) where
    own_work :
        work_of share.id (insert_share blake2_256 share sc).1.cumulative_work
        ≡ min u128_max (prev_work share sc + share.share_difficulty)
    unfolding add_share
    own_work =
        ap (λ (r : Bool × Sharechain). work_of share.id r.1.cumulative_work)
          (insert_share_new blake2_256 share sc missing right)
        ∙ ap unwrap_or_zero (lookup-insert share.id _ sc.cumulative_work)

    other_work :
        (id : List ℕ)
        → id ≢ share.id
        → work_of id (insert_share blake2_256 share sc).1.cumulative_work
          ≡ work_of id sc.cumulative_work
    unfolding add_share
    other_work id ne =
        ap (λ (r : Bool × Sharechain). work_of id r.1.cumulative_work)
          (insert_share_new blake2_256 share sc missing right)
        ∙ work_of-insert_ne id share.id _ sc.cumulative_work ne

    still_unknown :
        (id : List ℕ)
        → id ≢ share.id
        → contains_key id sc.shares ≡ false
        → contains_key id (insert_share blake2_256 share sc).1.shares ≡ false
    unfolding add_share
    still_unknown id ne h =
        ap (λ (r : Bool × Sharechain). contains_key id r.1.shares)
          (insert_share_new blake2_256 share sc missing right)
        ∙ contains_key-insert_ne id share.id share sc.shares ne
        ∙ h

  -- A share that arrives before the one that it is on keeps the work of its own difficulty alone, also
  -- when the other has come: in the right order it has the work of both.
  pub late_parent :
      (p c : PoolShare) (sc : Sharechain)
      → IsValid blake2_256 sc
      → contains_key p.id sc.shares ≡ false
      → contains_key c.id sc.shares ≡ false
      → validate_id blake2_256 p ≡ true
      → validate_id blake2_256 c ≡ true
      → c.id ≢ p.id
      → c.prev ≡ p.id
      → bytes_eq c.prev zero_hash ≡ false
      → (work_of c.id (insert_all (c ∷ p ∷ []) sc).cumulative_work
          ≡ min u128_max c.share_difficulty)
        × (work_of c.id (insert_all (p ∷ c ∷ []) sc).cumulative_work
            ≡ min u128_max
                (min u128_max (prev_work p sc + p.share_difficulty) + c.share_difficulty))
  unfolding insert_all prev_work
  late_parent p c sc v mp mc right_p right_c ne on nz =
      let after_c = (insert_share blake2_256 c sc).1 in
      let after_p = (insert_share blake2_256 p sc).1 in
      let before : prev_work c sc ≡ 0 =
        rw nz (ap (λ x. work_of x sc.cumulative_work) on ∙ no_work p.id sc v mp) in
      let alone : prev_work c sc + c.share_difficulty ≡ c.share_difficulty =
        omega (arith, before) in
      let later : prev_work c after_p ≡ min u128_max (prev_work p sc + p.share_difficulty) =
        rw nz (ap (λ x. work_of x after_p.cumulative_work) on ∙ own_work p sc mp right_p) in
      (
        other_work p after_c (still_unknown c sc mc right_c p.id (λ e. ne (sym e)) mp) right_p c.id
              ne
            ∙ own_work c sc mc right_c
            ∙ ap (min u128_max) alone,
        own_work c after_p (still_unknown p sc mp right_p c.id ne mc) right_c
            ∙ ap (λ w. min u128_max (w + c.share_difficulty)) later,
      )
