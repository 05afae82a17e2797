-- ===== src/Node/Pool/Sharechain/Histories.antt =====
-- The work of a share of node/src/pool/sharechain.rs by the shares before it.
use lumenyx.Prelude.{
  clash, ℕ, ◌≡◌, ◌≢◌, refl, sym, ap, subst, ◌∙◌, ◌⊎◌, inl, inr, true, false, Option, none, some,
  some-injective, none-ne-some, List, bytes_eq, bytes-cases, Bool-cases, lookup, insert,
  contains_key, lookup-insert, lookup-insert_ne, is_some, saturating_add, u128_max,
}
use lumenyx.Node.Pool.{PoolShare, zero_hash}
use lumenyx.Node.Pool.Sharechain.{Sharechain, work_of, unwrap_or_zero, prev_work, add_share}
use lumenyx.Node.Pool.Sharechain.Work.{work_of-insert_ne}

abbrev pub Shares : Type 0
Shares = List (List ℕ × PoolShare)

-- The work of a share by the shares alone: its difficulty and the work of the share before it.
pub data HasWork (shares : Shares) : List ℕ → ℕ → Type 0 where
  first :
      {id : List ℕ} {w : ℕ} (share : PoolShare)
      → lookup id shares ≡ some share
      → bytes_eq share.prev zero_hash ≡ true
      → w ≡ saturating_add u128_max 0 share.share_difficulty
      → HasWork shares id w
  after :
      {id : List ℕ} {w : ℕ} (share : PoolShare) (v : ℕ)
      → lookup id shares ≡ some share
      → bytes_eq share.prev zero_hash ≡ false
      → HasWork shares share.prev v
      → w ≡ saturating_add u128_max v share.share_difficulty
      → HasWork shares id w

-- Shares that are found under the same ids give the same works.
pub HasWork_unique :
    (shares shares' : Shares) (id : List ℕ) (w w' : ℕ)
    → ((j : List ℕ) → lookup j shares ≡ lookup j shares')
    → HasWork shares id w
    → HasWork shares' id w'
    → w ≡ w'
HasWork_unique shares shares' id w w' agree (first s e z d) (first s' e' z' d') =
    let same = some-injective s s' (sym e ∙ agree id ∙ e') in
    d ∙ ap (λ (x : PoolShare). saturating_add u128_max 0 x.share_difficulty) same ∙ sym d'
HasWork_unique shares shares' id w w' agree (first s e z d) (after s' v' e' z' h' d') =
    let same = some-injective s s' (sym e ∙ agree id ∙ e') in
    clash (bytes_eq s'.prev zero_hash)
      (subst (λ (x : PoolShare). bytes_eq x.prev zero_hash ≡ true) same z) z'
HasWork_unique shares shares' id w w' agree (after s v e z h d) (first s' e' z' d') =
    let same = some-injective s s' (sym e ∙ agree id ∙ e') in
    clash (bytes_eq s'.prev zero_hash) z'
      (subst (λ (x : PoolShare). bytes_eq x.prev zero_hash ≡ false) same z)
HasWork_unique shares shares' id w w' agree (after s v e z h d) (after s' v' e' z' h' d') =
    let same = some-injective s s' (sym e ∙ agree id ∙ e') in
    let below =
      HasWork_unique shares shares' s.prev v v' agree h
        (subst (λ (x : PoolShare). HasWork shares' x.prev v') (sym same) h') in
    d
    ∙ ap (λ x. saturating_add u128_max x s.share_difficulty) below
    ∙ ap (λ (x : PoolShare). saturating_add u128_max v' x.share_difficulty) same
    ∙ sym d'

-- A new share leaves the works of the others.
differs :
    (shares : Shares) (new_id id : List ℕ) (old : PoolShare)
    → lookup new_id shares ≡ none
    → lookup id shares ≡ some old
    → id ≢ new_id
differs shares new_id id old fresh known e =
    none-ne-some old (sym fresh ∙ sym (ap (λ x. lookup x shares) e) ∙ known)

HasWork-insert :
    (shares : Shares) (new_id : List ℕ) (share : PoolShare) (id : List ℕ) (w : ℕ)
    → lookup new_id shares ≡ none
    → HasWork shares id w
    → HasWork (insert new_id share shares) id w
HasWork-insert shares new_id share id w fresh (first s e z d) =
    first s (lookup-insert_ne id new_id share shares (differs shares new_id id s fresh e) ∙ e) z d
HasWork-insert shares new_id share id w fresh (after s v e z h d) =
    after s v (lookup-insert_ne id new_id share shares (differs shares new_id id s fresh e) ∙ e) z
      (HasWork-insert shares new_id share s.prev v fresh h) d

-- Every known share has its work by the shares alone.
abbrev pub IsWorked : Sharechain → Type 0
IsWorked sc =
    (id : List ℕ)
    → contains_key id sc.shares ≡ true
    → HasWork sc.shares id (work_of id sc.cumulative_work)

-- The share before a share is known, or there is none.
abbrev pub IsRooted : PoolShare → Sharechain → Type 0
IsRooted share sc =
    (bytes_eq share.prev zero_hash ≡ true) ⊎ (contains_key share.prev sc.shares ≡ true)

pub unknown : {V : Type 0} (o : Option V) → is_some o ≡ false → o ≡ none
unknown none e = refl
unknown (some v) e = clash true refl e

added_work :
    (share : PoolShare) (sc : Sharechain)
    → lookup share.id sc.shares ≡ none
    → IsRooted share sc
    → IsWorked sc
    → HasWork
        (insert share.id share sc.shares)
        share.id
        (saturating_add u128_max (prev_work share sc) share.share_difficulty)
unfolding prev_work
added_work share sc fresh rooted old = elim (Bool-cases (bytes_eq share.prev zero_hash)) [
  | inl z ↦ rw z (first share (lookup-insert share.id share sc.shares) z refl)
  | inr z ↦ rw z (
      after share (work_of share.prev sc.cumulative_work) (lookup-insert share.id share sc.shares) z
        (HasWork-insert sc.shares share.id share share.prev (work_of share.prev sc.cumulative_work)
          fresh
          (old share.prev (elim rooted [
            | inl zero ↦ clash (bytes_eq share.prev zero_hash) zero z
            | inr known ↦ known
          ])))
        refl)
]

pub add_share-IsWorked :
    (share : PoolShare) (sc : Sharechain)
    → contains_key share.id sc.shares ≡ false
    → IsRooted share sc
    → IsWorked sc
    → IsWorked (add_share share sc)
unfolding add_share
add_share-IsWorked share sc missing rooted old id known =
    let fresh = unknown (lookup share.id sc.shares) missing in
    let work = saturating_add u128_max (prev_work share sc) share.share_difficulty in
    elim (bytes-cases id share.id) [
      | inl (same, _) ↦
          rw (same, ap unwrap_or_zero (lookup-insert share.id work sc.cumulative_work))
            (added_work share sc fresh rooted old)
      | inr (ne, _) ↦ rw (work_of-insert_ne id share.id work sc.cumulative_work ne) (
          HasWork-insert sc.shares share.id share id (work_of id sc.cumulative_work) fresh
            (old id (ap is_some (sym (lookup-insert_ne id share.id share sc.shares ne)) ∙ known)))
    ]
