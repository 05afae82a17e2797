-- ===== src/Halving/Deposits.antt =====
-- What the deposits of pallets/halving/src/lib.rs do to the issuance: the payouts of a digest, over what
-- the documentation of the balances says of one deposit.
use lumenyx.Prelude.{
  ℕ, ◌+◌, ◌≤◌, min, ◌≡◌, refl, ◌⊎◌, ◌∙◌, arith, Bool, true, some, List, [], ◌∷◌, ◌==◌, u128_max,
  saturating_add, inl, inr, Bool-cases, Option-cases,
}
use lumenyx.Halving.{Framework, sum_payouts, pay_miners}

-- The sum of the payouts, with no limit.
unfoldable pub exact_sum : List (List ℕ × ℕ) → ℕ
exact_sum [] = 0
exact_sum ((_, amt) ∷ payouts) = amt + exact_sum payouts

pub sum_payouts_eq :
    (acc : ℕ) (payouts : List (List ℕ × ℕ))
    → acc ≤ u128_max
    → sum_payouts acc payouts ≡ min u128_max (acc + exact_sum payouts)
unfolding sum_payouts exact_sum
sum_payouts_eq acc [] h = omega arith
sum_payouts_eq acc ((_, amt) ∷ payouts) h =
    sum_payouts_eq (saturating_add u128_max acc amt) payouts (omega arith) ∙ omega arith

module _ (fw : Framework) where
  open fw use {AccountId, Raw, deposit_creating, decode_account}

  -- What the documentation of the balances says: a deposit raises the issuance by at most its amount; by
  -- just that, if the account is there or the amount is at least the existential deposit, and the
  -- issuance stays within its type; and no deposit takes an account away. A new account with less is not
  -- created, which `at_most` leaves open.
  pub record IsMinting (issuance : Raw → ℕ) (has_account : AccountId → Raw → Bool)
      (existential_deposit : ℕ) : Type 0 where
    pub at_most :
        (who : AccountId) (amt : ℕ) (raw : Raw)
        → issuance (deposit_creating who amt raw) ≤ issuance raw + amt
    pub mints :
        (who : AccountId) (amt : ℕ) (raw : Raw)
        → (has_account who raw ≡ true) ⊎ (existential_deposit ≤ amt)
        → issuance raw + amt ≤ u128_max
        → issuance (deposit_creating who amt raw) ≡ issuance raw + amt
    pub keeps :
        (who other : AccountId) (amt : ℕ) (raw : Raw)
        → has_account who raw ≡ true
        → has_account who (deposit_creating other amt raw) ≡ true

  module _ (issuance : Raw → ℕ) (has_account : AccountId → Raw → Bool) (existential_deposit : ℕ)
      (m : IsMinting issuance has_account existential_deposit) where
    -- A deposit to the account is taken: it is there, or the amount is at least the existential deposit.
    abbrev pub CanTake : AccountId → ℕ → Raw → Type 0
    CanTake who amt raw = (has_account who raw ≡ true) ⊎ (existential_deposit ≤ amt)

    -- Each payout that is not zero is to bytes of an account that takes it.
    unfoldable pub CanPay : List (List ℕ × ℕ) → Raw → Type 0
    CanPay [] raw = Unit
    CanPay ((acc, amt) ∷ payouts) raw =
        ((amt ≡ 0) ⊎ ((who : AccountId) × (decode_account acc ≡ some who) × CanTake who amt raw))
        × CanPay payouts raw

    CanTake-deposit :
        (who other : AccountId) (amt amt' : ℕ) (raw : Raw)
        → CanTake who amt raw
        → CanTake who amt (deposit_creating other amt' raw)
    CanTake-deposit who other amt amt' raw (inl h) = inl (m.keeps who other amt' raw h)
    CanTake-deposit who other amt amt' raw (inr h) = inr h

    CanPay-deposit :
        (payouts : List (List ℕ × ℕ)) (other : AccountId) (amt : ℕ) (raw : Raw)
        → CanPay payouts raw
        → CanPay payouts (deposit_creating other amt raw)
    unfolding CanPay
    CanPay-deposit [] other amt raw h = tt
    CanPay-deposit ((acc, a) ∷ payouts) other amt raw (inl z, h) =
        (inl z, CanPay-deposit payouts other amt raw h)
    CanPay-deposit ((acc, a) ∷ payouts) other amt raw (inr (who, e, c), h) = (
      inr (who, e, CanTake-deposit who other a amt raw c),
      CanPay-deposit payouts other amt raw h,
    )

    -- No payouts mint more than their sum.
    pub pay_miners_most :
        (payouts : List (List ℕ × ℕ)) (raw : Raw)
        → issuance (pay_miners fw payouts raw) ≤ issuance raw + exact_sum payouts
    unfolding pay_miners exact_sum
    pay_miners_most [] raw = omega arith
    pay_miners_most ((acc, amt) ∷ payouts) raw = elim (Bool-cases (amt == 0)) [
      | inl z ↦ rw z (omega (arith, pay_miners_most payouts raw))
      | inr nz ↦ elim (Option-cases (decode_account acc)) [
        | inl e ↦ rw (nz, e) (omega (arith, pay_miners_most payouts raw))
        | inr (who, e) ↦
            rw (nz, e)
              (omega (
                arith,
                pay_miners_most payouts (deposit_creating who amt raw),
                m.at_most who amt raw,
              ))
      ]
    ]

    -- Payouts that are taken mint their sum, and leave the accounts that are there.
    pub pay_miners_lem :
        (payouts : List (List ℕ × ℕ)) (raw : Raw)
        → CanPay payouts raw
        → issuance raw + exact_sum payouts ≤ u128_max
        → issuance (pay_miners fw payouts raw) ≡ issuance raw + exact_sum payouts
    unfolding pay_miners exact_sum CanPay
    pay_miners_lem [] raw h room = omega arith
    pay_miners_lem ((acc, amt) ∷ payouts) raw (inl z, h) room =
        let b : (amt == 0) ≡ true = rw z refl in
        rw b (omega (arith, z, pay_miners_lem payouts raw h (omega (arith, room))))
    pay_miners_lem ((acc, amt) ∷ payouts) raw (inr (who, e, c), h) room =
        elim (Bool-cases (amt == 0)) [
          | inl z ↦ rw z (ground (arith, pay_miners_lem payouts raw h (omega (arith, room))))
          | inr nz ↦
              let minted = m.mints who amt raw c (omega (arith, room)) in
              rw (nz, e)
                (omega (
                  arith,
                  pay_miners_lem payouts (deposit_creating who amt raw)
                      (CanPay-deposit payouts who amt raw h) (omega (arith, room, minted)),
                  minted,
                ))
        ]

    pub pay_miners_keeps :
        (payouts : List (List ℕ × ℕ)) (raw : Raw) (who : AccountId)
        → has_account who raw ≡ true
        → has_account who (pay_miners fw payouts raw) ≡ true
    unfolding pay_miners
    pay_miners_keeps [] raw who h = h
    pay_miners_keeps ((acc, amt) ∷ payouts) raw who h = elim (Bool-cases (amt == 0)) [
      | inl z ↦ rw z (pay_miners_keeps payouts raw who h)
      | inr nz ↦ elim (Option-cases (decode_account acc)) [
        | inl e ↦ rw (nz, e) (pay_miners_keeps payouts raw who h)
        | inr (other, e) ↦
            rw (nz, e)
              (pay_miners_keeps payouts (deposit_creating other amt raw) who
                (m.keeps who other amt raw h))
      ]
    ]
