-- ===== src/Staking/Accounting.antt =====
-- The books of the staking contract: what a validator is credited with is what its delegators hold.
use solen.Base.{
  ℕ, ◌+◌, ◌<◌, ◌≡◌, ◌≢◌, refl, sym, ◌∙◌, ap, subst, ◌/◌, saturating_mul_u128, ==_iff, Option, none,
  some, List, inl, inr, arith, ◌==◌, if◌then◌else◌, Bool-cases, Option-cases, find, update_first,
  sum_by, find-test, find-update_first, find-update_first_ne, le-sum_by, update_first-none,
  u128_mod, saturating_add_u128-eq,
}
use solen.Staking.State.{StakingContract, StakingValidator, by_id, by_pair}
use solen.Staking.Sums.{share, sum-add_delegation, sum-take_from}
use solen.Staking.Delegations.{add_delegated, sub_delegated, delegate_at_epoch, undelegate}

-- The total that the contract has on record for validator `i`.
abbrev pub booked_total : Option StakingValidator → ℕ
booked_total none = 0
booked_total (some v) = v.total_delegated

abbrev pub booked : ℕ → List StakingValidator → ℕ
booked i vs = booked_total (find (by_id i) vs)

-- For every validator the total on record is the sum of the delegations to it.
abbrev pub IsAccounted : StakingContract → Type 0
IsAccounted s = (i : ℕ) → booked i s.validators ≡ sum_by (share i) s.delegations

-- A write at a validator shows in its own total and in no other.
booked-update_self :
    (f : StakingValidator → StakingValidator) (j : ℕ) (vs : List StakingValidator)
    {v : StakingValidator}
    → find (by_id j) vs ≡ some v
    → (f v).id ≡ v.id
    → booked j (update_first (by_id j) f vs) ≡ (f v).total_delegated
booked-update_self f j vs {v} e same =
    ap booked_total (find-update_first (by_id j) f vs e (ground (arith, find-test (by_id j) vs e)))

booked-update_ne :
    (f : StakingValidator → StakingValidator) (i j : ℕ) (vs : List StakingValidator)
    {v : StakingValidator}
    → find (by_id j) vs ≡ some v
    → (f v).id ≡ v.id
    → j ≢ i
    → booked i (update_first (by_id j) f vs) ≡ booked i vs
booked-update_ne f i j vs {v} e same ne = ap booked_total (
    find-update_first_ne (by_id j) (by_id i) f vs e (ground (arith, find-test (by_id j) vs e))
      (ground (arith, find-test (by_id j) vs e)))

pub booked-update_first :
    (f : StakingValidator → StakingValidator) (i j : ℕ) (vs : List StakingValidator)
    {v : StakingValidator}
    → find (by_id j) vs ≡ some v
    → (f v).id ≡ v.id
    → booked i (update_first (by_id j) f vs)
      ≡ (if j == i then (f v).total_delegated else booked i vs)
booked-update_first f i j vs {v} e same = elim (Bool-cases (j == i)) [
  | inl eq ↦ rw eq (
      subst (λ k. booked k (update_first (by_id j) f vs) ≡ (f v).total_delegated)
        ((==_iff j i).0 eq) (booked-update_self f j vs e same))
  | inr ne ↦ rw ne (booked-update_ne f i j vs e same (ground arith))
]

-- A write that keeps a validator's identifier and total shows in no total.
pub booked-update_same :
    (f : StakingValidator → StakingValidator) (i j : ℕ) (vs : List StakingValidator)
    {v : StakingValidator}
    → find (by_id j) vs ≡ some v
    → (f v).id ≡ v.id
    → (f v).total_delegated ≡ v.total_delegated
    → booked i (update_first (by_id j) f vs) ≡ booked i vs
booked-update_same f i j vs {v} e same total = elim (Bool-cases (j == i)) [
  | inl eq ↦
      booked-update_first f i j vs e same
      ∙ rw eq (
          total
          ∙ subst (λ k. v.total_delegated ≡ booked k vs) ((==_iff j i).0 eq)
              (sym (ap booked_total e)))
  | inr ne ↦ booked-update_ne f i j vs e same (ground arith)
]

-- Delegating keeps the books, as long as the validator's total stays within 128 bits: what is added
-- to the validator's total is what the delegation grows by, and no other validator's books change.
-- A call that fails changes nothing.
pub delegate_at_epoch-IsAccounted :
    (s : StakingContract) (who validator amount epoch : ℕ)
    → IsAccounted s
    → booked validator s.validators + amount < u128_mod
    → IsAccounted (delegate_at_epoch s who validator amount epoch).0
unfolding delegate_at_epoch
delegate_at_epoch-IsAccounted s who validator amount epoch inv small i =
    elim (Option-cases (find (by_id validator) s.validators)) [
      | inl absent ↦ rw (absent, delegate_at_epoch) (inv i)
      | inr (v, found) ↦
          rw (found, delegate_at_epoch)
            (ground (
              arith,
              booked-update_first (add_delegated amount) i validator s.validators found refl,
              sum-add_delegation (λ _ v. v == i) s.delegations who validator amount
                  (saturating_mul_u128 v.accumulated_reward_per_token amount / 1_000_000) epoch,
              inv i,
              inv validator,
              ap booked_total found,
              saturating_add_u128-eq v.total_delegated amount,
            ))
    ]

-- Undelegating keeps the books on every branch: each validator's total on record stays the sum of
-- the delegations to it.
pub undelegate-IsAccounted :
    (s : StakingContract) (who validator amount epoch : ℕ)
    → IsAccounted s
    → IsAccounted (undelegate s who validator amount epoch).0
unfolding undelegate
undelegate-IsAccounted s who validator amount epoch inv i =
    elim (Option-cases (find (by_pair who validator) s.delegations)) [
      | inl absent ↦ rw (absent, undelegate) (inv i)
      | inr (d, found) ↦ elim (Option-cases (find (by_id validator) s.validators)) [
        | inl gone ↦
            rw (found, undelegate)
              (ground (
                arith,
                update_first-none (by_id validator) (sub_delegated amount) s.validators gone,
                sum-take_from (λ _ v. v == i) s.delegations who validator amount found,
                le-sum_by (by_pair who validator) (share validator) s.delegations found,
                find-test (by_pair who validator) s.delegations found,
                inv i,
                inv validator,
                ap booked_total gone,
              ))
        | inr (v, here) ↦
            rw (found, undelegate)
              (ground (
                arith,
                booked-update_first (sub_delegated amount) i validator s.validators here refl,
                sum-take_from (λ _ v. v == i) s.delegations who validator amount found,
                le-sum_by (by_pair who validator) (share validator) s.delegations found,
                find-test (by_pair who validator) s.delegations found,
                inv i,
                inv validator,
                ap booked_total here,
              ))
      ]
    ]
