-- ===== src/Staking/Sums.antt =====
-- What the list operations of delegate and undelegate do to sums over delegations.
use solen.Base.{
  ℕ, ◌+◌, ◌-◌, ◌≤◌, ◌<◌, ◌≡◌, Bool, ◌&&◌, not, some, List, inl, inr, arith, ◌==◌, if◌then◌else◌,
  Option-cases, find, update_first, sum_by, find-test, sum_by-update_first, sum_by-push, le-sum_by,
  sum_by-retain_zero, u128_mod, saturating_add_u128-eq,
}
use solen.Staking.State.{Delegation, by_pair}
use solen.Staking.Delegations.{top_up, reduce, add_delegation, take_from}

-- A delegation counts with its amount where its two parties pass the test.
abbrev pub weigh : (ℕ → ℕ → Bool) → Delegation → ℕ
weigh q d = if q d.delegator d.validator then d.amount else 0

-- What a delegation counts for at validator `i`, and for delegator `w`.
abbrev pub share : ℕ → Delegation → ℕ
share i d = if d.validator == i then d.amount else 0

abbrev pub stake_of : ℕ → Delegation → ℕ
stake_of w d = if d.delegator == w then d.amount else 0

-- Adding to a delegation, or pushing a new one, adds the amount where the pair passes the test.
pub sum-add_delegation :
    (q : ℕ → ℕ → Bool) (ds : List Delegation) (who validator amount debt epoch : ℕ)
    → sum_by (share validator) ds + amount < u128_mod
    → sum_by (weigh q) (add_delegation ds who validator amount debt epoch)
      ≡ sum_by (weigh q) ds + (if q who validator then amount else 0)
unfolding add_delegation
sum-add_delegation q ds who validator amount debt epoch small =
    elim (Option-cases (find (by_pair who validator) ds)) [
      | inl absent ↦ rw (absent, add_delegation) (sum_by-push (weigh q) ds _)
      | inr (d, found) ↦
          rw (found, add_delegation)
            (ground (
              arith,
              sum_by-update_first (by_pair who validator) (weigh q) (top_up amount debt) ds found,
              find-test (by_pair who validator) ds found,
              le-sum_by (by_pair who validator) (share validator) ds found,
              saturating_add_u128-eq d.amount amount,
            ))
    ]

-- Removing an emptied delegation does not change a sum, so only the amount leaves it.
pub sum-take_from :
    (q : ℕ → ℕ → Bool) (ds : List Delegation) (who validator amount : ℕ) {d : Delegation}
    → find (by_pair who validator) ds ≡ some d
    → amount ≤ d.amount
    → sum_by (weigh q) (take_from ds who validator amount (d.amount - amount))
        + (if q who validator then amount else 0)
      ≡ sum_by (weigh q) ds
unfolding take_from
sum-take_from q ds who validator amount {d} found enough = ground (
  arith,
  sum_by-update_first (by_pair who validator) (weigh q) (reduce amount) ds found,
  find-test (by_pair who validator) ds found,
  le-sum_by (by_pair who validator) (weigh q) ds found,
  sum_by-retain_zero (weigh q) (λ d. not (by_pair who validator d && (d.amount == 0)))
      (update_first (by_pair who validator) (reduce amount) ds) (λ x h. ground arith),
)
