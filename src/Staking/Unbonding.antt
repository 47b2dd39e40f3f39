-- ===== src/Staking/Unbonding.antt =====
-- The limit on unbonding entries of one delegator at one validator.
use solen.Base.{
  ℕ, ◌≤◌, not, inl, inr, arith, Option-cases, find, count, count-push, count-retain_le, ap,
}
use solen.Staking.State.{StakingContract, by_pair, pending_pair, max_undelegation_entries}
use solen.Staking.Delegations.{undelegate, unbonding_entry, withdraw_undelegated, is_unlocked}
use solen.Staking.Holdings.{withdraw_undelegated-left}

-- No delegator has more than seven entries pending at one validator.
abbrev pub IsCapped : StakingContract → Type 0
IsCapped s = (w i : ℕ) → count (pending_pair w i) s.undelegations ≤ max_undelegation_entries

-- Undelegating keeps the limit of seven pending entries for every pair, on every branch.
pub undelegate-IsCapped :
    (s : StakingContract) (who validator amount epoch : ℕ)
    → IsCapped s
    → IsCapped (undelegate s who validator amount epoch).0
unfolding undelegate
undelegate-IsCapped s who validator amount epoch capped w i =
    elim (Option-cases (find (by_pair who validator) s.delegations)) [
      | inl absent ↦ rw (absent, undelegate) (capped w i)
      | inr (d, found) ↦
          rw (found, undelegate)
            (ground (
              arith,
              capped w i,
              count-push (pending_pair w i) s.undelegations
                  (unbonding_entry s who validator amount epoch),
            ))
    ]

-- Withdrawing keeps the limit of seven pending entries for every pair.
pub withdraw_undelegated-IsCapped :
    (s : StakingContract) (who epoch : ℕ)
    → IsCapped s
    → IsCapped (withdraw_undelegated s who epoch).0
withdraw_undelegated-IsCapped s who epoch capped w i = omega (
  arith,
  ap (count (pending_pair w i)) (withdraw_undelegated-left s who epoch),
  count-retain_le (pending_pair w i) (λ u. not (is_unlocked who epoch u)) s.undelegations,
  capped w i,
)
