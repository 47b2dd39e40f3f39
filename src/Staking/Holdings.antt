-- ===== src/Staking/Holdings.antt =====
-- What one delegator owns in the staking contract: delegated stake and stake that is unbonding.
use mathlib.Core.Option.{get_or}
use solen.Base.{
  ℕ, ◌+◌, ◌≤◌, ◌<◌, ◌≡◌, refl, ap, ◌∙◌, leb, IsOk, u64_mod, add_u64-eq, not, List, [], ◌∷◌, inl,
  inr, arith, ◌==◌, if◌then◌else◌, Option-cases, Result, ok, err, find, retain, sum_by, push,
  sum_by-push, add_u128, add_u128-eq, u128_mod,
}
use solen.Staking.State.{
  StakingContract, Undelegation, StakingError, by_id, by_pair, default_unbonding_period,
}
use solen.Staking.Delegations.{
  delegate_at_epoch, undelegate, reward_debt_of, unbonding_entry, withdraw_undelegated,
  take_unlocked, is_unlocked,
}
use solen.Staking.Sums.{stake_of, sum-add_delegation, sum-take_from}
use solen.Staking.Accounting.{IsAccounted, booked}

abbrev pub pending_of : ℕ → Undelegation → ℕ
pending_of w u = if u.delegator == w then u.amount else 0

-- All that delegator `w` owns in the contract.
abbrev pub holding : ℕ → StakingContract → ℕ
holding w s = sum_by (stake_of w) s.delegations + sum_by (pending_of w) s.undelegations

-- What a call of `who` over `amount` puts on the account of `w`: nothing if the call failed.
abbrev pub credit : ℕ → ℕ → ℕ → Result (Unit {0}) StakingError → ℕ
credit w who amount (ok _) = if who == w then amount else 0
credit w who amount (err _) = 0

-- A delegation adds its amount to what its delegator owns and to no other account; one that fails
-- adds nothing. The validator's total must stay within 128 bits.
holding-delegate_at_epoch :
    (w : ℕ) (s : StakingContract) (who validator amount epoch : ℕ)
    → IsAccounted s
    → booked validator s.validators + amount < u128_mod
    → holding w (delegate_at_epoch s who validator amount epoch).0
      ≡ holding w s + credit w who amount (delegate_at_epoch s who validator amount epoch).1
unfolding delegate_at_epoch
holding-delegate_at_epoch w s who validator amount epoch inv small =
    elim (Option-cases (find (by_id validator) s.validators)) [
      | inl absent ↦ rw (absent, delegate_at_epoch) (omega arith)
      | inr (v, found) ↦
          rw (found, delegate_at_epoch)
            (ground (
              arith,
              sum-add_delegation (λ d _. d == w) s.delegations who validator amount
                  (reward_debt_of v amount) epoch,
              inv validator,
            ))
    ]

-- Undelegating moves stake into unbonding and changes no one's holding, whether it succeeds or
-- fails.
pub holding-undelegate :
    (w : ℕ) (s : StakingContract) (who validator amount epoch : ℕ)
    → holding w (undelegate s who validator amount epoch).0 ≡ holding w s
unfolding undelegate
holding-undelegate w s who validator amount epoch =
    elim (Option-cases (find (by_pair who validator) s.delegations)) [
      | inl absent ↦ rw (absent, undelegate)
      | inr (d, found) ↦
          rw (found, undelegate)
            (ground (
              arith,
              sum-take_from (λ d _. d == w) s.delegations who validator amount found,
              sum_by-push (pending_of w) s.undelegations
                  (unbonding_entry s who validator amount epoch),
            ))
    ]

-- The amount that an entry pays to `who` at `epoch`.
abbrev pub payable : ℕ → ℕ → Undelegation → ℕ
payable who epoch u = if is_unlocked who epoch u then u.amount else 0

take_unlocked-kept :
    (who epoch : ℕ) (us : List Undelegation) (total : ℕ)
    → (take_unlocked who epoch us total).0 ≡ retain (λ u. not (is_unlocked who epoch u)) us
unfolding take_unlocked retain
take_unlocked-kept who epoch [] total = refl
take_unlocked-kept who epoch (u ∷ us) total = ground (
  arith,
  take_unlocked-kept who epoch us
      (if is_unlocked who epoch u then add_u128 total u.amount else total),
)

take_unlocked-total :
    (who epoch : ℕ) (us : List Undelegation) (total : ℕ)
    → total + sum_by (payable who epoch) us < u128_mod
    → (take_unlocked who epoch us total).1 ≡ total + sum_by (payable who epoch) us
unfolding take_unlocked sum_by
take_unlocked-total who epoch [] total small = omega arith
take_unlocked-total who epoch (u ∷ us) total small = ground (
  arith,
  take_unlocked-total who epoch us
      (if is_unlocked who epoch u then add_u128 total u.amount else total),
  add_u128-eq total u.amount,
)

-- The exact sum that a withdrawal pays, and what it leaves.
pub withdraw_undelegated-paid :
    (s : StakingContract) (who epoch : ℕ)
    → sum_by (payable who epoch) s.undelegations < u128_mod
    → (withdraw_undelegated s who epoch).1 ≡ sum_by (payable who epoch) s.undelegations
unfolding withdraw_undelegated
withdraw_undelegated-paid s who epoch small =
    take_unlocked-total who epoch s.undelegations 0 (omega arith) ∙ omega arith

pub withdraw_undelegated-left :
    (s : StakingContract) (who epoch : ℕ)
    → (withdraw_undelegated s who epoch).0.undelegations
      ≡ retain (λ u. not (is_unlocked who epoch u)) s.undelegations
unfolding withdraw_undelegated
withdraw_undelegated-left s who epoch = take_unlocked-kept who epoch s.undelegations 0

withdraw_undelegated-delegations :
    (s : StakingContract) (who epoch : ℕ)
    → (withdraw_undelegated s who epoch).0.delegations ≡ s.delegations
unfolding withdraw_undelegated
withdraw_undelegated-delegations s who epoch = refl

-- What the owner `w` has in the entries that `who` leaves, and what is paid from them.
sum-left :
    (w who epoch : ℕ) (us : List Undelegation)
    → sum_by (pending_of w) (retain (λ u. not (is_unlocked who epoch u)) us)
        + (if w == who then sum_by (payable who epoch) us else 0)
      ≡ sum_by (pending_of w) us
unfolding retain sum_by
sum-left w who epoch [] = ground arith
sum-left w who epoch (u ∷ us) = ground (arith, sum-left w who epoch us)

-- A withdrawal pays the delegator what leaves its holding, and takes nothing from anybody else. The
-- sum of what is unlocked must stay within 128 bits.
pub holding-withdraw_undelegated :
    (w : ℕ) (s : StakingContract) (who epoch : ℕ)
    → sum_by (payable who epoch) s.undelegations < u128_mod
    → holding w (withdraw_undelegated s who epoch).0
        + (if w == who then (withdraw_undelegated s who epoch).1 else 0)
      ≡ holding w s
holding-withdraw_undelegated w s who epoch small = ground (
  arith,
  withdraw_undelegated-paid s who epoch small,
  ap (sum_by (pending_of w)) (withdraw_undelegated-left s who epoch),
  withdraw_undelegated-delegations s who epoch,
  sum-left w who epoch s.undelegations,
)

payable-retain :
    (who epoch again : ℕ) (us : List Undelegation)
    → again ≤ epoch
    → sum_by (payable who again) (retain (λ u. not (is_unlocked who epoch u)) us) ≡ 0
unfolding retain sum_by
payable-retain who epoch again [] le = refl
payable-retain who epoch again (u ∷ us) le = ground (arith, payable-retain who epoch again us)

-- A delegator's second withdrawal at the same epoch, or an earlier one, pays nothing.
pub withdraw_undelegated-twice :
    (s : StakingContract) (who epoch again : ℕ)
    → again ≤ epoch
    → (withdraw_undelegated (withdraw_undelegated s who epoch).0 who again).1 ≡ 0
withdraw_undelegated-twice s who epoch again le =
    let none_left =
      ap (sum_by (payable who again)) (withdraw_undelegated-left s who epoch)
      ∙ payable-retain who epoch again s.undelegations le in
    withdraw_undelegated-paid (withdraw_undelegated s who epoch).0 who again (omega arith)
    ∙ none_left

undelegate-undelegations :
    (s : StakingContract) (who validator amount epoch : ℕ)
    → IsOk (undelegate s who validator amount epoch).1
    → (undelegate s who validator amount epoch).0.undelegations
      ≡ push s.undelegations (unbonding_entry s who validator amount epoch)
unfolding undelegate
undelegate-undelegations s who validator amount epoch done = ground arith

-- An undelegation pays nothing before its unbonding period is over, and its amount from then on, on
-- top of what its delegator could withdraw without it.
pub withdraw_undelegated-undelegate :
    (s : StakingContract) (who validator amount epoch later : ℕ)
    → IsOk (undelegate s who validator amount epoch).1
    → epoch + get_or s.unbonding_period default_unbonding_period < u64_mod
    → sum_by (payable who later) s.undelegations + amount < u128_mod
    → (withdraw_undelegated (undelegate s who validator amount epoch).0 who later).1
      ≡ (withdraw_undelegated s who later).1
        + (if leb (epoch + get_or s.unbonding_period default_unbonding_period) later
            then amount
            else 0)
withdraw_undelegated-undelegate s who validator amount epoch later done fits small =
    let entry = unbonding_entry s who validator amount epoch in
    let more =
      ap (sum_by (payable who later)) (undelegate-undelegations s who validator amount epoch done)
      ∙ sum_by-push (payable who later) s.undelegations entry in
    ground (
      arith,
      more,
      add_u64-eq epoch (get_or s.unbonding_period default_unbonding_period),
      withdraw_undelegated-paid s who later,
      withdraw_undelegated-paid (undelegate s who validator amount epoch).0 who later,
    )
