-- ===== src/Staking/Delegations.antt =====
-- Delegation, undelegation, withdrawal and rewards
-- (crates/solen-system-contracts/src/staking.rs).
use mathlib.Core.Option.{get_or}
use solen.Base.{
  ℕ, ◌-◌, ◌/◌, Bool, ◌&&◌, not, none, some, List, [], ◌∷◌, Result, ok, err, ltb, leb, ◌==◌,
  if◌then◌else◌, find, push, update_first, retain, count, add_u64, add_u128, mul_u128,
  saturating_add_u128, saturating_mul_u128,
}
use solen.Staking.State.{
  StakingContract, StakingValidator, Delegation, Undelegation, StakingError, insufficient_stake,
  validator_not_found, delegation_not_found, too_many_undelegations, by_id, by_pair, pending_pair,
  max_undelegation_entries, default_unbonding_period, total_stake,
}

abbrev pub add_delegated : ℕ → StakingValidator → StakingValidator
add_delegated amount v = record v { total_delegated = saturating_add_u128 v.total_delegated amount }

abbrev pub top_up : ℕ → ℕ → Delegation → Delegation
top_up amount debt d = record d {
  amount = saturating_add_u128 d.amount amount;
  reward_debt = saturating_add_u128 d.reward_debt debt;
}

abbrev pub reward_debt_of : StakingValidator → ℕ → ℕ
reward_debt_of v amount = saturating_mul_u128 v.accumulated_reward_per_token amount / 1_000_000

-- An existing delegation of the pair grows, and keeps its epoch; otherwise a new one is pushed.
unfoldable pub add_delegation : List Delegation → ℕ → ℕ → ℕ → ℕ → ℕ → List Delegation
add_delegation ds delegator validator amount debt current_epoch =
    elim (find (by_pair delegator validator) ds) [
      | none ↦ push ds (record {
        delegator = delegator;
        validator = validator;
        amount = amount;
        reward_debt = debt;
        eligible_from_epoch = add_u64 current_epoch 1;
      })
      | some _ ↦ update_first (by_pair delegator validator) (top_up amount debt) ds
    ]

unfoldable pub delegate_at_epoch :
    StakingContract → ℕ → ℕ → ℕ → ℕ → StakingContract × Result (Unit {0}) StakingError
delegate_at_epoch s delegator validator amount current_epoch =
    elim (find (by_id validator) s.validators) [
      | none ↦ (s, err validator_not_found)
      | some val ↦ (
        record s {
          validators = update_first (by_id validator) (add_delegated amount) s.validators;
          delegations =
              add_delegation s.delegations delegator validator amount (reward_debt_of val amount)
                current_epoch;
        },
        ok tt,
      )
    ]

unfoldable pub delegate :
    StakingContract → ℕ → ℕ → ℕ → StakingContract × Result (Unit {0}) StakingError
unfolding delegate_at_epoch
delegate s delegator validator amount = delegate_at_epoch s delegator validator amount 0

abbrev pub reduce : ℕ → Delegation → Delegation
reduce amount d = record d { amount = d.amount - amount }

-- The delegations that `undelegate` leaves: a delegation that falls to zero is removed.
unfoldable pub take_from : List Delegation → ℕ → ℕ → ℕ → ℕ → List Delegation
take_from ds delegator validator amount left =
    if left == 0
    then retain (λ d. not (by_pair delegator validator d && (d.amount == 0)))
        (update_first (by_pair delegator validator) (reduce amount) ds)
    else update_first (by_pair delegator validator) (reduce amount) ds

-- The entry that `undelegate` pushes.
abbrev pub unbonding_entry : StakingContract → ℕ → ℕ → ℕ → ℕ → Undelegation
unbonding_entry s delegator validator amount current_epoch = record {
  delegator = delegator;
  validator = validator;
  amount = amount;
  unlock_epoch = add_u64 current_epoch (get_or s.unbonding_period default_unbonding_period);
}

abbrev pub sub_delegated : ℕ → StakingValidator → StakingValidator
sub_delegated amount v = record v { total_delegated = v.total_delegated - amount }

unfoldable pub undelegate :
    StakingContract → ℕ → ℕ → ℕ → ℕ → StakingContract × Result (Unit {0}) StakingError
undelegate s delegator validator amount current_epoch =
    elim (find (by_pair delegator validator) s.delegations) [
      | none ↦ (s, err delegation_not_found)
      | some delegation ↦
          if ltb delegation.amount amount
          then (s, err (insufficient_stake amount delegation.amount))
          else if leb max_undelegation_entries
              (count (pending_pair delegator validator) s.undelegations)
          then (s, err too_many_undelegations)
          else (
            record s {
              validators = update_first (by_id validator) (sub_delegated amount) s.validators;
              delegations =
                  take_from s.delegations delegator validator amount (delegation.amount - amount);
              undelegations =
                  push s.undelegations (unbonding_entry s delegator validator amount current_epoch);
            },
            ok tt,
          )
    ]

abbrev pub is_unlocked : ℕ → ℕ → Undelegation → Bool
is_unlocked delegator current_epoch u =
    (u.delegator == delegator) && leb u.unlock_epoch current_epoch

-- The closure that `retain` runs, with the running total that it captures.
unfoldable pub take_unlocked : ℕ → ℕ → List Undelegation → ℕ → List Undelegation × ℕ
take_unlocked delegator current_epoch [] total = ([], total)
take_unlocked delegator current_epoch (u ∷ us) total =
    let unlocked = is_unlocked delegator current_epoch u in
    let (kept, sum) =
      take_unlocked delegator current_epoch us
        (if unlocked then add_u128 total u.amount else total) in
    (if unlocked then kept else u ∷ kept, sum)

unfoldable pub withdraw_undelegated : StakingContract → ℕ → ℕ → StakingContract × ℕ
withdraw_undelegated s delegator current_epoch =
    let (kept, total) = take_unlocked delegator current_epoch s.undelegations 0 in
    (record s { undelegations = kept }, total)

abbrev pub accrue : ℕ → StakingValidator → StakingValidator
accrue reward v = record v {
  accumulated_reward_per_token =
      add_u128 v.accumulated_reward_per_token (mul_u128 reward 1_000_000 / total_stake v);
}

unfoldable pub distribute_rewards :
    StakingContract → ℕ → ℕ → StakingContract × Result (Unit {0}) StakingError
distribute_rewards s validator reward = elim (find (by_id validator) s.validators) [
  | none ↦ (s, err validator_not_found)
  | some val ↦
      if ltb 0 (total_stake val)
      then (
        record s { validators = update_first (by_id validator) (accrue reward) s.validators },
        ok tt,
      )
      else (s, ok tt)
]
