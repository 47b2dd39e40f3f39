-- ===== src/Staking/Tests.antt =====
-- Runs of the staking contract, and the theorems at a small contract.
use solen.Base.{
  ℕ, ◌+◌, ◌≤◌, ◌≡◌, ◌⊎◌, refl, true, false, none, some, [], ◌∷◌, arith, ok, err, IsOk, find, any,
  sum_by, count, add_u128, List, suc, zero, leb, if◌then◌else◌,
}
use solen.Staking.State.{
  StakingContract, StakingValidator, validator_not_found, min_validator_count,
  active_validator_count,
}
use solen.Staking.Registry.{fresh_validator, deregister_validator}
use solen.Staking.Delegations.{delegate_at_epoch, undelegate, take_unlocked, withdraw_undelegated}
use solen.Staking.Rotation.{rotate_key, apply_pending_rotations}
use solen.Staking.Accounting.{IsAccounted}
use solen.Staking.Holdings.{holding, holding-undelegate, withdraw_undelegated-undelegate}
use solen.Staking.Unbonding.{IsCapped}
use solen.Staking.Membership.{IsDistinct, deregister_validator-IsOk}
use solen.Staking.Steps.{IsValid, Reach, here, next, delegation, undelegation, Reach-IsValid}
use solen.Staking.Collision.{rotate_key-collision}

abbrev funded : StakingValidator
funded = record (fresh_validator 1 900 false 0 0) { total_delegated = 50 }

-- Two validators; delegator 7 has 50 at the first, and 5 in unbonding until epoch 3.
abbrev pair : StakingContract
pair = record {
  validators = funded ∷ fresh_validator 2 800 true 100 0 ∷ [];
  delegations =
      record { delegator = 7; validator = 1; amount = 50; reward_debt = 0; eligible_from_epoch = 1 }
      ∷ [];
  undelegations = record { delegator = 7; validator = 1; amount = 5; unlock_epoch = 3 } ∷ [];
  min_validator_stake = none;
  unbonding_period = some 7;
}

pair-IsAccounted : IsAccounted pair
unfolding find sum_by
pair-IsAccounted i = ground arith

pair-IsCapped : IsCapped pair
unfolding count
pair-IsCapped w i = ground arith

pair-IsValid : IsValid pair
unfolding find
pair-IsValid = record { distinct = (refl, (refl, tt)); accounted = pair-IsAccounted }

withdrawn : (withdraw_undelegated pair 7 3).1 ≡ 5
unfolding withdraw_undelegated take_unlocked add_u128
withdrawn = refl

not_yet_withdrawn : (withdraw_undelegated pair 7 2).1 ≡ 0
unfolding withdraw_undelegated take_unlocked
not_yet_withdrawn = refl

undelegated : IsOk (undelegate pair 7 1 20 4).1
unfolding undelegate find count
undelegated = tt

unregistered_validator : (delegate_at_epoch pair 7 9 10 0).1 ≡ err validator_not_found
unfolding delegate_at_epoch find
unregistered_validator = refl

holding-undelegate_example : holding 7 (undelegate pair 7 1 20 4).0 ≡ holding 7 pair
holding-undelegate_example = holding-undelegate 7 pair 7 1 20 4

withdraw_undelegated-undelegate_example :
    (withdraw_undelegated (undelegate pair 7 1 20 4).0 7 11).1
    ≡ (withdraw_undelegated pair 7 11).1 + (if leb 11 11 then 20 else 0)
unfolding sum_by
withdraw_undelegated-undelegate_example =
    withdraw_undelegated-undelegate pair 7 1 20 4 11 undelegated (omega arith) (omega arith)

-- Two calls from there.
two_calls : Reach pair (undelegate (delegate_at_epoch pair 7 2 10 4).0 7 1 50 5).0
unfolding find
two_calls = next (next here (delegation 7 2 10 4 (omega arith))) (undelegation 7 1 50 5)

Reach-IsValid_example : IsValid (undelegate (delegate_at_epoch pair 7 2 10 4).0 7 1 50 5).0
Reach-IsValid_example = Reach-IsValid pair-IsValid two_calls

-- Twenty-one active validators, so that one may leave.
abbrev crowd_of : ℕ → List StakingValidator
crowd_of zero = []
crowd_of (suc n) = fresh_validator (suc n) 900 false 0 0 ∷ crowd_of n

abbrev crowd : StakingContract
crowd = record pair { validators = crowd_of 21 }

one_may_leave : IsOk (deregister_validator crowd 21 5).1
unfolding deregister_validator find count
one_may_leave = tt

deregister_validator-IsOk_example :
    (min_validator_count ≤ active_validator_count (deregister_validator crowd 21 5).0)
    × ((false ≡ false) ⊎ (0 ≤ 5))
    × ((deregister_validator crowd 21 5).1 ≡ ok 900)
unfolding find
deregister_validator-IsOk_example =
    deregister_validator-IsOk crowd 21 5 {v = fresh_validator 21 900 false 0 0} refl one_may_leave

rotate_key-collision_example :
    let s1 = (rotate_key pair 1 9 4).0 in
    let s2 = (rotate_key s1 2 9 4).0 in
    IsOk (rotate_key pair 1 9 4).1
    × IsOk (rotate_key s1 2 9 4).1
    × (¬ IsDistinct (apply_pending_rotations s2 (4 + 1)).0.validators)
unfolding find any
rotate_key-collision_example =
    rotate_key-collision pair 1 2 9 4 {v = funded} {w = fresh_validator 2 800 true 100 0}
      (omega arith) refl refl refl refl refl (omega arith)
