-- ===== src/Staking/State.antt =====
-- The types of crates/solen-system-contracts/src/staking.rs, and the contract's queries.
use solen.Base.{
  ℕ, ◌*◌, Bool, ◌&&◌, List, Option, none, ◌==◌, leb, add_u128, find, retain, count, sum_u128, [],
}

abbrev pub default_unbonding_period : ℕ
default_unbonding_period = 7

abbrev pub min_validator_stake_default : ℕ
min_validator_stake_default = 500_000 * 100_000_000

abbrev pub min_validator_count : ℕ
min_validator_count = 20

abbrev pub genesis_lock_epochs : ℕ
genesis_lock_epochs = 157_680

abbrev pub default_commission_bps : ℕ
default_commission_bps = 1000

abbrev pub max_undelegation_entries : ℕ
max_undelegation_entries = 7

pub data StakingError : Type 0 where
  insufficient_stake : ℕ → ℕ → StakingError
  validator_not_found : StakingError
  delegation_not_found : StakingError
  already_registered : StakingError
  genesis_locked : ℕ → ℕ → StakingError
  below_min_validators : ℕ → StakingError
  rotation_already_pending : StakingError
  key_already_in_use : StakingError
  too_many_undelegations : StakingError

pub record Delegation : Type 0 where
  pub delegator : ℕ
  pub validator : ℕ
  pub amount : ℕ
  pub reward_debt : ℕ
  pub eligible_from_epoch : ℕ

pub record Undelegation : Type 0 where
  pub delegator : ℕ
  pub validator : ℕ
  pub amount : ℕ
  pub unlock_epoch : ℕ

pub record StakingValidator : Type 0 where
  pub id : ℕ
  pub self_stake : ℕ
  pub total_delegated : ℕ
  pub accumulated_reward_per_token : ℕ
  pub is_active : Bool
  pub is_genesis : Bool
  pub genesis_lock_until : ℕ
  pub commission_rate_bps : ℕ
  pub eligible_from_epoch : ℕ
  pub pending_new_key : Option ℕ
  pub key_rotation_epoch : ℕ

unfoldable pub total_stake : StakingValidator → ℕ
total_stake v = add_u128 v.self_stake v.total_delegated

pub record StakingContract : Type 0 where
  pub validators : List StakingValidator
  pub delegations : List Delegation
  pub undelegations : List Undelegation
  pub min_validator_stake : Option ℕ
  pub unbonding_period : Option ℕ

-- `StakingContract::new`
unfoldable pub new : StakingContract
new = record {
  validators = [];
  delegations = [];
  undelegations = [];
  min_validator_stake = none;
  unbonding_period = none;
}

-- The closures by which the methods look an entry up.
abbrev pub by_id : ℕ → StakingValidator → Bool
by_id i v = v.id == i

abbrev pub by_pair : ℕ → ℕ → Delegation → Bool
by_pair delegator validator d = (d.delegator == delegator) && (d.validator == validator)

abbrev pub pending_pair : ℕ → ℕ → Undelegation → Bool
pending_pair delegator validator u = (u.delegator == delegator) && (u.validator == validator)

unfoldable pub get_validator : StakingContract → ℕ → Option StakingValidator
get_validator s i = find (by_id i) s.validators

unfoldable pub delegator_total_stake : StakingContract → ℕ → ℕ
delegator_total_stake s delegator =
    sum_u128 (λ d. d.amount) (retain (λ d. d.delegator == delegator) s.delegations)

unfoldable pub delegations_for_validator : StakingContract → ℕ → List Delegation
delegations_for_validator s i = retain (λ d. d.validator == i) s.delegations

unfoldable pub eligible_delegations_for_validator : StakingContract → ℕ → ℕ → List Delegation
eligible_delegations_for_validator s i epoch =
    retain (λ d. (d.validator == i) && leb d.eligible_from_epoch epoch) s.delegations

unfoldable pub eligible_validators : StakingContract → ℕ → List StakingValidator
eligible_validators s epoch =
    retain (λ v. v.is_active && leb v.eligible_from_epoch epoch) s.validators

unfoldable pub active_validator_count : StakingContract → ℕ
active_validator_count s = count (λ v. v.is_active) s.validators

unfoldable pub total_active_stake : StakingContract → ℕ
unfolding total_stake
total_active_stake s = sum_u128 total_stake (retain (λ v. v.is_active) s.validators)

unfoldable pub active_validators : StakingContract → List StakingValidator
active_validators s = retain (λ v. v.is_active) s.validators
