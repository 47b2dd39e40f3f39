-- ===== src/Staking/Registry.antt =====
-- Registration, deregistration, commission and reactivation of a validator
-- (crates/solen-system-contracts/src/staking.rs).
use Prim.Native.Nat.{min}
use mathlib.Core.Option.{get_or}
use solen.Base.{
  ℕ, Bool, true, false, ◌&&◌, none, some, Result, ok, err, ltb, leb, if◌then◌else◌, find, any, push,
  update_first, add_u64, u64_max,
}
use solen.Staking.State.{
  StakingContract, StakingValidator, StakingError, insufficient_stake, validator_not_found,
  already_registered, genesis_locked, below_min_validators, by_id, min_validator_stake_default,
  min_validator_count, genesis_lock_epochs, default_commission_bps, active_validator_count,
}

-- What each registration pushes.
abbrev pub fresh_validator : ℕ → ℕ → Bool → ℕ → ℕ → StakingValidator
fresh_validator id self_stake genesis lock eligible = record {
  id = id;
  self_stake = self_stake;
  total_delegated = 0;
  accumulated_reward_per_token = 0;
  is_active = true;
  is_genesis = genesis;
  genesis_lock_until = lock;
  commission_rate_bps = default_commission_bps;
  eligible_from_epoch = eligible;
  pending_new_key = none;
  key_rotation_epoch = 0;
}

unfoldable pub register_validator_with_min_stake :
    StakingContract → ℕ → ℕ → ℕ → StakingContract × Result (Unit {0}) StakingError
register_validator_with_min_stake s id self_stake min_stake =
    if ltb self_stake min_stake
    then (s, err (insufficient_stake min_stake self_stake))
    else if any (by_id id) s.validators
    then (s, err already_registered)
    else (
      record s { validators = push s.validators (fresh_validator id self_stake false 0 u64_max) },
      ok tt,
    )

unfoldable pub register_validator :
    StakingContract → ℕ → ℕ → StakingContract × Result (Unit {0}) StakingError
unfolding register_validator_with_min_stake
register_validator s id self_stake =
    register_validator_with_min_stake s id self_stake min_validator_stake_default

unfoldable pub register_validator_at_epoch_with_config :
    StakingContract → ℕ → ℕ → ℕ → ℕ → StakingContract × Result (Unit {0}) StakingError
register_validator_at_epoch_with_config s id self_stake current_epoch min_stake =
    if ltb self_stake min_stake
    then (s, err (insufficient_stake min_stake self_stake))
    else if any (by_id id) s.validators
    then (s, err already_registered)
    else (
      record s {
        validators =
            push s.validators (fresh_validator id self_stake false 0 (add_u64 current_epoch 1));
      },
      ok tt,
    )

unfoldable pub register_validator_at_epoch :
    StakingContract → ℕ → ℕ → ℕ → StakingContract × Result (Unit {0}) StakingError
unfolding register_validator_at_epoch_with_config
register_validator_at_epoch s id self_stake current_epoch =
    register_validator_at_epoch_with_config s id self_stake current_epoch
      min_validator_stake_default

unfoldable pub register_genesis_validator :
    StakingContract → ℕ → ℕ → StakingContract × Result (Unit {0}) StakingError
register_genesis_validator s id self_stake =
    if any (by_id id) s.validators then (s, err already_registered) else (
      record s {
        validators = push s.validators (fresh_validator id self_stake true genesis_lock_epochs 0);
      },
      ok tt,
    )

abbrev pub deactivate : StakingValidator → StakingValidator
deactivate v = record v { is_active = false; self_stake = 0 }

unfoldable pub deregister_validator :
    StakingContract → ℕ → ℕ → StakingContract × Result ℕ StakingError
unfolding active_validator_count
deregister_validator s id current_epoch = elim (find (by_id id) s.validators) [
  | none ↦ (s, err validator_not_found)
  | some val ↦
      if val.is_genesis && ltb current_epoch val.genesis_lock_until
      then (s, err (genesis_locked val.genesis_lock_until current_epoch))
      else if leb (active_validator_count s) min_validator_count
      then (s, err (below_min_validators min_validator_count))
      else (
        record s { validators = update_first (by_id id) deactivate s.validators },
        ok val.self_stake,
      )
]

-- A commission above 100% is cut to 100%.
unfoldable pub set_commission :
    StakingContract → ℕ → ℕ → StakingContract × Result (Unit {0}) StakingError
set_commission s id commission_bps = elim (find (by_id id) s.validators) [
  | none ↦ (s, err validator_not_found)
  | some _ ↦ (
    record s {
      validators =
          update_first (by_id id)
            (λ v. record v { commission_rate_bps = min commission_bps 10_000 }) s.validators;
    },
    ok tt,
  )
]

abbrev pub reactivate : StakingValidator → StakingValidator
reactivate v = record v { is_active = true }

unfoldable pub unjail : StakingContract → ℕ → StakingContract × Result (Unit {0}) StakingError
unjail s id = elim (find (by_id id) s.validators) [
  | none ↦ (s, err validator_not_found)
  | some val ↦
      if val.is_active
      then (s, ok tt)
      else if ltb val.self_stake (get_or s.min_validator_stake min_validator_stake_default)
      then (
        s,
        err (
            insufficient_stake (get_or s.min_validator_stake min_validator_stake_default)
              val.self_stake),
      )
      else (record s { validators = update_first (by_id id) reactivate s.validators }, ok tt)
]
