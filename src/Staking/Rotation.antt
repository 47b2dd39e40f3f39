-- ===== src/Staking/Rotation.antt =====
-- Rotation of a validator's key (crates/solen-system-contracts/src/staking.rs).
use solen.Base.{
  ℕ, none, some, List, [], ◌∷◌, Option, Result, ok, err, leb, ◌==◌, if◌then◌else◌, find, any,
  update_first, is_some, add_u64, map,
}
use solen.Staking.State.{
  StakingContract, StakingValidator, Delegation, Undelegation, StakingError, validator_not_found,
  rotation_already_pending, key_already_in_use, by_id,
}

abbrev pub request_rotation : ℕ → ℕ → StakingValidator → StakingValidator
request_rotation new_key current_epoch v = record v {
  pending_new_key = some new_key;
  key_rotation_epoch = add_u64 current_epoch 1;
}

unfoldable pub rotate_key :
    StakingContract → ℕ → ℕ → ℕ → StakingContract × Result (Unit {0}) StakingError
rotate_key s validator_id new_key current_epoch =
    if any (by_id new_key) s.validators
    then (s, err key_already_in_use)
    else elim (find (by_id validator_id) s.validators) [
      | none ↦ (s, err validator_not_found)
      | some val ↦ if is_some val.pending_new_key then (s, err rotation_already_pending) else (
        record s {
          validators =
              update_first (by_id validator_id) (request_rotation new_key current_epoch)
                s.validators;
        },
        ok tt,
      )
    ]

-- The key that a validator changes to at this epoch.
unfoldable pub due_key : ℕ → StakingValidator → Option ℕ
due_key current_epoch v = elim v.pending_new_key [
  | none ↦ none
  | some new_key ↦ if leb v.key_rotation_epoch current_epoch then some new_key else none
]

unfoldable pub rotate_one : ℕ → StakingValidator → StakingValidator
rotate_one current_epoch v = elim (due_key current_epoch v) [
  | none ↦ v
  | some new_key ↦ record v { id = new_key; pending_new_key = none; key_rotation_epoch = 0 }
]

-- The pairs of old and new keys, in the order of the validators.
unfoldable pub rotated_keys : ℕ → List StakingValidator → List (ℕ × ℕ)
rotated_keys current_epoch [] = []
rotated_keys current_epoch (v ∷ vs) = elim (due_key current_epoch v) [
  | none ↦ rotated_keys current_epoch vs
  | some new_key ↦ (v.id, new_key) ∷ rotated_keys current_epoch vs
]

unfoldable pub rekey_delegation : ℕ → ℕ → Delegation → Delegation
rekey_delegation old_key new_key d =
    if d.validator == old_key then record d { validator = new_key } else d

unfoldable pub rekey_undelegation : ℕ → ℕ → Undelegation → Undelegation
rekey_undelegation old_key new_key u =
    if u.validator == old_key then record u { validator = new_key } else u

unfoldable pub rekey_delegations : List (ℕ × ℕ) → List Delegation → List Delegation
rekey_delegations [] ds = ds
rekey_delegations ((old_key, new_key) ∷ rotated) ds =
    rekey_delegations rotated (map (rekey_delegation old_key new_key) ds)

unfoldable pub rekey_undelegations : List (ℕ × ℕ) → List Undelegation → List Undelegation
rekey_undelegations [] us = us
rekey_undelegations ((old_key, new_key) ∷ rotated) us =
    rekey_undelegations rotated (map (rekey_undelegation old_key new_key) us)

unfoldable pub apply_pending_rotations : StakingContract → ℕ → StakingContract × List (ℕ × ℕ)
apply_pending_rotations s current_epoch =
    let rotated = rotated_keys current_epoch s.validators in
    (
      record s {
        validators = map (rotate_one current_epoch) s.validators;
        delegations = rekey_delegations rotated s.delegations;
        undelegations = rekey_undelegations rotated s.undelegations;
      },
      rotated,
    )
