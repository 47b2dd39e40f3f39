-- ===== src/Staking/Steps.antt =====
-- Every history of calls, apart from the epoch's key rotations, keeps the contract well formed.
use mathlib.Core.Option.{get_or}
use solen.Base.{
  ℕ, ◌+◌, ◌<◌, ◌≡◌, refl, ◌∙◌, ltb, leb, ◌&&◌, u64_max, add_u64, Bool, some, inl, inr, arith,
  Bool-cases, Option-cases, find, any, update_first, push, find-push, u128_mod, is_some,
}
use solen.Staking.State.{
  StakingContract, StakingValidator, by_id, total_stake, active_validator_count,
  min_validator_count, min_validator_stake_default, genesis_lock_epochs,
}
use solen.Staking.Registry.{
  register_validator_with_min_stake, register_validator_at_epoch_with_config,
  register_genesis_validator, deregister_validator, set_commission, unjail, fresh_validator,
  deactivate, reactivate,
}
use solen.Staking.Delegations.{
  delegate_at_epoch, undelegate, withdraw_undelegated, distribute_rewards, add_delegated,
  sub_delegated, accrue,
}
use solen.Staking.Rotation.{rotate_key, request_rotation}
use solen.Staking.Accounting.{
  IsAccounted, booked, booked-update_same, delegate_at_epoch-IsAccounted, undelegate-IsAccounted,
}
use solen.Staking.Membership.{IsDistinct, push-IsDistinct, update_first-IsDistinct, any-none}

-- One call of a method. A delegation is within the token supply, so that no total passes 128 bits.
pub data Step (s : StakingContract) : StakingContract → Type 0 where
  register : (id stake min : ℕ) → Step s (register_validator_with_min_stake s id stake min).0
  register_at :
      (id stake epoch min : ℕ)
      → Step s (register_validator_at_epoch_with_config s id stake epoch min).0
  register_genesis : (id stake : ℕ) → Step s (register_genesis_validator s id stake).0
  deregister : (id epoch : ℕ) → Step s (deregister_validator s id epoch).0
  commission : (id bps : ℕ) → Step s (set_commission s id bps).0
  release : (id : ℕ) → Step s (unjail s id).0
  delegation :
      (who validator amount epoch : ℕ)
      → booked validator s.validators + amount < u128_mod
      → Step s (delegate_at_epoch s who validator amount epoch).0
  undelegation :
      (who validator amount epoch : ℕ) → Step s (undelegate s who validator amount epoch).0
  withdrawal : (who epoch : ℕ) → Step s (withdraw_undelegated s who epoch).0
  reward : (validator amount : ℕ) → Step s (distribute_rewards s validator amount).0
  rotation : (id key epoch : ℕ) → Step s (rotate_key s id key epoch).0

pub data Reach (s : StakingContract) : StakingContract → Type 0 where
  here : Reach s s
  next : {t u : StakingContract} → Reach s t → Step t u → Reach s u

pub record IsValid (s : StakingContract) : Type 0 where
  pub distinct : IsDistinct s.validators
  pub accounted : IsAccounted s

-- A fresh validator starts with no delegations, and there are none to its identifier yet.
push-IsValid :
    (s : StakingContract) (v : StakingValidator)
    → IsValid s
    → any (by_id v.id) s.validators ≡ Bool.false
    → v.total_delegated ≡ 0
    → IsValid (record s { validators = push s.validators v })
push-IsValid s v h unused zero_total = record {
  distinct = push-IsDistinct s.validators v h.distinct (any-none v.id s.validators unused);
  accounted = λ i. elim (Option-cases (find (by_id i) s.validators)) [
    | inl absent ↦ ground (arith, find-push (by_id i) s.validators v, h.accounted i)
    | inr (x, found) ↦ ground (arith, find-push (by_id i) s.validators v, h.accounted i)
  ];
}

-- A write that keeps the identifier and the total keeps the contract well formed.
update-IsValid :
    (f : StakingValidator → StakingValidator) (s : StakingContract) (j : ℕ)
    → ((v : StakingValidator) → ((f v).id ≡ v.id) × ((f v).total_delegated ≡ v.total_delegated))
    → IsValid s
    → {v : StakingValidator} → find (by_id j) s.validators ≡ some v
    → IsValid (record s { validators = update_first (by_id j) f s.validators })
update-IsValid f s j same h {v} found = record {
  distinct = update_first-IsDistinct f j s.validators (λ v. (same v).0) h.distinct;
  accounted =
      λ i. booked-update_same f i j s.validators found (same v).0 (same v).1 ∙ h.accounted i;
}

module _ (s : StakingContract) (h : IsValid s) where
  register-IsValid :
      (id stake min : ℕ) → IsValid (register_validator_with_min_stake s id stake min).0
  unfolding register_validator_with_min_stake
  register-IsValid id stake min = elim (Bool-cases (ltb stake min)) [
    | inl short ↦ rw (short, register_validator_with_min_stake) h
    | inr enough ↦ elim (Bool-cases (any (by_id id) s.validators)) [
      | inl used ↦ rw (enough, used, register_validator_with_min_stake) h
      | inr unused ↦
          rw (enough, unused, register_validator_with_min_stake)
            (push-IsValid s (fresh_validator id stake Bool.false 0 u64_max) h unused refl)
    ]
  ]

  register_at-IsValid :
      (id stake epoch min : ℕ)
      → IsValid (register_validator_at_epoch_with_config s id stake epoch min).0
  unfolding register_validator_at_epoch_with_config
  register_at-IsValid id stake epoch min = elim (Bool-cases (ltb stake min)) [
    | inl short ↦ rw (short, register_validator_at_epoch_with_config) h
    | inr enough ↦ elim (Bool-cases (any (by_id id) s.validators)) [
      | inl used ↦ rw (enough, used, register_validator_at_epoch_with_config) h
      | inr unused ↦
          rw (enough, unused, register_validator_at_epoch_with_config)
            (push-IsValid s (fresh_validator id stake Bool.false 0 (add_u64 epoch 1)) h unused refl)
    ]
  ]

  register_genesis-IsValid : (id stake : ℕ) → IsValid (register_genesis_validator s id stake).0
  unfolding register_genesis_validator
  register_genesis-IsValid id stake = elim (Bool-cases (any (by_id id) s.validators)) [
    | inl used ↦ rw (used, register_genesis_validator) h
    | inr unused ↦
        rw (unused, register_genesis_validator)
          (push-IsValid s (fresh_validator id stake Bool.true genesis_lock_epochs 0) h unused refl)
  ]

  deregister-IsValid : (id epoch : ℕ) → IsValid (deregister_validator s id epoch).0
  unfolding deregister_validator
  deregister-IsValid id epoch = elim (Option-cases (find (by_id id) s.validators)) [
    | inl absent ↦ rw (absent, deregister_validator) h
    | inr (v, found) ↦ elim (Bool-cases (v.is_genesis && ltb epoch v.genesis_lock_until)) [
      | inl locked ↦ rw (found, deregister_validator) (rw locked h)
      | inr free ↦ elim (Bool-cases (leb (active_validator_count s) min_validator_count)) [
        | inl few ↦ rw (found, deregister_validator) (rw (free, few) h)
        | inr many ↦
            rw (found, deregister_validator)
              (rw (free, many) (update-IsValid deactivate s id (λ v. (refl, refl)) h found))
      ]
    ]
  ]

  commission-IsValid : (id bps : ℕ) → IsValid (set_commission s id bps).0
  unfolding set_commission
  commission-IsValid id bps = elim (Option-cases (find (by_id id) s.validators)) [
    | inl absent ↦ rw (absent, set_commission) h
    | inr (v, found) ↦
        rw (found, set_commission) (update-IsValid _ s id (λ v. (refl, refl)) h found)
  ]

  unjail-IsValid : (id : ℕ) → IsValid (unjail s id).0
  unfolding unjail
  unjail-IsValid id = elim (Option-cases (find (by_id id) s.validators)) [
    | inl absent ↦ rw (absent, unjail) h
    | inr (v, found) ↦ elim (Bool-cases v.is_active) [
      | inl active ↦ rw (found, unjail) (rw active h)
      | inr jailed ↦
          elim (Bool-cases
            (ltb v.self_stake (get_or s.min_validator_stake min_validator_stake_default))) [
              | inl short ↦ rw (found, unjail) (rw (jailed, short) h)
              | inr enough ↦
                  rw (found, unjail)
                    (rw (jailed, enough)
                      (update-IsValid reactivate s id (λ v. (refl, refl)) h found))
            ]
    ]
  ]

  rewards-IsValid : (validator amount : ℕ) → IsValid (distribute_rewards s validator amount).0
  unfolding distribute_rewards
  rewards-IsValid validator amount = elim (Option-cases (find (by_id validator) s.validators)) [
    | inl absent ↦ rw (absent, distribute_rewards) h
    | inr (v, found) ↦ elim (Bool-cases (ltb 0 (total_stake v))) [
      | inl staked ↦
          rw (found, distribute_rewards)
            (rw staked (update-IsValid (accrue amount) s validator (λ v. (refl, refl)) h found))
      | inr empty ↦ rw (found, distribute_rewards) (rw empty h)
    ]
  ]

  rotation-IsValid : (id key epoch : ℕ) → IsValid (rotate_key s id key epoch).0
  unfolding rotate_key
  rotation-IsValid id key epoch = elim (Bool-cases (any (by_id key) s.validators)) [
    | inl used ↦ rw (used, rotate_key) h
    | inr unused ↦ elim (Option-cases (find (by_id id) s.validators)) [
      | inl absent ↦ rw (unused, absent, rotate_key) h
      | inr (v, found) ↦ elim (Bool-cases (is_some v.pending_new_key)) [
        | inl pending ↦ rw (unused, found, rotate_key) (rw pending h)
        | inr idle ↦
            rw (unused, found, rotate_key)
              (rw idle
                (update-IsValid (request_rotation key epoch) s id (λ v. (refl, refl)) h found))
      ]
    ]
  ]

  delegation-IsValid :
      (who validator amount epoch : ℕ)
      → booked validator s.validators + amount < u128_mod
      → IsValid (delegate_at_epoch s who validator amount epoch).0
  unfolding delegate_at_epoch
  delegation-IsValid who validator amount epoch small = record {
    distinct = elim (Option-cases (find (by_id validator) s.validators)) [
      | inl absent ↦ rw (absent, delegate_at_epoch) h.distinct
      | inr (v, found) ↦
          rw (found, delegate_at_epoch)
            (update_first-IsDistinct (add_delegated amount) validator s.validators (λ v. refl)
              h.distinct)
    ];
    accounted = delegate_at_epoch-IsAccounted s who validator amount epoch h.accounted small;
  }

  undelegation-IsValid :
      (who validator amount epoch : ℕ) → IsValid (undelegate s who validator amount epoch).0
  unfolding undelegate
  undelegation-IsValid who validator amount epoch = record {
    distinct = ground (
      arith,
      h.distinct,
      update_first-IsDistinct (sub_delegated amount) validator s.validators (λ v. refl) h.distinct,
    );
    accounted = undelegate-IsAccounted s who validator amount epoch h.accounted;
  }

  withdrawal-IsValid : (who epoch : ℕ) → IsValid (withdraw_undelegated s who epoch).0
  unfolding withdraw_undelegated
  withdrawal-IsValid who epoch = record { distinct = h.distinct; accounted = h.accounted }

Step-IsValid : {s t : StakingContract} → Step s t → IsValid s → IsValid t
Step-IsValid {s} (register id stake min) h = register-IsValid s h id stake min
Step-IsValid {s} (register_at id stake epoch min) h = register_at-IsValid s h id stake epoch min
Step-IsValid {s} (register_genesis id stake) h = register_genesis-IsValid s h id stake
Step-IsValid {s} (deregister id epoch) h = deregister-IsValid s h id epoch
Step-IsValid {s} (commission id bps) h = commission-IsValid s h id bps
Step-IsValid {s} (release id) h = unjail-IsValid s h id
Step-IsValid {s} (delegation who validator amount epoch small) h =
    delegation-IsValid s h who validator amount epoch small
Step-IsValid {s} (undelegation who validator amount epoch) h =
    undelegation-IsValid s h who validator amount epoch
Step-IsValid {s} (withdrawal who epoch) h = withdrawal-IsValid s h who epoch
Step-IsValid {s} (reward validator amount) h = rewards-IsValid s h validator amount
Step-IsValid {s} (rotation id key epoch) h = rotation-IsValid s h id key epoch

-- From a well-formed contract, every history of calls other than the epoch's key rotations ends in
-- a well-formed one: no identifier is registered twice, and each validator's total on record is the
-- sum of the delegations to it. Where a call delegates, the total must stay within 128 bits.
pub Reach-IsValid : {s t : StakingContract} → IsValid s → Reach s t → IsValid t
Reach-IsValid h here = h
Reach-IsValid h (next r step) = Step-IsValid step (Reach-IsValid h r)
