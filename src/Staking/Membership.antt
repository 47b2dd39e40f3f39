-- ===== src/Staking/Membership.antt =====
-- Who is registered: identifiers are not used twice, and the network keeps its minimum of active
-- validators.
use solen.Base.{
  ℕ, ◌≤◌, ◌≡◌, ◌⊎◌, refl, false, none, some, List, [], ◌∷◌, arith, ◌==◌, ok, IsOk, find, any,
  update_first, push, any-find, find-push, count-update_first,
}
use solen.Staking.State.{
  StakingContract, StakingValidator, by_id, min_validator_count, active_validator_count,
}
use solen.Staking.Registry.{deregister_validator, deactivate}

-- Every validator's identifier stands once in the list.
abbrev pub IsDistinct : List StakingValidator → Type 0
IsDistinct [] = Unit
IsDistinct (v ∷ vs) = (find (by_id v.id) vs ≡ none) × IsDistinct vs

find-push_ne :
    (i : ℕ) (vs : List StakingValidator) (v : StakingValidator)
    → find (by_id i) vs ≡ none
    → (v.id == i) ≡ false
    → find (by_id i) (push vs v) ≡ none
find-push_ne i vs v e ne = ground (arith, find-push (by_id i) vs v)

pub push-IsDistinct :
    (vs : List StakingValidator) (v : StakingValidator)
    → IsDistinct vs
    → find (by_id v.id) vs ≡ none
    → IsDistinct (push vs v)
unfolding find
push-IsDistinct [] v h e = (refl, tt)
push-IsDistinct (x ∷ vs) v h e = ground (arith, push-IsDistinct vs v, find-push_ne x.id vs v h.0)

find-update_first_id :
    (f : StakingValidator → StakingValidator) (i j : ℕ) (vs : List StakingValidator)
    → ((v : StakingValidator) → (f v).id ≡ v.id)
    → find (by_id i) vs ≡ none
    → find (by_id i) (update_first (by_id j) f vs) ≡ none
unfolding find update_first
find-update_first_id f i j [] same e = refl
find-update_first_id f i j (v ∷ vs) same e =
    ground (arith, same v, find-update_first_id f i j vs same)

pub update_first-IsDistinct :
    (f : StakingValidator → StakingValidator) (j : ℕ) (vs : List StakingValidator)
    → ((v : StakingValidator) → (f v).id ≡ v.id)
    → IsDistinct vs
    → IsDistinct (update_first (by_id j) f vs)
unfolding update_first
update_first-IsDistinct f j [] same h = tt
update_first-IsDistinct f j (v ∷ vs) same h =
    ground
      (arith, same v, update_first-IsDistinct f j vs same, find-update_first_id f v.id j vs same)

pub any-none :
    (i : ℕ) (vs : List StakingValidator) → any (by_id i) vs ≡ false → find (by_id i) vs ≡ none
any-none i vs e = ground (arith, any-find (by_id i) vs)

-- A deregistration that succeeds leaves at least twenty active validators, it never takes effect
-- before a genesis validator's lock is over, and it returns the validator's own stake.
pub deregister_validator-IsOk :
    (s : StakingContract) (id epoch : ℕ) {v : StakingValidator}
    → find (by_id id) s.validators ≡ some v
    → IsOk (deregister_validator s id epoch).1
    → (min_validator_count ≤ active_validator_count (deregister_validator s id epoch).0)
      × ((v.is_genesis ≡ false) ⊎ (v.genesis_lock_until ≤ epoch))
      × ((deregister_validator s id epoch).1 ≡ ok v.self_stake)
unfolding deregister_validator
deregister_validator-IsOk s id epoch {v} found done =
    ground (arith, count-update_first (by_id id) (λ v. v.is_active) deactivate s.validators found)
