-- ===== src/Guardian/Requests.antt =====
-- One recovery request: who confirmed it, how many have to, and how long it waits.
use solen.Base.{
  HasDistinct, push-HasDistinct, ℕ, ◌+◌, ◌<◌, ◌≡◌, refl, true, false, List, [], ◌∷◌, arith, All,
  All-push, contains, length, saturating_add_u64-eq, u64_mod,
}
use solen.Guardian.State.{
  GuardianContract, RecoveryRequest, RecoveryStatus, AuthMethod, recovery_timelock_blocks,
}
use solen.Guardian.Operations.{new_request, add_confirmation, set_status, is_empty, threshold_for}

-- A request: who confirmed it, how many have to, and how long it waits.
pub record IsGuarded (r : RecoveryRequest) : Type 0 where
  pub distinct : HasDistinct r.confirmations
  pub confirmed : All (λ c. contains c r.guardian_ids ≡ true) r.confirmations
  pub majority : r.threshold ≡ threshold_for (length r.guardian_ids)
  pub someone : 0 < length r.guardian_ids
  pub waits : r.execute_after ≡ r.initiated_at + recovery_timelock_blocks

pub new_request-IsGuarded :
    (s : GuardianContract) (target initiator : ℕ) (methods : List AuthMethod) (guardians : List ℕ)
    (height : ℕ)
    → height + recovery_timelock_blocks < u64_mod
    → is_empty guardians ≡ false
    → contains initiator guardians ≡ true
    → IsGuarded (new_request s target initiator methods guardians height)
unfolding is_empty contains
new_request-IsGuarded s target initiator methods [] height fits some_guardian member = absurd (cc)
new_request-IsGuarded s target initiator methods (g ∷ gs) height fits some_guardian member =
    record {
      distinct = (refl, tt);
      confirmed = (member, tt);
      majority = refl;
      someone = omega arith;
      waits = saturating_add_u64-eq height recovery_timelock_blocks fits;
    }

pub set_status-IsGuarded :
    (st : RecoveryStatus) (r : RecoveryRequest) → IsGuarded r → IsGuarded (set_status st r)
set_status-IsGuarded st r h = record {
  distinct = h.distinct;
  confirmed = h.confirmed;
  majority = h.majority;
  someone = h.someone;
  waits = h.waits;
}

pub add_confirmation-IsGuarded :
    (c : ℕ) (r : RecoveryRequest)
    → IsGuarded r
    → contains c r.guardian_ids ≡ true
    → contains c r.confirmations ≡ false
    → IsGuarded (add_confirmation c r)
add_confirmation-IsGuarded c r h member new = record {
  distinct = push-HasDistinct r.confirmations c h.distinct new;
  confirmed = All-push (λ x. contains x r.guardian_ids ≡ true) r.confirmations c h.confirmed member;
  majority = h.majority;
  someone = h.someone;
  waits = h.waits;
}
