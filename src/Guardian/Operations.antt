-- ===== src/Guardian/Operations.antt =====
-- The methods of the guardian recovery contract (crates/solen-system-contracts/src/guardian.rs).
use solen.Base.{
  ℕ, ◌+◌, ◌-◌, ◌/◌, Bool, true, false, not, none, some, List, [], ◌∷◌, Result, ok, err, ◌==◌, ltb,
  if◌then◌else◌, find, any, push, update_first, contains, length, add_u64, saturating_add_u64,
}
use solen.Guardian.State.{
  GuardianContract, RecoveryRequest, RecoveryStatus, RecoveryError, AuthMethod, no_guardians,
  not_a_guardian, already_active, empty_auth_methods, not_found_or_not_pending, already_confirmed,
  not_the_owner, timelock_not_expired, insufficient_confirmations, pending, cancelled, executed,
  pending_request, pending_for, recovery_timelock_blocks, min_confirmations,
}

unfoldable pub is_empty {ℓ} : {A : Type ℓ} → List A → Bool
is_empty [] = true
is_empty (x ∷ xs) = false

-- A majority of the guardians, or all of them if there are fewer than two.
unfoldable pub threshold_for : ℕ → ℕ
threshold_for n = if ltb n min_confirmations then n else n / 2 + 1

abbrev pub new_request : GuardianContract → ℕ → ℕ → List AuthMethod → List ℕ → ℕ → RecoveryRequest
new_request s target_account initiator new_auth_methods guardian_ids current_height = record {
  id = s.next_id;
  target_account = target_account;
  new_auth_methods = new_auth_methods;
  initiated_at = current_height;
  execute_after = saturating_add_u64 current_height recovery_timelock_blocks;
  confirmations = initiator ∷ [];
  guardian_ids = guardian_ids;
  threshold = threshold_for (length guardian_ids);
  status = pending;
}

unfoldable pub initiate_recovery :
    GuardianContract
    → ℕ
    → ℕ
    → List AuthMethod
    → List ℕ
    → ℕ
    → GuardianContract × Result ℕ RecoveryError
initiate_recovery s target_account initiator new_auth_methods guardian_ids current_height =
    if is_empty guardian_ids
    then (s, err no_guardians)
    else if not (contains initiator guardian_ids)
    then (s, err not_a_guardian)
    else if any (pending_for target_account) s.recovery_requests
    then (s, err already_active)
    else if is_empty new_auth_methods
    then (s, err empty_auth_methods)
    else (
      record s {
        next_id = add_u64 s.next_id 1;
        recovery_requests =
            push s.recovery_requests
              (new_request s target_account initiator new_auth_methods guardian_ids current_height);
      },
      ok s.next_id,
    )

abbrev pub add_confirmation : ℕ → RecoveryRequest → RecoveryRequest
add_confirmation confirmer r = record r { confirmations = push r.confirmations confirmer }

abbrev pub set_status : RecoveryStatus → RecoveryRequest → RecoveryRequest
set_status status r = record r { status = status }

unfoldable pub confirm_recovery :
    GuardianContract → ℕ → ℕ → GuardianContract × Result (Unit {0}) RecoveryError
confirm_recovery s i confirmer = elim (find (pending_request i) s.recovery_requests) [
  | none ↦ (s, err not_found_or_not_pending)
  | some r ↦
      if not (contains confirmer r.guardian_ids)
      then (s, err not_a_guardian)
      else if contains confirmer r.confirmations
      then (s, err already_confirmed)
      else (
        record s {
          recovery_requests =
              update_first (pending_request i) (add_confirmation confirmer) s.recovery_requests;
        },
        ok tt,
      )
]

unfoldable pub cancel_recovery :
    GuardianContract → ℕ → ℕ → GuardianContract × Result (Unit {0}) RecoveryError
cancel_recovery s i sender = elim (find (pending_request i) s.recovery_requests) [
  | none ↦ (s, err not_found_or_not_pending)
  | some r ↦ if not (r.target_account == sender) then (s, err not_the_owner) else (
    record s {
      recovery_requests =
          update_first (pending_request i) (set_status cancelled) s.recovery_requests;
    },
    ok tt,
  )
]

unfoldable pub can_execute : GuardianContract → ℕ → ℕ → Result RecoveryRequest RecoveryError
can_execute s i current_height = elim (find (pending_request i) s.recovery_requests) [
  | none ↦ err not_found_or_not_pending
  | some r ↦
      if ltb current_height r.execute_after
      then err (timelock_not_expired (r.execute_after - current_height))
      else if ltb (length r.confirmations) r.threshold
      then err (insufficient_confirmations (length r.confirmations) r.threshold)
      else ok r
]

-- The caller replaces the account's authentication methods.
unfoldable pub mark_executed :
    GuardianContract → ℕ → GuardianContract × Result RecoveryRequest RecoveryError
mark_executed s i = elim (find (pending_request i) s.recovery_requests) [
  | none ↦ (s, err not_found_or_not_pending)
  | some r ↦ (
    record s {
      recovery_requests =
          update_first (pending_request i) (set_status executed) s.recovery_requests;
    },
    ok (set_status executed r),
  )
]
