-- ===== src/Guardian/State.antt =====
-- The types of crates/solen-system-contracts/src/guardian.rs, and the authentication methods of
-- crates/solen-types/src/account.rs that a recovery carries. Keys and accounts are numbers.
use Prim.Native.String.{String}
use solen.Base.{ℕ, Bool, true, false, ◌&&◌, List, [], Option, ◌==◌, find}

abbrev pub recovery_timelock_blocks : ℕ
recovery_timelock_blocks = 151_200

abbrev pub min_confirmations : ℕ
min_confirmations = 2

pub data AuthMethod : Type 0 where
  passkey : List ℕ → ℕ → ℕ → String → List String → AuthMethod
  ed25519 : ℕ → AuthMethod
  threshold_keys : List ℕ → ℕ → AuthMethod
  guardian : ℕ → AuthMethod
  session : ℕ → ℕ → ℕ → ℕ → List ℕ → List String → Bool → AuthMethod
  ml_dsa : List ℕ → AuthMethod
  hybrid : ℕ → List ℕ → AuthMethod

-- The messages of the errors.
pub data RecoveryError : Type 0 where
  no_guardians not_a_guardian already_active empty_auth_methods : RecoveryError
  not_found_or_not_pending already_confirmed not_the_owner : RecoveryError
  timelock_not_expired : ℕ → RecoveryError
  insufficient_confirmations : ℕ → ℕ → RecoveryError

pub data RecoveryStatus : Type 0 where
  pending cancelled executed : RecoveryStatus

abbrev pub is_pending : RecoveryStatus → Bool
is_pending pending = true
is_pending cancelled = false
is_pending executed = false

pub record RecoveryRequest : Type 0 where
  pub id : ℕ
  pub target_account : ℕ
  pub new_auth_methods : List AuthMethod
  pub initiated_at : ℕ
  pub execute_after : ℕ
  pub confirmations : List ℕ
  pub guardian_ids : List ℕ
  pub threshold : ℕ
  pub status : RecoveryStatus

pub record GuardianContract : Type 0 where
  pub recovery_requests : List RecoveryRequest
  pub next_id : ℕ

-- `GuardianContract::new`
abbrev pub new : GuardianContract
new = record { recovery_requests = []; next_id = 0 }

abbrev pub has_id : ℕ → RecoveryRequest → Bool
has_id i r = r.id == i

abbrev pub pending_request : ℕ → RecoveryRequest → Bool
pending_request i r = (r.id == i) && is_pending r.status

abbrev pub pending_for : ℕ → RecoveryRequest → Bool
pending_for account r = (r.target_account == account) && is_pending r.status

unfoldable pub active_recovery : GuardianContract → ℕ → Option RecoveryRequest
active_recovery s account = find (pending_for account) s.recovery_requests
