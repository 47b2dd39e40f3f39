-- ===== src/Bridge/State.antt =====
-- The types of crates/solen-system-contracts/src/bridge.rs. Accounts and hashes are numbers: the
-- contract only compares and copies them.
use Prim.Native.String.{String}
use solen.Base.{ℕ, ◌*◌, Bool, true, false, ◌&&◌, List, [], Option, ◌==◌, find, retain}

abbrev pub default_challenge_window : ℕ
default_challenge_window = 100

abbrev pub default_withdrawal_delay : ℕ
default_withdrawal_delay = 50

abbrev pub dispute_bond_amount : ℕ
dispute_bond_amount = 100 * 100_000_000

pub data BridgeError : Type 0 where
  vault_not_found : ℕ → BridgeError
  insufficient_vault_balance : ℕ → ℕ → BridgeError
  withdrawal_not_found : BridgeError
  withdrawal_not_ready : ℕ → BridgeError
  withdrawal_disputed : BridgeError
  vault_already_exists : ℕ → BridgeError
  rollup_already_registered : ℕ → BridgeError

pub data WithdrawalStatus : Type 0 where
  pending disputed finalized : WithdrawalStatus

abbrev pub is_pending : WithdrawalStatus → Bool
is_pending pending = true
is_pending disputed = false
is_pending finalized = false

abbrev pub is_disputed : WithdrawalStatus → Bool
is_disputed pending = false
is_disputed disputed = true
is_disputed finalized = false

pub record PendingWithdrawal : Type 0 where
  pub id : ℕ
  pub rollup_id : ℕ
  pub recipient : ℕ
  pub amount : ℕ
  pub initiated_block : ℕ
  pub finalize_after_block : ℕ
  pub proof_hash : ℕ
  pub status : WithdrawalStatus
  pub disputer : Option ℕ
  pub dispute_bond : ℕ

pub record BridgeVault : Type 0 where
  pub rollup_id : ℕ
  pub balance : ℕ
  pub total_deposited : ℕ
  pub total_withdrawn : ℕ
  pub challenge_window : ℕ
  pub withdrawal_delay : ℕ

pub record RegisteredRollup : Type 0 where
  pub rollup_id : ℕ
  pub name : String
  pub proof_type : String
  pub sequencer : ℕ
  pub genesis_state_root : ℕ
  pub registered_at_height : ℕ

pub record BridgeContract : Type 0 where
  pub vaults : List BridgeVault
  pub pending_withdrawals : List PendingWithdrawal
  pub registered_rollups : List RegisteredRollup
  pub next_withdrawal_id : ℕ

-- `BridgeContract::new`
abbrev pub new : BridgeContract
new = record {
  vaults = [];
  pending_withdrawals = [];
  registered_rollups = [];
  next_withdrawal_id = 0;
}

abbrev pub by_rollup : ℕ → BridgeVault → Bool
by_rollup r v = v.rollup_id == r

abbrev pub registered : ℕ → RegisteredRollup → Bool
registered r x = x.rollup_id == r

abbrev pub by_withdrawal : ℕ → PendingWithdrawal → Bool
by_withdrawal i w = w.id == i

abbrev pub pending_of_rollup : ℕ → PendingWithdrawal → Bool
pending_of_rollup r w = (w.rollup_id == r) && is_pending w.status

unfoldable pub get_rollup : BridgeContract → ℕ → Option RegisteredRollup
get_rollup s r = find (registered r) s.registered_rollups

unfoldable pub get_vault : BridgeContract → ℕ → Option BridgeVault
get_vault s r = find (by_rollup r) s.vaults

unfoldable pub pending_for_recipient : BridgeContract → ℕ → List PendingWithdrawal
pending_for_recipient s recipient =
    retain (λ w. (w.recipient == recipient) && is_pending w.status) s.pending_withdrawals
