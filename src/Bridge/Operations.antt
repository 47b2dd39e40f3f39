-- ===== src/Bridge/Operations.antt =====
-- The methods of the bridge contract that change its state
-- (crates/solen-system-contracts/src/bridge.rs).
use Prim.Native.String.{String}
use solen.Base.{
  ℕ, ◌-◌, Bool, Option, none, some, Result, ok, err, ltb, if◌then◌else◌, find, any, push,
  update_first, retain, sum_u128, add_u64, add_u128, saturating_add_u128,
}
use solen.Bridge.State.{
  BridgeContract, BridgeVault, PendingWithdrawal, BridgeError, vault_not_found,
  insufficient_vault_balance, withdrawal_not_found, withdrawal_not_ready, withdrawal_disputed,
  vault_already_exists, rollup_already_registered, pending, disputed, finalized, is_pending,
  is_disputed, by_rollup, registered, by_withdrawal, pending_of_rollup, default_challenge_window,
  default_withdrawal_delay, dispute_bond_amount,
}

abbrev pub empty_vault : ℕ → BridgeVault
empty_vault r = record {
  rollup_id = r;
  balance = 0;
  total_deposited = 0;
  total_withdrawn = 0;
  challenge_window = default_challenge_window;
  withdrawal_delay = default_withdrawal_delay;
}

unfoldable pub register_rollup :
    BridgeContract
    → ℕ
    → String
    → String
    → ℕ
    → ℕ
    → ℕ
    → BridgeContract × Result (Unit {0}) BridgeError
register_rollup s r name proof_type sequencer root height =
    if any (registered r) s.registered_rollups then (s, err (rollup_already_registered r)) else (
      record s {
        registered_rollups = push s.registered_rollups (record {
          rollup_id = r;
          name = name;
          proof_type = proof_type;
          sequencer = sequencer;
          genesis_state_root = root;
          registered_at_height = height;
        });
        vaults = if any (by_rollup r) s.vaults then s.vaults else push s.vaults (empty_vault r);
      },
      ok tt,
    )

unfoldable pub register_vault : BridgeContract → ℕ → BridgeContract × Result (Unit {0}) BridgeError
register_vault s r =
    if any (by_rollup r) s.vaults
    then (s, err (vault_already_exists r))
    else (record s { vaults = push s.vaults (empty_vault r) }, ok tt)

abbrev pub credit : ℕ → BridgeVault → BridgeVault
credit amount v = record v {
  balance = add_u128 v.balance amount;
  total_deposited = add_u128 v.total_deposited amount;
}

unfoldable pub deposit : BridgeContract → ℕ → ℕ → BridgeContract × Result (Unit {0}) BridgeError
deposit s r amount = elim (find (by_rollup r) s.vaults) [
  | none ↦ (s, err (vault_not_found r))
  | some _ ↦ (record s { vaults = update_first (by_rollup r) (credit amount) s.vaults }, ok tt)
]

-- The balance that no pending withdrawal has claimed.
unfoldable pub available : BridgeContract → BridgeVault → ℕ → ℕ
available s v r =
    v.balance - sum_u128 (λ w. w.amount) (retain (pending_of_rollup r) s.pending_withdrawals)

unfoldable pub finalize_after : BridgeVault → ℕ → ℕ
finalize_after v current_block =
    add_u64 (add_u64 current_block v.challenge_window) v.withdrawal_delay

abbrev pub new_withdrawal : BridgeContract → BridgeVault → ℕ → ℕ → ℕ → ℕ → ℕ → PendingWithdrawal
new_withdrawal s v r recipient amount current_block proof_hash = record {
  id = s.next_withdrawal_id;
  rollup_id = r;
  recipient = recipient;
  amount = amount;
  initiated_block = current_block;
  finalize_after_block = finalize_after v current_block;
  proof_hash = proof_hash;
  status = pending;
  disputer = none;
  dispute_bond = 0;
}

unfoldable pub initiate_withdrawal :
    BridgeContract → ℕ → ℕ → ℕ → ℕ → ℕ → BridgeContract × Result ℕ BridgeError
initiate_withdrawal s r recipient amount current_block proof_hash =
    elim (find (by_rollup r) s.vaults) [
      | none ↦ (s, err (vault_not_found r))
      | some v ↦
          if ltb (available s v r) amount
          then (s, err (insufficient_vault_balance (available s v r) amount))
          else (
            record s {
              next_withdrawal_id = add_u64 s.next_withdrawal_id 1;
              pending_withdrawals =
                  push s.pending_withdrawals
                    (new_withdrawal s v r recipient amount current_block proof_hash);
            },
            ok s.next_withdrawal_id,
          )
    ]

abbrev pub set_disputed : ℕ → PendingWithdrawal → PendingWithdrawal
set_disputed who w = record w {
  status = disputed;
  disputer = some who;
  dispute_bond = dispute_bond_amount;
}

unfoldable pub dispute_withdrawal : BridgeContract → ℕ → ℕ → BridgeContract × Result ℕ BridgeError
dispute_withdrawal s i disputer = elim (find (by_withdrawal i) s.pending_withdrawals) [
  | none ↦ (s, err withdrawal_not_found)
  | some w ↦
      if is_pending w.status
      then (
        record s {
          pending_withdrawals =
              update_first (by_withdrawal i) (set_disputed disputer) s.pending_withdrawals;
        },
        ok dispute_bond_amount,
      )
      else (s, err withdrawal_not_found)
]

-- The disputer and the bond are taken out; an invalid dispute also puts the withdrawal back.
abbrev pub upheld : PendingWithdrawal → PendingWithdrawal
upheld w = record w { disputer = none; dispute_bond = 0 }

abbrev pub rejected : PendingWithdrawal → PendingWithdrawal
rejected w = record w { disputer = none; dispute_bond = 0; status = pending }

abbrev pub add_bond : ℕ → BridgeVault → BridgeVault
add_bond bond v = record v { balance = saturating_add_u128 v.balance bond }

unfoldable pub resolve_dispute :
    BridgeContract → ℕ → Bool → BridgeContract × Result (Option ℕ × ℕ) BridgeError
resolve_dispute s i valid_dispute = elim (find (by_withdrawal i) s.pending_withdrawals) [
  | none ↦ (s, err withdrawal_not_found)
  | some w ↦
      if is_disputed w.status
      then if valid_dispute
        then (
          record s {
            pending_withdrawals = update_first (by_withdrawal i) upheld s.pending_withdrawals;
          },
          ok (w.disputer, w.dispute_bond),
        )
        else (
          record s {
            pending_withdrawals = update_first (by_withdrawal i) rejected s.pending_withdrawals;
            vaults = update_first (by_rollup w.rollup_id) (add_bond w.dispute_bond) s.vaults;
          },
          ok (none, 0),
        )
      else (s, err withdrawal_not_found)
]

abbrev pub set_finalized : PendingWithdrawal → PendingWithdrawal
set_finalized w = record w { status = finalized }

abbrev pub debit : ℕ → BridgeVault → BridgeVault
debit amount v = record v {
  balance = v.balance - amount;
  total_withdrawn = add_u128 v.total_withdrawn amount;
}

-- A pending withdrawal past its delay. Where its vault is missing the status has changed already.
unfoldable pub pay_out :
    BridgeContract → ℕ → PendingWithdrawal → BridgeContract × Result (ℕ × ℕ) BridgeError
pay_out s i w =
    let marked = update_first (by_withdrawal i) set_finalized s.pending_withdrawals in
    elim (find (by_rollup w.rollup_id) s.vaults) [
      | none ↦ (record s { pending_withdrawals = marked }, err (vault_not_found w.rollup_id))
      | some _ ↦ (
        record s {
          pending_withdrawals = marked;
          vaults = update_first (by_rollup w.rollup_id) (debit w.amount) s.vaults;
        },
        ok (w.recipient, w.amount),
      )
    ]

unfoldable pub finalize_withdrawal :
    BridgeContract → ℕ → ℕ → BridgeContract × Result (ℕ × ℕ) BridgeError
finalize_withdrawal s i current_block = elim (find (by_withdrawal i) s.pending_withdrawals) [
  | none ↦ (s, err withdrawal_not_found)
  | some w ↦ elim w.status [
    | disputed ↦ (s, err withdrawal_disputed)
    | finalized ↦ (s, err withdrawal_not_found)
    | pending ↦
        if ltb current_block w.finalize_after_block
        then (s, err (withdrawal_not_ready (w.finalize_after_block - current_block)))
        else pay_out s i w
  ]
]
