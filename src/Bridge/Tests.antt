-- ===== src/Bridge/Tests.antt =====
-- Runs of the bridge, and the theorems at one vault.
use solen.Base.{
  ℕ, ◌+◌, ◌≤◌, ◌<◌, ◌≡◌, refl, false, none, some, [], ◌∷◌, arith, ok, err, IsOk, find, any, sum_by,
  update_first, retain, sum_u128,
}
use solen.Bridge.State.{
  BridgeContract, BridgeVault, PendingWithdrawal, new, pending, by_rollup, by_withdrawal,
  withdrawal_not_found,
}
use solen.Bridge.Operations.{
  empty_vault, debit, set_disputed, deposit, register_vault, initiate_withdrawal,
  dispute_withdrawal, resolve_dispute, finalize_withdrawal, available, pay_out,
}
use solen.Bridge.Solvency.{IsSolvent, committed}
use solen.Bridge.History.{Reach, here, next, opens, deposits, Reach-IsSolvent}
use solen.Bridge.Once.{none_yet, then_call, disputes}
use solen.Bridge.Payouts.{finalize_withdrawal-IsOk, resolve_dispute-insolvent}

abbrev withdrawal : ℕ → ℕ → PendingWithdrawal
withdrawal i amount = record {
  id = i;
  rollup_id = 4;
  recipient = 8;
  amount = amount;
  initiated_block = 10;
  finalize_after_block = 160;
  proof_hash = 0;
  status = pending;
  disputer = none;
  dispute_bond = 0;
}

abbrev vault : BridgeVault
vault = record (empty_vault 4) { balance = 100; total_deposited = 100 }

-- A vault with a hundred in it, of which sixty are promised.
abbrev promised : BridgeContract
promised = record new {
  vaults = vault ∷ [];
  pending_withdrawals = withdrawal 0 60 ∷ [];
  next_withdrawal_id = 1;
}

promised-IsSolvent : IsSolvent promised
unfolding find sum_by
promised-IsSolvent r = ground arith

new-IsSolvent : IsSolvent new
unfolding find sum_by
new-IsSolvent r = refl

paid : IsOk (finalize_withdrawal promised 0 160).1
unfolding finalize_withdrawal pay_out find
paid = tt

first_calls : Reach new (deposit (register_vault new 4).0 4 100).0
unfolding register_vault find any
first_calls = next (next here (opens 4)) (deposits 4 100 (omega arith))

Reach-IsSolvent_example : IsSolvent (deposit (register_vault new 4).0 4 100).0
Reach-IsSolvent_example = Reach-IsSolvent new-IsSolvent first_calls

finalize_withdrawal-IsOk_example :
    (w : PendingWithdrawal) × (v : BridgeVault) × (find
        (by_withdrawal 0)
        promised.pending_withdrawals
      ≡ some w)
    × (find (by_rollup w.rollup_id) promised.vaults ≡ some v)
    × (w.status ≡ pending)
    × (w.finalize_after_block ≤ 160)
    × ((finalize_withdrawal promised 0 160).1 ≡ ok (w.recipient, w.amount))
    × (find (by_rollup w.rollup_id) (finalize_withdrawal promised 0 160).0.vaults
        ≡ some (debit w.amount v))
    × ((debit w.amount v).balance + w.amount ≡ v.balance)
    × ((finalize_withdrawal
          (dispute_withdrawal (finalize_withdrawal promised 0 160).0 0 5).0
          0
          170).1
        ≡ err withdrawal_not_found)
finalize_withdrawal-IsOk_example =
    finalize_withdrawal-IsOk promised
      (dispute_withdrawal (finalize_withdrawal promised 0 160).0 0 5).0 0 160 170 promised-IsSolvent
      paid (then_call none_yet (disputes 0 5))

-- A vault with a trillion units; the withdrawal of six tenths of them is disputed, and nine tenths
-- are promised to another one meanwhile.
abbrev rich_vault : BridgeVault
rich_vault = record vault { balance = 1_000_000_000_000; total_deposited = 1_000_000_000_000 }

abbrev rich : BridgeContract
rich = record promised {
  vaults = rich_vault ∷ [];
  pending_withdrawals = withdrawal 0 600_000_000_000 ∷ [];
}

abbrev contested : PendingWithdrawal
contested = set_disputed 5 (withdrawal 0 600_000_000_000)

abbrev overbooked : BridgeContract
overbooked = (initiate_withdrawal (dispute_withdrawal rich 0 5).0 4 8 900_000_000_000 10 0).0

second_accepted :
    (initiate_withdrawal (dispute_withdrawal rich 0 5).0 4 8 900_000_000_000 10 0).1 ≡ ok 1
unfolding initiate_withdrawal dispute_withdrawal available find sum_u128 sum_by retain update_first
second_accepted = refl

resolve_dispute-insolvent_example :
    let after = (resolve_dispute overbooked 0 false).0 in
    (u : BridgeVault) × (find (by_rollup 4) after.vaults ≡ some u)
    × (u.balance ≡ 1_000_000_000_000 + 10_000_000_000)
    × (u.balance < committed 4 after.pending_withdrawals)
unfolding initiate_withdrawal dispute_withdrawal available find sum_u128 sum_by retain update_first
resolve_dispute-insolvent_example =
    resolve_dispute-insolvent overbooked 0 {w = contested} {v = rich_vault} refl refl refl
      (omega arith) (omega arith)
