-- ===== src/Bridge/Payouts.antt =====
-- When a withdrawal is paid, how often, and from what.
use solen.Base.{
  ℕ, ◌+◌, ◌-◌, ◌≤◌, ◌<◌, ◌≡◌, refl, ap, subst, ◌∙◌, false, none, some, arith, Result, ok, err, IsOk,
  find, update_first, find-push, find-test, le-sum_by, find-update_first, u64_mod, u128_mod,
  add_u64-eq, saturating_add_u128-eq,
}
use solen.Bridge.State.{
  BridgeContract, BridgeError, BridgeVault, PendingWithdrawal, pending, disputed, finalized,
  withdrawal_not_found, withdrawal_not_ready, by_rollup, by_withdrawal,
}
use solen.Bridge.Operations.{
  initiate_withdrawal, finalize_withdrawal, pay_out, resolve_dispute, new_withdrawal, set_finalized,
  finalize_after, rejected, debit, add_bond,
}
use solen.Bridge.Once.{Calls, Calls-IsPaid}
use solen.Bridge.Solvency.{
  IsSolvent, IsCovered, claim, committed, committed-update_first, find-vault,
}

-- What a payment tells of the state before it.
finalize_withdrawal-inv :
    (s : BridgeContract) (i block : ℕ)
    → IsOk (finalize_withdrawal s i block).1
    → (w : PendingWithdrawal) × (v : BridgeVault) × (find (by_withdrawal i) s.pending_withdrawals
        ≡ some w)
      × (find (by_rollup w.rollup_id) s.vaults ≡ some v)
      × (w.status ≡ pending)
      × (w.finalize_after_block ≤ block)
unfolding finalize_withdrawal pay_out
finalize_withdrawal-inv s i block done = ground arith

finalize_withdrawal-paid :
    (s : BridgeContract) (i block : ℕ) {w : PendingWithdrawal} {v : BridgeVault}
    → find (by_withdrawal i) s.pending_withdrawals ≡ some w
    → find (by_rollup w.rollup_id) s.vaults ≡ some v
    → w.status ≡ pending
    → w.finalize_after_block ≤ block
    → finalize_withdrawal s i block ≡ (
      record s {
        pending_withdrawals = update_first (by_withdrawal i) set_finalized s.pending_withdrawals;
        vaults = update_first (by_rollup w.rollup_id) (debit w.amount) s.vaults;
      },
      ok (w.recipient, w.amount),
    )
unfolding finalize_withdrawal pay_out
finalize_withdrawal-paid s i block found vault live late = ground arith

finalize_withdrawal-settled :
    (s : BridgeContract) (i block : ℕ) {w : PendingWithdrawal}
    → find (by_withdrawal i) s.pending_withdrawals ≡ some w
    → w.status ≡ finalized
    → (finalize_withdrawal s i block).1 ≡ err withdrawal_not_found
unfolding finalize_withdrawal
finalize_withdrawal-settled s i block found settled = ground arith

-- A withdrawal that is paid was pending and past its delay, its recipient gets its amount, and in a
-- solvent bridge the vault's balance falls by exactly that amount. It is paid once:
-- whatever methods are called with whatever arguments afterwards, finalizing it again finds no
-- withdrawal to pay.
pub finalize_withdrawal-IsOk :
    (s t : BridgeContract) (i block again : ℕ)
    → IsSolvent s
    → IsOk (finalize_withdrawal s i block).1
    → Calls (finalize_withdrawal s i block).0 t
    → (w : PendingWithdrawal) × (v : BridgeVault) × (find (by_withdrawal i) s.pending_withdrawals
        ≡ some w)
      × (find (by_rollup w.rollup_id) s.vaults ≡ some v)
      × (w.status ≡ pending)
      × (w.finalize_after_block ≤ block)
      × ((finalize_withdrawal s i block).1 ≡ ok (w.recipient, w.amount))
      × (find (by_rollup w.rollup_id) (finalize_withdrawal s i block).0.vaults
          ≡ some (debit w.amount v))
      × ((debit w.amount v).balance + w.amount ≡ v.balance)
      × ((finalize_withdrawal t i again).1 ≡ err withdrawal_not_found)
finalize_withdrawal-IsOk s t i block again solvent done calls =
    let (w, v, found, vault, live, late) = finalize_withdrawal-inv s i block done in
    let r = w.rollup_id in
    let paid = finalize_withdrawal-paid s i block found vault live late in
    let debited = find-vault (debit w.amount) r r s.vaults vault refl in
    let marked =
      find-update_first (by_withdrawal i) set_finalized s.pending_withdrawals found
        (find-test (by_withdrawal i) s.pending_withdrawals found) in
    let still = Calls-IsPaid i calls (
      set_finalized w,
      ap
            (λ (p : BridgeContract × Result (ℕ × ℕ) BridgeError).
              find (by_withdrawal i) p.0.pending_withdrawals)
            paid
          ∙ marked,
      refl,
    ) in
    let covered = subst (IsCovered (committed r s.pending_withdrawals)) vault (solvent r) in
    let claimed = le-sum_by (by_withdrawal i) (claim r) s.pending_withdrawals found in
    (
      w,
      v,
      found,
      vault,
      live,
      late,
      ap (λ (p : BridgeContract × Result (ℕ × ℕ) BridgeError). p.1) paid,
      ap (λ (p : BridgeContract × Result (ℕ × ℕ) BridgeError). find (by_rollup r) p.0.vaults) paid
          ∙ ground (arith, debited),
      ground (arith, covered, claimed, live),
      finalize_withdrawal-settled t i again still.1 still.2,
    )

-- A new withdrawal cannot be paid before the challenge window and the withdrawal delay are over,
-- counted from the block in which it was initiated. Its number must not be in use, and the block
-- numbers must stay within 64 bits.
pub finalize_withdrawal-early :
    (s : BridgeContract) (r recipient amount block proof later : ℕ) {v : BridgeVault}
    → find (by_rollup r) s.vaults ≡ some v
    → find (by_withdrawal s.next_withdrawal_id) s.pending_withdrawals ≡ none
    → IsOk (initiate_withdrawal s r recipient amount block proof).1
    → block + v.challenge_window + v.withdrawal_delay < u64_mod
    → later < block + v.challenge_window + v.withdrawal_delay
    → (finalize_withdrawal
        (initiate_withdrawal s r recipient amount block proof).0
        s.next_withdrawal_id
        later).1
      ≡ err (withdrawal_not_ready (block + v.challenge_window + v.withdrawal_delay - later))
unfolding initiate_withdrawal finalize_withdrawal finalize_after
finalize_withdrawal-early s r recipient amount block proof later {v} vault unused done fits early =
    ground (
      arith,
      find-push (by_withdrawal s.next_withdrawal_id) s.pending_withdrawals
          (new_withdrawal s v r recipient amount block proof),
      add_u64-eq block v.challenge_window,
      add_u64-eq (block + v.challenge_window) v.withdrawal_delay,
    )

-- Rejecting a dispute puts the withdrawal back among the pending ones without a look at the vault.
-- If meanwhile the balance, with the slashed bond, has been promised to others, then more is pending
-- against the vault afterwards than it holds.
pub resolve_dispute-insolvent :
    (s : BridgeContract) (i : ℕ) {w : PendingWithdrawal} {v : BridgeVault}
    → find (by_withdrawal i) s.pending_withdrawals ≡ some w
    → find (by_rollup w.rollup_id) s.vaults ≡ some v
    → w.status ≡ disputed
    → v.balance + w.dispute_bond < u128_mod
    → v.balance + w.dispute_bond < committed w.rollup_id s.pending_withdrawals + w.amount
    → let after = (resolve_dispute s i false).0 in
      (u : BridgeVault) × (find (by_rollup w.rollup_id) after.vaults ≡ some u)
      × (u.balance ≡ v.balance + w.dispute_bond)
      × (u.balance < committed w.rollup_id after.pending_withdrawals)
unfolding resolve_dispute
resolve_dispute-insolvent s i {w} {v} found vault live fits short =
    let bonded = saturating_add_u128-eq v.balance w.dispute_bond fits in
    let r = w.rollup_id in
    let booked = find-vault (add_bond w.dispute_bond) r r s.vaults vault refl in
    (
      add_bond w.dispute_bond v,
      ground (arith, found, live, booked),
      bonded,
      ground (
        arith,
        found,
        live,
        bonded,
        short,
        committed-update_first rejected i r s.pending_withdrawals found,
      ),
    )
