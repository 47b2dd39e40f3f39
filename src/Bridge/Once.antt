-- ===== src/Bridge/Once.antt =====
-- A withdrawal that was paid stays paid, whatever is called (crates/solen-system-contracts/src/
-- bridge.rs).
use Prim.Native.String.{String}
use solen.Base.{
  ℕ, ◌≡◌, refl, ◌≢◌, Bool, some, List, inl, inr, arith, ◌==◌, ==_iff, Bool-cases, Option-cases, ltb,
  find, push, find-push, update_first, find-test, find-update_first_ne,
}
use solen.Bridge.State.{
  BridgeContract, PendingWithdrawal, WithdrawalStatus, pending, disputed, finalized, is_pending,
  is_disputed, by_rollup, by_withdrawal,
}
use solen.Bridge.Operations.{
  register_rollup, register_vault, deposit, initiate_withdrawal, dispute_withdrawal,
  resolve_dispute, finalize_withdrawal, pay_out, new_withdrawal, set_disputed, upheld, rejected,
  set_finalized, available,
}

-- One call of any method, with any arguments.
pub data Call (s : BridgeContract) : BridgeContract → Type 0 where
  registers :
      (r : ℕ) (name proof_type : String) (sequencer root height : ℕ)
      → Call s (register_rollup s r name proof_type sequencer root height).0
  opens : (r : ℕ) → Call s (register_vault s r).0
  deposits : (r amount : ℕ) → Call s (deposit s r amount).0
  initiates :
      (r recipient amount block proof : ℕ)
      → Call s (initiate_withdrawal s r recipient amount block proof).0
  disputes : (i who : ℕ) → Call s (dispute_withdrawal s i who).0
  resolves : (i : ℕ) (valid : Bool) → Call s (resolve_dispute s i valid).0
  finalizes : (i block : ℕ) → Call s (finalize_withdrawal s i block).0

pub data Calls (s : BridgeContract) : BridgeContract → Type 0 where
  none_yet : Calls s s
  then_call : {t u : BridgeContract} → Calls s t → Call t u → Calls s u

-- The withdrawal of a number is finalized.
abbrev pub IsPaid : ℕ → List PendingWithdrawal → Type 0
IsPaid i ws =
    (w : PendingWithdrawal) × (find (by_withdrawal i) ws ≡ some w) × (w.status ≡ finalized)

-- A write at a withdrawal that is not finalized does not reach it.
rewritten-IsPaid :
    (i j : ℕ) (f : PendingWithdrawal → PendingWithdrawal) (ws : List PendingWithdrawal)
    {u : PendingWithdrawal}
    → find (by_withdrawal j) ws ≡ some u
    → (f u).id ≡ u.id
    → u.status ≢ finalized
    → IsPaid i ws
    → IsPaid i (update_first (by_withdrawal j) f ws)
rewritten-IsPaid i j f ws {u} found same open_still (w, at, paid) = elim (Bool-cases (j == i)) [
  | inl eq ↦ absurd (open_still (ground (arith, (==_iff j i).0 eq, found, at, paid)))
  | inr ne ↦ (
    w,
    ground (
      arith,
      at,
      find-update_first_ne (by_withdrawal j) (by_withdrawal i) f ws found
          (ground (arith, find-test (by_withdrawal j) ws found))
          (ground (arith, same, find-test (by_withdrawal j) ws found)),
    ),
    paid,
  )
]

push-IsPaid :
    (i : ℕ) (ws : List PendingWithdrawal) (n : PendingWithdrawal)
    → IsPaid i ws
    → IsPaid i (push ws n)
push-IsPaid i ws n (w, at, paid) = (w, ground (arith, at, find-push (by_withdrawal i) ws n), paid)

module _ (s : BridgeContract) (i : ℕ) (h : IsPaid i s.pending_withdrawals) where
  dispute-IsPaid : (j who : ℕ) → IsPaid i (dispute_withdrawal s j who).0.pending_withdrawals
  unfolding dispute_withdrawal
  dispute-IsPaid j who = elim (Option-cases (find (by_withdrawal j) s.pending_withdrawals)) [
    | inl absent ↦ rw (absent, dispute_withdrawal) h
    | inr (u, found) ↦ elim (Bool-cases (is_pending u.status)) [
      | inl live ↦
          rw (found, dispute_withdrawal)
            (rw live (
              rewritten-IsPaid i j (set_disputed who) s.pending_withdrawals found refl
                (λ e. ground (arith, e, live)) h))
      | inr closed ↦ rw (found, dispute_withdrawal) (rw closed h)
    ]
  ]

  resolve-IsPaid :
      (j : ℕ) (valid : Bool) → IsPaid i (resolve_dispute s j valid).0.pending_withdrawals
  unfolding resolve_dispute
  resolve-IsPaid j valid = elim (Option-cases (find (by_withdrawal j) s.pending_withdrawals)) [
    | inl absent ↦ rw (absent, resolve_dispute) h
    | inr (u, found) ↦ elim (Bool-cases (is_disputed u.status)) [
      | inr closed ↦ rw (found, resolve_dispute) (rw closed h)
      | inl live ↦ elim (Bool-cases valid) [
        | inl upholds ↦
            rw (found, resolve_dispute)
              (rw (live, upholds)
                (rewritten-IsPaid i j upheld s.pending_withdrawals found refl
                  (λ e. ground (arith, e, live)) h))
        | inr rejects ↦
            rw (found, resolve_dispute)
              (rw (live, rejects)
                (rewritten-IsPaid i j rejected s.pending_withdrawals found refl
                  (λ e. ground (arith, e, live)) h))
      ]
    ]
  ]

  pay_out-withdrawals :
      (j : ℕ) (u : PendingWithdrawal)
      → (pay_out s j u).0.pending_withdrawals
        ≡ update_first (by_withdrawal j) set_finalized s.pending_withdrawals
  unfolding pay_out
  pay_out-withdrawals j u = ground arith

  finalize-IsPaid : (j block : ℕ) → IsPaid i (finalize_withdrawal s j block).0.pending_withdrawals
  unfolding finalize_withdrawal
  finalize-IsPaid j block = elim (Option-cases (find (by_withdrawal j) s.pending_withdrawals)) [
    | inl absent ↦ rw (absent, finalize_withdrawal) h
    | inr (u, found) ↦ by_status u found u.status refl
  ]
    where
      by_status :
          (u : PendingWithdrawal)
          → find (by_withdrawal j) s.pending_withdrawals ≡ some u
          → (st : WithdrawalStatus) → u.status ≡ st
          → IsPaid i (finalize_withdrawal s j block).0.pending_withdrawals
      by_status u found disputed e = rw (found, finalize_withdrawal) (rw e h)
      by_status u found finalized e = rw (found, finalize_withdrawal) (rw e h)
      by_status u found pending e = elim (Bool-cases (ltb block u.finalize_after_block)) [
        | inl early ↦ rw (found, finalize_withdrawal) (rw (e, early) h)
        | inr late ↦
            rw (found, finalize_withdrawal)
              (rw (e, late)
                (rw (pay_out-withdrawals j u) (
                  rewritten-IsPaid i j set_finalized s.pending_withdrawals found refl
                    (λ f. ground (arith, e, f)) h)))
      ]

  unchanged-IsPaid :
      (t : BridgeContract)
      → t.pending_withdrawals ≡ s.pending_withdrawals
      → IsPaid i t.pending_withdrawals
  unchanged-IsPaid t same = rw (same) h

  initiate-IsPaid :
      (r recipient amount block proof : ℕ)
      → IsPaid i (initiate_withdrawal s r recipient amount block proof).0.pending_withdrawals
  unfolding initiate_withdrawal
  initiate-IsPaid r recipient amount block proof =
      elim (Option-cases (find (by_rollup r) s.vaults)) [
        | inl absent ↦ rw (absent, initiate_withdrawal) h
        | inr (v, found) ↦ elim (Bool-cases (ltb (available s v r) amount)) [
          | inl short ↦ rw (found, initiate_withdrawal) (rw short h)
          | inr enough ↦
              rw (found, initiate_withdrawal)
                (rw enough (
                  push-IsPaid i s.pending_withdrawals
                    (new_withdrawal s v r recipient amount block proof) h))
        ]
      ]

Call-IsPaid :
    (i : ℕ) {s t : BridgeContract}
    → Call s t
    → IsPaid i s.pending_withdrawals
    → IsPaid i t.pending_withdrawals
unfolding register_rollup register_vault deposit
Call-IsPaid i {s} (registers r name proof_type sequencer root height) h =
    unchanged-IsPaid s i h (register_rollup s r name proof_type sequencer root height).0
      (ground arith)
Call-IsPaid i {s} (opens r) h = unchanged-IsPaid s i h (register_vault s r).0 (ground arith)
Call-IsPaid i {s} (deposits r amount) h =
    unchanged-IsPaid s i h (deposit s r amount).0 (ground arith)
Call-IsPaid i {s} (initiates r recipient amount block proof) h =
    initiate-IsPaid s i h r recipient amount block proof
Call-IsPaid i {s} (disputes j who) h = dispute-IsPaid s i h j who
Call-IsPaid i {s} (resolves j valid) h = resolve-IsPaid s i h j valid
Call-IsPaid i {s} (finalizes j block) h = finalize-IsPaid s i h j block

pub Calls-IsPaid :
    (i : ℕ) {s t : BridgeContract}
    → Calls s t
    → IsPaid i s.pending_withdrawals
    → IsPaid i t.pending_withdrawals
Calls-IsPaid i none_yet h = h
Calls-IsPaid i (then_call calls call) h = Call-IsPaid i call (Calls-IsPaid i calls h)
