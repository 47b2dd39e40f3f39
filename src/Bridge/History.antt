-- ===== src/Bridge/History.antt =====
-- Every history of calls without a rejected dispute keeps the bridge solvent.
use Prim.Native.String.{String}
use solen.Base.{
  ℕ, ◌+◌, ◌-◌, ◌≤◌, ◌<◌, ◌≡◌, refl, subst, true, false, Option, none, some, inl, inr, arith, ◌==◌,
  ==_iff, ltb, Bool-cases, Option-cases, find, any, any-find, update_first, push, find-push,
  sum_by-push, u128_mod, add_u128-eq,
}
use solen.Bridge.State.{
  BridgeContract, BridgeVault, PendingWithdrawal, WithdrawalStatus, pending, disputed, finalized,
  is_pending, is_disputed, by_rollup, registered, by_withdrawal,
}
use solen.Bridge.Operations.{
  register_rollup, register_vault, deposit, initiate_withdrawal, dispute_withdrawal,
  resolve_dispute, finalize_withdrawal, pay_out, empty_vault, credit, debit, new_withdrawal,
  set_disputed, upheld, set_finalized, available,
}
use solen.Bridge.Solvency.{
  IsSolvent, IsCovered, IsCovered-mono, claim, committed, committed-update_first, available-eq,
  find-vault,
}

-- The vault's lifetime deposits stay within 128 bits.
abbrev pub HasRoom : ℕ → Option BridgeVault → Type 0
HasRoom amount none = Unit
HasRoom amount (some v) = v.total_deposited + amount < u128_mod

pub data Step (s : BridgeContract) : BridgeContract → Type 0 where
  registers :
      (r : ℕ) (name proof_type : String) (sequencer root height : ℕ)
      → Step s (register_rollup s r name proof_type sequencer root height).0
  opens : (r : ℕ) → Step s (register_vault s r).0
  deposits :
      (r amount : ℕ) → HasRoom amount (find (by_rollup r) s.vaults) → Step s (deposit s r amount).0
  initiates :
      (r recipient amount block proof : ℕ)
      → Step s (initiate_withdrawal s r recipient amount block proof).0
  disputes : (i who : ℕ) → Step s (dispute_withdrawal s i who).0
  upholds : (i : ℕ) → Step s (resolve_dispute s i true).0
  finalizes : (i block : ℕ) → Step s (finalize_withdrawal s i block).0

pub data Reach (s : BridgeContract) : BridgeContract → Type 0 where
  here : Reach s s
  next : {t u : BridgeContract} → Reach s t → Step t u → Reach s u

module _ (s : BridgeContract) (h : IsSolvent s) where
  opened :
      (r : ℕ)
      → find (by_rollup r) s.vaults ≡ none
      → IsSolvent (record s { vaults = push s.vaults (empty_vault r) })
  opened r absent q = elim (Option-cases (find (by_rollup q) s.vaults)) [
    | inl gone ↦ ground (arith, find-push (by_rollup q) s.vaults (empty_vault r), h q)
    | inr (v, found) ↦ ground (arith, find-push (by_rollup q) s.vaults (empty_vault r), h q)
  ]

  open-IsSolvent : (r : ℕ) → IsSolvent (register_vault s r).0
  unfolding register_vault
  open-IsSolvent r = elim (Bool-cases (any (by_rollup r) s.vaults)) [
    | inl used ↦ rw (used, register_vault) h
    | inr free ↦
        rw (free, register_vault) (opened r (ground (arith, any-find (by_rollup r) s.vaults)))
  ]

  register-IsSolvent :
      (r : ℕ) (name proof_type : String) (sequencer root height : ℕ)
      → IsSolvent (register_rollup s r name proof_type sequencer root height).0
  unfolding register_rollup
  register-IsSolvent r name proof_type sequencer root height =
      elim (Bool-cases (any (registered r) s.registered_rollups)) [
        | inl known ↦ rw (known, register_rollup) h
        | inr new ↦ elim (Bool-cases (any (by_rollup r) s.vaults)) [
          | inl used ↦ rw (new, used, register_rollup) h
          | inr free ↦
              rw (new, free, register_rollup)
                (opened r (ground (arith, any-find (by_rollup r) s.vaults)))
        ]
      ]

  IsCovered-at :
      (r q : ℕ) {v : BridgeVault}
      → (r == q) ≡ true
      → find (by_rollup r) s.vaults ≡ some v
      → IsCovered (committed q s.pending_withdrawals) (some v)
  IsCovered-at r q {v} eq found =
      subst (λ k. IsCovered (committed k s.pending_withdrawals) (some v)) ((==_iff r q).0 eq)
        (subst (IsCovered (committed r s.pending_withdrawals)) found (h r))

  deposit-IsSolvent :
      (r amount : ℕ)
      → HasRoom amount (find (by_rollup r) s.vaults)
      → IsSolvent (deposit s r amount).0
  unfolding deposit
  deposit-IsSolvent r amount room q = elim (Option-cases (find (by_rollup r) s.vaults)) [
    | inl absent ↦ rw (absent, deposit) (h q)
    | inr (v, found) ↦
        rw (found, deposit)
          (rw (find-vault (credit amount) r q s.vaults found refl) (elim (Bool-cases (r == q)) [
            | inl eq ↦ rw eq (
                ground (
                  arith,
                  IsCovered-at r q eq found,
                  subst (HasRoom amount) found room,
                  add_u128-eq v.balance amount,
                  add_u128-eq v.total_deposited amount,
                ))
            | inr ne ↦ rw ne (h q)
          ]))
  ]

  initiate-IsSolvent :
      (r recipient amount block proof : ℕ)
      → IsSolvent (initiate_withdrawal s r recipient amount block proof).0
  unfolding initiate_withdrawal
  initiate-IsSolvent r recipient amount block proof q =
      elim (Option-cases (find (by_rollup r) s.vaults)) [
        | inl absent ↦ rw (absent, initiate_withdrawal) (h q)
        | inr (v, found) ↦ elim (Bool-cases (ltb (available s v r) amount)) [
          | inl short ↦ rw (found, initiate_withdrawal) (rw short (h q))
          | inr enough ↦
              let w = new_withdrawal s v r recipient amount block proof in
              let more = sum_by-push (claim q) s.pending_withdrawals w in
              rw (found, initiate_withdrawal)
                (rw enough (
                  rw more (elim (Bool-cases (r == q)) [
                    | inl eq ↦
                        let same = (==_iff r q).0 eq in
                        let whole = subst (λ k. find (by_rollup k) s.vaults ≡ some v) same found in
                        rw (eq, whole)
                          (ground (
                            arith,
                            IsCovered-at r q eq found,
                            subst
                                (λ k.
                                  available s v k ≡ v.balance - committed k s.pending_withdrawals)
                                same
                                (available-eq s v r (
                                  subst (IsCovered (committed r s.pending_withdrawals)) found
                                    (h r))),
                            subst (λ k. ltb (available s v k) amount ≡ false) same enough,
                          ))
                    | inr ne ↦ rw ne (
                        IsCovered-mono (committed q s.pending_withdrawals) _
                          (find (by_rollup q) s.vaults) (omega arith) (h q))
                  ])))
        ]
      ]

  -- Changing a withdrawal so that it claims no more keeps every vault covered.
  relaxed :
      (f : PendingWithdrawal → PendingWithdrawal) (i : ℕ) {w : PendingWithdrawal}
      → find (by_withdrawal i) s.pending_withdrawals ≡ some w
      → ((q : ℕ) → claim q (f w) ≤ claim q w)
      → IsSolvent (record s {
        pending_withdrawals = update_first (by_withdrawal i) f s.pending_withdrawals;
      })
  relaxed f i found le q =
      IsCovered-mono (committed q s.pending_withdrawals) _ (find (by_rollup q) s.vaults)
        (omega (arith, committed-update_first f i q s.pending_withdrawals found, le q)) (h q)

  dispute-IsSolvent : (i who : ℕ) → IsSolvent (dispute_withdrawal s i who).0
  unfolding dispute_withdrawal
  dispute-IsSolvent i who = elim (Option-cases (find (by_withdrawal i) s.pending_withdrawals)) [
    | inl absent ↦ rw (absent, dispute_withdrawal) h
    | inr (w, found) ↦ elim (Bool-cases (is_pending w.status)) [
      | inl live ↦
          rw (found, dispute_withdrawal)
            (rw live (relaxed (set_disputed who) i found (λ q. ground arith)))
      | inr closed ↦ rw (found, dispute_withdrawal) (rw closed h)
    ]
  ]

  uphold-IsSolvent : (i : ℕ) → IsSolvent (resolve_dispute s i true).0
  unfolding resolve_dispute
  uphold-IsSolvent i = elim (Option-cases (find (by_withdrawal i) s.pending_withdrawals)) [
    | inl absent ↦ rw (absent, resolve_dispute) h
    | inr (w, found) ↦ elim (Bool-cases (is_disputed w.status)) [
      | inl live ↦
          rw (found, resolve_dispute) (rw live (relaxed upheld i found (λ q. ground arith)))
      | inr closed ↦ rw (found, resolve_dispute) (rw closed h)
    ]
  ]

  pay_out-IsSolvent :
      (i : ℕ) (w : PendingWithdrawal)
      → find (by_withdrawal i) s.pending_withdrawals ≡ some w
      → w.status ≡ pending
      → IsSolvent (pay_out s i w).0
  unfolding pay_out
  pay_out-IsSolvent i w found live q =
      let less = committed-update_first set_finalized i q s.pending_withdrawals found in
      elim (Option-cases (find (by_rollup w.rollup_id) s.vaults)) [
        | inl absent ↦ rw (absent, pay_out) (relaxed set_finalized i found (λ q. ground arith) q)
        | inr (v, vault) ↦
            rw (vault, pay_out)
              (rw (find-vault (debit w.amount) w.rollup_id q s.vaults vault refl)
                (elim (Bool-cases (w.rollup_id == q)) [
                  | inl eq ↦ rw eq (
                      ground (
                        arith,
                        IsCovered-at w.rollup_id q eq vault,
                        less,
                        add_u128-eq v.total_withdrawn w.amount,
                      ))
                  | inr ne ↦ rw ne (relaxed set_finalized i found (λ q. ground arith) q)
                ]))
      ]

  finalize-IsSolvent : (i block : ℕ) → IsSolvent (finalize_withdrawal s i block).0
  unfolding finalize_withdrawal
  finalize-IsSolvent i block = elim (Option-cases (find (by_withdrawal i) s.pending_withdrawals)) [
    | inl absent ↦ rw (absent, finalize_withdrawal) h
    | inr (w, found) ↦ by_status w found w.status refl
  ]
    where
      by_status :
          (w : PendingWithdrawal)
          → find (by_withdrawal i) s.pending_withdrawals ≡ some w
          → (st : WithdrawalStatus) → w.status ≡ st
          → IsSolvent (finalize_withdrawal s i block).0
      by_status w found disputed e = rw (found, finalize_withdrawal) (rw e h)
      by_status w found finalized e = rw (found, finalize_withdrawal) (rw e h)
      by_status w found pending e = elim (Bool-cases (ltb block w.finalize_after_block)) [
        | inl early ↦ rw (found, finalize_withdrawal) (rw (e, early) h)
        | inr late ↦ rw (found, finalize_withdrawal) (rw (e, late) (pay_out-IsSolvent i w found e))
      ]

Step-IsSolvent : {s t : BridgeContract} → Step s t → IsSolvent s → IsSolvent t
Step-IsSolvent {s} (registers r name proof_type sequencer root height) h =
    register-IsSolvent s h r name proof_type sequencer root height
Step-IsSolvent {s} (opens r) h = open-IsSolvent s h r
Step-IsSolvent {s} (deposits r amount room) h = deposit-IsSolvent s h r amount room
Step-IsSolvent {s} (initiates r recipient amount block proof) h =
    initiate-IsSolvent s h r recipient amount block proof
Step-IsSolvent {s} (disputes i who) h = dispute-IsSolvent s h i who
Step-IsSolvent {s} (upholds i) h = uphold-IsSolvent s h i
Step-IsSolvent {s} (finalizes i block) h = finalize-IsSolvent s h i block

-- Every history of calls in which no dispute is rejected keeps a solvent bridge solvent: the
-- pending withdrawals of each rollup fit the balance of its vault, and the balance is what was
-- deposited less what was withdrawn. A vault's lifetime deposits must stay within 128 bits.
pub Reach-IsSolvent : {s t : BridgeContract} → IsSolvent s → Reach s t → IsSolvent t
Reach-IsSolvent h here = h
Reach-IsSolvent h (next r step) = Step-IsSolvent step (Reach-IsSolvent h r)
