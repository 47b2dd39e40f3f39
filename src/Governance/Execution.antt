-- ===== src/Governance/Execution.antt =====
-- When a proposal is executed, how often, and what the circuit breaker does.
use solen.Base.{
  ℕ, ◌+◌, ◌≤◌, ◌⊎◌, inl, inr, ◌<◌, ◌≡◌, refl, ap, ◌∙◌, Bool, true, false, ◌&&◌, some, arith, Result,
  ok, err, IsOk, find, update_first, find-test, find-update_first, All-find,
}
use solen.Governance.State.{
  GovernanceContract, GovernanceError, Proposal, ProposalAction, passed, executed, is_passed,
  is_emergency, proposal_not_passed, by_proposal, timelock_delay,
}
use solen.Governance.Operations.{execute, set_status, paused_after}
use solen.Governance.Once.{Calls, Calls-IsDone}
use solen.Governance.Ballots.{IsSound, IsWellFormed}

execute-inv :
    (s : GovernanceContract) (i epoch : ℕ) (fasttrack : Bool)
    → IsOk (execute s i epoch fasttrack).1
    → (p : Proposal) × (find (by_proposal i) s.proposals ≡ some p)
      × (p.status ≡ passed)
      × (((fasttrack && is_emergency p.action) ≡ true) ⊎ (p.execute_after_epoch ≤ epoch))
      × (execute s i epoch fasttrack ≡ (
        record s {
          proposals = update_first (by_proposal i) (set_status executed) s.proposals;
          is_paused = paused_after p.action s.is_paused;
        },
        ok p.action,
      ))
unfolding execute
execute-inv s i epoch fasttrack done = ground arith

execute-settled :
    (s : GovernanceContract) (i epoch : ℕ) (fasttrack : Bool) {p : Proposal}
    → find (by_proposal i) s.proposals ≡ some p
    → is_passed p.status ≡ false
    → (execute s i epoch fasttrack).1 ≡ err proposal_not_passed
unfolding execute
execute-settled s i epoch fasttrack found other = ground arith

-- A proposal that is executed had passed, its action is the result, and the pause switch follows
-- it. Outside the emergency fast track its timelock is over, and more than three epochs lie between its
-- creation and its execution, whatever the votes. It is executed once: whatever methods are called
-- with whatever arguments afterwards, executing it again fails.
pub execute-IsOk :
    (s t : GovernanceContract) (i epoch again : ℕ) (fasttrack later : Bool)
    → IsWellFormed s
    → IsOk (execute s i epoch fasttrack).1
    → Calls (execute s i epoch fasttrack).0 t
    → (p : Proposal) × (find (by_proposal i) s.proposals ≡ some p)
      × (p.status ≡ passed)
      × ((execute s i epoch fasttrack).1 ≡ ok p.action)
      × ((execute s i epoch fasttrack).0.is_paused ≡ paused_after p.action s.is_paused)
      × (((fasttrack && is_emergency p.action) ≡ true)
          ⊎ ((p.execute_after_epoch ≤ epoch) × (p.created_epoch + timelock_delay < epoch)))
      × ((execute t i again later).1 ≡ err proposal_not_passed)
execute-IsOk s t i epoch again fasttrack later h done calls =
    let (p, found, was, wait, result) = execute-inv s i epoch fasttrack done in
    let sound : IsSound p = All-find (by_proposal i) IsSound s.proposals h found in
    let now =
      find-update_first (by_proposal i) (set_status executed) s.proposals found
        (find-test (by_proposal i) s.proposals found) in
    let still = Calls-IsDone i calls (
      set_status executed p,
      ap
            (λ (r : GovernanceContract × Result ProposalAction GovernanceError).
              find (by_proposal i) r.0.proposals)
            result
          ∙ now,
      refl,
    ) in
    (
      p,
      found,
      was,
      ap (λ (r : GovernanceContract × Result ProposalAction GovernanceError). r.1) result,
      ap (λ (r : GovernanceContract × Result ProposalAction GovernanceError). r.0.is_paused) result,
      elim wait [
        | inl fast ↦ inl fast
        | inr late ↦ inr (late, omega (arith, late, sound.window_opens, sound.timelock))
      ],
      execute-settled t i again later still.1 (ground (arith, still.2)),
    )
