-- ===== src/Governance/Outcome.antt =====
-- What decides a proposal.
use solen.Base.{
  ℕ, ◌+◌, ◌*◌, ◌≤◌, ◌<◌, ◌≡◌, ◌↔◌, ◌⊎◌, Bool, true, ◌&&◌, some, inl, inr, arith, Bool-cases, ok,
  find, find-test, find-update_first, u128_mod, add_u128-eq, saturating_mul_u128-eq,
}
use solen.Governance.State.{
  GovernanceContract, Proposal, active, passed, rejected, by_proposal, quorum_bps,
  pass_threshold_bps,
}
use solen.Governance.Operations.{finalize, quorum_met, threshold_met, set_status}

-- At least 30% of the stake has voted, and at least 66.67% of what has voted is in favour.
pub record Carries (p : Proposal) (total_stake : ℕ) : Type 0 where
  pub stake : 0 < total_stake
  pub voted : 0 < p.total_for + p.total_against
  pub quorum : total_stake * quorum_bps ≤ (p.total_for + p.total_against) * 10_000
  pub majority : (p.total_for + p.total_against) * pass_threshold_bps ≤ p.total_for * 10_000

-- The two tests of `finalize`, which multiply with saturation, are the exact inequalities. The
-- stakes must stay within 128 bits when they are multiplied by 10000.
pub Carries-iff :
    (p : Proposal) (total_stake : ℕ)
    → (p.total_for + p.total_against) * 10_000 < u128_mod
    → total_stake * 10_000 < u128_mod
    → ((quorum_met p total_stake && threshold_met p) ≡ true) ↔ Carries p total_stake
unfolding quorum_met threshold_met
Carries-iff p total_stake small stake =
    let voted = p.total_for + p.total_against in
    let sum = add_u128-eq p.total_for p.total_against (omega arith) in
    let for = saturating_mul_u128-eq p.total_for 10_000 (omega arith) in
    let all = saturating_mul_u128-eq voted 10_000 small in
    let share = saturating_mul_u128-eq voted pass_threshold_bps (omega arith) in
    let needed = saturating_mul_u128-eq total_stake quorum_bps (omega arith) in
    rw sum (rw (for, all, share, needed) (λ h. ground arith, λ c. ground arith))

-- Once the voting period is over, an active proposal passes exactly if it carries, and is rejected
-- exactly if it does not; the result and the proposal's new status agree. The stakes must stay
-- within 128 bits when they are multiplied by 10000.
pub finalize-decides :
    (s : GovernanceContract) (i total_stake epoch : ℕ) (fasttrack : Bool) {p : Proposal}
    → find (by_proposal i) s.proposals ≡ some p
    → p.status ≡ active
    → p.voting_end_epoch < epoch
    → (p.total_for + p.total_against) * 10_000 < u128_mod
    → total_stake * 10_000 < u128_mod
    → ((Carries p total_stake)
        × ((finalize s i total_stake epoch fasttrack).1 ≡ ok passed)
        × (find (by_proposal i) (finalize s i total_stake epoch fasttrack).0.proposals
            ≡ some (set_status passed p)))
      ⊎ ((¬ Carries p total_stake)
          × ((finalize s i total_stake epoch fasttrack).1 ≡ ok rejected)
          × (find (by_proposal i) (finalize s i total_stake epoch fasttrack).0.proposals
              ≡ some (set_status rejected p)))
unfolding finalize
finalize-decides s i total_stake epoch fasttrack {p} found live over small stake =
    let iff = Carries-iff p total_stake small stake in
    let test = find-test (by_proposal i) s.proposals found in
    let yes = find-update_first (by_proposal i) (set_status passed) s.proposals found test in
    let no = find-update_first (by_proposal i) (set_status rejected) s.proposals found test in
    elim (Bool-cases (quorum_met p total_stake && threshold_met p)) [
      | inl carried ↦ inl (
        iff.0 carried,
        rw (found, finalize) (ground arith),
        rw (found, finalize) (ground (arith, yes)),
      )
      | inr lost ↦ inr (
        λ c. ground (arith, iff.1 c, lost),
        rw (found, finalize) (ground arith),
        rw (found, finalize) (ground (arith, no)),
      )
    ]
