-- ===== src/Governance/Operations.antt =====
-- The methods of the governance contract that change its state
-- (crates/solen-system-contracts/src/governance.rs).
use Prim.Native.String.{String}
use solen.Base.{
  ℕ, Bool, true, false, ◌&&◌, not, none, some, [], Result, ok, err, ltb, leb, if◌then◌else◌, find,
  any, push, update_first, add_u64, add_u128, saturating_mul_u128,
}
use solen.Governance.State.{
  GovernanceContract, Proposal, ProposalAction, ProposalStatus, GovernanceError, proposal_not_found,
  voting_ended, voting_not_ended, already_voted, proposal_not_passed, timelock_not_expired, active,
  passed, rejected, executed, is_active, is_passed, is_emergency, emergency_pause, emergency_resume,
  by_proposal, by_voter, effective_voting_period, timelock_delay, proposal_deposit, quorum_bps,
  pass_threshold_bps,
}

abbrev pub new_proposal : GovernanceContract → ℕ → ProposalAction → String → ℕ → Proposal
new_proposal s proposer action description current_epoch =
    let voting_end = add_u64 current_epoch (effective_voting_period s) in
    record {
      id = s.next_proposal_id;
      proposer = proposer;
      action = action;
      description = description;
      created_epoch = current_epoch;
      voting_end_epoch = voting_end;
      execute_after_epoch = add_u64 voting_end timelock_delay;
      status = active;
      votes = [];
      total_for = 0;
      total_against = 0;
      deposit = proposal_deposit;
    }

unfoldable pub create_proposal :
    GovernanceContract → ℕ → ProposalAction → String → ℕ → GovernanceContract × ℕ
create_proposal s proposer action description current_epoch = (
  record s {
    next_proposal_id = add_u64 s.next_proposal_id 1;
    proposals = push s.proposals (new_proposal s proposer action description current_epoch);
  },
  s.next_proposal_id,
)

abbrev pub add_vote : ℕ → Bool → ℕ → Proposal → Proposal
add_vote voter support weight p = record p {
  total_for = if support then add_u128 p.total_for weight else p.total_for;
  total_against = if support then p.total_against else add_u128 p.total_against weight;
  votes = push p.votes (record { voter = voter; support = support; stake_weight = weight });
}

unfoldable pub vote :
    GovernanceContract
    → ℕ
    → ℕ
    → Bool
    → ℕ
    → ℕ
    → GovernanceContract × Result (Unit {0}) GovernanceError
vote s i voter support weight current_epoch = elim (find (by_proposal i) s.proposals) [
  | none ↦ (s, err proposal_not_found)
  | some p ↦
      if not (is_active p.status)
      then (s, err voting_ended)
      else if ltb p.voting_end_epoch current_epoch
      then (s, err voting_ended)
      else if any (by_voter voter) p.votes
      then (s, err already_voted)
      else (
        record s {
          proposals = update_first (by_proposal i) (add_vote voter support weight) s.proposals;
        },
        ok tt,
      )
]

unfoldable pub quorum_met : Proposal → ℕ → Bool
quorum_met p total_stake =
    ltb 0 total_stake
    && leb (saturating_mul_u128 total_stake quorum_bps)
        (saturating_mul_u128 (add_u128 p.total_for p.total_against) 10_000)

unfoldable pub threshold_met : Proposal → Bool
threshold_met p =
    ltb 0 (add_u128 p.total_for p.total_against)
    && leb (saturating_mul_u128 (add_u128 p.total_for p.total_against) pass_threshold_bps)
        (saturating_mul_u128 p.total_for 10_000)

abbrev pub set_status : ProposalStatus → Proposal → Proposal
set_status status p = record p { status = status }

-- A proposal is left with a new status, which is also the result.
abbrev pub decide :
    GovernanceContract
    → ℕ
    → ProposalStatus
    → GovernanceContract × Result ProposalStatus GovernanceError
decide s i status = (
  record s { proposals = update_first (by_proposal i) (set_status status) s.proposals },
  ok status,
)

unfoldable pub finalize :
    GovernanceContract
    → ℕ
    → ℕ
    → ℕ
    → Bool
    → GovernanceContract × Result ProposalStatus GovernanceError
finalize s i total_stake current_epoch emergency_fasttrack =
    elim (find (by_proposal i) s.proposals) [
      | none ↦ (s, err proposal_not_found)
      | some p ↦
          let emergency = emergency_fasttrack && is_emergency p.action in
          if not emergency && leb current_epoch p.voting_end_epoch
          then (s, err voting_not_ended)
          else if not (is_active p.status)
          then (s, ok p.status)
          else if quorum_met p total_stake && threshold_met p
          then decide s i passed
          else if emergency && leb current_epoch p.voting_end_epoch
          then (s, ok active)
          else decide s i rejected
    ]

-- The circuit breaker's switch, after the action.
unfoldable pub paused_after : ProposalAction → Bool → Bool
paused_after emergency_pause paused = true
paused_after emergency_resume paused = false
paused_after action paused = paused

unfoldable pub execute :
    GovernanceContract → ℕ → ℕ → Bool → GovernanceContract × Result ProposalAction GovernanceError
execute s i current_epoch emergency_fasttrack = elim (find (by_proposal i) s.proposals) [
  | none ↦ (s, err proposal_not_found)
  | some p ↦
      if not (is_passed p.status)
      then (s, err proposal_not_passed)
      else if not (emergency_fasttrack && is_emergency p.action)
          && ltb current_epoch p.execute_after_epoch
      then (s, err timelock_not_expired)
      else (
        record s {
          proposals = update_first (by_proposal i) (set_status executed) s.proposals;
          is_paused = paused_after p.action s.is_paused;
        },
        ok p.action,
      )
]
