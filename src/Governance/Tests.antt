-- ===== src/Governance/Tests.antt =====
-- Runs of the governance contract, and the theorems at one proposal.
use solen.Base.{
  ◌+◌, ◌≤◌, ◌<◌, ◌≡◌, ◌⊎◌, refl, true, false, ◌&&◌, some, [], ◌∷◌, arith, ok, err, IsOk, find, any,
  sum_by,
}
use solen.Governance.State.{
  GovernanceContract, Proposal, new, active, passed, rejected, emergency_pause, is_emergency,
  by_proposal, already_voted, proposal_not_passed, timelock_delay,
}
use solen.Governance.Operations.{create_proposal, vote, finalize, execute, set_status, paused_after}
use solen.Governance.Ballots.{IsWellFormed, Reach, here, next, creates, Reach-IsWellFormed}
use solen.Governance.Once.{none_yet, then_call, finalizes}
use solen.Governance.Outcome.{Carries, finalize-decides}
use solen.Governance.Execution.{execute-IsOk}

-- A proposal to pause, on which voter 5 has voted with 70 and voter 6 against it with 30.
abbrev voted_on : Proposal
voted_on = record {
  id = 0;
  proposer = 5;
  action = emergency_pause;
  description = "pause";
  created_epoch = 10;
  voting_end_epoch = 24;
  execute_after_epoch = 27;
  status = active;
  votes =
      record { voter = 5; support = true; stake_weight = 70 }
      ∷ record { voter = 6; support = false; stake_weight = 30 }
      ∷ [];
  total_for = 70;
  total_against = 30;
  deposit = 0;
}

abbrev chamber : GovernanceContract
chamber = record new { proposals = voted_on ∷ []; next_proposal_id = 1 }

abbrev chamber_after : GovernanceContract
chamber_after = record new { proposals = set_status passed voted_on ∷ []; next_proposal_id = 1 }

second_vote : (vote chamber 0 5 false 70 20).1 ≡ err already_voted
unfolding vote find any
second_vote = refl

chamber_after-IsWellFormed : IsWellFormed chamber_after
unfolding find sum_by
chamber_after-IsWellFormed = (
  record {
    distinct = (refl, (refl, tt));
    tally_for = refl;
    tally_against = refl;
    window_opens = omega arith;
    window_closes = omega arith;
    timelock = refl;
  },
  tt,
)

executable : IsOk (execute chamber_after 0 27 false).1
unfolding execute find
executable = tt

new_history : Reach new (create_proposal new 5 emergency_pause "pause" 10).0
new_history = next here (creates 5 emergency_pause "pause" 10 (omega arith))

Reach-IsWellFormed_example : IsWellFormed (create_proposal new 5 emergency_pause "pause" 10).0
Reach-IsWellFormed_example = Reach-IsWellFormed tt new_history

finalize-decides_example :
    ((Carries voted_on 300)
      × ((finalize chamber 0 300 25 false).1 ≡ ok passed)
      × (find (by_proposal 0) (finalize chamber 0 300 25 false).0.proposals
          ≡ some (set_status passed voted_on)))
    ⊎ ((¬ Carries voted_on 300)
        × ((finalize chamber 0 300 25 false).1 ≡ ok rejected)
        × (find (by_proposal 0) (finalize chamber 0 300 25 false).0.proposals
            ≡ some (set_status rejected voted_on)))
unfolding find
finalize-decides_example =
    finalize-decides chamber 0 300 25 false {p = voted_on} refl refl (omega arith) (omega arith)
      (omega arith)

execute-IsOk_example :
    (p : Proposal) × (find (by_proposal 0) chamber_after.proposals ≡ some p)
    × (p.status ≡ passed)
    × ((execute chamber_after 0 27 false).1 ≡ ok p.action)
    × ((execute chamber_after 0 27 false).0.is_paused ≡ paused_after p.action false)
    × (((false && is_emergency p.action) ≡ true)
        ⊎ ((p.execute_after_epoch ≤ 27) × (p.created_epoch + timelock_delay < 27)))
    × ((execute (finalize (execute chamber_after 0 27 false).0 0 300 28 false).0 0 30 true).1
        ≡ err proposal_not_passed)
execute-IsOk_example =
    execute-IsOk chamber_after (finalize (execute chamber_after 0 27 false).0 0 300 28 false).0 0 27
      30 false true chamber_after-IsWellFormed executable
      (then_call none_yet (finalizes 0 300 28 false))
