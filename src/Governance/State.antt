-- ===== src/Governance/State.antt =====
-- The types and constants of crates/solen-system-contracts/src/governance.rs.
use Prim.Native.String.{String}
use solen.Base.{
  ℕ, ◌*◌, Bool, true, false, ◌||◌, List, [], Option, ◌==◌, ltb, leb, if◌then◌else◌, find, u64_max,
}

abbrev pub default_voting_period : ℕ
default_voting_period = 14

abbrev pub max_sane_voting_period : ℕ
max_sane_voting_period = 50_000

abbrev pub sane_voting_period : ℕ
sane_voting_period = 2_016

abbrev pub timelock_delay : ℕ
timelock_delay = 3

abbrev pub quorum_bps : ℕ
quorum_bps = 3000

abbrev pub pass_threshold_bps : ℕ
pass_threshold_bps = 6667

abbrev pub proposal_deposit : ℕ
proposal_deposit = 1_000 * 100_000_000

abbrev pub emergency_fasttrack_activation_epoch : ℕ
emergency_fasttrack_activation_epoch = u64_max

unfoldable pub emergency_fasttrack_active : ℕ → Bool
emergency_fasttrack_active epoch =
    if emergency_fasttrack_activation_epoch == u64_max
    then false
    else leb emergency_fasttrack_activation_epoch epoch

pub data GovernanceError : Type 0 where
  proposal_not_found voting_ended voting_not_ended already_voted : GovernanceError
  proposal_not_passed timelock_not_expired already_executed invalid_proposal_type : GovernanceError

pub data ProposalAction : Type 0 where
  set_base_fee : ℕ → ProposalAction
  set_block_time : ℕ → ProposalAction
  set_max_ops_per_block : ℕ → ProposalAction
  register_rollup : ℕ → String → ProposalAction
  set_burn_rate : ℕ → ProposalAction
  set_epoch_reward : ℕ → ProposalAction
  set_min_validator_stake : ℕ → ProposalAction
  set_unbonding_period : ℕ → ProposalAction
  emergency_pause : ProposalAction
  emergency_resume : ProposalAction
  set_bridge_relayer : ℕ → ProposalAction
  set_vesting_admin : ℕ → ProposalAction
  migrate_team_pool_to_vesting : ProposalAction
  set_governance_voting_period : ℕ → ProposalAction

unfoldable pub is_emergency : ProposalAction → Bool
is_emergency emergency_pause = true
is_emergency emergency_resume = true
is_emergency action = false

pub data ProposalStatus : Type 0 where
  active passed rejected executed expired : ProposalStatus

abbrev pub is_active : ProposalStatus → Bool
is_active active = true
is_active status = false

abbrev pub is_passed : ProposalStatus → Bool
is_passed passed = true
is_passed status = false

pub record Vote : Type 0 where
  pub voter : ℕ
  pub support : Bool
  pub stake_weight : ℕ

pub record Proposal : Type 0 where
  pub id : ℕ
  pub proposer : ℕ
  pub action : ProposalAction
  pub description : String
  pub created_epoch : ℕ
  pub voting_end_epoch : ℕ
  pub execute_after_epoch : ℕ
  pub status : ProposalStatus
  pub votes : List Vote
  pub total_for : ℕ
  pub total_against : ℕ
  pub deposit : ℕ

pub record GovernanceContract : Type 0 where
  pub proposals : List Proposal
  pub next_proposal_id : ℕ
  pub is_paused : Bool
  pub voting_period : ℕ

-- `GovernanceContract::new`
abbrev pub new : GovernanceContract
new = record {
  proposals = [];
  next_proposal_id = 0;
  is_paused = false;
  voting_period = default_voting_period;
}

abbrev pub by_proposal : ℕ → Proposal → Bool
by_proposal i p = p.id == i

abbrev pub by_voter : ℕ → Vote → Bool
by_voter w v = v.voter == w

unfoldable pub get_proposal : GovernanceContract → ℕ → Option Proposal
get_proposal s i = find (by_proposal i) s.proposals

unfoldable pub effective_voting_period : GovernanceContract → ℕ
effective_voting_period s =
    if s.voting_period == 0 || ltb max_sane_voting_period s.voting_period
    then sane_voting_period
    else s.voting_period
