-- ===== src/Governance/Ballots.antt =====
-- The ballots of every proposal: each voter votes once, and the totals are the sums of the ballots.
use Prim.Native.String.{String}
use solen.Base.{
  ℕ, ◌+◌, ◌≤◌, ◌<◌, ◌≡◌, refl, subst, Bool, true, false, none, some, Option, List, [], ◌∷◌, inl,
  inr, arith, if◌then◌else◌, Bool-cases, Option-cases, find, any, any-find, find-push, push,
  update_first, sum_by, sum_by-push, All, All-push, All-update_first, All-find, u64_mod, u128_mod,
  add_u64, add_u64-eq, add_u128-eq,
}
use solen.Governance.State.{
  GovernanceContract, Proposal, Vote, ProposalAction, ProposalStatus, passed, rejected, executed,
  by_proposal, by_voter, effective_voting_period, timelock_delay, max_sane_voting_period,
}
use solen.Governance.Operations.{
  create_proposal, new_proposal, vote, add_vote, finalize, execute, set_status,
}

-- The weight of a ballot on the side `side`.
abbrev pub weight_for : Bool → Vote → ℕ
weight_for true v = if v.support then v.stake_weight else 0
weight_for false v = if v.support then 0 else v.stake_weight

abbrev pub HasDistinctVoters : List Vote → Type 0
HasDistinctVoters [] = Unit
HasDistinctVoters (v ∷ vs) = (find (by_voter v.voter) vs ≡ none) × HasDistinctVoters vs

pub record IsSound (p : Proposal) : Type 0 where
  pub distinct : HasDistinctVoters p.votes
  pub tally_for : p.total_for ≡ sum_by (weight_for true) p.votes
  pub tally_against : p.total_against ≡ sum_by (weight_for false) p.votes
  pub window_opens : p.created_epoch < p.voting_end_epoch
  pub window_closes : p.voting_end_epoch ≤ p.created_epoch + max_sane_voting_period
  pub timelock : p.execute_after_epoch ≡ p.voting_end_epoch + timelock_delay

abbrev pub IsWellFormed : GovernanceContract → Type 0
IsWellFormed s = All IsSound s.proposals

-- The voting period that is applied is at least one epoch and at most the sane maximum.
effective_voting_period_bounds :
    (s : GovernanceContract)
    → (0 < effective_voting_period s) × (effective_voting_period s ≤ max_sane_voting_period)
unfolding effective_voting_period
effective_voting_period_bounds s = ground arith

push-distinct :
    (vs : List Vote) (v : Vote)
    → HasDistinctVoters vs
    → find (by_voter v.voter) vs ≡ none
    → HasDistinctVoters (push vs v)
unfolding find
push-distinct [] v h e = (refl, tt)
push-distinct (x ∷ vs) v h e = ground (arith, push-distinct vs v, find-push (by_voter x.voter) vs v)

-- One call. Epochs stay within 64 bits, and a proposal's totals within 128 bits.
abbrev pub HasRoom : ℕ → Option Proposal → Type 0
HasRoom weight none = Unit
HasRoom weight (some p) = (p.total_for + weight < u128_mod) × (p.total_against + weight < u128_mod)

pub data Step (s : GovernanceContract) : GovernanceContract → Type 0 where
  creates :
      (proposer : ℕ) (action : ProposalAction) (description : String) (epoch : ℕ)
      → epoch + max_sane_voting_period + timelock_delay < u64_mod
      → Step s (create_proposal s proposer action description epoch).0
  votes :
      (i voter : ℕ) (support : Bool) (weight epoch : ℕ)
      → HasRoom weight (find (by_proposal i) s.proposals)
      → Step s (vote s i voter support weight epoch).0
  finalizes :
      (i total_stake epoch : ℕ) (fasttrack : Bool)
      → Step s (finalize s i total_stake epoch fasttrack).0
  executes : (i epoch : ℕ) (fasttrack : Bool) → Step s (execute s i epoch fasttrack).0

pub data Reach (s : GovernanceContract) : GovernanceContract → Type 0 where
  here : Reach s s
  next : {t u : GovernanceContract} → Reach s t → Step t u → Reach s u

add_vote-IsSound :
    (voter : ℕ) (support : Bool) (weight : ℕ) (p : Proposal)
    → IsSound p
    → any (by_voter voter) p.votes ≡ false
    → HasRoom weight (some p)
    → IsSound (add_vote voter support weight p)
add_vote-IsSound voter support weight p h new room =
    let ballot : Vote = record { voter = voter; support = support; stake_weight = weight } in
    record {
      distinct =
          push-distinct p.votes ballot h.distinct
            (ground (arith, any-find (by_voter voter) p.votes));
      tally_for =
          ground
            (arith, sum_by-push (weight_for true) p.votes ballot, add_u128-eq p.total_for weight);
      tally_against = ground (
        arith,
        sum_by-push (weight_for false) p.votes ballot,
        add_u128-eq p.total_against weight,
      );
      window_opens = h.window_opens;
      window_closes = h.window_closes;
      timelock = h.timelock;
    }

set_status-IsSound : (st : ProposalStatus) (p : Proposal) → IsSound p → IsSound (set_status st p)
set_status-IsSound st p h = record {
  distinct = h.distinct;
  tally_for = h.tally_for;
  tally_against = h.tally_against;
  window_opens = h.window_opens;
  window_closes = h.window_closes;
  timelock = h.timelock;
}

create-IsWellFormed :
    (s : GovernanceContract) (proposer : ℕ) (action : ProposalAction) (description : String)
    (epoch : ℕ)
    → IsWellFormed s
    → epoch + max_sane_voting_period + timelock_delay < u64_mod
    → IsWellFormed (create_proposal s proposer action description epoch).0
unfolding create_proposal sum_by
create-IsWellFormed s proposer action description epoch h fits =
    All-push IsSound s.proposals (new_proposal s proposer action description epoch) h (record {
      distinct = tt;
      tally_for = refl;
      tally_against = refl;
      window_opens = omega (arith, bounds, ends);
      window_closes = omega (arith, bounds, ends);
      timelock =
          add_u64-eq (add_u64 epoch (effective_voting_period s)) timelock_delay
            (omega (arith, bounds, ends));
    })
  where
    bounds : (0 < effective_voting_period s) × (effective_voting_period s ≤ max_sane_voting_period)
    bounds = effective_voting_period_bounds s

    ends : add_u64 epoch (effective_voting_period s) ≡ epoch + effective_voting_period s
    ends = add_u64-eq epoch (effective_voting_period s) (omega (arith, bounds))

module _ (s : GovernanceContract) (h : IsWellFormed s) where
  vote-IsWellFormed :
      (i voter : ℕ) (support : Bool) (weight epoch : ℕ)
      → HasRoom weight (find (by_proposal i) s.proposals)
      → IsWellFormed (vote s i voter support weight epoch).0
  unfolding vote
  vote-IsWellFormed i voter support weight epoch room =
      elim (Option-cases (find (by_proposal i) s.proposals)) [
        | inl absent ↦ rw (absent, vote) h
        | inr (p, found) ↦ elim (Bool-cases (any (by_voter voter) p.votes)) [
          | inl voted ↦ rw (found, vote) (ground (arith, h, voted))
          | inr new ↦
              rw (found, vote)
                (ground (
                  arith,
                  h,
                  All-update_first (by_proposal i) IsSound (add_vote voter support weight)
                      s.proposals h found
                      (add_vote-IsSound voter support weight p
                        (All-find (by_proposal i) IsSound s.proposals h found) new
                        (subst (HasRoom weight) found room)),
                ))
        ]
      ]

  -- Giving the proposal that is found another status keeps every proposal sound.
  restated :
      (i : ℕ) (st : ProposalStatus) {p : Proposal}
      → find (by_proposal i) s.proposals ≡ some p
      → All IsSound (update_first (by_proposal i) (set_status st) s.proposals)
  restated i st {p} found =
      All-update_first (by_proposal i) IsSound (set_status st) s.proposals h found
        (set_status-IsSound st p (All-find (by_proposal i) IsSound s.proposals h found))

  finalize-IsWellFormed :
      (i total_stake epoch : ℕ) (fasttrack : Bool)
      → IsWellFormed (finalize s i total_stake epoch fasttrack).0
  unfolding finalize
  finalize-IsWellFormed i total_stake epoch fasttrack =
      elim (Option-cases (find (by_proposal i) s.proposals)) [
        | inl absent ↦ rw (absent, finalize) h
        | inr (p, found) ↦
            rw (found, finalize)
              (ground (arith, h, restated i passed found, restated i rejected found))
      ]

  execute-IsWellFormed :
      (i epoch : ℕ) (fasttrack : Bool) → IsWellFormed (execute s i epoch fasttrack).0
  unfolding execute
  execute-IsWellFormed i epoch fasttrack = elim (Option-cases (find (by_proposal i) s.proposals)) [
    | inl absent ↦ rw (absent, execute) h
    | inr (p, found) ↦ rw (found, execute) (ground (arith, h, restated i executed found))
  ]

Step-IsWellFormed : {s t : GovernanceContract} → Step s t → IsWellFormed s → IsWellFormed t
Step-IsWellFormed {s} (creates proposer action description epoch fits) h =
    create-IsWellFormed s proposer action description epoch h fits
Step-IsWellFormed {s} (votes i voter support weight epoch room) h =
    vote-IsWellFormed s h i voter support weight epoch room
Step-IsWellFormed {s} (finalizes i total_stake epoch fasttrack) h =
    finalize-IsWellFormed s h i total_stake epoch fasttrack
Step-IsWellFormed {s} (executes i epoch fasttrack) h = execute-IsWellFormed s h i epoch fasttrack

-- After every history of calls from a well-formed contract each proposal has one ballot to a voter,
-- its two totals are the sums of the ballots for and against it, its voting window is between one
-- epoch and the sane maximum long, and its timelock ends three epochs after the window. Epochs must
-- stay within 64 bits and totals within 128.
pub Reach-IsWellFormed : {s t : GovernanceContract} → IsWellFormed s → Reach s t → IsWellFormed t
Reach-IsWellFormed h here = h
Reach-IsWellFormed h (next r step) = Step-IsWellFormed step (Reach-IsWellFormed h r)
