-- ===== src/Governance/Once.antt =====
-- A proposal that was executed stays so, whatever is called (crates/solen-system-contracts/src/
-- governance.rs).
use Prim.Native.String.{String}
use solen.Base.{
  ℕ, ◌≡◌, ◌≢◌, refl, any, on_branches, Result, Bool, ◌&&◌, not, some, List, inl, inr, arith, ◌==◌,
  ==_iff, leb, ltb, Bool-cases, Option-cases, find, push, find-push, update_first, find-test,
  find-update_first_ne,
}
use solen.Governance.State.{
  GovernanceContract, GovernanceError, by_voter, Proposal, ProposalAction, ProposalStatus, passed,
  rejected, executed, is_active, is_passed, is_emergency, by_proposal,
}
use solen.Governance.Operations.{
  create_proposal, new_proposal, vote, add_vote, finalize, execute, set_status, decide, quorum_met,
  threshold_met,
}

-- One call of any method, with any arguments.
pub data Call (s : GovernanceContract) : GovernanceContract → Type 0 where
  creates :
      (proposer : ℕ) (action : ProposalAction) (description : String) (epoch : ℕ)
      → Call s (create_proposal s proposer action description epoch).0
  votes :
      (i voter : ℕ) (support : Bool) (weight epoch : ℕ)
      → Call s (vote s i voter support weight epoch).0
  finalizes :
      (i total_stake epoch : ℕ) (fasttrack : Bool)
      → Call s (finalize s i total_stake epoch fasttrack).0
  executes : (i epoch : ℕ) (fasttrack : Bool) → Call s (execute s i epoch fasttrack).0

pub data Calls (s : GovernanceContract) : GovernanceContract → Type 0 where
  none_yet : Calls s s
  then_call : {t u : GovernanceContract} → Calls s t → Call t u → Calls s u

-- The proposal of a number is executed.
abbrev pub IsDone : ℕ → List Proposal → Type 0
IsDone i ps = (p : Proposal) × (find (by_proposal i) ps ≡ some p) × (p.status ≡ executed)

-- A write at a proposal that is not executed does not reach it.
rewritten-IsDone :
    (i j : ℕ) (f : Proposal → Proposal) (ps : List Proposal) {q : Proposal}
    → find (by_proposal j) ps ≡ some q
    → (f q).id ≡ q.id
    → q.status ≢ executed
    → IsDone i ps
    → IsDone i (update_first (by_proposal j) f ps)
rewritten-IsDone i j f ps {q} found same open_still (p, at, done) = elim (Bool-cases (j == i)) [
  | inl eq ↦ absurd (open_still (ground (arith, (==_iff j i).0 eq, found, at, done)))
  | inr ne ↦ (
    p,
    ground (
      arith,
      at,
      find-update_first_ne (by_proposal j) (by_proposal i) f ps found
          (ground (arith, find-test (by_proposal j) ps found))
          (ground (arith, same, find-test (by_proposal j) ps found)),
    ),
    done,
  )
]

push-IsDone : (i : ℕ) (ps : List Proposal) (n : Proposal) → IsDone i ps → IsDone i (push ps n)
push-IsDone i ps n (p, at, done) = (p, ground (arith, at, find-push (by_proposal i) ps n), done)

module _ (s : GovernanceContract) (i : ℕ) (h : IsDone i s.proposals) where
  vote-IsDone :
      (j voter : ℕ) (support : Bool) (weight epoch : ℕ)
      → IsDone i (vote s j voter support weight epoch).0.proposals
  unfolding vote
  vote-IsDone j voter support weight epoch =
      elim (Option-cases (find (by_proposal j) s.proposals)) [
        | inl absent ↦ rw (absent, vote) h
        | inr (q, found) ↦
            rw (found, vote)
              (on_branches Still (not (is_active q.status)) (λ closed. h)
                (λ live.
                  on_branches Still (ltb q.voting_end_epoch epoch) (λ late. h)
                    (λ timely.
                      on_branches Still (any (by_voter voter) q.votes) (λ again. h)
                        (λ first.
                          rewritten-IsDone i j (add_vote voter support weight) s.proposals found
                            refl (λ e. ground (arith, e, live)) h))))
      ]
    where
      Still : GovernanceContract × Result (Unit {0}) GovernanceError → Type 0
      Still r = IsDone i r.0.proposals

  finalize-IsDone :
      (j total_stake epoch : ℕ) (fasttrack : Bool)
      → IsDone i (finalize s j total_stake epoch fasttrack).0.proposals
  unfolding finalize
  finalize-IsDone j total_stake epoch fasttrack =
      elim (Option-cases (find (by_proposal j) s.proposals)) [
        | inl absent ↦ rw (absent, finalize) h
        | inr (q, found) ↦
            rw (found, finalize)
              (on_branches Still
                (not (fasttrack && is_emergency q.action) && leb epoch q.voting_end_epoch)
                (λ early. h)
                (λ over.
                  on_branches Still (not (is_active q.status)) (λ closed. h)
                    (λ live.
                      on_branches Still (quorum_met q total_stake && threshold_met q)
                        (λ carried. decided passed found (λ e. ground (arith, e, live)))
                        (λ lost.
                          on_branches Still
                            ((fasttrack && is_emergency q.action) && leb epoch q.voting_end_epoch)
                            (λ waits. h)
                            (λ done. decided rejected found (λ e. ground (arith, e, live)))))))
      ]
    where
      Still : GovernanceContract × Result ProposalStatus GovernanceError → Type 0
      Still r = IsDone i r.0.proposals

      decided :
          (st : ProposalStatus) {q : Proposal}
          → find (by_proposal j) s.proposals ≡ some q
          → q.status ≢ executed
          → Still (decide s j st)
      decided st found open_still =
          rewritten-IsDone i j (set_status st) s.proposals found refl open_still h

  execute-IsDone :
      (j epoch : ℕ) (fasttrack : Bool) → IsDone i (execute s j epoch fasttrack).0.proposals
  unfolding execute
  execute-IsDone j epoch fasttrack = elim (Option-cases (find (by_proposal j) s.proposals)) [
    | inl absent ↦ rw (absent, execute) h
    | inr (q, found) ↦
        rw (found, execute)
          (on_branches Still (not (is_passed q.status)) (λ closed. h)
            (λ live.
              on_branches Still
                (not (fasttrack && is_emergency q.action) && ltb epoch q.execute_after_epoch)
                (λ early. h)
                (λ due.
                  rewritten-IsDone i j (set_status executed) s.proposals found refl
                    (λ e. ground (arith, e, live)) h)))
  ]
    where
      Still : GovernanceContract × Result ProposalAction GovernanceError → Type 0
      Still r = IsDone i r.0.proposals

  create-IsDone :
      (proposer : ℕ) (action : ProposalAction) (description : String) (epoch : ℕ)
      → IsDone i (create_proposal s proposer action description epoch).0.proposals
  unfolding create_proposal
  create-IsDone proposer action description epoch =
      push-IsDone i s.proposals (new_proposal s proposer action description epoch) h

Call-IsDone :
    (i : ℕ) {s t : GovernanceContract} → Call s t → IsDone i s.proposals → IsDone i t.proposals
Call-IsDone i {s} (creates proposer action description epoch) h =
    create-IsDone s i h proposer action description epoch
Call-IsDone i {s} (votes j voter support weight epoch) h =
    vote-IsDone s i h j voter support weight epoch
Call-IsDone i {s} (finalizes j total_stake epoch fasttrack) h =
    finalize-IsDone s i h j total_stake epoch fasttrack
Call-IsDone i {s} (executes j epoch fasttrack) h = execute-IsDone s i h j epoch fasttrack

pub Calls-IsDone :
    (i : ℕ) {s t : GovernanceContract} → Calls s t → IsDone i s.proposals → IsDone i t.proposals
Calls-IsDone i none_yet h = h
Calls-IsDone i (then_call calls call) h = Call-IsDone i call (Calls-IsDone i calls h)
