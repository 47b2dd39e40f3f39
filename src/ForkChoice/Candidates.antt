-- ===== src/ForkChoice/Candidates.antt =====
-- The candidates stay under the height and the hash of their headers
-- (crates/solen-consensus/src/engine.rs).
use solen.Base.{
  ℕ, Bool, ◌≡◌, refl, List, [], ◌∷◌, none, some, Option, All, All-retain, lookup, insert, erase,
  nat_key, arith, on_branches, ltb, not, length, map, ◌||◌, false, push, ◌==◌, add_u64,
}
use solen.Mempool.Entries.{UserOperation}
use solen.ForkChoice.State.{
  is_drifted, Attestation, Hash, BlockHeader, PendingBlock, Engine, or_empty, above, blocks_at,
  set_vote, votes_at, height_of,
}
use solen.ForkChoice.Rules.{
  restore_store_to_finalized_tip, without_undoable, is_undoable, execute_received, v2_leader,
  v2_tally, winner, settle, commit_block, reject_block, finalize_pending_block, stage_block,
  drop_v2, v2_finalize, finalize_block,
}
use solen.Consensus.Validators.{has_quorum}
use solen.ForkChoice.Voting.{
  is_validator, same_hash, or_insert, move_vote, settle_leader, follow, decide, reevaluate_tally,
  v2_reevaluate, v2_record_block, v2_record_vote,
}
use solen.ForkChoice.Keyed.{IsCandidate, AreCandidates, IsKeyed, blocks_at-IsKeyed}

insert-All :
    {V : Type 0} (P : ℕ × V → Type 0) (k : ℕ) (v : V) (m : List (ℕ × V))
    → P (k, v)
    → All P m
    → All P (insert k v m)
unfolding insert
insert-All P k v [] new h = (new, tt)
insert-All P k v ((j, w) ∷ m) new h = ground (arith, new, insert-All P k v m)

erase-All :
    {V : Type 0} (P : ℕ × V → Type 0) (k : ℕ) (m : List (ℕ × V)) → All P m → All P (erase k m)
unfolding erase
erase-All P k [] h = tt
erase-All P k ((j, w) ∷ m) h = ground (arith, erase-All P k m)

module _ (block_hash : BlockHeader → Hash) (executes : PendingBlock → Bool) where
  stage-IsKeyed :
      (height : ℕ) (h : Hash) (pb : PendingBlock) (e : Engine)
      → IsKeyed block_hash e
      → IsKeyed block_hash (stage_block height h pb e)
  unfolding stage_block
  stage-IsKeyed height h pb e keyed =
      insert-All (AreCandidates block_hash) height (erase h (blocks_at e height)) e.v2_blocks
        (erase-All (IsCandidate block_hash height) h (blocks_at e height)
          (blocks_at-IsKeyed block_hash e height keyed))
        keyed

  restore-IsKeyed :
      (e : Engine) → IsKeyed block_hash e → IsKeyed block_hash (restore_store_to_finalized_tip e)
  unfolding restore_store_to_finalized_tip
  restore-IsKeyed e keyed =
      on_branches (IsKeyed block_hash) ((length e.chain == 0) || not (is_drifted e.store_drift))
        (λ clean. keyed) (λ drifted. undone e.v2_blocks keyed)
    where
      undone :
          (m : List (ℕ × List (Hash × PendingBlock)))
          → All (AreCandidates block_hash) m
          → All (AreCandidates block_hash) (map without_undoable m)
      undone [] h = tt
      undone (x ∷ m) h = (
        All-retain (IsCandidate block_hash x.0) (λ c. not (is_undoable c.1)) x.1 h.0,
        undone m h.1,
      )

  execute_received-blocks :
      (height : ℕ) (pb : PendingBlock) (attestations : List Attestation) (e : Engine)
      → (execute_received block_hash executes height pb attestations e).v2_blocks ≡ e.v2_blocks
  unfolding commit_block reject_block
  execute_received-blocks height pb attestations e = ground arith

  settle-IsKeyed :
      (height : ℕ) (o : Option PendingBlock) (attestations : List Attestation) (e : Engine)
      → IsKeyed block_hash e
      → IsKeyed block_hash (settle block_hash executes height o attestations e)
  unfolding commit_block
  settle-IsKeyed height none attestations e keyed = keyed
  settle-IsKeyed height (some pb) attestations e keyed =
      on_branches (IsKeyed block_hash) pb.already_executed (λ own. keyed)
        (λ received.
          let restored = restore_store_to_finalized_tip e in
          rw (execute_received-blocks height pb attestations restored) (restore-IsKeyed e keyed))

  finalize_pending_block-IsKeyed :
      (height : ℕ) (e : Engine)
      → IsKeyed block_hash e
      → IsKeyed block_hash (finalize_pending_block block_hash executes height e)
  unfolding finalize_pending_block
  finalize_pending_block-IsKeyed height e keyed =
      settle-IsKeyed height (lookup height e.pending_blocks)
        (or_empty (lookup height e.pending_attestations))
        (record e {
          pending_blocks = erase height e.pending_blocks;
          pending_attestations = erase height e.pending_attestations;
        })
        keyed

  v2_finalize-IsKeyed :
      (height : ℕ) (h : Hash) (e : Engine)
      → IsKeyed block_hash e
      → IsKeyed block_hash (v2_finalize block_hash executes height h e)
  unfolding v2_finalize drop_v2 above
  v2_finalize-IsKeyed height h e keyed = go (lookup h (blocks_at e height))
    where
      go :
          (o : Option PendingBlock)
          → IsKeyed block_hash (finalize_block block_hash executes height h o e)
      go none = keyed
      go (some pb) =
          let staged = stage_block height h pb e in
          All-retain (AreCandidates block_hash) (λ p. ltb height p.0)
            (finalize_pending_block block_hash executes height staged).v2_blocks
            (finalize_pending_block-IsKeyed height staged (stage-IsKeyed height h pb e keyed))

module _ (blake3_hash : List ℕ → List ℕ) (block_hash : BlockHeader → Hash)
    (executes : PendingBlock → Bool) where
  settle_leader-IsKeyed :
      (height : ℕ) (h : Hash) (e : Engine)
      → IsKeyed block_hash e
      → IsKeyed block_hash (settle_leader blake3_hash block_hash executes height h e)
  unfolding settle_leader
  settle_leader-IsKeyed height h e keyed =
      on_branches (IsKeyed block_hash)
        (has_quorum e.validator_set (or_empty (lookup h (v2_tally e height))))
        (λ quorum. v2_finalize-IsKeyed block_hash executes height h e keyed) (λ few. keyed)

  move_vote-IsKeyed :
      (height : ℕ) (h : Hash) (e : Engine)
      → IsKeyed block_hash e
      → IsKeyed block_hash (move_vote blake3_hash block_hash executes height h e)
  unfolding move_vote set_vote
  move_vote-IsKeyed height h e keyed =
      on_branches (IsKeyed block_hash) (not (is_validator e.validator_id e)) (λ outside. keyed)
        (λ inside.
          on_branches (IsKeyed block_hash) (same_hash h (lookup e.validator_id (votes_at e height)))
            (λ there. keyed)
            (λ elsewhere.
              settle_leader-IsKeyed height h
                (record (set_vote e.validator_id height h e) {
                  v2_revotes = push e.v2_revotes (height, h);
                })
                keyed))

  follow-IsKeyed :
      (height : ℕ) (led : Option Hash) (e : Engine)
      → IsKeyed block_hash e
      → IsKeyed block_hash (follow blake3_hash block_hash executes height led e)
  follow-IsKeyed height none e keyed = keyed
  follow-IsKeyed height (some h) e keyed = move_vote-IsKeyed height h e keyed

  reevaluate_tally-IsKeyed :
      (height : ℕ) (t : List (Hash × List ℕ)) (e : Engine)
      → IsKeyed block_hash e
      → IsKeyed block_hash (reevaluate_tally blake3_hash block_hash executes height t e)
  reevaluate_tally-IsKeyed height [] e keyed = keyed
  reevaluate_tally-IsKeyed height (x ∷ xs) e keyed = go (winner blake3_hash e height (x ∷ xs))
    where
      go :
          (o : Option Hash)
          → IsKeyed block_hash (decide blake3_hash block_hash executes height o (x ∷ xs) e)
      go (some h) = v2_finalize-IsKeyed block_hash executes height h e keyed
      go none = follow-IsKeyed height (v2_leader blake3_hash e height (x ∷ xs)) e keyed

  -- A re-evaluation keeps every candidate under the height and the hash of its header.
  pub v2_reevaluate-IsKeyed :
      (height : ℕ) (e : Engine)
      → IsKeyed block_hash e
      → IsKeyed block_hash (v2_reevaluate blake3_hash block_hash executes height e)
  unfolding v2_reevaluate
  v2_reevaluate-IsKeyed height e keyed =
      on_branches (IsKeyed block_hash) (not (height == add_u64 (height_of e.chain) 1))
        (λ other. keyed) (λ next. reevaluate_tally-IsKeyed height (v2_tally e height) e keyed)

  -- So does recording a block, which is entered under them, and recording a vote.
  v2_record_block-IsKeyed :
      (header : BlockHeader) (operations : List UserOperation) (e : Engine)
      → IsKeyed block_hash e
      → IsKeyed block_hash (v2_record_block blake3_hash block_hash executes header operations e)
  unfolding v2_record_block
  v2_record_block-IsKeyed header operations e keyed =
      let height = header.height in
      let bh = block_hash header in
      let pb : PendingBlock = record {
        header = header;
        operations = operations;
        already_executed = false;
        has_revert = false;
        mismatch_count = 0;
      } in
      let held = blocks_at e height in
      let entered = entered-All (lookup bh held) in
      v2_reevaluate-IsKeyed height
        (record e { v2_blocks = insert height (or_insert bh pb (lookup bh held) held) e.v2_blocks })
        (insert-All (AreCandidates block_hash) height (or_insert bh pb (lookup bh held) held)
          e.v2_blocks entered keyed)
    where
      entered-All :
          (o : Option PendingBlock)
          → All (IsCandidate block_hash header.height) (
              or_insert
                (block_hash header)
                (record {
                  header = header;
                  operations = operations;
                  already_executed = false;
                  has_revert = false;
                  mismatch_count = 0;
                })
                o
                (blocks_at e header.height))
      entered-All none =
          insert-All (IsCandidate block_hash header.height) (block_hash header) _
            (blocks_at e header.height) (refl, refl)
            (blocks_at-IsKeyed block_hash e header.height keyed)
      entered-All (some old) = blocks_at-IsKeyed block_hash e header.height keyed

  v2_record_vote-IsKeyed :
      (validator_id height : ℕ) (hash : Hash) (e : Engine)
      → IsKeyed block_hash e
      → IsKeyed block_hash
          (v2_record_vote blake3_hash block_hash executes validator_id height hash e)
  unfolding v2_record_vote set_vote
  v2_record_vote-IsKeyed validator_id height hash e keyed =
      v2_reevaluate-IsKeyed height (set_vote validator_id height hash e) keyed
