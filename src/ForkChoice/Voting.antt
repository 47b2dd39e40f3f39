-- ===== src/ForkChoice/Voting.antt =====
-- Voting and the decision (crates/solen-consensus/src/engine.rs).
use solen.Base.{
  ℕ, Bool, false, not, ◌||◌, Option, none, some, List, [], ◌∷◌, if◌then◌else◌, ltb, leb, ◌==◌, any,
  push, lookup, insert, nat_key, add_u64,
}
use solen.Consensus.Validators.{active, has_quorum, info_id}
use solen.Mempool.Entries.{UserOperation}
use solen.ForkChoice.State.{
  Hash, BlockHeader, PendingBlock, Engine, or_empty, height_of, votes_at, blocks_at, set_vote,
}
use solen.ForkChoice.Rules.{v2_tally, v2_leader, winner, v2_finalize}

-- How far ahead of the chain a vote may be.
abbrev pub max_v2_vote_lookahead : ℕ
max_v2_vote_lookahead = 64

-- Among the active validators.
unfoldable pub is_validator : ℕ → Engine → Bool
is_validator id e = any (info_id id) (active e.validator_set)

unfoldable pub same_hash : Hash → Option Hash → Bool
same_hash h none = false
same_hash h (some k) = k == h

-- An entry that is there stays: `entry(bh).or_insert_with(..)`.
abbrev pub or_insert :
    Hash
    → PendingBlock
    → Option PendingBlock
    → List (Hash × PendingBlock)
    → List (Hash × PendingBlock)
or_insert h pb none m = insert h pb m
or_insert h pb (some _) m = m

module _ (blake3_hash : List ℕ → List ℕ) (block_hash : BlockHeader → Hash)
    (executes : PendingBlock → Bool) where
  -- Our vote was moved to the leader, which may have given it a quorum.
  unfoldable pub settle_leader : ℕ → Hash → Engine → Engine
  settle_leader height leader e =
      let voters = or_empty (lookup leader (v2_tally e height)) in
      if has_quorum e.validator_set voters
      then v2_finalize block_hash executes height leader e
      else e

  unfoldable pub move_vote : ℕ → Hash → Engine → Engine
  move_vote height leader e =
      if not (is_validator e.validator_id e)
      then e
      else if same_hash leader (lookup e.validator_id (votes_at e height))
      then e
      else settle_leader height leader (record (set_vote e.validator_id height leader e) {
        v2_revotes = push e.v2_revotes (height, leader);
      })

  abbrev pub follow : ℕ → Option Hash → Engine → Engine
  follow height none e = e
  follow height (some leader) e = move_vote height leader e

  abbrev pub decide : ℕ → Option Hash → List (Hash × List ℕ) → Engine → Engine
  decide height (some h) tally e = v2_finalize block_hash executes height h e
  decide height none tally e = follow height (v2_leader blake3_hash e height tally) e

  abbrev pub reevaluate_tally : ℕ → List (Hash × List ℕ) → Engine → Engine
  reevaluate_tally height [] e = e
  reevaluate_tally height (t ∷ ts) e =
      decide height (winner blake3_hash e height (t ∷ ts)) (t ∷ ts) e

  unfoldable pub v2_reevaluate : ℕ → Engine → Engine
  v2_reevaluate height e =
      if not (height == add_u64 (height_of e.chain) 1)
      then e
      else reevaluate_tally height (v2_tally e height) e

  unfoldable pub v2_record_block : BlockHeader → List UserOperation → Engine → Engine
  v2_record_block header operations e =
      let bh = block_hash header in
      let pb : PendingBlock = record {
        header = header;
        operations = operations;
        already_executed = false;
        has_revert = false;
        mismatch_count = 0;
      } in
      let held = blocks_at e header.height in
      v2_reevaluate header.height (record e {
        v2_blocks = insert header.height (or_insert bh pb (lookup bh held) held) e.v2_blocks;
      })

  unfoldable pub v2_record_vote : ℕ → ℕ → Hash → Engine → Engine
  v2_record_vote validator_id height hash e =
      v2_reevaluate height (set_vote validator_id height hash e)

  -- `accept_attestation` at a height where the fork choice is active: whether the chain grew.
  unfoldable pub accept_v2_attestation : ℕ → ℕ → Hash → Engine → Engine × Bool
  accept_v2_attestation validator_id block_height attested_hash e =
      if not (is_validator validator_id e)
      then (e, false)
      else (let before = height_of e.chain in
          let after = v2_record_vote validator_id block_height attested_hash e in
          if leb block_height before || ltb (add_u64 before max_v2_vote_lookahead) block_height
          then (e, false)
          else (after, ltb before (height_of after.chain)))
