-- ===== src/ForkChoice/Rules.antt =====
-- The methods of fork choice (crates/solen-consensus/src/engine.rs). `block_hash` hashes the JSON of
-- a header by two libraries: it is a parameter, and so is blake3. `executes` is the verdict of the
-- executor on a block, whether the state root that it computes is the one that the header claims.
use solen.Base.{
  ℕ, Bool, true, not, ◌+◌, ◌&&◌, ◌||◌, Option, none, some, List, [], ◌∷◌, map, if◌then◌else◌, ltb,
  length, ◌==◌, is_some, any, contains, push, retain, lookup, insert, erase, nat_key, u64_max,
}
use solen.Consensus.Validators.{stake_of, has_quorum}
use solen.Consensus.Proposer.{proposer_order_for_height}
use solen.ForkChoice.State.{
  is_drifted, is_lasting, Hash, BlockHeader, PendingBlock, Attestation, Engine, or_empty, above,
  fc_v2_active, votes_at, blocks_at, invalid_at,
}

-- `v2_tally`: one vote after the other is entered under its hash.
unfoldable pub tally_from : List (ℕ × Hash) → List (Hash × List ℕ) → List (Hash × List ℕ)
tally_from [] t = t
tally_from ((vid, h) ∷ votes) t = tally_from votes (insert h (push (or_empty (lookup h t)) vid) t)

unfoldable pub v2_tally : Engine → ℕ → List (Hash × List ℕ)
v2_tally e height = tally_from (votes_at e height) []

-- `position`, or `usize::MAX`.
unfoldable pub rank_from : ℕ → ℕ → List ℕ → ℕ
rank_from i proposer [] = u64_max
rank_from i proposer (id ∷ ids) = if id == proposer then i else rank_from (i + 1) proposer ids

-- The best candidate so far: its hash, stake and rank.
pub record Best : Type 0 where
  pub hash : Hash
  pub stake : ℕ
  pub rank : ℕ

-- The total order: stake, then proposer rank, then hash.
unfoldable pub beats : Best → Best → Bool
beats c b =
    ltb b.stake c.stake
    || (((c.stake == b.stake) && ltb c.rank b.rank)
        || ((c.stake == b.stake) && ((c.rank == b.rank) && ltb c.hash b.hash)))

abbrev pub better : Best → Option Best → Bool
better c none = true
better c (some b) = beats c b

unfoldable pub improve : Best → Option Best → Option Best
improve c best = if better c best then some c else best

abbrev pub best_hash : Option Best → Option Hash
best_hash none = none
best_hash (some b) = some b.hash

module _ (blake3_hash : List ℕ → List ℕ) (e : Engine) (height : ℕ) where
  unfoldable pub candidate : Hash → List ℕ → PendingBlock → Best
  candidate hash voters block = record {
    hash = hash;
    stake = stake_of e.validator_set voters;
    rank =
        rank_from 0 block.header.proposer
          (proposer_order_for_height blake3_hash e.validator_set height e.epoch_seed);
  }

  abbrev pub consider : Hash → List ℕ → Option PendingBlock → Option Best → Option Best
  consider hash voters none best = best
  consider hash voters (some block) best = improve (candidate hash voters block) best

  -- One round of the loop of `v2_leader`.
  unfoldable pub round : Hash → List ℕ → Option Best → Option Best
  round hash voters best =
      if contains hash (invalid_at e height)
      then best
      else consider hash voters (lookup hash (blocks_at e height)) best

  unfoldable pub leader_loop : List (Hash × List ℕ) → Option Best → Option Best
  leader_loop [] best = best
  leader_loop ((hash, voters) ∷ tally) best = leader_loop tally (round hash voters best)

  unfoldable pub v2_leader : List (Hash × List ℕ) → Option Hash
  v2_leader tally = best_hash (leader_loop tally none)

  -- The loop of `v2_reevaluate` over the tally: a hash that has not been proven invalid, has a
  -- quorum, and whose block is held.
  unfoldable pub wins : Hash → List ℕ → Bool
  wins hash voters =
      not (contains hash (invalid_at e height))
      && (has_quorum e.validator_set voters && is_some (lookup hash (blocks_at e height)))

  unfoldable pub winner : List (Hash × List ℕ) → Option Hash
  winner [] = none
  winner ((hash, voters) ∷ tally) =
      let rest = winner tally in if wins hash voters then some hash else rest

unfoldable pub commit_block : ℕ → PendingBlock → List Attestation → Engine → Engine
commit_block height pb attestations e = record e {
  chain =
      push e.chain
        (record { header = pb.header; attestations = attestations; operations = pb.operations });
  v2_invalid = above height e.v2_invalid;
}

unfoldable pub attestations_for : ℕ → Hash → List (ℕ × Hash) → List Attestation
attestations_for height hash votes =
    map (λ v. record { validator_id = v.0; block_height = height; block_hash = hash })
      (retain (λ v. v.1 == hash) votes)

-- Drops the votes and the candidates at and below a height.
unfoldable pub drop_v2 : ℕ → Engine → Engine
drop_v2 height e = record e {
  v2_blocks = above height e.v2_blocks;
  v2_votes = above height e.v2_votes;
}

-- The candidate is taken out of the candidates of its height.
unfoldable pub stage_block : ℕ → Hash → PendingBlock → Engine → Engine
stage_block height hash pb e = record e {
  v2_blocks = insert height (erase hash (blocks_at e height)) e.v2_blocks;
  pending_blocks = insert height pb e.pending_blocks;
  pending_attestations =
      insert height (attestations_for height hash (votes_at e height)) e.pending_attestations;
}

-- A block of our own that can be undone.
abbrev pub is_undoable : PendingBlock → Bool
is_undoable pb = pb.already_executed && pb.has_revert

abbrev pub without_undoable : ℕ × List (Hash × PendingBlock) → ℕ × List (Hash × PendingBlock)
without_undoable entry = (entry.0, retain (λ c. not (is_undoable c.1)) entry.1)

-- A store that drifted from the chain's last block is put back: our own blocks that were executed
-- and not finalized are undone and dropped, and a resync is asked for when the drift is left.
unfoldable pub restore_store_to_finalized_tip : Engine → Engine
restore_store_to_finalized_tip e =
    if (length e.chain == 0) || not (is_drifted e.store_drift) then e else record e {
      v2_blocks = map without_undoable e.v2_blocks;
      pending_blocks = retain (λ p. not (is_undoable p.1)) e.pending_blocks;
      needs_resync = e.needs_resync || is_lasting e.store_drift;
    }

module _ (block_hash : BlockHeader → Hash) (executes : PendingBlock → Bool) where
  -- The effect of `finalize_pending_block` on the state of fork choice. A block of our own is
  -- executed already; a block with a wrong state root is marked, and our vote for it withdrawn.
  unfoldable pub reject_block : ℕ → PendingBlock → Engine → Engine
  reject_block height pb e =
      let bad = block_hash pb.header in
      let own = votes_at e height in
      if fc_v2_active e height
      then record e {
        v2_invalid = insert height (bad ∷ invalid_at e height) e.v2_invalid;
        v2_votes =
            if any (λ v. (v.0 == e.validator_id) && (v.1 == bad)) own
            then insert height (erase e.validator_id own) e.v2_votes
            else e.v2_votes;
      }
      else record e { needs_resync = true }

  -- A block of a peer is executed on the store of the finalized tip.
  abbrev pub execute_received : ℕ → PendingBlock → List Attestation → Engine → Engine
  execute_received height pb attestations e =
      if executes pb then commit_block height pb attestations e else reject_block height pb e

  abbrev pub settle : ℕ → Option PendingBlock → List Attestation → Engine → Engine
  settle height none attestations e = e
  settle height (some pb) attestations e =
      if pb.already_executed
      then commit_block height pb attestations e
      else execute_received height pb attestations (restore_store_to_finalized_tip e)

  unfoldable pub finalize_pending_block : ℕ → Engine → Engine
  finalize_pending_block height e =
      settle height (lookup height e.pending_blocks)
        (or_empty (lookup height e.pending_attestations))
        (record e {
          pending_blocks = erase height e.pending_blocks;
          pending_attestations = erase height e.pending_attestations;
        })

  abbrev pub finalize_block : ℕ → Hash → Option PendingBlock → Engine → Engine
  finalize_block height hash none e = e
  finalize_block height hash (some pb) e =
      drop_v2 height (finalize_pending_block height (stage_block height hash pb e))

  unfoldable pub v2_finalize : ℕ → Hash → Engine → Engine
  v2_finalize height hash e = finalize_block height hash (lookup hash (blocks_at e height)) e
