-- ===== src/ForkChoice/State.antt =====
-- The state that fork choice reads and writes (crates/solen-consensus/src/engine.rs,
-- crates/solen-types/src/block.rs).
-- A hash or an identifier is 32 bytes that are compared and ordered only, so it is the number that
-- the bytes spell, the first byte highest, which orders as the bytes do. A `HashMap` is a list of
-- entries in the order of their keys.
use solen.Base.{
  ℕ, Bool, true, false, Option, none, some, List, [], ◌∷◌, ltb, leb, retain, lookup, insert,
  nat_key,
}
use solen.Consensus.Validators.{ValidatorSet}
use solen.Mempool.Entries.{UserOperation}

abbrev pub Hash : Type 0
Hash = ℕ

pub record BlockHeader : Type 0 where
  pub height : ℕ
  pub epoch : ℕ
  pub parent_hash : Hash
  pub state_root : Hash
  pub transactions_root : Hash
  pub receipts_root : Hash
  pub proposer : ℕ
  pub timestamp_ms : ℕ
  pub proposer_signature : List ℕ

-- Less the times and the results, which fork choice only carries along; of a reverse delta, whether
-- there is one.
pub record PendingBlock : Type 0 where
  pub header : BlockHeader
  pub operations : List UserOperation
  pub already_executed : Bool
  pub has_revert : Bool
  pub mismatch_count : ℕ

pub record Attestation : Type 0 where
  pub validator_id : ℕ
  pub block_height : ℕ
  pub block_hash : Hash

pub record FinalizedBlock : Type 0 where
  pub header : BlockHeader
  pub attestations : List Attestation
  pub operations : List UserOperation

-- What comparing the root of the store with that of the chain's last block shows: that they are the
-- same, that the reverse deltas at hand, in memory or in the store, bring the store back, or that
-- they do not. The store is not part of the model: a finalization makes one comparison, the field is
-- what that one shows, and no operation writes it.
pub data StoreDrift : Type 0 where
  no_drift undoable lasting : StoreDrift

abbrev pub is_drifted : StoreDrift → Bool
is_drifted no_drift = false
is_drifted undoable = true
is_drifted lasting = true

abbrev pub is_lasting : StoreDrift → Bool
is_lasting no_drift = false
is_lasting undoable = false
is_lasting lasting = true

-- The fields of `ConsensusEngine` and its configuration that fork choice uses. The seed is the one
-- that `epoch_seed` returns for the current epoch.
pub record Engine : Type 0 where
  pub validator_id : ℕ
  pub fork_choice_v2_height : ℕ
  pub epoch_seed : List ℕ
  pub validator_set : ValidatorSet
  pub chain : List FinalizedBlock
  pub pending_blocks : List (ℕ × PendingBlock)
  pub pending_attestations : List (ℕ × List Attestation)
  pub v2_blocks : List (ℕ × List (Hash × PendingBlock))
  pub v2_votes : List (ℕ × List (ℕ × Hash))
  pub v2_revotes : List (ℕ × Hash)
  pub v2_invalid : List (ℕ × List Hash)
  pub needs_resync : Bool
  pub store_drift : StoreDrift

abbrev pub or_empty {ℓ} : {A : Type ℓ} → Option (List A) → List A
or_empty none = []
or_empty (some xs) = xs

-- `height()`: that of the last block of the chain.
unfoldable pub height_of : List FinalizedBlock → ℕ
height_of [] = 0
height_of (b ∷ []) = b.header.height
height_of (b ∷ c ∷ bs) = height_of (c ∷ bs)

-- `retain(|h, _| *h > height)`
unfoldable pub above {ℓ} : {V : Type ℓ} → ℕ → List (ℕ × V) → List (ℕ × V)
above height m = retain (λ p. ltb height p.0) m

unfoldable pub fc_v2_active : Engine → ℕ → Bool
fc_v2_active e height = leb e.fork_choice_v2_height height

-- `take_v2_revotes`
unfoldable pub take_v2_revotes : Engine → Engine × List (ℕ × Hash)
take_v2_revotes e = (record e { v2_revotes = [] }, e.v2_revotes)

-- The votes of a height, and the candidates.
abbrev pub votes_at : Engine → ℕ → List (ℕ × Hash)
votes_at e height = or_empty (lookup height e.v2_votes)

abbrev pub blocks_at : Engine → ℕ → List (Hash × PendingBlock)
blocks_at e height = or_empty (lookup height e.v2_blocks)

abbrev pub invalid_at : Engine → ℕ → List Hash
invalid_at e height = or_empty (lookup height e.v2_invalid)

-- `entry(height).or_default().insert(validator_id, hash)`
unfoldable pub set_vote : ℕ → ℕ → Hash → Engine → Engine
set_vote validator_id height hash e = record e {
  v2_votes = insert height (insert validator_id hash (votes_at e height)) e.v2_votes;
}
