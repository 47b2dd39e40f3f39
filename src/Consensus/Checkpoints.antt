-- ===== src/Consensus/Checkpoints.antt =====
-- Checkpoints (crates/solen-consensus/src/checkpoint.rs): the periodic ones, those that the
-- validators agree on, and the trusted ones.
-- A hash or an identifier is 32 bytes that are compared only, so it is the number that the bytes
-- spell. The clock's time is an argument. `none` in place of a store is a panic.
use solen.Base.{
  ℕ, ◌%◌, Bool, true, false, not, ◌&&◌, Option, none, some, List, [], ◌∷◌, map, if◌then◌else◌, ltb,
  leb, ◌==◌, find, length, push, contains,
}
use mathlib.Core.List.{reverse}
use solen.Consensus.Validators.{ValidatorSet, has_quorum}

abbrev pub checkpoint_interval : ℕ
checkpoint_interval = 100

pub record Checkpoint : Type 0 where
  pub height : ℕ
  pub epoch : ℕ
  pub state_root : ℕ
  pub block_hash : ℕ
  pub validator_set_hash : ℕ
  pub timestamp_ms : ℕ

unfoldable pub should_checkpoint : ℕ → Bool
should_checkpoint height = ltb 0 height && (height % checkpoint_interval == 0)

pub record CheckpointStore : Type 0 where
  pub checkpoints : List Checkpoint
  pub max_checkpoints : ℕ

-- `Vec::remove` of the first entry, which panics on an empty vector.
unfoldable pub without_first {ℓ} : {A : Type ℓ} → List A → Option (List A)
without_first [] = none
without_first (x ∷ xs) = some xs

abbrev pub add_to : Checkpoint → CheckpointStore → Option (List Checkpoint) → Option CheckpointStore
add_to checkpoint s none = none
add_to checkpoint s (some kept) = some (record s { checkpoints = push kept checkpoint })

unfoldable pub add : Checkpoint → CheckpointStore → Option CheckpointStore
add checkpoint s = add_to checkpoint s (
    if leb s.max_checkpoints (length s.checkpoints)
    then without_first s.checkpoints
    else some s.checkpoints)

unfoldable pub at_or_before : ℕ → List Checkpoint → Option Checkpoint
at_or_before height cs = find (λ c. leb c.height height) (reverse cs)

-- An attestation: the validator and its signature.
abbrev pub Attestation : Type 0
Attestation = ℕ × List ℕ

pub record FinalizedCheckpoint : Type 0 where
  pub height : ℕ
  pub epoch : ℕ
  pub block_hash : ℕ
  pub state_root : ℕ
  pub attestations : List Attestation

pub record PendingCheckpoint : Type 0 where
  pub height : ℕ
  pub epoch : ℕ
  pub block_hash : ℕ
  pub state_root : ℕ
  pub attestations : List Attestation
  pub created_at : ℕ

pub record FinalizedCheckpointStore : Type 0 where
  pub latest : Option FinalizedCheckpoint
  pub pending : Option PendingCheckpoint
  pub finalized_heights : List ℕ

-- `FinalizedCheckpointStore::new`
abbrev pub new : FinalizedCheckpointStore
new = record { latest = none; pending = none; finalized_heights = [] }

unfoldable pub propose_checkpoint :
    FinalizedCheckpointStore
    → (height epoch block_hash state_root now : ℕ) → FinalizedCheckpointStore
propose_checkpoint s height epoch block_hash state_root now = record s {
  pending = some (record {
    height = height;
    epoch = epoch;
    block_hash = block_hash;
    state_root = state_root;
    attestations = [];
    created_at = now;
  });
}

abbrev pub attester : Attestation → ℕ
attester a = a.0

unfoldable pub attester_ids : List Attestation → List ℕ
attester_ids attestations = map attester attestations

abbrev pub finalized : PendingCheckpoint → FinalizedCheckpoint
finalized p = record {
  height = p.height;
  epoch = p.epoch;
  block_hash = p.block_hash;
  state_root = p.state_root;
  attestations = p.attestations;
}

-- The last hundred heights are kept.
unfoldable pub push_height : List ℕ → ℕ → List ℕ
push_height heights height =
    let pushed = push heights height in if ltb 100 (length pushed) then tail pushed else pushed
  where
    tail : List ℕ → List ℕ
    tail [] = []
    tail (h ∷ hs) = hs

-- The pending checkpoint, with the attestation just pushed, is finalized when it has a quorum.
unfoldable pub settle :
    ValidatorSet → PendingCheckpoint → FinalizedCheckpointStore → FinalizedCheckpointStore × Bool
settle validator_set p s =
    if has_quorum validator_set (attester_ids p.attestations)
    then (
      record {
        latest = some (finalized p);
        pending = none;
        finalized_heights = push_height s.finalized_heights p.height;
      },
      true,
    )
    else (record s { pending = some p }, false)

abbrev pub attest :
    Option PendingCheckpoint
    → ℕ
    → List ℕ
    → ValidatorSet
    → FinalizedCheckpointStore
    → FinalizedCheckpointStore × Bool
attest none validator_id signature validator_set s = (s, false)
attest (some p) validator_id signature validator_set s =
    if contains validator_id (attester_ids p.attestations)
    then (s, false)
    else settle validator_set
        (record p { attestations = push p.attestations (validator_id, signature) }) s

unfoldable pub add_attestation :
    FinalizedCheckpointStore → ℕ → List ℕ → ValidatorSet → FinalizedCheckpointStore × Bool
add_attestation s validator_id signature validator_set =
    attest s.pending validator_id signature validator_set s

-- The hash that the finalized checkpoint expects, where it is another one.
abbrev pub conflict : Option FinalizedCheckpoint → ℕ → ℕ → Option ℕ
conflict none height block_hash = none
conflict (some cp) height block_hash =
    if (height == cp.height) && not (block_hash == cp.block_hash) then some cp.block_hash else none

unfoldable pub validate_block : FinalizedCheckpointStore → ℕ → ℕ → Option ℕ
validate_block s height block_hash = conflict s.latest height block_hash

abbrev pub is_at_most : ℕ → Option FinalizedCheckpoint → Bool
is_at_most height none = false
is_at_most height (some cp) = leb height cp.height

unfoldable pub is_finalized : FinalizedCheckpointStore → ℕ → Bool
is_finalized s height = is_at_most height s.latest

-- `TrustedCheckpoints::validate`, over its entries: heights and hashes.
unfoldable pub validate : List (ℕ × ℕ) → ℕ → ℕ → Option ℕ
validate [] height block_hash = none
validate ((cp_height, cp_hash) ∷ entries) height block_hash =
    let rest = validate entries height block_hash in
    if (height == cp_height) && not (block_hash == cp_hash) then some cp_hash else rest
