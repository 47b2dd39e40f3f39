-- ===== src/Consensus/Tests.antt =====
-- Runs of the validator set, and the theorems at a set of three.
use mathlib.Core.List.{Perm, Mem}
use solen.Base.{
  leb, ◌==◌, if◌then◌else◌, push, ℕ, ◌+◌, ◌*◌, ◌≤◌, ◌<◌, ◌≡◌, ◌⊎◌, refl, true, false, ◌&&◌, none,
  some, List, [], ◌∷◌, map, arith, find, retain, sum_by, length, replicate, contains, sum_u128,
  mul_u128,
}
use solen.Consensus.Validators.{
  ValidatorSet, ValidatorInfo, active_status, jailed, is_active, is_attester, has_quorum, info_id,
}
use solen.Consensus.Checkpoints.{
  FinalizedCheckpointStore, PendingCheckpoint, new, attester_ids, settle, propose_checkpoint,
  add_attestation, validate_block, is_finalized,
}
use solen.Consensus.Attestations.{
  none_yet, then_proposes, IsSound, Reach, starts, proposes, attests, Reach-IsSound,
  add_attestation-finalizes,
}
use solen.Consensus.Slashing.{SlashingEvidence, SlashingResult, double_sign, process_slashing}
use solen.Consensus.Proposer.{proposer_for_height_with_seed, proposer_order_for_height}
use solen.Consensus.Quorum.{total_stake, named_stake, has_quorum-overlap}
use solen.Consensus.Selection.{proposer_order_for_height-perm, proposer_for_height_with_seed-mem}
use solen.Consensus.Penalties.{process_slashing_lem}

abbrev first : ValidatorInfo
first = record { id = 3; stake = 40; status = active_status; missed_blocks = 0 }

abbrev second : ValidatorInfo
second = record { id = 1; stake = 30; status = active_status; missed_blocks = 99 }

abbrev third : ValidatorInfo
third = record { id = 2; stake = 20; status = jailed; missed_blocks = 0 }

abbrev trio : ValidatorSet
trio = record { validators = first ∷ second ∷ third ∷ [] }

-- In place of the hash of the blake3 library.
abbrev toy_hash : List ℕ → List ℕ
toy_hash bytes = replicate 32 (length bytes)

two_of_three : has_quorum trio (3 ∷ 1 ∷ []) ≡ true
unfolding has_quorum sum_u128 sum_by retain contains mul_u128
two_of_three = refl

-- The jailed validator's stake counts, and sixty of ninety is not more than two thirds.
exactly_two_thirds : has_quorum trio (3 ∷ 2 ∷ []) ≡ false
unfolding has_quorum sum_u128 sum_by retain contains mul_u128
exactly_two_thirds = refl

has_quorum-overlap_example :
    total_stake trio
    < 3 * named_stake (λ v. is_attester (3 ∷ 1 ∷ []) v && is_attester (1 ∷ 3 ∷ 2 ∷ []) v) trio
unfolding has_quorum sum_u128 sum_by retain contains mul_u128
has_quorum-overlap_example =
    has_quorum-overlap trio (3 ∷ 1 ∷ []) (1 ∷ 3 ∷ 2 ∷ []) (omega arith) refl refl

proposer_order_for_height-perm_example :
    Perm
      (proposer_order_for_height toy_hash trio 5 (replicate 32 1))
      (map (λ v. v.id) (retain is_active trio.validators))
proposer_order_for_height-perm_example =
    proposer_order_for_height-perm toy_hash trio 5 (replicate 32 1)

proposer_for_height_with_seed-mem_example :
    ((retain is_active trio.validators ≡ [])
      × (proposer_for_height_with_seed toy_hash trio 5 (replicate 32 1) ≡ none))
    ⊎ ((i : ℕ) × (proposer_for_height_with_seed toy_hash trio 5 (replicate 32 1) ≡ some i)
        × Mem i (map (λ v. v.id) (retain is_active trio.validators)))
proposer_for_height_with_seed-mem_example =
    proposer_for_height_with_seed-mem toy_hash trio 5 (replicate 32 1)

abbrev twice_signed : SlashingEvidence
twice_signed = record { offender = 3; reason = double_sign 8 0 1 }

process_slashing_lem_example :
    let (after, result) = process_slashing trio twice_signed in
    (r : SlashingResult) × (result ≡ some r)
    × (find (info_id 3) after.validators
        ≡ some (record first { stake = r.remaining_stake; status = jailed }))
    × (total_stake after + r.penalty ≡ total_stake trio)
    × (10 * r.penalty ≤ 40)
    × (find (info_id 2) after.validators ≡ find (info_id 2) trio.validators)
unfolding find
process_slashing_lem_example =
    process_slashing_lem trio twice_signed 2 {v = first} refl (omega arith) (omega arith)

-- A checkpoint to which one of the three attested.
abbrev half_attested : FinalizedCheckpointStore
half_attested = (add_attestation (propose_checkpoint new 100 1 7 8 5) 3 (9 ∷ []) trio).0

half_attested-Reach : Reach (λ set. set ≡ trio) half_attested
half_attested-Reach = attests 3 (9 ∷ []) trio refl (proposes 100 1 7 8 5 starts)

Reach-IsSound_example :
    IsSound (λ set. set ≡ trio) (add_attestation half_attested 1 (9 ∷ []) trio).0
Reach-IsSound_example =
    Reach-IsSound (λ set. set ≡ trio) (attests 1 (9 ∷ []) trio refl half_attested-Reach)

-- The checkpoint was finalized, and a lower one is proposed.
abbrev then_proposed : FinalizedCheckpointStore
then_proposed = propose_checkpoint (add_attestation half_attested 1 (9 ∷ []) trio).0 50 0 3 4 6

add_attestation-finalizes_example :
    (p : PendingCheckpoint) × (half_attested.pending ≡ some p)
    × (contains 1 (attester_ids p.attestations) ≡ false)
    × (has_quorum trio (push (attester_ids p.attestations) 1) ≡ true)
    × ((add_attestation half_attested 1 (9 ∷ []) trio).0.pending ≡ none)
    × ((height : ℕ) → is_finalized then_proposed height ≡ leb height p.height)
    × ((hash : ℕ)
        → validate_block then_proposed p.height hash
          ≡ (if hash == p.block_hash then none else some p.block_hash))
unfolding add_attestation propose_checkpoint settle attester_ids has_quorum sum_u128 sum_by retain
    contains mul_u128
add_attestation-finalizes_example =
    add_attestation-finalizes half_attested then_proposed 1 (9 ∷ []) trio refl
      (then_proposes 50 0 3 4 6 none_yet)
