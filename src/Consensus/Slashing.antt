-- ===== src/Consensus/Slashing.antt =====
-- Penalties and missed blocks (crates/solen-consensus/src/slashing.rs).
-- The text of a reason and the log lines are left out.
use solen.Base.{
  ℕ, ◌/◌, ◌-◌, Option, none, some, leb, if◌then◌else◌, find, update_first, mul_u128, add_u64,
}
use solen.Consensus.Validators.{ValidatorSet, ValidatorInfo, info_id, jail}

pub data SlashingReason : Type 0 where
  double_sign : ℕ → ℕ → ℕ → SlashingReason
  downtime : ℕ → SlashingReason
  invalid_state_root : ℕ → ℕ → ℕ → SlashingReason

unfoldable pub penalty_bps : SlashingReason → ℕ
penalty_bps (double_sign height block_a block_b) = 1000
penalty_bps (downtime missed_blocks) = 100
penalty_bps (invalid_state_root height expected got) = 500

pub record SlashingEvidence : Type 0 where
  pub offender : ℕ
  pub reason : SlashingReason

pub record SlashingResult : Type 0 where
  pub offender : ℕ
  pub penalty : ℕ
  pub remaining_stake : ℕ
  pub reason : SlashingReason

abbrev pub downtime_threshold : ℕ
downtime_threshold = 100

unfoldable pub penalty_of : SlashingReason → ValidatorInfo → ℕ
unfolding penalty_bps
penalty_of reason v = mul_u128 v.stake (penalty_bps reason) / 10_000

abbrev pub cut_stake : SlashingReason → ValidatorInfo → ValidatorInfo
cut_stake reason v = record v { stake = v.stake - penalty_of reason v }

unfoldable pub process_slashing :
    ValidatorSet → SlashingEvidence → ValidatorSet × Option SlashingResult
process_slashing set evidence = elim (find (info_id evidence.offender) set.validators) [
  | none ↦ ((jail set evidence.offender).0, none)
  | some v ↦
      let cut : ValidatorSet = record {
        validators =
            update_first (info_id evidence.offender) (cut_stake evidence.reason) set.validators;
      } in
      (
        (jail cut evidence.offender).0,
        some (record {
          offender = evidence.offender;
          penalty = penalty_of evidence.reason v;
          remaining_stake = v.stake - penalty_of evidence.reason v;
          reason = evidence.reason;
        }),
      )
]

abbrev pub miss_one : ValidatorInfo → ValidatorInfo
miss_one v = record v { missed_blocks = add_u64 v.missed_blocks 1 }

unfoldable pub record_missed_block : ValidatorSet → ℕ → ValidatorSet × Option SlashingEvidence
record_missed_block set proposer = elim (find (info_id proposer) set.validators) [
  | none ↦ (set, none)
  | some v ↦ (
    record { validators = update_first (info_id proposer) miss_one set.validators },
    if leb downtime_threshold (add_u64 v.missed_blocks 1)
        then some (record { offender = proposer; reason = downtime (add_u64 v.missed_blocks 1) })
        else none,
  )
]
