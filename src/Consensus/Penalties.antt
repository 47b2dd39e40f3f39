-- ===== src/Consensus/Penalties.antt =====
-- What slashing takes, and what it leaves alone.
use solen.Base.{
  ℕ, ◌+◌, ◌*◌, ◌-◌, ◌≤◌, ◌<◌, ◌≡◌, ◌≢◌, refl, ◌∙◌, false, some, arith, ◌==◌, find, update_first,
  u128_mod, mul_u128-eq, find-test, find-update_first, find-update_first_ne, sum_by-update_first,
}
use solen.Consensus.Validators.{ValidatorSet, ValidatorInfo, jailed, info_id, jail, set_jailed}
use solen.Consensus.Slashing.{
  SlashingEvidence, SlashingReason, SlashingResult, double_sign, downtime, invalid_state_root,
  penalty_of, cut_stake, process_slashing,
}
use solen.Consensus.Quorum.{total_stake}

penalty_of-le :
    (reason : SlashingReason) (v : ValidatorInfo)
    → v.stake * 1000 < u128_mod
    → 10 * penalty_of reason v ≤ v.stake
unfolding penalty_of
penalty_of-le (double_sign height block_a block_b) v small =
    omega (arith, mul_u128-eq v.stake 1000 small)
penalty_of-le (downtime missed_blocks) v small = omega (arith, mul_u128-eq v.stake 100)
penalty_of-le (invalid_state_root height expected got) v small =
    omega (arith, mul_u128-eq v.stake 500)

-- Slashing a registered offender jails it and takes its penalty, at most a tenth of its stake, out
-- of the total stake: the record that is returned gives the penalty and what the offender keeps. No
-- other validator changes. The stake must stay within 128 bits when it is multiplied by 1000.
pub process_slashing_lem :
    (set : ValidatorSet) (evidence : SlashingEvidence) (i : ℕ) {v : ValidatorInfo}
    → find (info_id evidence.offender) set.validators ≡ some v
    → i ≢ evidence.offender
    → v.stake * 1000 < u128_mod
    → let (after, result) = process_slashing set evidence in
      (r : SlashingResult) × (result ≡ some r)
      × (find (info_id evidence.offender) after.validators
          ≡ some (record v { stake = r.remaining_stake; status = jailed }))
      × (total_stake after + r.penalty ≡ total_stake set)
      × (10 * r.penalty ≤ v.stake)
      × (find (info_id i) after.validators ≡ find (info_id i) set.validators)
unfolding process_slashing jail
process_slashing_lem set evidence i {v} found ne small =
    let offender = info_id evidence.offender in
    let cut = cut_stake evidence.reason in
    let mine = find-test offender set.validators found in
    let cut_list = update_first offender cut set.validators in
    let once = find-update_first offender cut set.validators found mine in
    let bound = penalty_of-le evidence.reason v small in
    rw (found, process_slashing)
      (
        record {
          offender = evidence.offender;
          penalty = penalty_of evidence.reason v;
          remaining_stake = v.stake - penalty_of evidence.reason v;
          reason = evidence.reason;
        },
        refl,
        find-update_first offender set_jailed cut_list once mine,
        omega (
          arith,
          sum_by-update_first offender (λ w. w.stake) cut set.validators found,
          sum_by-update_first offender (λ w. w.stake) set_jailed cut_list once,
          bound,
        ),
        bound,
        (let other : (v.id == i) ≡ false = ground (arith, mine) in
            find-update_first_ne offender (info_id i) set_jailed cut_list once other other
            ∙ find-update_first_ne offender (info_id i) cut set.validators found other other),
      )
