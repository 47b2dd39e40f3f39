-- ===== src/Vesting/State.antt =====
-- The vesting contract's state and methods (crates/solen-system-contracts/src/vesting.rs).
use solen.Base.{
  ℕ, ◌-◌, ◌*◌, ◌/◌, Bool, Option, none, some, List, [], Result, ok, err, ◌==◌, ltb, leb,
  if◌then◌else◌, find, push, update_first, sum_u128, add_u128, sub_u64, saturating_mul_u128,
}

abbrev pub epochs_per_year : ℕ
epochs_per_year = 52_596

abbrev pub epochs_per_month : ℕ
epochs_per_month = epochs_per_year / 12

pub data VestingError : Type 0 where
  not_found cliff_not_reached fully_claimed not_admin : VestingError

pub data VestingType : Type 0 where
  team investor validator : VestingType
  custom : ℕ → ℕ → VestingType

unfoldable pub cliff_epochs : VestingType → ℕ
cliff_epochs team = epochs_per_year
cliff_epochs investor = epochs_per_month * 6
cliff_epochs validator = epochs_per_month * 3
cliff_epochs (custom cliff total) = cliff

unfoldable pub total_epochs : VestingType → ℕ
total_epochs team = epochs_per_year * 4
total_epochs investor = epochs_per_month * 30
total_epochs validator = epochs_per_month * 15
total_epochs (custom cliff total) = total

pub record VestingSchedule : Type 0 where
  pub recipient : ℕ
  pub total_amount : ℕ
  pub claimed : ℕ
  pub vesting_type : VestingType
  pub start_epoch : ℕ

unfoldable pub vested_at : VestingSchedule → ℕ → ℕ
vested_at v current_epoch =
    let elapsed = current_epoch - v.start_epoch in
    let cliff = cliff_epochs v.vesting_type in
    let total_duration = total_epochs v.vesting_type in
    if ltb elapsed cliff
    then 0
    else if leb total_duration elapsed
    then v.total_amount
    else let vesting_period = sub_u64 total_duration cliff in
      if vesting_period == 0
      then v.total_amount
      else saturating_mul_u128 v.total_amount (sub_u64 elapsed cliff) / vesting_period

unfoldable pub claimable_at : VestingSchedule → ℕ → ℕ
claimable_at v current_epoch = vested_at v current_epoch - v.claimed

pub record VestingContract : Type 0 where
  pub schedules : List VestingSchedule
  pub admin : Option ℕ

-- `VestingContract::new`
abbrev pub new : VestingContract
new = record { schedules = []; admin = none }

abbrev pub by_recipient : ℕ → VestingSchedule → Bool
by_recipient r v = v.recipient == r

abbrev pub new_schedule : ℕ → ℕ → VestingType → ℕ → VestingSchedule
new_schedule recipient total_amount vesting_type start_epoch = record {
  recipient = recipient;
  total_amount = total_amount;
  claimed = 0;
  vesting_type = vesting_type;
  start_epoch = start_epoch;
}

unfoldable pub add_schedule : VestingContract → ℕ → ℕ → VestingType → ℕ → VestingContract
add_schedule s recipient total_amount vesting_type start_epoch = record s {
  schedules = push s.schedules (new_schedule recipient total_amount vesting_type start_epoch);
}

abbrev pub add_claimed : ℕ → VestingSchedule → VestingSchedule
add_claimed amount v = record v { claimed = add_u128 v.claimed amount }

unfoldable pub claim : VestingContract → ℕ → ℕ → VestingContract × Result ℕ VestingError
claim s recipient current_epoch = elim (find (by_recipient recipient) s.schedules) [
  | none ↦ (s, err not_found)
  | some v ↦
      let claimable = claimable_at v current_epoch in
      if claimable == 0
      then if leb v.total_amount v.claimed
        then (s, err fully_claimed)
        else (s, err cliff_not_reached)
      else (
        record s {
          schedules = update_first (by_recipient recipient) (add_claimed claimable) s.schedules;
        },
        ok claimable,
      )
]

unfoldable pub get_schedule : VestingContract → ℕ → Option VestingSchedule
get_schedule s recipient = find (by_recipient recipient) s.schedules

unfoldable pub set_admin :
    VestingContract → ℕ → ℕ → VestingContract × Result (Unit {0}) VestingError
set_admin s caller new_admin = elim s.admin [
  | none ↦ (s, err not_admin)
  | some current ↦
      if current == caller then (record s { admin = some new_admin }, ok tt) else (s, err not_admin)
]

unfoldable pub governance_set_admin : VestingContract → ℕ → VestingContract
governance_set_admin s new_admin = record s { admin = some new_admin }

unfoldable pub add_schedule_admin :
    VestingContract → ℕ → ℕ → ℕ → VestingType → ℕ → VestingContract × Result (Unit {0}) VestingError
add_schedule_admin s caller recipient total_amount vesting_type start_epoch = elim s.admin [
  | none ↦ (s, err not_admin)
  | some current ↦
      if current == caller
      then (
        record s {
          schedules =
              push s.schedules (new_schedule recipient total_amount vesting_type start_epoch);
        },
        ok tt,
      )
      else (s, err not_admin)
]

abbrev pub locked : VestingSchedule → ℕ
locked v = v.total_amount - v.claimed

unfoldable pub total_locked : VestingContract → ℕ
total_locked s = sum_u128 locked s.schedules
