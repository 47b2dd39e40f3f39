-- ===== src/Vesting/Tests.antt =====
-- Runs of the vesting contract, and the theorems at one schedule.
use solen.Base.{
  ◌+◌, ◌-◌, ◌<◌, ◌≡◌, refl, some, [], ◌∷◌, arith, ok, err, IsOk, find, sum_by, sub_u64,
  saturating_mul_u128,
}
use solen.Vesting.State.{
  VestingContract, VestingSchedule, new, custom, vested_at, claimable_at, claim, set_admin,
  not_admin, cliff_not_reached, by_recipient, new_schedule, total_locked, total_epochs,
  cliff_epochs,
}
use solen.Vesting.Claims.{IsFunded, claim-IsOk}

-- A thousand units over a hundred epochs from epoch 10, with a cliff of twenty.
abbrev grant : VestingSchedule
grant = new_schedule 3 1000 (custom 20 100) 10

abbrev pool : VestingContract
pool = record new { schedules = grant ∷ [] }

pool-IsFunded : IsFunded pool
unfolding total_epochs sum_by
pool-IsFunded = ground arith

at_the_cliff : vested_at grant 30 ≡ 0
unfolding vested_at cliff_epochs total_epochs sub_u64 saturating_mul_u128
at_the_cliff = refl

halfway : vested_at grant 70 ≡ 500
unfolding vested_at cliff_epochs total_epochs sub_u64 saturating_mul_u128
halfway = refl

before_the_cliff : (claim pool 3 20).1 ≡ err cliff_not_reached
unfolding claim find claimable_at vested_at cliff_epochs
before_the_cliff = refl

-- Without an admin nobody takes the role.
no_first_come : (set_admin pool 3 3).1 ≡ err not_admin
unfolding set_admin
no_first_come = refl

half_due : IsOk (claim pool 3 70).1
unfolding claim find claimable_at vested_at cliff_epochs total_epochs sub_u64 saturating_mul_u128
half_due = tt

claim-IsOk_example :
    (v : VestingSchedule) × (find (by_recipient 3) pool.schedules ≡ some v)
    × ((claim pool 3 70).1 ≡ ok (vested_at v 70 - v.claimed))
    × (v.claimed < vested_at v 70)
    × (find (by_recipient 3) (claim pool 3 70).0.schedules
        ≡ some (record v { claimed = vested_at v 70 }))
    × (total_locked (claim pool 3 70).0 + (vested_at v 70 - v.claimed) ≡ total_locked pool)
claim-IsOk_example = claim-IsOk pool 3 70 pool-IsFunded half_due
