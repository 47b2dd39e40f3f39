-- ===== src/Vesting/Claims.antt =====
-- What a claim pays, and which schedule it pays from.
use solen.Base.{
  ℕ, ap, ◌∙◌, add_u128, ◌+◌, ◌-◌, ◌≤◌, ◌<◌, ◌≡◌, refl, some, arith, ok, IsOk, All, find,
  update_first, All-find, find-test, find-push, find-update_first, sum_by, sum_by-update_first,
  sum_u128-eq, add_u128-eq, u64_mod, u128_mod,
}
use solen.Vesting.State.{
  VestingContract, VestingSchedule, VestingType, vested_at, claimable_at, claim, add_schedule,
  new_schedule, by_recipient, add_claimed, locked, total_locked, total_epochs,
}
use solen.Vesting.Schedules.{vested_at_mono}

-- No more has been claimed than the amount, and the amount and the duration fit in their words.
pub record IsWithin (v : VestingSchedule) : Type 0 where
  pub claimed_within : v.claimed ≤ v.total_amount
  pub amount_fits : v.total_amount < u128_mod
  pub duration_fits : total_epochs v.vesting_type < u64_mod

abbrev pub IsFunded : VestingContract → Type 0
IsFunded s = All IsWithin s.schedules × (sum_by locked s.schedules < u128_mod)

claim-inv :
    (s : VestingContract) (r e : ℕ)
    → IsOk (claim s r e).1
    → (v : VestingSchedule) × (find (by_recipient r) s.schedules ≡ some v)
      × (0 < claimable_at v e)
      × (claim s r e ≡ (
        record s {
          schedules = update_first (by_recipient r) (add_claimed (claimable_at v e)) s.schedules;
        },
        ok (claimable_at v e),
      ))
unfolding claim
claim-inv s r e done = ground arith

due-sum :
    (v : VestingSchedule) (e : ℕ)
    → IsWithin v
    → 0 < claimable_at v e
    → (v.claimed < vested_at v e)
      × (add_u128 v.claimed (claimable_at v e) ≡ vested_at v e)
      × (vested_at v e ≤ v.total_amount)
unfolding claimable_at
due-sum v e h due =
    let bound = (vested_at_mono v e e h.duration_fits (omega arith)).1 in
    (
      omega (arith, due),
      add_u128-eq v.claimed (vested_at v e - v.claimed) (omega (arith, bound, due, h.amount_fits))
          ∙ omega (arith, due),
      bound,
    )

-- Paying an amount that is locked moves it out of the locked total.
locked-pay :
    (s : VestingContract) (r amount : ℕ) {v : VestingSchedule}
    → find (by_recipient r) s.schedules ≡ some v
    → sum_by locked s.schedules < u128_mod
    → add_u128 v.claimed amount ≡ v.claimed + amount
    → v.claimed + amount ≤ v.total_amount
    → total_locked
          (record s { schedules = update_first (by_recipient r) (add_claimed amount) s.schedules })
        + amount
      ≡ total_locked s
unfolding total_locked
locked-pay s r amount {v} found fits exact room =
    let moved =
      sum_by-update_first (by_recipient r) locked (add_claimed amount) s.schedules found in
    let now = update_first (by_recipient r) (add_claimed amount) s.schedules in
    omega (
      arith,
      moved,
      exact,
      sum_u128-eq locked s.schedules fits,
      sum_u128-eq locked now (omega (arith, moved, exact)),
    )

-- A claim that succeeds pays what the recipient's schedule has vested and not yet paid, at least
-- one unit. Afterwards the schedule has paid exactly what is vested, and the contract's locked
-- total has dropped by exactly the payment. No schedule may have paid more than its amount, and the
-- amounts must fit in 128 bits.
pub claim-IsOk :
    (s : VestingContract) (r e : ℕ)
    → IsFunded s
    → IsOk (claim s r e).1
    → (v : VestingSchedule) × (find (by_recipient r) s.schedules ≡ some v)
      × ((claim s r e).1 ≡ ok (vested_at v e - v.claimed))
      × (v.claimed < vested_at v e)
      × (find (by_recipient r) (claim s r e).0.schedules
          ≡ some (record v { claimed = vested_at v e }))
      × (total_locked (claim s r e).0 + (vested_at v e - v.claimed) ≡ total_locked s)
unfolding claimable_at
claim-IsOk s r e (within, fits) done =
    let (v, found, some_due, result) = claim-inv s r e done in
    let here : IsWithin v = All-find (by_recipient r) IsWithin s.schedules within found in
    let (less, exact, bound) = due-sum v e here some_due in
    rw result (
      v,
      found,
      refl,
      less,
      find-update_first (by_recipient r) (add_claimed (claimable_at v e)) s.schedules found
            (find-test (by_recipient r) s.schedules found)
          ∙ ap (λ paid. some (record v { claimed = paid })) exact,
      locked-pay s r (claimable_at v e) found fits (exact ∙ omega (arith, less))
          (omega (arith, less, bound)),
    )

-- A recipient's claim is answered from the first of its schedules alone: with a further schedule
-- for the same recipient every claim has the result that it had without it.
claim-first_schedule :
    (s : VestingContract) (r e amount start : ℕ) (ty : VestingType) {v : VestingSchedule}
    → find (by_recipient r) s.schedules ≡ some v
    → (claim (add_schedule s r amount ty start) r e).1 ≡ (claim s r e).1
unfolding claim add_schedule
claim-first_schedule s r e amount start ty {v} found =
    ground (arith, find-push (by_recipient r) s.schedules (new_schedule r amount ty start))
