-- ===== src/Vesting/Schedules.antt =====
-- How much of a schedule is vested, and when.
use native.Mathlib.Nat.{
  div-le_of_le-mul, le-div_iff_mul-le, div-mul-le_self, mul-le-mul_left, mul_comm,
}
use solen.Base.{
  ℕ, ◌-◌, ◌/◌, ◌≤◌, ◌<◌, ◌≡◌, ◌⊎◌, inl, inr, arith, u64_mod, sub_u64-eq, saturating_mul_u128,
  saturating_mul_u128-le,
}
use solen.Vesting.State.{VestingSchedule, vested_at, cliff_epochs, total_epochs}

saturating_mul_u128_mono : (t a b : ℕ) → a ≤ b → saturating_mul_u128 t a ≤ saturating_mul_u128 t b
unfolding saturating_mul_u128
saturating_mul_u128_mono t a b h = omega (arith, mul-le-mul_left t h)

div_mono : (n a b : ℕ) → 0 < n → a ≤ b → a / n ≤ b / n
div_mono n a b pos h = (le-div_iff_mul-le pos).1 (omega (arith, div-mul-le_self a n))

-- The linear part: `t * m / n`.
share_le : (t m n : ℕ) → m ≤ n → saturating_mul_u128 t m / n ≤ t
share_le t m n h =
    div-le_of_le-mul n
      (omega (arith, saturating_mul_u128-le t m, mul-le-mul_left t h, mul_comm n t))

lt_or_le : (a b : ℕ) → (a < b) ⊎ (b ≤ a)
lt_or_le a b = ground arith

module _ (v : VestingSchedule) (e : ℕ) where
  -- The schedule's parts by the epochs that have passed since its start.
  vested_before : e - v.start_epoch < cliff_epochs v.vesting_type → vested_at v e ≡ 0
  unfolding vested_at
  vested_before h = ground arith

  vested_after :
      cliff_epochs v.vesting_type ≤ e - v.start_epoch
      → total_epochs v.vesting_type ≤ e - v.start_epoch
      → vested_at v e ≡ v.total_amount
  unfolding vested_at
  vested_after h k = ground arith

  vested_between :
      total_epochs v.vesting_type < u64_mod
      → cliff_epochs v.vesting_type ≤ e - v.start_epoch
      → e - v.start_epoch < total_epochs v.vesting_type
      → vested_at v e
        ≡ saturating_mul_u128 v.total_amount (e - v.start_epoch - cliff_epochs v.vesting_type)
          / (total_epochs v.vesting_type - cliff_epochs v.vesting_type)
  unfolding vested_at
  vested_between fits h k = ground (
    arith,
    sub_u64-eq (total_epochs v.vesting_type) (cliff_epochs v.vesting_type) fits (omega arith),
    sub_u64-eq (e - v.start_epoch) (cliff_epochs v.vesting_type) (omega arith) h,
  )

  vested_at_le : total_epochs v.vesting_type < u64_mod → vested_at v e ≤ v.total_amount
  vested_at_le fits = elim (lt_or_le (e - v.start_epoch) (cliff_epochs v.vesting_type)) [
    | inl early ↦ omega (arith, vested_before early)
    | inr cliff ↦ elim (lt_or_le (e - v.start_epoch) (total_epochs v.vesting_type)) [
      | inr late ↦ omega (arith, vested_after cliff late)
      | inl during ↦ omega (
        arith,
        vested_between fits cliff during,
        share_le v.total_amount (e - v.start_epoch - cliff_epochs v.vesting_type)
            (total_epochs v.vesting_type - cliff_epochs v.vesting_type) (omega arith),
      )
    ]
  ]

-- What is vested never shrinks as the epochs pass, and never exceeds the schedule's amount, for
-- every schedule whose duration fits in 64 bits.
pub vested_at_mono :
    (v : VestingSchedule) (e f : ℕ)
    → total_epochs v.vesting_type < u64_mod
    → e ≤ f
    → (vested_at v e ≤ vested_at v f) × (vested_at v f ≤ v.total_amount)
vested_at_mono v e f fits h = (
  elim (lt_or_le (e - v.start_epoch) (cliff_epochs v.vesting_type)) [
    | inl early ↦ omega (arith, vested_before v e early)
    | inr cliff ↦ elim (lt_or_le (f - v.start_epoch) (total_epochs v.vesting_type)) [
      | inr late ↦ omega (arith, vested_after v f (omega arith) late, vested_at_le v e fits)
      | inl during ↦ omega (
        arith,
        vested_between v e fits cliff (omega arith),
        vested_between v f fits (omega arith) during,
        div_mono (total_epochs v.vesting_type - cliff_epochs v.vesting_type)
            (saturating_mul_u128 v.total_amount (e - v.start_epoch - cliff_epochs v.vesting_type))
            (saturating_mul_u128 v.total_amount (f - v.start_epoch - cliff_epochs v.vesting_type))
            (omega arith)
            (saturating_mul_u128_mono v.total_amount
              (e - v.start_epoch - cliff_epochs v.vesting_type)
              (f - v.start_epoch - cliff_epochs v.vesting_type) (omega arith)),
      )
    ]
  ],
  vested_at_le v f fits,
)
