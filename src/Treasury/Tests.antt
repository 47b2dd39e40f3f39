-- ===== src/Treasury/Tests.antt =====
-- Runs of the treasury, and the theorems at one grant.
use solen.Base.{◌≡◌, refl, arith, err, IsOk, find, count, add_u128}
use solen.Treasury.State.{
  TreasuryContract, new, collect_fee, create_grant, disburse_grant, insufficient_balance,
}
use solen.Treasury.Books.{IsBalanced, Reach, here, next, collects, creates, Reach-IsBalanced}

-- A fee of a hundred, half of it burned, and a grant of thirty.
abbrev granted : TreasuryContract
granted = (create_grant (collect_fee new 100 50) 4 30 "tools").0

new-IsBalanced : IsBalanced new
unfolding count
new-IsBalanced = record {
  books = refl;
  fits = omega arith;
  numbered = tt;
  unique = λ i. omega arith;
}

history : Reach new granted
unfolding collect_fee
history =
    next (next here (collects 100 50 (omega arith) (omega arith)))
      (creates 4 30 "tools" (omega arith))

granted-IsBalanced : IsBalanced granted
granted-IsBalanced = Reach-IsBalanced new-IsBalanced history

too_much : (create_grant (collect_fee new 100 50) 4 51 "tools").1 ≡ err (insufficient_balance 50 51)
unfolding create_grant collect_fee add_u128
too_much = refl

payable : IsOk (disburse_grant granted 0).1
unfolding create_grant collect_fee disburse_grant find add_u128
payable = tt

Reach-IsBalanced_example : IsBalanced granted
Reach-IsBalanced_example = Reach-IsBalanced new-IsBalanced history
