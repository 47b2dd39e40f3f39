-- ===== src/Treasury/State.antt =====
-- The treasury's state and methods (crates/solen-system-contracts/src/treasury.rs).
use Prim.Native.String.{String}
use solen.Base.{
  ℕ, ◌-◌, Bool, true, false, ◌&&◌, not, none, some, List, [], Result, ok, err, ◌==◌, ltb,
  if◌then◌else◌, find, push, update_first, add_u64, add_u128, sub_u128,
}

pub data TreasuryError : Type 0 where
  insufficient_balance : ℕ → ℕ → TreasuryError
  unauthorized grant_not_found : TreasuryError

pub record Grant : Type 0 where
  pub id : ℕ
  pub recipient : ℕ
  pub amount : ℕ
  pub description : String
  pub disbursed : Bool

pub record TreasuryContract : Type 0 where
  pub balance : ℕ
  pub total_fees_collected : ℕ
  pub total_burned : ℕ
  pub total_grants_disbursed : ℕ
  pub grants : List Grant
  pub next_grant_id : ℕ

-- `TreasuryContract::new`
abbrev pub new : TreasuryContract
new = record {
  balance = 0;
  total_fees_collected = 0;
  total_burned = 0;
  total_grants_disbursed = 0;
  grants = [];
  next_grant_id = 0;
}

unfoldable pub collect_fee : TreasuryContract → ℕ → ℕ → TreasuryContract
collect_fee s amount burn_amount = record s {
  balance = add_u128 s.balance (amount - burn_amount);
  total_fees_collected = add_u128 s.total_fees_collected amount;
  total_burned = add_u128 s.total_burned burn_amount;
}

unfoldable pub create_grant :
    TreasuryContract → ℕ → ℕ → String → TreasuryContract × Result ℕ TreasuryError
create_grant s recipient amount description =
    if ltb s.balance amount then (s, err (insufficient_balance s.balance amount)) else (
      record s {
        next_grant_id = add_u64 s.next_grant_id 1;
        grants = push s.grants (record {
          id = s.next_grant_id;
          recipient = recipient;
          amount = amount;
          description = description;
          disbursed = false;
        });
      },
      ok s.next_grant_id,
    )

abbrev pub open_grant : ℕ → Grant → Bool
open_grant i g = (g.id == i) && not g.disbursed

abbrev pub has_id : ℕ → Grant → Bool
has_id i g = g.id == i

abbrev pub set_disbursed : Grant → Grant
set_disbursed g = record g { disbursed = true }

unfoldable pub disburse_grant :
    TreasuryContract → ℕ → TreasuryContract × Result (ℕ × ℕ) TreasuryError
disburse_grant s i = elim (find (open_grant i) s.grants) [
  | none ↦ (s, err grant_not_found)
  | some g ↦
      if ltb s.balance g.amount then (s, err (insufficient_balance s.balance g.amount)) else (
        record s {
          balance = sub_u128 s.balance g.amount;
          total_grants_disbursed = add_u128 s.total_grants_disbursed g.amount;
          grants = update_first (open_grant i) set_disbursed s.grants;
        },
        ok (g.recipient, g.amount),
      )
]
