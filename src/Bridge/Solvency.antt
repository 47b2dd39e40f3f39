-- ===== src/Bridge/Solvency.antt =====
-- The vaults' books: every pending withdrawal is covered by its vault, and what has gone in is what
-- is there and what has gone out.
use solen.Base.{
  ℕ, ◌+◌, ◌-◌, ◌≤◌, ◌<◌, ◌≡◌, subst, Option, none, some, List, inl, inr, arith, ◌==◌, ==_iff,
  if◌then◌else◌, Bool-cases, find, update_first, retain, sum_by, sum_u128-eq, find-test,
  find-update_first, find-update_first_ne, sum_by-update_first, sum_by-retain_if, u128_mod,
}
use solen.Bridge.State.{
  BridgeContract, BridgeVault, PendingWithdrawal, by_rollup, by_withdrawal, pending_of_rollup,
}
use solen.Bridge.Operations.{available}

-- What one withdrawal claims from the vault of rollup `r`.
abbrev pub claim : ℕ → PendingWithdrawal → ℕ
claim r w = if pending_of_rollup r w then w.amount else 0

abbrev pub committed : ℕ → List PendingWithdrawal → ℕ
committed r ws = sum_by (claim r) ws

-- A vault with `c` committed to pending withdrawals.
abbrev pub IsCovered : ℕ → Option BridgeVault → Type 0
IsCovered c none = c ≡ 0
IsCovered c (some v) =
    (c ≤ v.balance)
    × (v.balance + v.total_withdrawn ≡ v.total_deposited)
    × (v.total_deposited < u128_mod)

pub IsCovered-mono : (c d : ℕ) (o : Option BridgeVault) → d ≤ c → IsCovered c o → IsCovered d o
IsCovered-mono c d none le h = omega arith
IsCovered-mono c d (some v) le h = omega arith

abbrev pub IsSolvent : BridgeContract → Type 0
IsSolvent s = (r : ℕ) → IsCovered (committed r s.pending_withdrawals) (find (by_rollup r) s.vaults)

-- In a solvent contract `available` is the exact difference.
pub available-eq :
    (s : BridgeContract) (v : BridgeVault) (r : ℕ)
    → IsCovered (committed r s.pending_withdrawals) (some v)
    → available s v r ≡ v.balance - committed r s.pending_withdrawals
unfolding available
available-eq s v r h = ground (
  arith,
  sum_u128-eq (λ (w : PendingWithdrawal). w.amount)
      (retain (pending_of_rollup r) s.pending_withdrawals),
  sum_by-retain_if (λ (w : PendingWithdrawal). w.amount) (pending_of_rollup r)
      s.pending_withdrawals,
)

-- A write at the vault of rollup `r` shows there and at no other rollup.
pub find-vault :
    (f : BridgeVault → BridgeVault) (r q : ℕ) (vs : List BridgeVault) {v : BridgeVault}
    → find (by_rollup r) vs ≡ some v
    → (f v).rollup_id ≡ v.rollup_id
    → find (by_rollup q) (update_first (by_rollup r) f vs)
      ≡ (if r == q then some (f v) else find (by_rollup q) vs)
find-vault f r q vs {v} e same = elim (Bool-cases (r == q)) [
  | inl eq ↦ rw eq (
      subst (λ k. find (by_rollup k) (update_first (by_rollup r) f vs) ≡ some (f v))
        ((==_iff r q).0 eq)
        (find-update_first (by_rollup r) f vs e (ground (arith, find-test (by_rollup r) vs e))))
  | inr ne ↦ rw ne (
      find-update_first_ne (by_rollup r) (by_rollup q) f vs e
        (ground (arith, find-test (by_rollup r) vs e))
        (ground (arith, find-test (by_rollup r) vs e)))
]

-- An update of one withdrawal changes what is committed by what it changes in its claim.
pub committed-update_first :
    (f : PendingWithdrawal → PendingWithdrawal) (i r : ℕ) (ws : List PendingWithdrawal)
    {w : PendingWithdrawal}
    → find (by_withdrawal i) ws ≡ some w
    → committed r (update_first (by_withdrawal i) f ws) + claim r w ≡ committed r ws + claim r (f w)
committed-update_first f i r ws found = sum_by-update_first (by_withdrawal i) (claim r) f ws found
