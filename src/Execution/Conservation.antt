-- ===== src/Execution/Conservation.antt =====
-- What a transfer does to the balances (crates/solen-execution/src/state.rs).
use solen.Base.{
  ℕ, ◌≡◌, ◌≤◌, ◌<◌, ◌+◌, ◌-◌, ◌⊎◌, ◌∙◌, ap, true, false, Option, some, arith, Result, ok, IsOk,
  if◌then◌else◌, bytes_same, bytes_same_iff, u128_mod, saturating_add_u128-eq,
}
use solen.Execution.State.{
  Account, AccountId, Backend, StateError, account_not_found, insufficient_balance, debited,
  credited, is_system_contract, balance_or_zero,
}
use solen.Execution.State
use solen.Execution.Loading.{
  IsSound, IsKeyed, require_account-some, get_account-save_account, get_account-debit,
}
use solen.Execution.Transfers.{IsReceiver, load_receiver-IsReceiver, debit-IsKeyed, transfer-steps}

module _ (b : Backend) (sound : IsSound b) where
  -- The sender and the receiver of a transfer that succeeds, and what each key holds after it.
  record HasMoved (s t : b.Store.State) (from to : AccountId) (amount : ℕ) : Type 0 where
    sender : Account
    receiver : Account
    paid : State.get_account b s from ≡ ok (some sender)
    afforded : amount ≤ sender.balance
    received :
        (if bytes_same to from then ok receiver.balance else State.get_balance b s to)
        ≡ ok receiver.balance
    own : bytes_same to from ≡ true → receiver.balance ≡ sender.balance - amount
    stored :
        (j : AccountId)
        → State.get_account b t j ≡ (
            if bytes_same j to
            then ok (some (credited amount receiver))
            else if bytes_same j from
            then ok (some (debited amount sender))
            else State.get_account b s j)

  get_balance-some :
      (s : b.Store.State) (id : AccountId) (o : Result (Option Account) StateError)
      → State.get_account b s id ≡ o
      → State.get_balance b s id ≡ balance_or_zero o
  unfolding State.get_balance
  get_balance-some s id o h = ap balance_or_zero h

  received_lem :
      (s s1 : b.Store.State) (to : AccountId) (amount : ℕ) (a r : Account) (from : AccountId)
      → a.id ≡ from
      → State.get_account b s1 to
        ≡ (if bytes_same to a.id then ok (some (debited amount a)) else State.get_account b s to)
      → State.get_balance b s1 to ≡ ok r.balance
      → (if bytes_same to from then ok r.balance else State.get_balance b s to) ≡ ok r.balance
  unfolding State.get_balance
  received_lem s s1 to amount a r from named debited_at balance =
      ground (arith, named, debited_at, balance)

  own_lem :
      (s s1 : b.Store.State) (to : AccountId) (amount : ℕ) (a r : Account) (from : AccountId)
      → a.id ≡ from
      → State.get_account b s1 to
        ≡ (if bytes_same to a.id then ok (some (debited amount a)) else State.get_account b s to)
      → State.get_balance b s1 to ≡ ok r.balance
      → bytes_same to from ≡ true
      → r.balance ≡ a.balance - amount
  unfolding State.get_balance
  own_lem s s1 to amount a r from named debited_at balance own =
      ground (arith, named, debited_at, balance, own)

  stored_lem :
      (s s1 s2 : b.Store.State) (to : AccountId) (amount : ℕ) (a r : Account) (from j : AccountId)
      → a.id ≡ from
      → State.get_account b s1 j
        ≡ (if bytes_same j a.id then ok (some (debited amount a)) else State.get_account b s j)
      → IsReceiver b sound s1 s2 to r
      → IsOk (State.save_account b (credited amount r) s2).1
      → State.get_account b (State.save_account b (credited amount r) s2).0 j ≡ (
          if bytes_same j to
          then ok (some (credited amount r))
          else if bytes_same j from
          then ok (some (debited amount a))
          else State.get_account b s j)
  stored_lem s s1 s2 to amount a r from j named debited_at loaded saved = ground (
    arith,
    get_account-save_account b sound (credited amount r) s2 j saved,
    loaded.named,
    loaded.stored j,
    named,
    debited_at,
  )

  transfer-HasMoved :
      (s : b.Store.State) (from to : AccountId) (amount : ℕ)
      → IsKeyed b s
      → IsOk (State.transfer b from to amount s).1
      → HasMoved s (State.transfer b from to amount s).0 from to amount
  unfolding IsKeyed
  transfer-HasMoved s from to amount keyed h =
      let (a, r, required, debit_ok, load_ok, save_ok, left) =
        transfer-steps b sound s from to amount h in
      let paid = require_account-some b s from a required in
      let named = keyed from a paid in
      let s1 = (State.debit b amount a s).0 in
      let s2 = (State.load_receiver b to s1).0 in
      let loaded =
        load_receiver-IsReceiver b sound s1 to r (debit-IsKeyed b sound s a amount keyed debit_ok)
          load_ok in
      let debited_at = λ (j : AccountId). get_account-debit b sound amount a s j debit_ok in
      record {
        sender = a;
        receiver = r;
        paid = paid;
        afforded = (debited_at from).0;
        received = received_lem s s1 to amount a r from named (debited_at to).1 loaded.balance;
        own = own_lem s s1 to amount a r from named (debited_at to).1 loaded.balance;
        stored = λ j.
            ap (λ t. State.get_account b t j) left
            ∙ stored_lem s s1 s2 to amount a r from j named (debited_at j).1 loaded save_ok;
      }

  -- For a store that keeps its trait's promises and an encoding that is read back, in a state
  -- that holds each account under its own key: a transfer between two different accounts that
  -- succeeds had the amount in the sender's balance and moves it from there to the receiver's
  -- balance, which is 0 when the receiver has no account yet, provided that the sum fits in 128
  -- bits; and it leaves every third account as it was.
  pub transfer-moves :
      (s : b.Store.State) (from to j : AccountId) (amount x y : ℕ)
      → IsKeyed b s
      → bytes_same to from ≡ false
      → IsOk (State.transfer b from to amount s).1
      → State.get_balance b s from ≡ ok x
      → State.get_balance b s to ≡ ok y
      → y + amount < u128_mod
      → let t = (State.transfer b from to amount s).0 in
        (amount ≤ x)
        × (State.get_balance b t from ≡ ok (x - amount))
        × (State.get_balance b t to ≡ ok (y + amount))
        × ((bytes_same j from ≡ true)
            ⊎ (bytes_same j to ≡ true)
            ⊎ (State.get_account b t j ≡ State.get_account b s j))
  unfolding State.get_balance
  transfer-moves s from to j amount x y keyed other h at_from at_to fits =
      let moved = transfer-HasMoved s from to amount keyed h in
      let enough : amount ≤ x = ground (arith, moved.paid, moved.afforded, at_from) in
      (
        enough,
        ground (
          arith,
          moved.stored from,
          moved.paid,
          at_from,
          other,
          bytes_same_iff from from,
          bytes_same_iff from to,
          bytes_same_iff to from,
        ),
        ground (
          arith,
          moved.stored to,
          moved.received,
          at_to,
          other,
          fits,
          bytes_same_iff to to,
          saturating_add_u128-eq moved.receiver.balance amount,
        ),
        ground (arith, moved.stored j),
      )

  -- Under the same conditions, a transfer of an account to itself that succeeds leaves the
  -- account's balance as it was.
  pub transfer_self :
      (s : b.Store.State) (id : AccountId) (amount x : ℕ)
      → IsKeyed b s
      → IsOk (State.transfer b id id amount s).1
      → State.get_balance b s id ≡ ok x
      → x < u128_mod
      → State.get_balance b (State.transfer b id id amount s).0 id ≡ ok x
  unfolding State.get_balance
  transfer_self s id amount x keyed h at fits =
      let moved = transfer-HasMoved s id id amount keyed h in
      ground (
        arith,
        moved.stored id,
        moved.own,
        moved.paid,
        moved.afforded,
        at,
        fits,
        bytes_same_iff id id,
        saturating_add_u128-eq moved.receiver.balance amount,
      )
