-- ===== src/Execution/Nonces.antt =====
-- Nonces, and what a failing call leaves (crates/solen-execution/src/state.rs).
use solen.Base.{
  ℕ, ◌≡◌, ◌≢◌, ◌+◌, true, false, none, some, arith, Result-cases, inl, inr, ok, err, IsOk,
  bytes_same, bytes_same_iff, u64_max,
}
use solen.Execution.State.{
  Account, AccountId, Backend, StateError, account_not_found, invalid_nonce, insufficient_balance,
  debited, is_system_contract, next_nonce,
}
use solen.Execution.State
use solen.Execution.Loading.{
  IsSound, IsKeyed, require_account-some, get_account-save_account, get_account-debit,
}

module _ (b : Backend) (sound : IsSound b) where
  -- The account whose nonce was consumed, and what the store holds then.
  consume_nonce-steps :
      (s : b.Store.State) (id : AccountId) (nonce : ℕ)
      → IsOk (State.consume_nonce b id nonce s).1
      → (a : Account) × (State.require_account b s id ≡ ok a)
        × (a.nonce ≡ nonce)
        × (nonce ≢ u64_max)
        × IsOk (State.save_account b (next_nonce a) s).1
        × ((State.consume_nonce b id nonce s).0 ≡ (State.save_account b (next_nonce a) s).0)
  unfolding State.consume_nonce State.advance_nonce
  consume_nonce-steps s id nonce h = elim (Result-cases (State.require_account b s id)) [
    | inr (e, e_eq) ↦ ground (arith, h, e_eq)
    | inl (a, a_eq) ↦ ground (arith, h, a_eq)
  ]

  refused :
      (t : b.Store.State) (id : AccountId) (nonce : ℕ) (a : Account)
      → State.get_account b t id ≡ ok (some a)
      → a.nonce ≡ nonce + 1
      → State.consume_nonce b id nonce t ≡ (t, err (invalid_nonce (nonce + 1) nonce))
  unfolding State.consume_nonce State.advance_nonce State.require_account
  refused t id nonce a stored next = ground (arith, stored, next)

  -- For a store that keeps its trait's promises and an encoding that is read back, in a state
  -- that holds each account under its own key: once a nonce of an account was consumed, consuming
  -- it again fails, with the next nonce as the expected one, and changes nothing.
  pub consume_nonce-twice :
      (s : b.Store.State) (id : AccountId) (nonce : ℕ)
      → IsKeyed b s
      → IsOk (State.consume_nonce b id nonce s).1
      → let t = (State.consume_nonce b id nonce s).0 in
        State.consume_nonce b id nonce t ≡ (t, err (invalid_nonce (nonce + 1) nonce))
  unfolding IsKeyed
  consume_nonce-twice s id nonce keyed h =
      let (a, required, now, small, saved, left) = consume_nonce-steps s id nonce h in
      let named = keyed id a (require_account-some b s id a required) in
      let kept = get_account-save_account b sound (next_nonce a) s id saved in
      refused (State.consume_nonce b id nonce s).0 id nonce (next_nonce a)
        (ground (arith, left, kept, named, bytes_same_iff id a.id)) (ground (arith, now))

  debit-saves :
      (s : b.Store.State) (amount : ℕ) (a : Account)
      → IsOk (State.debit b amount a s).1
      → State.debit b amount a s ≡ ((State.save_account b (debited amount a) s).0, ok tt)
  unfolding State.debit
  debit-saves s amount a fine = ground arith

  no_receiver :
      (t : b.Store.State) (to : AccountId)
      → State.get_account b t to ≡ ok none
      → is_system_contract to ≡ true
      → State.load_receiver b to t
        ≡ (t, err (account_not_found "cannot transfer to system contract"))
  unfolding State.load_receiver State.receiver_of
  no_receiver t to missing system = ground (arith, missing, system)

  -- A transfer to a system contract without an account, from an account that can pay, fails, but
  -- the sender has paid: for a store that keeps its trait's promises and an encoding that is read
  -- back, when the debit of the sender is saved, the call leaves the state of that save.
  pub transfer-system_contract :
      (s : b.Store.State) (from to : AccountId) (amount : ℕ) (a : Account)
      → State.require_account b s from ≡ ok a
      → IsOk (State.debit b amount a s).1
      → bytes_same to a.id ≡ false
      → State.get_account b s to ≡ ok none
      → is_system_contract to ≡ true
      → State.transfer b from to amount s ≡ (
        (State.save_account b (debited amount a) s).0,
        err (account_not_found "cannot transfer to system contract"),
      )
  unfolding State.transfer
  transfer-system_contract s from to amount a h fine other missing system =
      let t = (State.debit b amount a s).0 in
      let none_there : State.get_account b t to ≡ ok none =
        ground (arith, get_account-debit b sound amount a s to fine, missing, other) in
      ground (arith, h, debit-saves s amount a fine, no_receiver t to none_there system)
