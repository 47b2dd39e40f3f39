-- ===== src/Execution/Transfers.antt =====
-- Transfers between accounts (crates/solen-execution/src/state.rs).
use solen.Base.{
  ℕ, ◌≡◌, refl, sym, ◌∙◌, subst, Option, none, some, List, [], ◌∷◌, arith, Result-cases, inl, inr,
  ok, IsOk, if◌then◌else◌, bytes_same, bytes_same_iff,
}
use solen.Execution.State.{
  Account, AccountId, Backend, StateError, account_not_found, insufficient_balance, debited,
  credited, is_system_contract, AuthMethod, ed25519, new_account, balance_or_zero,
}
use solen.Execution.State
use solen.Execution.Loading.{
  IsSound, IsKeyed, require_account-some, get_account-save_account, get_account-debit,
}

module _ (b : Backend) (sound : IsSound b) where
  -- What a receiver that was loaded is: it stands under the key, with the balance that the key had.
  pub record IsReceiver (s t : b.Store.State) (to : AccountId) (r : Account) : Type 0 where
    pub named : r.id ≡ to
    pub balance : State.get_balance b s to ≡ ok r.balance
    pub stored :
        (j : AccountId)
        → State.get_account b t j
          ≡ (if bytes_same j to then ok (some r) else State.get_account b s j)

  found-IsReceiver :
      (s : b.Store.State) (to : AccountId) (r : Account)
      → IsKeyed b s
      → State.get_account b s to ≡ ok (some r)
      → IsReceiver s s to r
  unfolding State.get_balance IsKeyed
  found-IsReceiver s to r keyed h = record {
    named = keyed to r h;
    balance = rw (h, State.get_balance) refl;
    stored = λ j. ground (arith, h, bytes_same_iff j to);
  }

  -- `create_account` saves the account and returns it.
  create_account-ok :
      (s : b.Store.State) (id : AccountId) (auth : List AuthMethod) (balance : ℕ)
      → IsOk (State.create_account b id auth balance s).1
      → IsOk (State.save_account b (new_account id auth balance) s).1
        × ((State.create_account b id auth balance s).0
            ≡ (State.save_account b (new_account id auth balance) s).0)
  unfolding State.create_account
  create_account-ok s id auth balance h =
      elim (Result-cases (State.save_account b (new_account id auth balance) s).1) [
        | inl (u, e) ↦ ground (arith, e)
        | inr (m, e) ↦ ground (arith, h, e)
      ]

  receiver_of-created :
      (s : b.Store.State) (to : AccountId) (r : Account)
      → (State.receiver_of b to none s).1 ≡ ok r
      → let c = State.create_account b to (ed25519 to ∷ []) 0 s in
        IsOk c.1
        × ((State.receiver_of b to none s).0 ≡ c.0)
        × (State.require_account b c.0 to ≡ ok r)
  unfolding State.receiver_of
  receiver_of-created s to r h =
      elim (Result-cases (State.create_account b to (ed25519 to ∷ []) 0 s).1) [
        | inl (u, e) ↦ ground (arith, h, e)
        | inr (m, e) ↦ ground (arith, h, e)
      ]

  -- The account that a transfer creates was saved, and nothing else was.
  created_lem :
      (s : b.Store.State) (to : AccountId) (r : Account)
      → (State.receiver_of b to none s).1 ≡ ok r
      → let new = new_account to (ed25519 to ∷ []) 0 in
        IsOk (State.save_account b new s).1
        × ((State.receiver_of b to none s).0 ≡ (State.save_account b new s).0)
        × (State.get_account b (State.save_account b new s).0 to ≡ ok (some r))
  created_lem s to r h =
      let (fine, left, required) = receiver_of-created s to r h in
      let (saved, at) = create_account-ok s to (ed25519 to ∷ []) 0 fine in
      (
        saved,
        left ∙ at,
        subst (λ t. State.get_account b t to ≡ ok (some r)) at
            (require_account-some b (State.create_account b to (ed25519 to ∷ []) 0 s).0 to r
              required),
      )

  -- An account that was saved, as the receiver of a transfer.
  saved-IsReceiver :
      (s : b.Store.State) (to : AccountId) (n r : Account)
      → n.id ≡ to
      → n.balance ≡ 0
      → State.get_account b s to ≡ ok none
      → IsOk (State.save_account b n s).1
      → State.get_account b (State.save_account b n s).0 to ≡ ok (some r)
      → IsReceiver s (State.save_account b n s).0 to r
  unfolding State.get_balance
  saved-IsReceiver s to n r named zero missing saved got =
      let made : n ≡ r = ground (
        arith,
        get_account-save_account b sound n s to saved,
        bytes_same_iff to n.id,
        named,
        got,
      ) in
      record {
        named = ground (arith, named, made);
        balance = ground (arith, missing, made, zero);
        stored = λ j. ground (arith, get_account-save_account b sound n s j saved, named, made);
      }

  created-IsReceiver :
      (s : b.Store.State) (to : AccountId) (r : Account)
      → State.get_account b s to ≡ ok none
      → (State.receiver_of b to none s).1 ≡ ok r
      → IsReceiver s (State.receiver_of b to none s).0 to r
  created-IsReceiver s to r missing h =
      let new = new_account to (ed25519 to ∷ []) 0 in
      let (saved, left, got) = created_lem s to r h in
      subst (λ t. IsReceiver s t to r) (sym left)
        (saved-IsReceiver s to new r refl refl missing saved got)

  load_receiver-got :
      (s : b.Store.State) (to : AccountId) (o : Option Account)
      → State.get_account b s to ≡ ok o
      → State.load_receiver b to s ≡ State.receiver_of b to o s
  unfolding State.load_receiver
  load_receiver-got s to o h = ground (arith, h)

  load_receiver-err :
      (s : b.Store.State) (to : AccountId) (r : Account)
      → (State.load_receiver b to s).1 ≡ ok r
      → (o : Option Account) × (State.get_account b s to ≡ ok o)
  unfolding State.load_receiver
  load_receiver-err s to r h = elim (Result-cases (State.get_account b s to)) [
    | inl found ↦ found
    | inr (e, failed) ↦ ground (arith, h, failed)
  ]

  loaded-IsReceiver :
      (s : b.Store.State) (to : AccountId) (r : Account) (o : Option Account)
      → IsKeyed b s
      → State.get_account b s to ≡ ok o
      → (State.receiver_of b to o s).1 ≡ ok r
      → IsReceiver s (State.receiver_of b to o s).0 to r
  unfolding State.receiver_of
  loaded-IsReceiver s to r none keyed got h = created-IsReceiver s to r got h
  loaded-IsReceiver s to r (some a) keyed got h =
      found-IsReceiver s to r keyed (ground (arith, got, h))

  pub load_receiver-IsReceiver :
      (s : b.Store.State) (to : AccountId) (r : Account)
      → IsKeyed b s
      → (State.load_receiver b to s).1 ≡ ok r
      → IsReceiver s (State.load_receiver b to s).0 to r
  load_receiver-IsReceiver s to r keyed h =
      let (o, got) = load_receiver-err s to r h in
      subst (λ p. p.1 ≡ ok r → IsReceiver s p.0 to r) (sym (load_receiver-got s to o got))
        (loaded-IsReceiver s to r o keyed got) h

  pub debit-IsKeyed :
      (s : b.Store.State) (a : Account) (amount : ℕ)
      → IsKeyed b s
      → IsOk (State.debit b amount a s).1
      → IsKeyed b (State.debit b amount a s).0
  unfolding IsKeyed
  debit-IsKeyed s a amount keyed h j c got =
      ground
        (arith, get_account-debit b sound amount a s j h, keyed j c, got, bytes_same_iff j a.id)

  -- The steps of a transfer that succeeds.
  pub transfer-steps :
      (s : b.Store.State) (from to : AccountId) (amount : ℕ)
      → IsOk (State.transfer b from to amount s).1
      → (a : Account) × (r : Account) × (State.require_account b s from ≡ ok a)
        × IsOk (State.debit b amount a s).1
        × ((State.load_receiver b to (State.debit b amount a s).0).1 ≡ ok r)
        × IsOk
            (State.save_account b
              (credited amount r)
              (State.load_receiver b to (State.debit b amount a s).0).0).1
        × ((State.transfer b from to amount s).0
            ≡ (State.save_account b
                (credited amount r)
                (State.load_receiver b to (State.debit b amount a s).0).0).0)
  unfolding State.transfer
  transfer-steps s from to amount h = elim (Result-cases (State.require_account b s from)) [
    | inr (e, e_eq) ↦ ground (arith, h, e_eq)
    | inl (a, a_eq) ↦ elim (Result-cases (State.debit b amount a s).1) [
      | inr (e, e_eq) ↦ ground (arith, h, a_eq, e_eq)
      | inl (u, u_eq) ↦
          elim (Result-cases (State.load_receiver b to (State.debit b amount a s).0).1) [
            | inr (e, e_eq) ↦ ground (arith, h, a_eq, u_eq, e_eq)
            | inl (r, r_eq) ↦ ground (arith, h, a_eq, u_eq, r_eq)
          ]
    ]
  ]
