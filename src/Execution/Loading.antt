-- ===== src/Execution/Loading.antt =====
-- Reading back what the manager saves (crates/solen-execution/src/state.rs).
use solen.Base.{
  ℕ, ◌≡◌, ◌≤◌, some, arith, Result-cases, inl, inr, ok, IsOk, if◌then◌else◌, bytes_same,
  bytes_same_iff,
}
use solen.Storage.Traits.{Bytes, IsLawful}
use solen.Execution.State.{
  Account, AccountId, Backend, StateError, storage, serialization, account_key, from_storage,
  debited, ed25519, is_system_contract,
}
use solen.Execution.State

-- The store keeps the promises of its trait, and an account's encoding is read back (borsh).
pub record IsSound (b : Backend) : Type 0 where
  pub lawful : IsLawful b.Store
  pub reads_back : (a : Account) (value : Bytes) → b.encode a ≡ ok value → b.decode value ≡ ok a

module _ (b : Backend) where
  -- Each account is stored under its own key.
  unfoldable pub IsKeyed : b.Store.State → Type 0
  IsKeyed s = (j : AccountId) (a : Account) → State.get_account b s j ≡ ok (some a) → a.id ≡ j

  pub require_account-some :
      (s : b.Store.State) (id : AccountId) (a : Account)
      → State.require_account b s id ≡ ok a
      → State.get_account b s id ≡ ok (some a)
  unfolding State.require_account
  require_account-some s id a h = ground arith

  module _ (sound : IsSound b) where
    -- A save that succeeds is read back, and no other account changes.
    pub get_account-save_account :
        (a : Account) (s : b.Store.State) (j : AccountId)
        → IsOk (State.save_account b a s).1
        → State.get_account b (State.save_account b a s).0 j
          ≡ (if bytes_same j a.id then ok (some a) else State.get_account b s j)
    unfolding State.save_account State.get_account
    get_account-save_account a s j h = elim (Result-cases (b.encode a)) [
      | inl (value, e) ↦ ground (
        arith,
        e,
        h,
        sound.reads_back a value e,
        sound.lawful.get-put s (account_key a.id) value (account_key j),
      )
      | inr (message, e) ↦ ground (arith, e, h)
    ]

    pub get_account-debit :
        (amount : ℕ) (a : Account) (s : b.Store.State) (j : AccountId)
        → IsOk (State.debit b amount a s).1
        → (amount ≤ a.balance)
          × (State.get_account b (State.debit b amount a s).0 j ≡ (
              if bytes_same j a.id then ok (some (debited amount a)) else State.get_account b s j))
    unfolding State.debit
    get_account-debit amount a s j h =
        ground (arith, get_account-save_account (debited amount a) s j)

    pub save_account-IsKeyed :
        (a : Account) (s : b.Store.State)
        → IsKeyed s
        → IsOk (State.save_account b a s).1
        → IsKeyed (State.save_account b a s).0
    unfolding IsKeyed
    save_account-IsKeyed a s keyed h j c got =
        ground (arith, get_account-save_account a s j h, keyed j c, got, bytes_same_iff j a.id)
