-- ===== src/Execution/State.antt =====
-- `StateManager` (crates/solen-execution/src/state.rs) with the types of crates/solen-types/src
-- (account.rs, system.rs). The store is a parameter, as are the encoding of an account (the borsh
-- crate), with the error's text.
use Prim.Native.String.{String, slice, ◌++◌}
use solen.Base.{
  ℕ, Bool, not, Option, none, some, List, [], ◌∷◌, Result, ok, err, if◌then◌else◌, ltb, ◌==◌, ◌-◌,
  ◌/◌, ◌%◌, ◌+◌, bytes_same, replicate, u64_max, saturating_add_u128, take,
}
use solen.Storage.Traits.{Bytes, StateStore, StorageError}

abbrev pub AccountId : Type 0
AccountId = Bytes

abbrev pub Hash : Type 0
Hash = Bytes

pub data AuthMethod : Type 0 where
  passkey :
      (credential_id public_key_x public_key_y : Bytes) (rp_id : String) (origins : List String)
      → AuthMethod
  ed25519 : (public_key : Bytes) → AuthMethod
  threshold : (signers : List Bytes) (threshold : ℕ) → AuthMethod
  guardian : (guardian_id : AccountId) → AuthMethod
  session :
      (session_key : Bytes) (expires_at spending_limit budget_total : ℕ)
      (allowed_targets : List AccountId) (allowed_methods : List String) (restrict_subcalls : Bool)
      → AuthMethod
  ml_dsa : (public_key : Bytes) → AuthMethod
  hybrid : (ed25519_public_key ml_dsa_public_key : Bytes) → AuthMethod

pub record Account : Type 0 where
  pub id : AccountId
  pub code_hash : Hash
  pub auth_methods : List AuthMethod
  pub nonce : ℕ
  pub balance : ℕ

pub data StateError : Type 0 where
  account_not_found : String → StateError
  insufficient_balance : (have need : ℕ) → StateError
  invalid_nonce : (expected got : ℕ) → StateError
  storage : StorageError → StateError
  serialization : String → StateError

-- The first 30 bytes are 0xFF.
unfoldable pub is_system_contract : AccountId → Bool
is_system_contract id = bytes_same (take 30 id) (replicate 30 255)

-- `acc/`
abbrev pub account_key : AccountId → Bytes
account_key id = 97 ∷ 99 ∷ 99 ∷ 47 ∷ id

-- The `?` operator on a result of the store.
abbrev pub from_storage {ℓ} : {A : Type ℓ} → Result A StorageError → Result A StateError
from_storage (ok a) = ok a
from_storage (err e) = err (storage e)

-- `hex::encode` of the same file: two digits to a byte.
abbrev pub hex_digits : ℕ → String
hex_digits b =
    slice "0123456789abcdef" (b / 16) (b / 16 + 1) ++ slice "0123456789abcdef" (b % 16) (b % 16 + 1)

unfoldable pub hex_encode : Bytes → String
hex_encode [] = ""
hex_encode (b ∷ bytes) = hex_digits b ++ hex_encode bytes

-- What the manager stands on: the store and borsh's encoding of an account.
pub record Backend : Type 1 where
  pub Store : StateStore
  pub encode : Account → Result Bytes String
  pub decode : Bytes → Result Account String

-- The account that `create_account` makes.
abbrev pub new_account : AccountId → List AuthMethod → ℕ → Account
new_account id auth_methods initial_balance = record {
  id = id;
  code_hash = replicate 32 0;
  auth_methods = auth_methods;
  nonce = 0;
  balance = initial_balance;
}

abbrev pub credited : ℕ → Account → Account
credited amount account = record account { balance = saturating_add_u128 account.balance amount }

abbrev pub debited : ℕ → Account → Account
debited amount account = record account { balance = account.balance - amount }

abbrev pub next_nonce : Account → Account
next_nonce account = record account { nonce = account.nonce + 1 }

-- `Account::try_from_slice`
abbrev pub decoded : Result Account String → Result (Option Account) StateError
decoded (ok account) = ok (some account)
decoded (err e) = err (serialization e)

abbrev pub balance_or_zero : Result (Option Account) StateError → Result ℕ StateError
balance_or_zero (ok (some account)) = ok account.balance
balance_or_zero (ok none) = ok 0
balance_or_zero (err e) = err e

module _ (b : Backend) where
  -- What a method of the manager leaves in the store, and its result.
  abbrev pub M : Type 0 → Type 0
  M A = b.Store.State → b.Store.State × Result A StateError

  infixl 5 ◌>>=◌ ◌>>◌
  abbrev pub ◌>>=◌ : {A B : Type 0} → M A → (A → M B) → M B
  ◌>>=◌ m f s = elim (m s).1 [ ok a ↦ f a (m s).0 | err e ↦ ((m s).0, err e) ]

  abbrev pub ◌>>◌ : {A B : Type 0} → M A → M B → M B
  m >> k = m >>= λ _. k

  -- A call that only reads.
  abbrev pub reading : {A : Type 0} → (b.Store.State → Result A StateError) → M A
  reading f s = (s, f s)

  abbrev pub fail : {A : Type 0} → StateError → M A
  fail e s = (s, err e)

  abbrev pub loaded : Result (Option Bytes) StorageError → Result (Option Account) StateError
  loaded (err e) = err (storage e)
  loaded (ok none) = ok none
  loaded (ok (some value)) = decoded (b.decode value)

  -- `load_account`
  unfoldable pub get_account : b.Store.State → AccountId → Result (Option Account) StateError
  get_account s id = loaded (b.Store.get s (account_key id))

  abbrev pub required : AccountId → Result (Option Account) StateError → Result Account StateError
  required id (ok (some account)) = ok account
  required id (ok none) = err (account_not_found (hex_encode id))
  required id (err e) = err e

  unfoldable pub require_account : b.Store.State → AccountId → Result Account StateError
  require_account s id = required id (get_account s id)

  unfoldable pub save_account : Account → M (Unit {0})
  save_account account s = elim (b.encode account) [
    | ok value ↦ (
      (b.Store.put s (account_key account.id) value).0,
      from_storage (b.Store.put s (account_key account.id) value).1,
    )
    | err e ↦ (s, err (serialization e))
  ]

  unfoldable pub create_account : AccountId → List AuthMethod → ℕ → M Account
  create_account id auth_methods initial_balance = do
    save_account (new_account id auth_methods initial_balance)
    reading (λ _. ok (new_account id auth_methods initial_balance))

  unfoldable pub get_balance : b.Store.State → AccountId → Result ℕ StateError
  get_balance s id = balance_or_zero (get_account s id)

  -- The account that `transfer` pays to, created when there is none.
  unfoldable pub receiver_of : AccountId → Option Account → M Account
  receiver_of to (some account) = reading (λ _. ok account)
  receiver_of to none =
      if is_system_contract to
      then fail (account_not_found "cannot transfer to system contract")
      else (create_account to (ed25519 to ∷ []) 0 >> reading (λ s. require_account s to))

  unfoldable pub load_receiver : AccountId → M Account
  load_receiver to = reading (λ s. get_account s to) >>= receiver_of to

  unfoldable pub debit : ℕ → Account → M (Unit {0})
  debit amount sender =
      if ltb sender.balance amount
      then fail (insufficient_balance sender.balance amount)
      else save_account (debited amount sender)

  unfoldable pub transfer : AccountId → AccountId → ℕ → M (Unit {0})
  transfer from to amount = do
    sender ← reading (λ s. require_account s from)
    debit amount sender
    receiver ← load_receiver to
    save_account (credited amount receiver)

  unfoldable pub advance_nonce : ℕ → Account → M (Unit {0})
  advance_nonce nonce account =
      if not (nonce == account.nonce)
      then fail (invalid_nonce account.nonce nonce)
      else if account.nonce == u64_max
      then fail (serialization "nonce overflow")
      else save_account (next_nonce account)

  unfoldable pub consume_nonce : AccountId → ℕ → M (Unit {0})
  consume_nonce id nonce = reading (λ s. require_account s id) >>= advance_nonce nonce
