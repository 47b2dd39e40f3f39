-- ===== src/Execution/Tests.antt =====
-- Runs of the account manager (crates/solen-execution/src/state.rs) above the store in memory, with
-- an encoding for the accounts that have no code and no auth method.
use Prim.Native.String.{String}
use solen.Base.{
  ℕ, ◌≡◌, refl, true, List, [], ◌∷◌, Result, ok, err, arith, ◌≤◌, ◌⊎◌, ◌-◌, ◌+◌, bytes_same, lookup,
  insert, bytes_key, replicate, ◌++◌,
}
use solen.Storage.Traits.{Bytes}
use solen.Storage.Memory.{memory_store, MemoryStore, value_changed}
use solen.Storage.Memory
use solen.Storage.Laws.{memory_store-IsLawful}
use solen.Execution.State.{
  hex_encode, Account, AccountId, AuthMethod, Backend, StateError, invalid_nonce, account_not_found,
  debited,
}
use solen.Execution.State
use solen.Execution.Loading.{IsSound, IsKeyed, save_account-IsKeyed}
use solen.Execution.Conservation.{transfer-moves}
use solen.Execution.Nonces.{consume_nonce-twice, transfer-system_contract}

abbrev encode_fields : Bytes → Bytes → List AuthMethod → ℕ → ℕ → Result Bytes String
encode_fields id [] [] nonce balance = ok (nonce ∷ balance ∷ id)
encode_fields id [] (m ∷ ms) nonce balance = err "auth method"
encode_fields id (c ∷ cs) ms nonce balance = err "code"

abbrev plain : Bytes → ℕ → ℕ → Account
plain id nonce balance = record {
  id = id;
  code_hash = [];
  auth_methods = [];
  nonce = nonce;
  balance = balance;
}

abbrev encode_plain : Account → Result Bytes String
encode_plain a = encode_fields a.id a.code_hash a.auth_methods a.nonce a.balance

abbrev decode_plain : Bytes → Result Account String
decode_plain [] = err "short"
decode_plain (n ∷ []) = err "short"
decode_plain (n ∷ x ∷ id) = ok (plain id n x)

decode-encode :
    (id code : Bytes) (ms : List AuthMethod) (n x : ℕ) (value : Bytes)
    → encode_fields id code ms n x ≡ ok value
    → decode_plain value
      ≡ ok (record { id = id; code_hash = code; auth_methods = ms; nonce = n; balance = x })
decode-encode id [] [] n x value h = ground (arith, h)
decode-encode id [] (m ∷ ms) n x value h = cc
decode-encode id (c ∷ cs) ms n x value h = cc

abbrev plain_backend : Backend
plain_backend = record {
  Store = memory_store (λ bytes. bytes);
  encode = encode_plain;
  decode = decode_plain;
}

plain-IsSound : IsSound plain_backend
plain-IsSound = record {
  lawful = memory_store-IsLawful (λ bytes. bytes);
  reads_back = λ a value h. decode-encode a.id a.code_hash a.auth_methods a.nonce a.balance value h;
}

abbrev saved : Account → MemoryStore → MemoryStore
saved a s = (State.save_account plain_backend a s).0

new-IsKeyed : IsKeyed plain_backend Memory.new
unfolding IsKeyed State.get_account Memory.get lookup
new-IsKeyed j a h = cc

-- Accounts 1 with 100 and 2 with 30.
abbrev two_accounts : MemoryStore
two_accounts = saved (plain (2 ∷ []) 0 30) (saved (plain (1 ∷ []) 7 100) Memory.new)

two_accounts-IsKeyed : IsKeyed plain_backend two_accounts
unfolding State.save_account Memory.put
two_accounts-IsKeyed =
    save_account-IsKeyed plain_backend plain-IsSound (plain (2 ∷ []) 0 30)
      (saved (plain (1 ∷ []) 7 100) Memory.new)
      (save_account-IsKeyed plain_backend plain-IsSound (plain (1 ∷ []) 7 100) Memory.new
        new-IsKeyed tt)
      tt

transfer-moves_example :
    let t = (State.transfer plain_backend (1 ∷ []) (2 ∷ []) 40 two_accounts).0 in
    (40 ≤ 100)
    × (State.get_balance plain_backend t (1 ∷ []) ≡ ok (100 - 40))
    × (State.get_balance plain_backend t (2 ∷ []) ≡ ok (30 + 40))
    × ((bytes_same (3 ∷ []) (1 ∷ []) ≡ true)
        ⊎ (bytes_same (3 ∷ []) (2 ∷ []) ≡ true)
        ⊎ (State.get_account plain_backend t (3 ∷ [])
            ≡ State.get_account plain_backend two_accounts (3 ∷ [])))
unfolding State.transfer State.debit State.load_receiver State.receiver_of State.require_account
    State.get_account State.get_balance State.save_account Memory.get Memory.put lookup insert
    value_changed
transfer-moves_example =
    transfer-moves plain_backend plain-IsSound two_accounts (1 ∷ []) (2 ∷ []) (3 ∷ []) 40 100 30
      two_accounts-IsKeyed refl tt refl refl (omega arith)

consume_nonce-twice_example :
    let t = (State.consume_nonce plain_backend (1 ∷ []) 7 two_accounts).0 in
    State.consume_nonce plain_backend (1 ∷ []) 7 t ≡ (t, err (invalid_nonce (7 + 1) 7))
unfolding State.consume_nonce State.advance_nonce State.require_account State.get_account
    State.save_account Memory.get Memory.put lookup insert value_changed
consume_nonce-twice_example =
    consume_nonce-twice plain_backend plain-IsSound two_accounts (1 ∷ []) 7 two_accounts-IsKeyed tt

-- The staking contract's address.
abbrev staking : AccountId
staking = replicate 31 255 ++ (1 ∷ [])

transfer-system_contract_example : State.transfer plain_backend (1 ∷ []) staking 40 two_accounts ≡ (
  (State.save_account plain_backend (debited 40 (plain (1 ∷ []) 7 100)) two_accounts).0,
  err (account_not_found "cannot transfer to system contract"),
)
unfolding State.transfer State.debit State.load_receiver State.receiver_of State.require_account
    State.get_account State.get_balance State.save_account Memory.get Memory.put lookup insert
    value_changed State.is_system_contract
transfer-system_contract_example =
    transfer-system_contract plain_backend plain-IsSound two_accounts (1 ∷ []) staking 40
      (plain (1 ∷ []) 7 100) refl tt refl refl refl

two_bytes : hex_encode (10 ∷ 255 ∷ []) ≡ "0aff"
unfolding hex_encode
two_bytes = refl
