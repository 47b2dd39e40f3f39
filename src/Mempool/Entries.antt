-- ===== src/Mempool/Entries.antt =====
-- The operations in the mempool and their order (crates/solen-types/src/transaction.rs,
-- crates/solen-consensus/src/mempool.rs).
-- An account's identifier is 32 bytes; the pool compares and orders them only, so it is the number
-- that the bytes spell, the first byte highest, which orders as the bytes do. A method's name is
-- its bytes. A `BTreeSet` is a list in the order of its entries, without two that compare as equal.
use solen.Base.{
  ℕ, Bool, Option, none, some, List, [], ◌∷◌, ◌&&◌, ◌||◌, if◌then◌else◌, ltb, ◌==◌, length, add_u64,
}
use solen.Execution.State.{AuthMethod}

pub data Action : Type 0 where
  transfer : (to amount : ℕ) → Action
  call : (target : ℕ) (method args : List ℕ) → Action
  deploy : (code salt : List ℕ) → Action
  set_auth : (auth_methods : List AuthMethod) → Action

-- A `MempoolEntry` wraps an operation and adds nothing.
pub record UserOperation : Type 0 where
  pub sender : ℕ
  pub nonce : ℕ
  pub actions : List Action
  pub max_fee : ℕ
  pub signature : List ℕ

-- `Ord` of `MempoolEntry`: the higher fee first, then by sender and nonce.
abbrev pub entry_before : UserOperation → UserOperation → Bool
entry_before a b =
    ltb b.max_fee a.max_fee
    || ((a.max_fee == b.max_fee)
        && (ltb a.sender b.sender || ((a.sender == b.sender) && ltb a.nonce b.nonce)))

abbrev pub entry_same : UserOperation → UserOperation → Bool
entry_same a b = (a.max_fee == b.max_fee) && ((a.sender == b.sender) && (a.nonce == b.nonce))

-- `BTreeSet::insert` and `remove`, `last` and `pop_last`.
unfoldable pub insert_entry : UserOperation → List UserOperation → List UserOperation
insert_entry op [] = op ∷ []
insert_entry op (e ∷ es) =
    if entry_same op e
    then e ∷ es
    else if entry_before op e
    then op ∷ e ∷ es
    else e ∷ insert_entry op es

unfoldable pub remove_entry : UserOperation → List UserOperation → List UserOperation
remove_entry op [] = []
remove_entry op (e ∷ es) = if entry_same op e then es else e ∷ remove_entry op es

unfoldable pub last : List UserOperation → Option UserOperation
last [] = none
last (e ∷ []) = some e
last (e ∷ f ∷ es) = last (f ∷ es)

unfoldable pub without_last : List UserOperation → List UserOperation
without_last [] = []
without_last (e ∷ []) = []
without_last (e ∷ f ∷ es) = e ∷ without_last (f ∷ es)

-- The size that `submit` counts for an action.
unfoldable pub action_size : Action → ℕ
action_size (deploy code salt) = add_u64 (length code) 32
action_size (call target method args) = add_u64 (add_u64 (length args) (length method)) 32
action_size (transfer to amount) = 64
action_size (set_auth auth_methods) = 64

unfoldable pub sum_u64 : List Action → ℕ
sum_u64 [] = 0
sum_u64 (a ∷ rest) = add_u64 (action_size a) (sum_u64 rest)

unfoldable pub op_size : UserOperation → ℕ
op_size op = add_u64 (length op.signature) (sum_u64 op.actions)
