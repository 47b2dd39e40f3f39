-- ===== src/Intents/Types.antt =====
-- Intents and solutions, and the built-in solver (crates/solen-intents/src/types.rs, solver.rs).
-- An account's identifier is the number that its 32 bytes spell, and a method's name is its bytes.
use solen.Base.{ℕ, ◌/◌, Bool, true, false, Option, none, some, List, [], ◌∷◌}
use solen.Mempool.Entries.{UserOperation, Action, transfer}

pub data Constraint : Type 0 where
  min_balance : (account min_amount : ℕ) → Constraint
  max_spend : (account max_amount : ℕ) → Constraint
  require_transfer : (from to min_amount : ℕ) → Constraint
  require_call : (target : ℕ) (method : List ℕ) → Constraint
  cross_chain_swap :
      (input_amount min_output destination_chain : ℕ) (destination_address output_token : List ℕ)
      → Constraint
  custom : (verifier : ℕ) (bytes : List ℕ) → Constraint

pub record Intent : Type 0 where
  pub id : ℕ
  pub sender : ℕ
  pub constraints : List Constraint
  pub max_fee : ℕ
  pub expiry_height : ℕ
  pub signature : List ℕ
  pub tip : ℕ

pub data IntentStatus : Type 0 where
  pending matched fulfilled expired cancelled : IntentStatus

abbrev pub is_pending : IntentStatus → Bool
is_pending pending = true
is_pending matched = false
is_pending fulfilled = false
is_pending expired = false
is_pending cancelled = false

abbrev pub is_fulfilled : IntentStatus → Bool
is_fulfilled pending = false
is_fulfilled matched = false
is_fulfilled fulfilled = true
is_fulfilled expired = false
is_fulfilled cancelled = false

pub record Solution : Type 0 where
  pub intent_id : ℕ
  pub solver : ℕ
  pub operations : List UserOperation
  pub claimed_tip : ℕ
  pub score : ℕ
  pub signature : List ℕ

-- `DirectTransferSolver::solve`: the transfers that the constraints require.
unfoldable pub transfers_of : List Constraint → List Action
transfers_of [] = []
transfers_of (require_transfer from to min_amount ∷ cs) = transfer to min_amount ∷ transfers_of cs
transfers_of (min_balance account min_amount ∷ cs) = transfers_of cs
transfers_of (max_spend account max_amount ∷ cs) = transfers_of cs
transfers_of (require_call target method ∷ cs) = transfers_of cs
transfers_of (cross_chain_swap i o chain address token ∷ cs) = transfers_of cs
transfers_of (custom verifier bytes ∷ cs) = transfers_of cs

abbrev pub solution_with : ℕ → Intent → List Action → Option Solution
solution_with solver intent [] = none
solution_with solver intent (a ∷ rest) = some (record {
  intent_id = intent.id;
  solver = solver;
  operations =
      record {
        sender = intent.sender;
        nonce = 0;
        actions = a ∷ rest;
        max_fee = intent.max_fee;
        signature = [];
      }
      ∷ [];
  claimed_tip = intent.tip / 2;
  score = 100;
  signature = [];
})

unfoldable pub solve : ℕ → Intent → Option Solution
solve solver intent = solution_with solver intent (transfers_of intent.constraints)
