-- ===== src/Intents/Pool.antt =====
-- `IntentPool` (crates/solen-intents/src/pool.rs). A method holds one lock or takes two in turn; it
-- is one step here. The signature check of `solen_crypto::verify`, which calls a library, is a
-- parameter: a public key, a message and a signature. A `HashMap` is a list of entries in the order
-- of their keys.
use solen.Base.{
  ℕ, ◌+◌, Bool, not, ◌&&◌, Option, none, some, List, [], ◌∷◌, ◌++◌, map, Result, ok, err,
  if◌then◌else◌, ltb, leb, ◌==◌, length, push, retain, update_first, lookup, insert, nat_key,
  add_u64,
}
use solen.Consensus.Validators.{sort_by_key}
use solen.Consensus.Proposer.{to_le_bytes, id_bytes}
use solen.Intents.Types.{
  Intent, IntentStatus, pending, fulfilled, expired, cancelled, is_pending, is_fulfilled, Solution,
}

pub data PoolError : Type 0 where
  full : PoolError
  not_found : ℕ → PoolError
  already_fulfilled : PoolError
  invalid_signature : PoolError
  expired_intent : PoolError
  no_solution : ℕ → PoolError

pub record IntentPool : Type 0 where
  pub intents : List (ℕ × (Intent × IntentStatus))
  pub solutions : List (ℕ × List Solution)
  pub next_id : ℕ

-- `IntentPool::new`
abbrev pub new : IntentPool
new = record { intents = []; solutions = []; next_id = 0 }

unfoldable pub submit : ℕ → Intent → IntentPool → IntentPool × Result ℕ PoolError
submit max_size intent pool = if leb max_size (length pool.intents) then (pool, err full) else (
  record pool {
    intents = insert pool.next_id (record intent { id = pool.next_id }, pending) pool.intents;
    next_id = add_u64 pool.next_id 1;
  },
  ok pool.next_id,
)

abbrev pub max_solutions_per_intent : ℕ
max_solutions_per_intent = 50

-- What a solver signs.
unfoldable pub solution_message : Solution → List ℕ
solution_message s =
    to_le_bytes 8 s.intent_id ++ (id_bytes s.solver ++ to_le_bytes 16 s.claimed_tip)

abbrev pub or_empty : Option (List Solution) → List Solution
or_empty none = []
or_empty (some xs) = xs

-- The solution is entered, unless the intent has as many as it may.
unfoldable pub enter_solution : Solution → IntentPool → IntentPool × Result (Unit {0}) PoolError
enter_solution s pool =
    let entry = or_empty (lookup s.intent_id pool.solutions) in
    if leb max_solutions_per_intent (length entry)
    then (record pool { solutions = insert s.intent_id entry pool.solutions }, err full)
    else (record pool { solutions = insert s.intent_id (push entry s) pool.solutions }, ok tt)

abbrev pub submit_for :
    Solution
    → Option (Intent × IntentStatus)
    → IntentPool
    → IntentPool × Result (Unit {0}) PoolError
submit_for s none pool = (pool, err (not_found s.intent_id))
submit_for s (some (_, status)) pool =
    if is_fulfilled status then (pool, err already_fulfilled) else enter_solution s pool

unfoldable pub submit_solution :
    (verify : List ℕ → List ℕ → List ℕ → Bool)
    → Solution
    → IntentPool
    → IntentPool × Result (Unit {0}) PoolError
submit_solution verify s pool =
    if not (length s.signature == 64)
    then (pool, err invalid_signature)
    else if not (verify (id_bytes s.solver) (solution_message s) s.signature)
    then (pool, err invalid_signature)
    else submit_for s (lookup s.intent_id pool.intents) pool

-- `max_by` keeps the later of two that compare as equal.
unfoldable pub surpasses : Solution → Solution → Bool
surpasses a b = if a.score == b.score then ltb a.claimed_tip b.claimed_tip else ltb b.score a.score

unfoldable pub best_from : Solution → List Solution → Solution
best_from best [] = best
best_from best (s ∷ ss) = best_from (if surpasses best s then best else s) ss

abbrev pub select_from : ℕ → Option (List Solution) → Result Solution PoolError
select_from intent_id none = err (no_solution intent_id)
select_from intent_id (some []) = err (no_solution intent_id)
select_from intent_id (some (s ∷ ss)) = ok (best_from s ss)

unfoldable pub select_best_solution : ℕ → IntentPool → Result Solution PoolError
select_best_solution intent_id pool = select_from intent_id (lookup intent_id pool.solutions)

-- The status of an intent is written: `get_mut`.
abbrev pub has_id : ℕ → ℕ × (Intent × IntentStatus) → Bool
has_id intent_id e = e.0 == intent_id

abbrev pub with_status : IntentStatus → ℕ × (Intent × IntentStatus) → ℕ × (Intent × IntentStatus)
with_status status e = (e.0, (e.1.0, status))

unfoldable pub set_status : ℕ → IntentStatus → IntentPool → IntentPool
set_status intent_id status pool = record pool {
  intents = update_first (has_id intent_id) (with_status status) pool.intents;
}

abbrev pub fulfill_found :
    ℕ → Option (Intent × IntentStatus) → IntentPool → IntentPool × Result (Unit {0}) PoolError
fulfill_found intent_id none pool = (pool, err (not_found intent_id))
fulfill_found intent_id (some _) pool = (set_status intent_id fulfilled pool, ok tt)

unfoldable pub fulfill : ℕ → IntentPool → IntentPool × Result (Unit {0}) PoolError
fulfill intent_id pool = fulfill_found intent_id (lookup intent_id pool.intents) pool

abbrev pub cancel_found :
    ℕ → ℕ → Option (Intent × IntentStatus) → IntentPool → IntentPool × Result (Unit {0}) PoolError
cancel_found intent_id sender none pool = (pool, err (not_found intent_id))
cancel_found intent_id sender (some (intent, _)) pool =
    if not (intent.sender == sender)
    then (pool, err (not_found intent_id))
    else (set_status intent_id cancelled pool, ok tt)

unfoldable pub cancel : ℕ → ℕ → IntentPool → IntentPool × Result (Unit {0}) PoolError
cancel intent_id sender pool = cancel_found intent_id sender (lookup intent_id pool.intents) pool

abbrev pub is_overdue : ℕ → Intent × IntentStatus → Bool
is_overdue current_height e = is_pending e.1 && ltb e.0.expiry_height current_height

-- The loop of `expire`: the entries and the count.
unfoldable pub expire_all :
    ℕ → List (ℕ × (Intent × IntentStatus)) → List (ℕ × (Intent × IntentStatus)) × ℕ
expire_all current_height [] = ([], 0)
expire_all current_height (e ∷ es) =
    let (rest, count) = expire_all current_height es in
    if is_overdue current_height e.1
    then (with_status expired e ∷ rest, count + 1)
    else (e ∷ rest, count)

unfoldable pub expire : ℕ → IntentPool → IntentPool × ℕ
expire current_height pool =
    let (intents, count) = expire_all current_height pool.intents in
    (record pool { intents = intents }, count)

unfoldable pub pending_intents : IntentPool → List Intent
pending_intents pool =
    sort_by_key (λ i. i.id) (map (λ e. e.1.0) (retain (λ e. is_pending e.1.1) pool.intents))

unfoldable pub pending_count : IntentPool → ℕ
pending_count pool = length (retain (λ e. is_pending e.1.1) pool.intents)
