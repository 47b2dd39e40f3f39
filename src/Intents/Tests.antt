-- ===== src/Intents/Tests.antt =====
-- Runs of the intent pool (crates/solen-intents/src/pool.rs).
use solen.Base.{ok, ◌⊎◌, ℕ, ◌≡◌, Bool, true, List, [], ◌∷◌, err, arith, lookup, insert, nat_key}
use solen.Intents.Types.{Intent, Solution}
use solen.Intents.Pool.{
  no_solution, IntentPool, new, submit, cancel, full, or_empty, select_best_solution,
}
use solen.Intents.Capacity.{IsWithinCapacity}
use solen.Intents.History.{
  Reach, here, later, step_submit, step_cancel, Reach-IsWithinCapacity, submit-full,
}
use solen.Intents.Choice.{IsLastBest, select_best_solution-best}

abbrev intent_of : ℕ → Intent
intent_of sender = record {
  id = 0;
  sender = sender;
  constraints = [];
  max_fee = 1;
  expiry_height = 9;
  signature = [];
  tip = 4;
}

abbrev accept_all : List ℕ → List ℕ → List ℕ → Bool
accept_all key message signature = true

abbrev solution_of : ℕ → ℕ → ℕ → Solution
solution_of solver tip score = record {
  intent_id = 0;
  solver = solver;
  operations = [];
  claimed_tip = tip;
  score = score;
  signature = [];
}

-- A pool for one intent.
abbrev one_intent : IntentPool
one_intent = (submit 1 (intent_of 5) new).0

one_intent-Reach : Reach 1 accept_all new one_intent
one_intent-Reach = later here (step_submit (intent_of 5))

Reach-IsWithinCapacity_example : IsWithinCapacity 1 one_intent
Reach-IsWithinCapacity_example =
    Reach-IsWithinCapacity 1 accept_all one_intent (omega arith) one_intent-Reach

-- The pool stays full when its only intent is cancelled.
submit-full_example :
    submit 1 (intent_of 6) (cancel 0 5 one_intent).0 ≡ ((cancel 0 5 one_intent).0, err full)
unfolding submit insert
submit-full_example =
    submit-full 1 accept_all one_intent (cancel 0 5 one_intent).0 (intent_of 6) (omega arith)
      one_intent-Reach (omega arith) (later here (step_cancel 0 5))

abbrev two_solutions : IntentPool
two_solutions = record one_intent {
  solutions = (0, solution_of 1 3 7 ∷ solution_of 2 2 7 ∷ []) ∷ [];
}

select_best_solution-best_example :
    let candidates = or_empty (lookup 0 two_solutions.solutions) in
    let selected = select_best_solution 0 two_solutions in
    ((candidates ≡ []) × (selected ≡ err (no_solution 0)))
    ⊎ ((best : Solution) × (selected ≡ ok best) × IsLastBest best candidates)
select_best_solution-best_example = select_best_solution-best 0 two_solutions
