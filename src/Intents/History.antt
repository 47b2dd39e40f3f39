-- ===== src/Intents/History.antt =====
-- What the intent pool keeps over any calls (crates/solen-intents/src/pool.rs).
use solen.Base.{
  ℕ, ◌<◌, ◌≤◌, ◌≡◌, refl, Bool, not, Option, none, some, List, Result, err, ◌==◌, length, lookup,
  nat_key, u64_mod, add_u64-eq, arith, on_branches,
}
use solen.Consensus.Proposer.{id_bytes}
use solen.Intents.Types.{Intent, IntentStatus, fulfilled, cancelled, Solution}
use solen.Intents.Pool.{
  IntentPool, PoolError, new, submit, enter_solution, submit_for, submit_solution, solution_message,
  set_status, fulfill, fulfill_found, cancel, cancel_found, expire, expire_all, full,
}
use solen.Intents.Capacity.{
  IsWithinCapacity, rewritten, set_status-IsWithinCapacity, submit-IsWithinCapacity,
  submit_for-IsWithinCapacity, expire-below, expire-IsSortedMap,
}

submit_for-next_id :
    (s : Solution) (o : Option (Intent × IntentStatus)) (pool : IntentPool)
    → (submit_for s o pool).0.next_id ≡ pool.next_id
unfolding enter_solution
submit_for-next_id s none pool = refl
submit_for-next_id s (some (intent, status)) pool = ground arith

fulfill_found-next_id :
    (i : ℕ) (o : Option (Intent × IntentStatus)) (pool : IntentPool)
    → (fulfill_found i o pool).0.next_id ≡ pool.next_id
unfolding set_status
fulfill_found-next_id i none pool = refl
fulfill_found-next_id i (some e) pool = refl

cancel_found-next_id :
    (i sender : ℕ) (o : Option (Intent × IntentStatus)) (pool : IntentPool)
    → (cancel_found i sender o pool).0.next_id ≡ pool.next_id
unfolding set_status
cancel_found-next_id i sender none pool = refl
cancel_found-next_id i sender (some (intent, status)) pool = ground arith

module _ (max_size : ℕ) where
  -- One call of a method of the pool.
  pub data Step (verify : List ℕ → List ℕ → List ℕ → Bool) : IntentPool → IntentPool → Type 0 where
    step_submit : {p : IntentPool} (i : Intent) → Step verify p (submit max_size i p).0
    step_solution : {p : IntentPool} (s : Solution) → Step verify p (submit_solution verify s p).0
    step_fulfill : {p : IntentPool} (i : ℕ) → Step verify p (fulfill i p).0
    step_cancel : {p : IntentPool} (i sender : ℕ) → Step verify p (cancel i sender p).0
    step_expire : {p : IntentPool} (height : ℕ) → Step verify p (expire height p).0

  fulfill-IsWithinCapacity :
      (i : ℕ) (o : Option (Intent × IntentStatus)) (pool : IntentPool)
      → IsWithinCapacity max_size pool
      → IsWithinCapacity max_size (fulfill_found i o pool).0
  fulfill-IsWithinCapacity i none pool h = h
  fulfill-IsWithinCapacity i (some e) pool h =
      set_status-IsWithinCapacity max_size i fulfilled pool h

  cancel-IsWithinCapacity :
      (i sender : ℕ) (o : Option (Intent × IntentStatus)) (pool : IntentPool)
      → IsWithinCapacity max_size pool
      → IsWithinCapacity max_size (cancel_found i sender o pool).0
  cancel-IsWithinCapacity i sender none pool h = h
  cancel-IsWithinCapacity i sender (some (intent, status)) pool h =
      on_branches (λ (r : IntentPool × Result (Unit {0}) PoolError). IsWithinCapacity max_size r.0)
        (not (intent.sender == sender)) (λ stranger. h)
        (λ owner. set_status-IsWithinCapacity max_size i cancelled pool h)

  submit_solution-IsWithinCapacity :
      (verify : List ℕ → List ℕ → List ℕ → Bool) (s : Solution) (pool : IntentPool)
      → IsWithinCapacity max_size pool
      → IsWithinCapacity max_size (submit_solution verify s pool).0
  unfolding submit_solution
  submit_solution-IsWithinCapacity verify s pool h =
      on_branches (λ (r : IntentPool × Result (Unit {0}) PoolError). IsWithinCapacity max_size r.0)
        (not (length s.signature == 64)) (λ short. h)
        (λ whole.
          on_branches
            (λ (r : IntentPool × Result (Unit {0}) PoolError). IsWithinCapacity max_size r.0)
            (not (verify (id_bytes s.solver) (solution_message s) s.signature)) (λ forged. h)
            (λ signed.
              submit_for-IsWithinCapacity max_size s (lookup s.intent_id pool.intents) pool h))

  Step-IsWithinCapacity :
      {verify : List ℕ → List ℕ → List ℕ → Bool} {p q : IntentPool}
      → max_size < u64_mod
      → IsWithinCapacity max_size p
      → Step verify p q
      → IsWithinCapacity max_size q
  unfolding submit_solution fulfill cancel expire
  Step-IsWithinCapacity word h (step_submit i) = submit-IsWithinCapacity max_size i _ word h
  Step-IsWithinCapacity {verify = verify} {p = p} word h (step_solution s) =
      submit_solution-IsWithinCapacity verify s p h
  Step-IsWithinCapacity {p = p} word h (step_fulfill i) =
      fulfill-IsWithinCapacity i (lookup i p.intents) p h
  Step-IsWithinCapacity {p = p} word h (step_cancel i sender) =
      cancel-IsWithinCapacity i sender (lookup i p.intents) p h
  Step-IsWithinCapacity {p = p} word h (step_expire height) =
      rewritten max_size p (expire_all height p.intents).0 h
        (expire-below p.next_id height p.intents h.below)
        (expire-IsSortedMap height p.intents h.distinct)

  -- Any calls, one after the other.
  pub data Reach (verify : List ℕ → List ℕ → List ℕ → Bool) (p : IntentPool)
      : IntentPool → Type 0 where
    here : Reach verify p p
    later : {q r : IntentPool} → Reach verify p q → Step verify q r → Reach verify p r

  Reach-from :
      {verify : List ℕ → List ℕ → List ℕ → Bool} {p q : IntentPool}
      → max_size < u64_mod
      → IsWithinCapacity max_size p
      → Reach verify p q
      → IsWithinCapacity max_size q
  Reach-from word h here = h
  Reach-from word h (later r step) = Step-IsWithinCapacity word (Reach-from word h r) step

  new-IsWithinCapacity : IsWithinCapacity max_size new
  unfolding lookup
  new-IsWithinCapacity = record {
    below = tt;
    distinct = tt;
    counted = refl;
    size = omega arith;
    capped = λ i. omega arith;
  }

  -- In each pool that the methods make from the empty one, whatever signatures are accepted, and
  -- for a capacity that fits in a word: the intents stand in the order of their identifiers, which
  -- are all different and below the next one, each intent carries its own, the next one is the
  -- number of the intents, there are no more intents than the capacity, and no intent has more than
  -- 50 solutions.
  pub Reach-IsWithinCapacity :
      (verify : List ℕ → List ℕ → List ℕ → Bool) (p : IntentPool)
      → max_size < u64_mod
      → Reach verify new p
      → IsWithinCapacity max_size p
  Reach-IsWithinCapacity verify p word r = Reach-from word new-IsWithinCapacity r

  -- No call takes an identifier back.
  submit-next_id :
      (intent : Intent) (pool : IntentPool)
      → max_size < u64_mod
      → IsWithinCapacity max_size pool
      → pool.next_id ≤ (submit max_size intent pool).0.next_id
  unfolding submit
  submit-next_id intent pool word h = ground (arith, h.counted, add_u64-eq pool.next_id 1)

  Step-next_id :
      {verify : List ℕ → List ℕ → List ℕ → Bool} {p q : IntentPool}
      → max_size < u64_mod
      → IsWithinCapacity max_size p
      → Step verify p q
      → p.next_id ≤ q.next_id
  unfolding submit_solution fulfill cancel expire
  Step-next_id word h (step_submit i) = submit-next_id i _ word h
  Step-next_id {p = p} word h (step_solution s) =
      ground (arith, submit_for-next_id s (lookup s.intent_id p.intents) p)
  Step-next_id {p = p} word h (step_fulfill i) =
      ground (arith, fulfill_found-next_id i (lookup i p.intents) p)
  Step-next_id {p = p} word h (step_cancel i sender) =
      ground (arith, cancel_found-next_id i sender (lookup i p.intents) p)
  Step-next_id {p = p} word h (step_expire height) = omega arith

  Reach-next_id :
      {verify : List ℕ → List ℕ → List ℕ → Bool} {p q : IntentPool}
      → max_size < u64_mod
      → IsWithinCapacity max_size p
      → Reach verify p q
      → p.next_id ≤ q.next_id
  Reach-next_id word h here = omega arith
  Reach-next_id word h (later r step) =
      omega (arith, Reach-next_id word h r, Step-next_id word (Reach-from word h r) step)

  -- Once a pool that the methods made holds as many intents as it may, it refuses every intent from
  -- then on, whatever is called in between: intents that are fulfilled, cancelled or expired keep
  -- their places. The capacity must fit in a word.
  pub submit-full :
      (verify : List ℕ → List ℕ → List ℕ → Bool) (p q : IntentPool) (intent : Intent)
      → max_size < u64_mod
      → Reach verify new p
      → max_size ≤ length p.intents
      → Reach verify p q
      → submit max_size intent q ≡ (q, err full)
  unfolding submit
  submit-full verify p q intent word made at_capacity after =
      let h = Reach-IsWithinCapacity verify p word made in
      let k = Reach-from word h after in
      ground (arith, h.counted, k.counted, Reach-next_id word h after, at_capacity)
