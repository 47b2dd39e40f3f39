-- ===== src/Intents/Capacity.antt =====
-- The capacity of the intent pool (crates/solen-intents/src/pool.rs).
use solen.Base.{
  length-push, ℕ, ◌+◌, ◌<◌, ◌≤◌, ◌≡◌, refl, sym, ◌∙◌, subst, Option, none, some, List, [], ◌∷◌,
  Result, leb, length, push, update_first, lookup, insert, nat_key, u64_mod, add_u64-eq, arith,
  on_branches, lookup-insert, IsSortedMap, HasKeysAfter, insert-IsSortedMap,
}
use solen.Intents.Types.{Intent, IntentStatus, pending, is_fulfilled, Solution}
use solen.Intents.Pool.{
  IntentPool, PoolError, submit, enter_solution, submit_for, or_empty, has_id, with_status,
  set_status, expire_all, max_solutions_per_intent,
}

abbrev pub Entry : Type 0
Entry = ℕ × (Intent × IntentStatus)

-- The identifiers are given out in order, each entry's intent carries its own, and no intent ever
-- leaves: the next identifier is the number of the intents.
abbrev pub HaveIdsBelow : ℕ → List Entry → Type 0
HaveIdsBelow n [] = Unit
HaveIdsBelow n (e ∷ es) = (e.0 < n) × (e.1.0.id ≡ e.0) × HaveIdsBelow n es

pub record IsWithinCapacity (max_size : ℕ) (pool : IntentPool) : Type 0 where
  pub below : HaveIdsBelow pool.next_id pool.intents
  pub distinct : IsSortedMap pool.intents
  pub counted : pool.next_id ≡ length pool.intents
  pub size : length pool.intents ≤ max_size
  pub capped : (i : ℕ) → length (or_empty (lookup i pool.solutions)) ≤ max_solutions_per_intent

below_mono : (n m : ℕ) (es : List Entry) → n ≤ m → HaveIdsBelow n es → HaveIdsBelow m es
below_mono n m [] le h = tt
below_mono n m (e ∷ es) le h = (omega (arith, le, h.0), h.1, below_mono n m es le h.2)

-- A new identifier goes behind those below it.
insert-below :
    (n : ℕ) (i : Intent) (es : List Entry)
    → i.id ≡ n
    → HaveIdsBelow n es
    → HaveIdsBelow (n + 1) (insert n (i, pending) es)
      × (length (insert n (i, pending) es) ≡ length es + 1)
unfolding insert
insert-below n i [] own h = ((omega arith, own, tt), refl)
insert-below n i (e ∷ es) own h = ground (arith, insert-below n i es own, below_mono n (n + 1) es)

-- A map of which only the statuses change keeps its keys.
update-after :
    (n k : ℕ) (status : IntentStatus) (es : List Entry)
    → HasKeysAfter n es
    → HasKeysAfter n (update_first (has_id k) (with_status status) es)
unfolding update_first
update-after n k status [] h = tt
update-after n k status (e ∷ es) h = ground (arith, update-after n k status es)

update-IsSortedMap :
    (k : ℕ) (status : IntentStatus) (es : List Entry)
    → IsSortedMap es
    → IsSortedMap (update_first (has_id k) (with_status status) es)
unfolding update_first
update-IsSortedMap k status [] h = tt
update-IsSortedMap k status (e ∷ es) h =
    ground (arith, update-IsSortedMap k status es, update-after e.0 k status es)

expire-after :
    (n height : ℕ) (es : List Entry) → HasKeysAfter n es → HasKeysAfter n (expire_all height es).0
unfolding expire_all
expire-after n height [] h = tt
expire-after n height (e ∷ es) h = ground (arith, expire-after n height es)

pub expire-IsSortedMap :
    (height : ℕ) (es : List Entry) → IsSortedMap es → IsSortedMap (expire_all height es).0
unfolding expire_all
expire-IsSortedMap height [] h = tt
expire-IsSortedMap height (e ∷ es) h =
    ground (arith, expire-IsSortedMap height es, expire-after e.0 height es)

update-below :
    (n k : ℕ) (status : IntentStatus) (es : List Entry)
    → HaveIdsBelow n es
    → HaveIdsBelow n (update_first (has_id k) (with_status status) es)
      × (length (update_first (has_id k) (with_status status) es) ≡ length es)
unfolding update_first
update-below n k status [] h = (tt, refl)
update-below n k status (e ∷ es) h = ground (arith, update-below n k status es)

pub expire-below :
    (n height : ℕ) (es : List Entry)
    → HaveIdsBelow n es
    → HaveIdsBelow n (expire_all height es).0 × (length (expire_all height es).0 ≡ length es)
unfolding expire_all
expire-below n height [] h = (tt, refl)
expire-below n height (e ∷ es) h = ground (arith, expire-below n height es)

module _ (max_size : ℕ) where
  -- A pool with other intents, as many and with the same identifiers.
  pub rewritten :
      (pool : IntentPool) (es : List Entry)
      → IsWithinCapacity max_size pool
      → HaveIdsBelow pool.next_id es × (length es ≡ length pool.intents)
      → IsSortedMap es
      → IsWithinCapacity max_size (record pool { intents = es })
  rewritten pool es h same sorted = record {
    distinct = sorted;
    below = same.0;
    counted = h.counted ∙ sym same.1;
    size = omega (arith, same.1, h.size);
    capped = h.capped;
  }

  pub set_status-IsWithinCapacity :
      (k : ℕ) (status : IntentStatus) (pool : IntentPool)
      → IsWithinCapacity max_size pool
      → IsWithinCapacity max_size (set_status k status pool)
  unfolding set_status
  set_status-IsWithinCapacity k status pool h =
      rewritten pool (update_first (has_id k) (with_status status) pool.intents) h
        (update-below pool.next_id k status pool.intents h.below)
        (update-IsSortedMap k status pool.intents h.distinct)

  pub submit-IsWithinCapacity :
      (intent : Intent) (pool : IntentPool)
      → max_size < u64_mod
      → IsWithinCapacity max_size pool
      → IsWithinCapacity max_size (submit max_size intent pool).0
  unfolding submit
  submit-IsWithinCapacity intent pool word h =
      on_branches (λ (r : IntentPool × Result ℕ PoolError). IsWithinCapacity max_size r.0)
        (leb max_size (length pool.intents)) (λ no_room. h)
        (λ room.
          let fits : pool.next_id + 1 < u64_mod = ground (arith, room, h.counted, word) in
          let named : Intent = record intent { id = pool.next_id } in
          let grown = insert-below pool.next_id named pool.intents refl h.below in
          let next = add_u64-eq pool.next_id 1 fits in
          record {
            distinct = insert-IsSortedMap pool.next_id (named, pending) pool.intents h.distinct;
            below =
                subst (λ n. HaveIdsBelow n (insert pool.next_id (named, pending) pool.intents))
                  (sym next) grown.0;
            counted = ground (arith, next, grown.1, h.counted);
            size = ground (arith, grown.1, room);
            capped = h.capped;
          })

  enter_solution-IsWithinCapacity :
      (s : Solution) (pool : IntentPool)
      → IsWithinCapacity max_size pool
      → IsWithinCapacity max_size (enter_solution s pool).0
  unfolding enter_solution
  enter_solution-IsWithinCapacity s pool h =
      let entry = or_empty (lookup s.intent_id pool.solutions) in
      on_branches (λ (r : IntentPool × Result (Unit {0}) PoolError). IsWithinCapacity max_size r.0)
        (leb max_solutions_per_intent (length entry))
        (λ many. record {
          below = h.below;
          distinct = h.distinct;
          counted = h.counted;
          size = h.size;
          capped = λ i. ground (
            arith,
            lookup-insert i s.intent_id entry pool.solutions,
            h.capped i,
            h.capped s.intent_id,
          );
        })
        (λ few. record {
          below = h.below;
          distinct = h.distinct;
          counted = h.counted;
          size = h.size;
          capped = λ i. ground (
            arith,
            few,
            lookup-insert i s.intent_id (push entry s) pool.solutions,
            length-push entry s,
            h.capped i,
          );
        })

  pub submit_for-IsWithinCapacity :
      (s : Solution) (o : Option (Intent × IntentStatus)) (pool : IntentPool)
      → IsWithinCapacity max_size pool
      → IsWithinCapacity max_size (submit_for s o pool).0
  submit_for-IsWithinCapacity s none pool h = h
  submit_for-IsWithinCapacity s (some (i, status)) pool h =
      on_branches (λ (r : IntentPool × Result (Unit {0}) PoolError). IsWithinCapacity max_size r.0)
        (is_fulfilled status) (λ over. h) (λ open_still. enter_solution-IsWithinCapacity s pool h)
