-- ===== src/Consensus/Retention.antt =====
-- How many periodic checkpoints are kept (crates/solen-consensus/src/checkpoint.rs).
use solen.Base.{
  ℕ, ◌≡◌, ◌≤◌, ◌+◌, refl, ap, Option, some, List, [], ◌∷◌, if◌then◌else◌, leb, arith, length, push,
  length-push, on_branches,
}
use solen.Consensus.Checkpoints.{Checkpoint, CheckpointStore, add, add_to, without_first}

-- With the oldest one evicted where the store is full, there is room for one more.
evicted :
    (cs : List Checkpoint) (max : ℕ)
    → 1 ≤ max
    → length cs ≤ max
    → (kept : List Checkpoint) × ((if leb max (length cs) then without_first cs else some cs)
        ≡ some kept)
      × (length kept + 1 ≤ max)
unfolding without_first
evicted [] max room within = ([], ground (arith, room), omega (arith, room))
evicted (c ∷ cs) max room within =
    on_branches
      (λ (o : Option (List Checkpoint)).
        (kept : List Checkpoint) × (o ≡ some kept) × (length kept + 1 ≤ max))
      (leb max (length (c ∷ cs))) (λ full. (cs, refl, omega (arith, within)))
      (λ free. (c ∷ cs, refl, ground (arith, free)))

-- A store that may keep a checkpoint takes every further one, never panics, and keeps no more than
-- it may.
add-IsWithin :
    (c : Checkpoint) (s : CheckpointStore)
    → 1 ≤ s.max_checkpoints
    → length s.checkpoints ≤ s.max_checkpoints
    → (t : CheckpointStore) × (add c s ≡ some t)
      × (length t.checkpoints ≤ s.max_checkpoints)
      × (t.max_checkpoints ≡ s.max_checkpoints)
unfolding add
add-IsWithin c s room within =
    let (kept, kept_eq, fits) = evicted s.checkpoints s.max_checkpoints room within in
    (
      record s { checkpoints = push kept c },
      ap (add_to c s) kept_eq,
      ground (arith, fits, length-push kept c),
      refl,
    )
