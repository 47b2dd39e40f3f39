-- ===== src/Storage/Tests.antt =====
-- Runs of the stores (crates/solen-storage/src/memory.rs, overlay.rs), with short keys and a hash
-- function that returns its input.
use solen.Base.{◌≡◌, refl, true, none, some, [], ◌∷◌, is_some, lookup, insert, erase, bytes_key}
use solen.Storage.Traits.{Bytes, StateStore, apply_batch_atomic, apply_change}
use solen.Storage.Memory.{
  memory_store, MemoryStore, value_changed, starts_with, is_non_state_key, starts_with_any,
}
use solen.Storage.Memory
use solen.Storage.Overlay.{OverlayStore, Delta}
use solen.Storage.Overlay
use solen.Storage.Commit.{IsStaged, new-IsStaged, put-IsStaged}
use solen.Storage.Laws.{memory_store-IsLawful}
use solen.Storage.Refinement.{commit_log, get-commit-log}
use solen.Storage.Savepoints.{get-restore_savepoint}
use solen.Storage.Roots.{merkle_root-some, leaves_of}
use solen.Storage.Coherence.{Reached, reached_new, reached_put, reached_commit, Reached-state_root}

abbrev same_bytes : Bytes → Bytes
same_bytes bytes = bytes

abbrev store : StateStore
store = memory_store same_bytes

-- A store with two entries.
abbrev two_entries : MemoryStore
two_entries =
    (Memory.put same_bytes (Memory.put same_bytes Memory.new (1 ∷ []) (10 ∷ [])).0 (2 ∷ [])
      (20 ∷ [])).0

abbrev log : Delta
log = ((2 ∷ []), none) ∷ ((1 ∷ []), some (11 ∷ [])) ∷ ((3 ∷ []), some (30 ∷ [])) ∷ []

get-commit-log_example :
    Memory.get (commit_log store (memory_store-IsLawful same_bytes) two_entries log).0 (2 ∷ [])
    ≡ Memory.get (apply_batch_atomic store two_entries log).0 (2 ∷ [])
unfolding apply_batch_atomic apply_change Overlay.new Overlay.put Overlay.delete
    Overlay.into_changes Overlay.insert_writes Overlay.insert_deletes Memory.put Memory.delete
    lookup insert erase value_changed
get-commit-log_example =
    get-commit-log store (memory_store-IsLawful same_bytes) two_entries log (2 ∷ []) tt tt

abbrev one_write : OverlayStore store
one_write = (Overlay.put store (Overlay.new store two_entries) (1 ∷ []) (11 ∷ [])).0

one_write-IsStaged : IsStaged one_write
one_write-IsStaged =
    put-IsStaged (Overlay.new store two_entries) (1 ∷ []) (11 ∷ []) (new-IsStaged two_entries)

abbrev later : OverlayStore store
later = (Overlay.delete store (Overlay.put store one_write (3 ∷ []) (30 ∷ [])).0 (1 ∷ [])).0

get-restore_savepoint_example :
    Overlay.get store
      (Overlay.restore_savepoint store later (Overlay.savepoint store one_write))
      (1 ∷ [])
    ≡ Overlay.get store one_write (1 ∷ [])
unfolding Overlay.put Overlay.delete Overlay.new
get-restore_savepoint_example =
    get-restore_savepoint store one_write later (1 ∷ []) one_write-IsStaged refl

merkle_root-some_example :
    is_some (Memory.merkle_root same_bytes ((1 ∷ []) ∷ (2 ∷ []) ∷ (3 ∷ []) ∷ [])) ≡ true
merkle_root-some_example = merkle_root-some same_bytes ((1 ∷ []) ∷ (2 ∷ []) ∷ (3 ∷ []) ∷ [])

two_entries-Reached : Reached same_bytes (Memory.commit_root same_bytes two_entries)
two_entries-Reached =
    reached_commit (reached_put (2 ∷ []) (20 ∷ []) (reached_put (1 ∷ []) (10 ∷ []) reached_new))

Reached-state_root_example :
    let s = Memory.commit_root same_bytes two_entries in
    Memory.state_root same_bytes s
    ≡ Memory.merkle_root same_bytes
        (Memory.state_leaves same_bytes (leaves_of same_bytes s.entries))
Reached-state_root_example =
    Reached-state_root same_bytes (Memory.commit_root same_bytes two_entries) two_entries-Reached
