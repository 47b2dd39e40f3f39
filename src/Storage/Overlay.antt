-- ===== src/Storage/Overlay.antt =====
-- `OverlayStore` (crates/solen-storage/src/overlay.rs): the staged writes and deletes above a base
-- store. A `HashSet` is a map to `tt`.
use solen.Base.{
  ℕ, Option, none, some, List, [], ◌∷◌, Result, ok, length, lookup, insert, erase, bytes_key,
}
use solen.Storage.Traits.{Bytes, StateStore, StorageError}
use solen.Storage.Memory.{range_prefix}

pub record OverlayStore (S : StateStore) : Type 0 where
  pub base : S.State
  pub writes : List (Bytes × Bytes)
  pub deletes : List (Bytes × Unit {0})

-- A `Delta` savepoint, or a change set: `Some(v)` writes, `None` deletes.
abbrev pub Delta : Type 0
Delta = List (Bytes × Option Bytes)

unfoldable pub insert_writes : List (Bytes × Bytes) → Delta → Delta
insert_writes [] delta = delta
insert_writes ((k, v) ∷ writes) delta = insert_writes writes (insert k (some v) delta)

unfoldable pub insert_deletes : List (Bytes × Unit {0}) → Delta → Delta
insert_deletes [] delta = delta
insert_deletes ((k, _) ∷ deletes) delta = insert_deletes deletes (insert k none delta)

-- The keys of `delete_prefix`, moved from the writes to the deletes.
unfoldable pub move_writes :
    List (Bytes × Bytes)
    → List (Bytes × Bytes)
    → List (Bytes × Unit {0})
    → List (Bytes × Bytes) × List (Bytes × Unit {0})
move_writes [] writes deletes = (writes, deletes)
move_writes ((k, _) ∷ keys) writes deletes = move_writes keys (erase k writes) (insert k tt deletes)

module _ (S : StateStore) where
  -- `OverlayStore::new`
  unfoldable pub new : S.State → OverlayStore S
  new base = record { base = base; writes = []; deletes = [] }

  unfoldable pub get : OverlayStore S → Bytes → Result (Option Bytes) StorageError
  get o key =
      let below = S.get o.base key in
      elim (lookup key o.deletes) [
        | some _ ↦ ok none
        | none ↦ elim (lookup key o.writes) [ some v ↦ ok (some v) | none ↦ below ]
      ]

  unfoldable pub put :
      OverlayStore S → Bytes → Bytes → OverlayStore S × Result (Unit {0}) StorageError
  put o key value =
      (record o { deletes = erase key o.deletes; writes = insert key value o.writes }, ok tt)

  unfoldable pub delete : OverlayStore S → Bytes → OverlayStore S × Result (Unit {0}) StorageError
  delete o key =
      (record o { writes = erase key o.writes; deletes = insert key tt o.deletes }, ok tt)

  unfoldable pub into_changes : OverlayStore S → Delta
  into_changes o = insert_deletes o.deletes (insert_writes o.writes [])

  unfoldable pub savepoint : OverlayStore S → Delta
  savepoint o = insert_deletes o.deletes (insert_writes o.writes [])

  -- One entry of the loop of `restore_savepoint`.
  unfoldable pub restore_entry : OverlayStore S → Bytes → Option Bytes → OverlayStore S
  restore_entry o k (some v) = record o { writes = insert k v o.writes }
  restore_entry o k none = record o { deletes = insert k tt o.deletes }

  unfoldable pub restore_entries : OverlayStore S → Delta → OverlayStore S
  restore_entries o [] = o
  restore_entries o ((k, v) ∷ delta) = restore_entries (restore_entry o k v) delta

  unfoldable pub restore_savepoint : OverlayStore S → Delta → OverlayStore S
  restore_savepoint o delta = restore_entries (record o { writes = []; deletes = [] }) delta

  unfoldable pub delete_prefix : OverlayStore S → Bytes → OverlayStore S × Result ℕ StorageError
  delete_prefix o prefix =
      let keys = range_prefix prefix o.writes in
      let (writes, deletes) = move_writes keys o.writes o.deletes in
      (record o { writes = writes; deletes = deletes }, ok (length keys))

  abbrev pub overlay : StateStore
  overlay = record { State = OverlayStore S; get = get; put = put; delete = delete }
