-- ===== src/Storage/Savepoints.antt =====
-- Savepoints of an overlay (crates/solen-storage/src/overlay.rs).
use solen.Base.{
  ◌≡◌, refl, sym, ◌∙◌, ap, ap₂, Option, none, some, [], ◌∷◌, arith, lookup, bytes_key,
  bytes_same_iff, lookup-insert, lookup-after, IsSortedMap,
}
use solen.Storage.Traits.{Bytes, StateStore}
use solen.Storage.Overlay.{OverlayStore, Delta, insert_writes, insert_deletes}
use solen.Storage.Overlay
use solen.Storage.Commit.{
  IsStaged, staged, change_of, get-staged, lookup-into_changes, into_changes-IsSortedMap,
}

-- What a change of a key adds to the writes and to the deletes.
abbrev written : Option (Option Bytes) → Option Bytes → Option Bytes
written (some (some v)) below = some v
written (some none) below = below
written none below = below

abbrev deleted : Option (Option Bytes) → Option (Unit {0}) → Option (Unit {0})
deleted (some none) below = some tt
deleted (some (some v)) below = below
deleted none below = below

module _ (S : StateStore) where
  lookup-restored_writes :
      (o : OverlayStore S) (delta : Delta) (j : Bytes)
      → IsSortedMap delta
      → lookup j (Overlay.restore_entries S o delta).writes
        ≡ written (lookup j delta) (lookup j o.writes)
  unfolding Overlay.restore_entries Overlay.restore_entry lookup
  lookup-restored_writes o [] j h = refl
  lookup-restored_writes o ((k, none) ∷ delta) j h = ground (
    arith,
    lookup-restored_writes (Overlay.restore_entry S o k none) delta j h.1,
    lookup-after k delta h.0,
    bytes_same_iff j k,
  )
  lookup-restored_writes o ((k, some w) ∷ delta) j h = ground (
    arith,
    lookup-restored_writes (Overlay.restore_entry S o k (some w)) delta j h.1,
    lookup-insert j k w o.writes,
    lookup-after k delta h.0,
    bytes_same_iff j k,
  )

  lookup-restored_deletes :
      (o : OverlayStore S) (delta : Delta) (j : Bytes)
      → IsSortedMap delta
      → lookup j (Overlay.restore_entries S o delta).deletes
        ≡ deleted (lookup j delta) (lookup j o.deletes)
  unfolding Overlay.restore_entries Overlay.restore_entry lookup
  lookup-restored_deletes o [] j h = refl
  lookup-restored_deletes o ((k, v) ∷ delta) j h = ground (
    arith,
    lookup-restored_deletes (Overlay.restore_entry S o k v) delta j h.1,
    lookup-insert j k tt o.deletes,
    lookup-after k delta h.0,
    bytes_same_iff j k,
  )

  restore_entries-base :
      (o : OverlayStore S) (delta : Delta) → (Overlay.restore_entries S o delta).base ≡ o.base
  unfolding Overlay.restore_entries Overlay.restore_entry
  restore_entries-base o [] = refl
  restore_entries-base o ((k, none) ∷ delta) =
      restore_entries-base (Overlay.restore_entry S o k none) delta
  restore_entries-base o ((k, some v) ∷ delta) =
      restore_entries-base (Overlay.restore_entry S o k (some v)) delta

  restored_base :
      (p : OverlayStore S) (delta : Delta) → (Overlay.restore_savepoint S p delta).base ≡ p.base
  unfolding Overlay.restore_savepoint
  restored_base p delta = restore_entries-base (record p { writes = []; deletes = [] }) delta

  restored_change :
      (o p : OverlayStore S) (j : Bytes)
      → IsStaged o
      → let q = Overlay.restore_savepoint S p (Overlay.savepoint S o) in
        change_of (lookup j q.deletes) (lookup j q.writes)
        ≡ change_of (lookup j o.deletes) (lookup j o.writes)
  unfolding Overlay.restore_savepoint Overlay.savepoint Overlay.into_changes lookup
  restored_change o p j h =
      let delta = Overlay.into_changes S o in
      let bare : OverlayStore S = record p { writes = []; deletes = [] } in
      ground (
        arith,
        lookup-restored_writes bare delta j (into_changes-IsSortedMap o),
        lookup-restored_deletes bare delta j (into_changes-IsSortedMap o),
        lookup-into_changes o j h,
      )

  -- A savepoint that is taken of an overlay with its two maps in order, and restored in an overlay
  -- above the same base state, whatever was written and deleted in that one, makes each key hold
  -- what it held when the savepoint was taken.
  pub get-restore_savepoint :
      (o p : OverlayStore S) (j : Bytes)
      → IsStaged o
      → p.base ≡ o.base
      → Overlay.get S (Overlay.restore_savepoint S p (Overlay.savepoint S o)) j ≡ Overlay.get S o j
  get-restore_savepoint o p j h below =
      let delta = Overlay.savepoint S o in
      let q = Overlay.restore_savepoint S p delta in
      get-staged q j
      ∙ ap₂ staged (restored_change o p j h) (ap (λ s. S.get s j) (restored_base p delta ∙ below))
      ∙ sym (get-staged o j)
