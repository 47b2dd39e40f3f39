-- ===== src/Storage/Commit.antt =====
-- What a commit of an overlay's changes makes of the base store
-- (crates/solen-storage/src/overlay.rs, traits.rs).
use solen.Base.{
  ◌≡◌, refl, sym, ◌∙◌, ap, Option, none, some, List, [], ◌∷◌, arith, Result, ok, IsOk,
  if◌then◌else◌, lookup, insert, bytes_key, bytes_same, bytes_same_iff, lookup-insert, lookup-after,
  insert-IsSortedMap, erase-IsSortedMap, IsSortedMap,
}
use solen.Storage.Traits.{
  Bytes, StateStore, StorageError, IsLawful, apply_change, apply_batch_atomic,
}
use solen.Storage.Overlay.{
  OverlayStore, Delta, insert_writes, insert_deletes, move_writes, restore_entry, restore_entries,
}
use solen.Storage.Overlay

-- What a key holds when a change set lies above a store.
abbrev pub staged :
    Option (Option Bytes) → Result (Option Bytes) StorageError → Result (Option Bytes) StorageError
staged none below = below
staged (some v) below = ok v

-- What the overlay's two maps say of a key.
abbrev pub change_of : Option (Unit {0}) → Option Bytes → Option (Option Bytes)
change_of (some _) w = some none
change_of none (some v) = some (some v)
change_of none none = none

lookup-insert_writes :
    (j : Bytes) (writes : List (Bytes × Bytes)) (delta : Delta)
    → IsSortedMap writes
    → lookup j (insert_writes writes delta)
      ≡ elim (lookup j writes) [ some v ↦ some (some v) | none ↦ lookup j delta ]
unfolding insert_writes lookup
lookup-insert_writes j [] delta h = refl
lookup-insert_writes j ((k, v) ∷ writes) delta h = ground (
  arith,
  lookup-insert_writes j writes (insert k (some v) delta),
  lookup-insert j k (some v) delta,
  lookup-after k writes,
  bytes_same_iff j k,
)

lookup-insert_deletes :
    (j : Bytes) (deletes : List (Bytes × Unit {0})) (delta : Delta)
    → IsSortedMap deletes
    → lookup j (insert_deletes deletes delta)
      ≡ elim (lookup j deletes) [ some _ ↦ some none | none ↦ lookup j delta ]
unfolding insert_deletes lookup
lookup-insert_deletes j [] delta h = refl
lookup-insert_deletes j ((k, _) ∷ deletes) delta h = ground (
  arith,
  lookup-insert_deletes j deletes (insert k none delta),
  lookup-insert j k none delta,
  lookup-after k deletes,
  bytes_same_iff j k,
)

insert_writes-IsSortedMap :
    (writes : List (Bytes × Bytes)) (delta : Delta)
    → IsSortedMap delta
    → IsSortedMap (insert_writes writes delta)
unfolding insert_writes
insert_writes-IsSortedMap [] delta h = h
insert_writes-IsSortedMap ((k, v) ∷ writes) delta h =
    insert_writes-IsSortedMap writes (insert k (some v) delta)
      (insert-IsSortedMap k (some v) delta h)

insert_deletes-IsSortedMap :
    (deletes : List (Bytes × Unit {0})) (delta : Delta)
    → IsSortedMap delta
    → IsSortedMap (insert_deletes deletes delta)
unfolding insert_deletes
insert_deletes-IsSortedMap [] delta h = h
insert_deletes-IsSortedMap ((k, _) ∷ deletes) delta h =
    insert_deletes-IsSortedMap deletes (insert k none delta) (insert-IsSortedMap k none delta h)

module _ {S : StateStore} where
  -- The two maps of an overlay are in order.
  pub record IsStaged (o : OverlayStore S) : Type 0 where
    pub writes_sorted : IsSortedMap o.writes
    pub deletes_sorted : IsSortedMap o.deletes

  pub get-staged :
      (o : OverlayStore S) (j : Bytes)
      → Overlay.get S o j
        ≡ staged (change_of (lookup j o.deletes) (lookup j o.writes)) (S.get o.base j)
  unfolding Overlay.get
  get-staged o j = ground arith

  pub lookup-into_changes :
      (o : OverlayStore S) (j : Bytes)
      → IsStaged o
      → lookup j (Overlay.into_changes S o) ≡ change_of (lookup j o.deletes) (lookup j o.writes)
  unfolding Overlay.into_changes lookup
  lookup-into_changes o j h = ground (
    arith,
    lookup-insert_deletes j o.deletes (insert_writes o.writes []) h.deletes_sorted,
    lookup-insert_writes j o.writes [] h.writes_sorted,
  )

  pub get-apply_change :
      IsLawful S
      → (s : S.State) (k : Bytes) (v : Option Bytes) (j : Bytes) → IsOk (apply_change S s k v).1
      → S.get (apply_change S s k v).0 j ≡ (if bytes_same j k then ok v else S.get s j)
  unfolding apply_change
  get-apply_change law s k none j h = law.get-delete s k j h
  get-apply_change law s k (some v) j h = law.get-put s k v j h

  pub get-apply_batch :
      IsLawful S
      → (s : S.State) (changes : Delta) (j : Bytes) → IsSortedMap changes
      → IsOk (apply_batch_atomic S s changes).1
      → S.get (apply_batch_atomic S s changes).0 j ≡ staged (lookup j changes) (S.get s j)
  unfolding apply_batch_atomic lookup
  get-apply_batch law s [] j h fine = refl
  get-apply_batch law s ((k, v) ∷ changes) j h fine = ground (
    arith,
    get-apply_batch law (apply_change S s k v).0 changes j h.1,
    get-apply_change law s k v j,
    lookup-after k changes h.0,
    bytes_same_iff j k,
  )

  pub into_changes-IsSortedMap : (o : OverlayStore S) → IsSortedMap (Overlay.into_changes S o)
  unfolding Overlay.into_changes
  into_changes-IsSortedMap o =
      insert_deletes-IsSortedMap o.deletes (insert_writes o.writes [])
        (insert_writes-IsSortedMap o.writes [] tt)

  -- When the base store keeps the promises of the trait and the whole change set of an overlay is
  -- applied to it, then each key holds in the base what it held in the overlay.
  pub get-commit :
      IsLawful S
      → (o : OverlayStore S) (j : Bytes) → IsStaged o
      → IsOk (apply_batch_atomic S o.base (Overlay.into_changes S o)).1
      → S.get (apply_batch_atomic S o.base (Overlay.into_changes S o)).0 j ≡ Overlay.get S o j
  get-commit law o j h fine =
      get-apply_batch law o.base (Overlay.into_changes S o) j (into_changes-IsSortedMap o) fine
      ∙ ap (λ c. staged c (S.get o.base j)) (lookup-into_changes o j h)
      ∙ sym (get-staged o j)

  pub new-IsStaged : (s : S.State) → IsStaged (Overlay.new S s)
  unfolding Overlay.new
  new-IsStaged s = record { writes_sorted = tt; deletes_sorted = tt }

  pub put-IsStaged :
      (o : OverlayStore S) (k v : Bytes) → IsStaged o → IsStaged (Overlay.put S o k v).0
  unfolding Overlay.put
  put-IsStaged o k v h = record {
    writes_sorted = insert-IsSortedMap k v o.writes h.writes_sorted;
    deletes_sorted = erase-IsSortedMap k o.deletes h.deletes_sorted;
  }

  pub delete-IsStaged :
      (o : OverlayStore S) (k : Bytes) → IsStaged o → IsStaged (Overlay.delete S o k).0
  unfolding Overlay.delete
  delete-IsStaged o k h = record {
    writes_sorted = erase-IsSortedMap k o.writes h.writes_sorted;
    deletes_sorted = insert-IsSortedMap k tt o.deletes h.deletes_sorted;
  }
