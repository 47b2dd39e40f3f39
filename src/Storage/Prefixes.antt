-- ===== src/Storage/Prefixes.antt =====
-- The keys with a prefix, read from a sorted map (crates/solen-storage/src/memory.rs, overlay.rs).
use solen.Base.{
  ◌≡◌, refl, true, false, none, some, List, [], ◌∷◌, arith, ◌&&◌, ok, if◌then◌else◌, lookup, insert,
  erase, bytes_key, bytes_before, bytes_same_iff, bytes_before_trans, is_some, lookup-insert,
  lookup-erase, IsSortedMap, HasKeysAfter,
}
use solen.Storage.Traits.{Bytes, StateStore}
use solen.Storage.Memory.{starts_with, take_prefixed, range_prefix}
use solen.Storage.Overlay.{OverlayStore, move_writes}
use solen.Storage.Overlay
use solen.Storage.Commit.{IsStaged}

-- A key with the prefix is not before it, and none comes after a later key without it.
prefixed-before : (j p : Bytes) → starts_with j p ≡ true → bytes_before j p ≡ false
unfolding starts_with
prefixed-before [] [] h = refl
prefixed-before (x ∷ j) [] h = refl
prefixed-before [] (q ∷ p) h = cc
prefixed-before (x ∷ j) (q ∷ p) h = ground (arith, prefixed-before j p)

passed-prefix :
    (k j p : Bytes)
    → starts_with k p ≡ false
    → bytes_before k p ≡ false
    → bytes_before k j ≡ true
    → starts_with j p ≡ false
unfolding starts_with
passed-prefix k j [] h b l = ground arith
passed-prefix [] j (q ∷ p) h b l = cc
passed-prefix (x ∷ k) [] (q ∷ p) h b l = refl
passed-prefix (x ∷ k) (y ∷ j) (q ∷ p) h b l = ground (arith, passed-prefix k j p)

module _ {V : Type 0} where
  lookup-not_after :
      (k j : Bytes) (m : List (Bytes × V))
      → HasKeysAfter k m
      → bytes_before k j ≡ false
      → lookup j m ≡ none
  unfolding lookup
  lookup-not_after k j [] h b = refl
  lookup-not_after k j ((i, w) ∷ m) h b = ground (arith, lookup-not_after k j m, bytes_same_iff j i)

  lookup-take_prefixed :
      (p j k : Bytes) (v : V) (m : List (Bytes × V))
      → IsSortedMap ((k, v) ∷ m)
      → bytes_before k p ≡ false
      → lookup j (take_prefixed p ((k, v) ∷ m))
        ≡ (if starts_with j p then lookup j ((k, v) ∷ m) else none)
  unfolding take_prefixed lookup
  lookup-take_prefixed p j k v [] h b = ground (arith, bytes_same_iff j k)
  lookup-take_prefixed p j k v ((i, w) ∷ m) h b = ground (
    arith,
    lookup-take_prefixed p j i w m h.1,
    bytes_before_trans k i p,
    passed-prefix k j p,
    lookup-not_after k j ((i, w) ∷ m) h.0,
    bytes_same_iff j k,
  )

  -- In a map in the order of its keys, the walk from the first key that is not before a prefix,
  -- up to the first that does not start with it, meets each entry whose key starts with the prefix
  -- and no other.
  pub lookup-range_prefix :
      (p j : Bytes) (m : List (Bytes × V))
      → IsSortedMap m
      → lookup j (range_prefix p m) ≡ (if starts_with j p then lookup j m else none)
  unfolding range_prefix lookup
  lookup-range_prefix p j [] h = ground arith
  lookup-range_prefix p j ((k, v) ∷ m) h = ground (
    arith,
    lookup-range_prefix p j m h.1,
    lookup-take_prefixed p j k v m h,
    prefixed-before k p,
    bytes_same_iff j k,
  )

lookup-move_writes :
    (j : Bytes) (keys writes : List (Bytes × Bytes)) (deletes : List (Bytes × Unit {0}))
    → let moved = move_writes keys writes deletes in
      (lookup j moved.0 ≡ (if is_some (lookup j keys) then none else lookup j writes))
      × (lookup j moved.1 ≡ (if is_some (lookup j keys) then some tt else lookup j deletes))
unfolding move_writes lookup
lookup-move_writes j [] writes deletes = (refl, refl)
lookup-move_writes j ((k, v) ∷ keys) writes deletes = ground (
  arith,
  lookup-move_writes j keys (erase k writes) (insert k tt deletes),
  lookup-erase j k writes,
  lookup-insert j k tt deletes,
)

-- In an overlay with its two maps in order, `delete_prefix` removes each key that starts with the
-- prefix and was written in the overlay, and changes no other: a key that only the base store
-- holds stays, prefix or not.
get-delete_prefix :
    (S : StateStore) (o : OverlayStore S) (p j : Bytes)
    → IsStaged o
    → Overlay.get S (Overlay.delete_prefix S o p).0 j
      ≡ (if starts_with j p && is_some (lookup j o.writes) then ok none else Overlay.get S o j)
unfolding Overlay.delete_prefix Overlay.get
get-delete_prefix S o p j h =
    let keys = range_prefix p o.writes in
    ground (
      arith,
      lookup-move_writes j keys o.writes o.deletes,
      lookup-range_prefix p j o.writes h.writes_sorted,
    )
