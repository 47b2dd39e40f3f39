-- ===== src/Storage/Roots.antt =====
-- The state root of `MemoryStore` (crates/solen-storage/src/memory.rs).
use solen.Base.{
  ℕ, zero, suc, ◌<◌, ◌≤◌, ◌≡◌, refl, ◌∙◌, ap, true, false, Option, none, some, List, [], ◌∷◌, arith,
  length, lookup, insert, erase, bytes_key, bytes_same_iff, is_some, insert_same, IsSortedMap,
  HasKeysAfter,
}
use solen.Storage.Traits.{Bytes}
use solen.Storage.Memory.{MemoryStore, erase_all, range_prefix, value_changed, is_non_state_key}
use solen.Storage.Memory

module _ (blake3 : Bytes → Bytes) where
  length-pair_up :
      (x y : Bytes) (rest : List Bytes)
      → length (Memory.pair_up blake3 (x ∷ y ∷ rest)) ≤ suc (length rest)
  unfolding Memory.pair_up
  length-pair_up x y [] = ground arith
  length-pair_up x y (z ∷ []) = ground arith
  length-pair_up x y (z ∷ w ∷ rest) = ground (arith, length-pair_up z w rest)

  merkle_loop-some :
      (fuel : ℕ) (current : List Bytes)
      → length current < fuel
      → is_some (Memory.merkle_loop blake3 fuel current) ≡ true
  unfolding Memory.merkle_loop
  merkle_loop-some zero current h = ground arith
  merkle_loop-some (suc fuel) [] h = refl
  merkle_loop-some (suc fuel) (x ∷ []) h = refl
  merkle_loop-some (suc fuel) (x ∷ y ∷ rest) h =
      merkle_loop-some fuel (Memory.pair_up blake3 (x ∷ y ∷ rest))
        (ground (arith, length-pair_up x y rest))

  -- The loop of `merkle_root` comes to an end: it gives a root for any number of leaves.
  pub merkle_root-some : (leaves : List Bytes) → is_some (Memory.merkle_root blake3 leaves) ≡ true
  unfolding Memory.merkle_root
  merkle_root-some leaves = merkle_loop-some (suc (length leaves)) leaves (omega arith)

  -- The leaf of each entry.
  unfoldable pub leaves_of : List (Bytes × Bytes) → List (Bytes × Bytes)
  leaves_of [] = []
  leaves_of ((k, v) ∷ m) = (k, Memory.hash_leaf blake3 k v) ∷ leaves_of m

  pub leaves_of-insert :
      (k v : Bytes) (m : List (Bytes × Bytes))
      → leaves_of (insert k v m) ≡ insert k (Memory.hash_leaf blake3 k v) (leaves_of m)
  unfolding leaves_of insert
  leaves_of-insert k v [] = refl
  leaves_of-insert k v ((j, w) ∷ m) = ground (arith, leaves_of-insert k v m)

  pub leaves_of-erase :
      (k : Bytes) (m : List (Bytes × Bytes)) → leaves_of (erase k m) ≡ erase k (leaves_of m)
  unfolding leaves_of erase
  leaves_of-erase k [] = refl
  leaves_of-erase k ((j, w) ∷ m) = ground (arith, leaves_of-erase k m)

  pub leaves_of-erase_all :
      (keys m : List (Bytes × Bytes)) → leaves_of (erase_all keys m) ≡ erase_all keys (leaves_of m)
  unfolding erase_all
  leaves_of-erase_all [] m = refl
  leaves_of-erase_all ((k, w) ∷ keys) m =
      leaves_of-erase_all keys (erase k m) ∙ ap (erase_all keys) (leaves_of-erase k m)

  leaves_of-after :
      (k : Bytes) (m : List (Bytes × Bytes)) → HasKeysAfter k m → HasKeysAfter k (leaves_of m)
  unfolding leaves_of
  leaves_of-after k [] h = tt
  leaves_of-after k ((j, w) ∷ m) h = (h.0, leaves_of-after k m h.1)

  pub leaves_of-IsSortedMap : (m : List (Bytes × Bytes)) → IsSortedMap m → IsSortedMap (leaves_of m)
  unfolding leaves_of
  leaves_of-IsSortedMap [] h = tt
  leaves_of-IsSortedMap ((j, w) ∷ m) h = (leaves_of-after j m h.0, leaves_of-IsSortedMap m h.1)

  -- A leaf that did not change leaves the leaves as they are.
  unchanged-some :
      (leaf : Bytes) (old : Option Bytes) → value_changed leaf old ≡ false → old ≡ some leaf
  unfolding value_changed
  unchanged-some leaf none h = cc
  unchanged-some leaf (some l) h = ground (arith, bytes_same_iff l leaf)

  pub insert-unchanged :
      (k leaf : Bytes) (m : List (Bytes × Bytes))
      → IsSortedMap m
      → value_changed leaf (lookup k m) ≡ false
      → insert k leaf m ≡ m
  insert-unchanged k leaf m sorted h =
      insert_same k leaf m sorted (unchanged-some leaf (lookup k m) h)
