-- ===== src/Storage/Coherence.antt =====
-- The root that `MemoryStore` caches (crates/solen-storage/src/memory.rs).
use solen.Base.{
  ◌≡◌, refl, sym, ◌∙◌, ap, true, false, not, Option, none, some, List, [], ◌∷◌, map, arith, Result,
  ok, if◌then◌else◌, retain, lookup, insert, erase, bytes_key, bytes_same_iff, is_some,
  insert-IsSortedMap, erase-IsSortedMap, IsSortedMap,
}
use solen.Storage.Traits.{Bytes}
use solen.Storage.Memory.{MemoryStore, erase_all, range_prefix, value_changed, is_non_state_key}
use solen.Storage.Memory
use solen.Storage.Traits.{StorageError}
use solen.Storage.Roots.{
  leaves_of, leaves_of-insert, leaves_of-erase, leaves_of-erase_all, leaves_of-IsSortedMap,
  insert-unchanged,
}

module _ (blake3 : Bytes → Bytes) where
  -- The leaf hashes are those of the entries, and the cached root, if there is one, is theirs.
  pub record IsCoherent (s : MemoryStore) : Type 0 where
    pub sorted : IsSortedMap s.entries
    pub leaves : s.leaf_hashes ≡ leaves_of blake3 s.entries
    pub fresh :
        Memory.state_root blake3 s
        ≡ Memory.merkle_root blake3 (Memory.state_leaves blake3 s.leaf_hashes)

  state_root-put :
      (s : MemoryStore) (k v : Bytes)
      → IsCoherent s
      → Memory.state_root blake3 (Memory.put blake3 s k v).0
        ≡ Memory.merkle_root blake3
            (Memory.state_leaves blake3 (Memory.put blake3 s k v).0.leaf_hashes)
  unfolding Memory.put Memory.state_root
  state_root-put s k v h = ground (
    arith,
    insert-unchanged blake3 k (Memory.hash_leaf blake3 k v) s.leaf_hashes,
    h.fresh,
    h.leaves,
    leaves_of-IsSortedMap blake3 s.entries h.sorted,
  )

  pub put-IsCoherent :
      (s : MemoryStore) (k v : Bytes) → IsCoherent s → IsCoherent (Memory.put blake3 s k v).0
  unfolding Memory.put
  put-IsCoherent s k v h = record {
    sorted = insert-IsSortedMap k v s.entries h.sorted;
    leaves =
        ap (insert k (Memory.hash_leaf blake3 k v)) h.leaves
        ∙ sym (leaves_of-insert blake3 k v s.entries);
    fresh = state_root-put s k v h;
  }

  pub new-IsCoherent : IsCoherent Memory.new
  unfolding Memory.state_root leaves_of
  new-IsCoherent = record { sorted = tt; leaves = refl; fresh = refl }

  -- Entries erased from both maps, with the cached root dropped when there were some.
  erase_all-IsSortedMap :
      (keys m : List (Bytes × Bytes)) → IsSortedMap m → IsSortedMap (erase_all keys m)
  unfolding erase_all
  erase_all-IsSortedMap [] m h = h
  erase_all-IsSortedMap ((k, _) ∷ keys) m h =
      erase_all-IsSortedMap keys (erase k m) (erase-IsSortedMap k m h)

  erase_all-fresh :
      (s : MemoryStore) (keys : List (Bytes × Bytes))
      → IsCoherent s
      → Memory.state_root blake3 (Memory.without keys s)
        ≡ Memory.merkle_root blake3 (Memory.state_leaves blake3 (erase_all keys s.leaf_hashes))
  unfolding Memory.without erase_all Memory.state_root
  erase_all-fresh s [] h = h.fresh
  erase_all-fresh s (e ∷ keys) h = ground arith

  without-IsCoherent :
      (s : MemoryStore) (keys : List (Bytes × Bytes))
      → IsCoherent s
      → IsCoherent (Memory.without keys s)
  unfolding Memory.without
  without-IsCoherent s keys h = record {
    sorted = erase_all-IsSortedMap keys s.entries h.sorted;
    leaves = ap (erase_all keys) h.leaves ∙ sym (leaves_of-erase_all blake3 keys s.entries);
    fresh = erase_all-fresh s keys h;
  }

  pub delete_prefix-IsCoherent :
      (s : MemoryStore) (prefix : Bytes)
      → IsCoherent s
      → IsCoherent (Memory.delete_prefix s prefix).0
  unfolding Memory.delete_prefix
  delete_prefix-IsCoherent s prefix h = without-IsCoherent s (range_prefix prefix s.entries) h

  erased-IsCoherent :
      (s : MemoryStore) (k : Bytes)
      → IsCoherent s
      → IsCoherent (record {
        entries = erase k s.entries;
        leaf_hashes = erase k s.leaf_hashes;
        tree_cache = none;
      })
  unfolding Memory.state_root
  erased-IsCoherent s k h = record {
    sorted = erase-IsSortedMap k s.entries h.sorted;
    leaves = ap (erase k) h.leaves ∙ sym (leaves_of-erase blake3 k s.entries);
    fresh = refl;
  }

  pub delete-IsCoherent :
      (s : MemoryStore) (k : Bytes) → IsCoherent s → IsCoherent (Memory.delete s k).0
  unfolding Memory.delete
  delete-IsCoherent s k h =
      elim (is_some (lookup k s.entries))
        as (λ b.
          IsCoherent
            (if◌then◌else◌ {A = MemoryStore × Result (Unit {0}) StorageError} b
              (
                record {
                  entries = erase k s.entries;
                  leaf_hashes = erase k s.leaf_hashes;
                  tree_cache = none;
                },
                ok tt,
              )
              (s, ok tt)).0) [ true ↦ erased-IsCoherent s k h | false ↦ h ]

  committed-IsCoherent :
      (s : MemoryStore)
      → IsCoherent s
      → IsCoherent (record s {
        tree_cache = Memory.merkle_root blake3 (Memory.state_leaves blake3 s.leaf_hashes);
      })
  unfolding Memory.state_root
  committed-IsCoherent s h = record { sorted = h.sorted; leaves = h.leaves; fresh = ground arith }

  pub commit_root-IsCoherent :
      (s : MemoryStore) → IsCoherent s → IsCoherent (Memory.commit_root blake3 s)
  unfolding Memory.commit_root
  commit_root-IsCoherent s h =
      elim s.tree_cache
        as (λ (c : Option Bytes). IsCoherent (elim c as (λ _. MemoryStore) [
          | some root ↦ s
          | none ↦ record s {
            tree_cache = Memory.merkle_root blake3 (Memory.state_leaves blake3 s.leaf_hashes);
          }
        ])) [ some root ↦ h | none ↦ committed-IsCoherent s h ]

  -- The stores that the operations make from the empty one.
  pub data Reached : MemoryStore → Type 0 where
    reached_new : Reached Memory.new
    reached_put : {s : MemoryStore} (k v : Bytes) → Reached s → Reached (Memory.put blake3 s k v).0
    reached_delete : {s : MemoryStore} (k : Bytes) → Reached s → Reached (Memory.delete s k).0
    reached_delete_prefix :
        {s : MemoryStore} (prefix : Bytes) → Reached s → Reached (Memory.delete_prefix s prefix).0
    reached_commit : {s : MemoryStore} → Reached s → Reached (Memory.commit_root blake3 s)

  pub Reached-IsCoherent : {s : MemoryStore} → Reached s → IsCoherent s
  Reached-IsCoherent reached_new = new-IsCoherent
  Reached-IsCoherent (reached_put k v r) = put-IsCoherent _ k v (Reached-IsCoherent r)
  Reached-IsCoherent (reached_delete k r) = delete-IsCoherent _ k (Reached-IsCoherent r)
  Reached-IsCoherent (reached_delete_prefix p r) =
      delete_prefix-IsCoherent _ p (Reached-IsCoherent r)
  Reached-IsCoherent (reached_commit r) = commit_root-IsCoherent _ (Reached-IsCoherent r)

  -- In each store that the operations (writes, deletes of a key or of a prefix, commits of the
  -- root, in any order) make from the empty one, the root, whether it is cached or not, is the
  -- Merkle root of the hashes of the entries that count for the state.
  pub Reached-state_root :
      (s : MemoryStore)
      → Reached s
      → Memory.state_root blake3 s
        ≡ Memory.merkle_root blake3 (Memory.state_leaves blake3 (leaves_of blake3 s.entries))
  Reached-state_root s r =
      let h = Reached-IsCoherent r in
      h.fresh ∙ ap (λ m. Memory.merkle_root blake3 (Memory.state_leaves blake3 m)) h.leaves

  retain-insert_excluded :
      (k leaf : Bytes) (m : List (Bytes × Bytes))
      → is_non_state_key k ≡ true
      → retain (λ e. not (is_non_state_key e.0)) (insert k leaf m)
        ≡ retain (λ e. not (is_non_state_key e.0)) m
  unfolding insert retain
  retain-insert_excluded k leaf [] h = ground arith
  retain-insert_excluded k leaf ((j, w) ∷ m) h =
      ground (arith, retain-insert_excluded k leaf m, bytes_same_iff k j)

  -- In a store that the operations made, writing any value under a key that is not part of the
  -- execution state leaves the state root as it was.
  pub state_root-put_excluded :
      (s : MemoryStore) (k v : Bytes)
      → Reached s
      → is_non_state_key k ≡ true
      → Memory.state_root blake3 (Memory.put blake3 s k v).0 ≡ Memory.state_root blake3 s
  unfolding Memory.put Memory.state_leaves
  state_root-put_excluded s k v r h =
      state_root-put s k v (Reached-IsCoherent r)
      ∙ ap (λ m. Memory.merkle_root blake3 (map (λ (e : Bytes × Bytes). e.1) m))
          (retain-insert_excluded k (Memory.hash_leaf blake3 k v) s.leaf_hashes h)
      ∙ sym (Reached-IsCoherent r).fresh
