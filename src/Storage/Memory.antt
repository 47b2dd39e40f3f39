-- ===== src/Storage/Memory.antt =====
-- `MemoryStore` (crates/solen-storage/src/memory.rs). The hash function of the blake3 crate is a
-- parameter. A `BTreeMap` is a list of entries in the order of their keys.
use solen.Base.{
  ℕ, zero, suc, Bool, true, false, not, ◌&&◌, ◌||◌, Option, none, some, List, [], ◌∷◌, ◌++◌, map,
  Result, ok, is_some, if◌then◌else◌, length, replicate, retain, lookup, insert, erase, bytes_key,
  bytes_same, bytes_before, ltb, ◌==◌,
}
use solen.Storage.Traits.{Bytes, StateStore, StorageError}

unfoldable pub starts_with : Bytes → Bytes → Bool
starts_with key [] = true
starts_with [] (p ∷ ps) = false
starts_with (k ∷ ks) (p ∷ ps) = (k == p) && starts_with ks ps

-- The entries from the first key that is not before `prefix`, while the keys start with it.
unfoldable pub take_prefixed {ℓ} : {V : Type ℓ} → Bytes → List (Bytes × V) → List (Bytes × V)
take_prefixed prefix [] = []
take_prefixed prefix ((k, v) ∷ m) =
    let rest = take_prefixed prefix m in if starts_with k prefix then (k, v) ∷ rest else []

unfoldable pub range_prefix {ℓ} : {V : Type ℓ} → Bytes → List (Bytes × V) → List (Bytes × V)
range_prefix prefix [] = []
range_prefix prefix ((k, v) ∷ m) =
    let rest = range_prefix prefix m in
    if bytes_before k prefix then rest else take_prefixed prefix ((k, v) ∷ m)

abbrev pub zero_hash : Bytes
zero_hash = replicate 32 0

-- `EAGER_REVERT_PREFIX` and the other prefixes whose keys do not count for the root, in ASCII.
abbrev pub excluded_prefixes : List Bytes
excluded_prefixes =
    -- block/
    (98 ∷ 108 ∷ 111 ∷ 99 ∷ 107 ∷ 47 ∷ [])
    -- __chain_meta__
    ∷ (95 ∷ 95 ∷ 99 ∷ 104 ∷ 97 ∷ 105 ∷ 110 ∷ 95 ∷ 109 ∷ 101 ∷ 116 ∷ 97 ∷ 95 ∷ 95 ∷ [])
    -- __chain_id__
    ∷ (95 ∷ 95 ∷ 99 ∷ 104 ∷ 97 ∷ 105 ∷ 110 ∷ 95 ∷ 105 ∷ 100 ∷ 95 ∷ 95 ∷ [])
    -- slash/
    ∷ (115 ∷ 108 ∷ 97 ∷ 115 ∷ 104 ∷ 47 ∷ [])
    -- source/
    ∷ (115 ∷ 111 ∷ 117 ∷ 114 ∷ 99 ∷ 101 ∷ 47 ∷ [])
    -- __finalized_checkpoint__
    ∷ (95 ∷ 95 ∷ 102 ∷ 105 ∷ 110 ∷ 97 ∷ 108 ∷ 105 ∷ 122 ∷ 101 ∷ 100 ∷ 95 ∷ 99 ∷ 104 ∷ 101 ∷ 99 ∷ 107
        ∷ 112 ∷ 111 ∷ 105 ∷ 110 ∷ 116 ∷ 95 ∷ 95 ∷ [])
    -- __last_attestation__
    ∷ (95 ∷ 95 ∷ 108 ∷ 97 ∷ 115 ∷ 116 ∷ 95 ∷ 97 ∷ 116 ∷ 116 ∷ 101 ∷ 115 ∷ 116 ∷ 97 ∷ 116 ∷ 105 ∷ 111
        ∷ 110 ∷ 95 ∷ 95 ∷ [])
    -- __eager_revert__/
    ∷ (95 ∷ 95 ∷ 101 ∷ 97 ∷ 103 ∷ 101 ∷ 114 ∷ 95 ∷ 114 ∷ 101 ∷ 118 ∷ 101 ∷ 114 ∷ 116 ∷ 95 ∷ 95 ∷ 47
        ∷ [])
    ∷ []

unfoldable pub starts_with_any : Bytes → List Bytes → Bool
starts_with_any key [] = false
starts_with_any key (p ∷ ps) = starts_with key p || starts_with_any key ps

unfoldable pub is_non_state_key : Bytes → Bool
is_non_state_key key = starts_with_any key excluded_prefixes

pub record MemoryStore : Type 0 where
  pub entries : List (Bytes × Bytes)
  pub leaf_hashes : List (Bytes × Bytes)
  pub tree_cache : Option Bytes

-- `MemoryStore::new`
abbrev pub new : MemoryStore
new = record { entries = []; leaf_hashes = []; tree_cache = none }

unfoldable pub get : MemoryStore → Bytes → Result (Option Bytes) StorageError
get s key = ok (lookup key s.entries)

unfoldable pub delete : MemoryStore → Bytes → MemoryStore × Result (Unit {0}) StorageError
delete s key =
    if is_some (lookup key s.entries)
    then (
      record {
        entries = erase key s.entries;
        leaf_hashes = erase key s.leaf_hashes;
        tree_cache = none;
      },
      ok tt,
    )
    else (s, ok tt)

unfoldable pub erase_all {ℓ κ} :
    {V : Type ℓ} {W : Type κ} → List (Bytes × W) → List (Bytes × V) → List (Bytes × V)
erase_all [] m = m
erase_all ((k, w) ∷ ks) m = erase_all ks (erase k m)

-- The loop of `delete_prefix`, and the call of `invalidate` after it.
unfoldable pub without : List (Bytes × Bytes) → MemoryStore → MemoryStore
without keys s = record {
  entries = erase_all keys s.entries;
  leaf_hashes = erase_all keys s.leaf_hashes;
  tree_cache = if ltb 0 (length keys) then none else s.tree_cache;
}

unfoldable pub delete_prefix : MemoryStore → Bytes → MemoryStore × Result ℕ StorageError
delete_prefix s prefix =
    let keys = range_prefix prefix s.entries in (without keys s, ok (length keys))

unfoldable pub scan_prefix : MemoryStore → Bytes → Result (List (Bytes × Bytes)) StorageError
scan_prefix s prefix = ok (range_prefix prefix s.entries)

-- A key that is new has changed too.
unfoldable pub value_changed : Bytes → Option Bytes → Bool
value_changed leaf_hash none = true
value_changed leaf_hash (some h) = not (bytes_same h leaf_hash)

module _ (blake3 : Bytes → Bytes) where
  abbrev pub hash_leaf : Bytes → Bytes → Bytes
  hash_leaf key value = blake3 (key ++ value)

  unfoldable pub put : MemoryStore → Bytes → Bytes → MemoryStore × Result (Unit {0}) StorageError
  put s key value =
      let leaf_hash = hash_leaf key value in
      (
        record {
          entries = insert key value s.entries;
          leaf_hashes = insert key leaf_hash s.leaf_hashes;
          tree_cache =
              if value_changed leaf_hash (lookup key s.leaf_hashes) then none else s.tree_cache;
        },
        ok tt,
      )

  -- One round of `merkle_root`: pairs are hashed, an odd leaf is promoted.
  unfoldable pub pair_up : List Bytes → List Bytes
  pair_up [] = []
  pair_up (x ∷ []) = x ∷ []
  pair_up (x ∷ y ∷ rest) = blake3 (x ++ y) ∷ pair_up rest

  -- The `while` loop, with fuel; `none` means that the fuel ran out.
  unfoldable pub merkle_loop : ℕ → List Bytes → Option Bytes
  merkle_loop zero current = none
  merkle_loop (suc fuel) [] = some zero_hash
  merkle_loop (suc fuel) (x ∷ []) = some x
  merkle_loop (suc fuel) (x ∷ y ∷ rest) = merkle_loop fuel (pair_up (x ∷ y ∷ rest))

  -- As many rounds as there are leaves are more than enough.
  unfoldable pub merkle_root : List Bytes → Option Bytes
  merkle_root leaves = merkle_loop (suc (length leaves)) leaves

  unfoldable pub state_leaves : List (Bytes × Bytes) → List Bytes
  state_leaves hashes = map (λ e. e.1) (retain (λ e. not (is_non_state_key e.0)) hashes)

  unfoldable pub state_root : MemoryStore → Option Bytes
  state_root s = elim s.tree_cache [
    | some root ↦ some root
    | none ↦ merkle_root (state_leaves s.leaf_hashes)
  ]

  unfoldable pub commit_root : MemoryStore → MemoryStore
  commit_root s = elim s.tree_cache [
    | some root ↦ s
    | none ↦ record s { tree_cache = merkle_root (state_leaves s.leaf_hashes) }
  ]

  abbrev pub memory_store : StateStore
  memory_store = record { State = MemoryStore; get = get; put = put; delete = delete }
