-- ===== src/Storage/Laws.antt =====
-- The promises of the trait `StateStore`, kept by the two stores of crates/solen-storage/src
-- (memory.rs, overlay.rs), and what follows for a store that keeps them.
use solen.Base.{
  ◌≡◌, none, some, arith, ok, IsOk, if◌then◌else◌, bytes_key, bytes_same, bytes_same_iff,
  lookup-insert, lookup-erase,
}
use solen.Storage.Traits.{Bytes, StateStore, IsLawful}
use solen.Storage.Overlay.{OverlayStore, Delta, overlay}
use solen.Storage.Memory.{MemoryStore, memory_store}
use solen.Storage.Memory
use solen.Storage.Overlay

memory_get-put :
    (blake3 : Bytes → Bytes) (s : MemoryStore) (k v j : Bytes)
    → IsOk (Memory.put blake3 s k v).1
    → Memory.get (Memory.put blake3 s k v).0 j
      ≡ (if bytes_same j k then ok (some v) else Memory.get s j)
unfolding Memory.put Memory.get
memory_get-put blake3 s k v j h = ground (arith, lookup-insert j k v s.entries)

memory_get-delete :
    (s : MemoryStore) (k j : Bytes)
    → IsOk (Memory.delete s k).1
    → Memory.get (Memory.delete s k).0 j ≡ (if bytes_same j k then ok none else Memory.get s j)
unfolding Memory.delete Memory.get
memory_get-delete s k j h = ground (arith, lookup-erase j k s.entries, bytes_same_iff j k)

-- The store in memory keeps the promises of the trait.
pub memory_store-IsLawful : (blake3 : Bytes → Bytes) → IsLawful (memory_store blake3)
memory_store-IsLawful blake3 = record {
  get-put = memory_get-put blake3;
  get-delete = memory_get-delete;
}

module _ {S : StateStore} where
  overlay_get-put :
      (o : OverlayStore S) (k v j : Bytes)
      → IsOk (Overlay.put S o k v).1
      → Overlay.get S (Overlay.put S o k v).0 j
        ≡ (if bytes_same j k then ok (some v) else Overlay.get S o j)
  unfolding Overlay.put Overlay.get
  overlay_get-put o k v j h =
      ground (arith, lookup-insert j k v o.writes, lookup-erase j k o.deletes)

  overlay_get-delete :
      (o : OverlayStore S) (k j : Bytes)
      → IsOk (Overlay.delete S o k).1
      → Overlay.get S (Overlay.delete S o k).0 j
        ≡ (if bytes_same j k then ok none else Overlay.get S o j)
  unfolding Overlay.delete Overlay.get
  overlay_get-delete o k j h =
      ground (arith, lookup-insert j k tt o.deletes, lookup-erase j k o.writes)

  -- An overlay keeps them above any base.
  pub overlay-IsLawful : IsLawful (overlay S)
  overlay-IsLawful = record { get-put = overlay_get-put; get-delete = overlay_get-delete }
