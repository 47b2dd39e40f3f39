-- ===== src/Storage/Traits.antt =====
-- The trait `StateStore` (crates/solen-storage/src/traits.rs). A call returns the state that it
-- leaves and its result, since a failing backend may have changed something.
use Prim.Native.String.{String}
use solen.Base.{
  ℕ, ◌≡◌, Option, none, some, List, [], ◌∷◌, Result, ok, err, IsOk, if◌then◌else◌, bytes_same,
}

abbrev pub Bytes : Type 0
Bytes = List ℕ

pub data StorageError : Type 0 where
  not_found : StorageError
  backend : String → StorageError

pub record StateStore : Type 1 where
  pub State : Type 0
  pub get : State → Bytes → Result (Option Bytes) StorageError
  pub put : State → Bytes → Bytes → State × Result (Unit {0}) StorageError
  pub delete : State → Bytes → State × Result (Unit {0}) StorageError

-- What the trait's documentation promises of a call that succeeds.
pub record IsLawful (S : StateStore) : Type 0 where
  pub get-put :
      (s : S.State) (k v j : Bytes)
      → IsOk (S.put s k v).1
      → S.get (S.put s k v).0 j ≡ (if bytes_same j k then ok (some v) else S.get s j)
  pub get-delete :
      (s : S.State) (k j : Bytes)
      → IsOk (S.delete s k).1
      → S.get (S.delete s k).0 j ≡ (if bytes_same j k then ok none else S.get s j)

module _ (S : StateStore) where
  -- One staged change: `Some(v)` puts, `None` deletes.
  unfoldable pub apply_change :
      S.State → Bytes → Option Bytes → S.State × Result (Unit {0}) StorageError
  apply_change s k none = S.delete s k
  apply_change s k (some v) = S.put s k v

  -- The default `apply_batch_atomic`: one change after the other, up to the first that fails. The
  -- source runs through a `HashMap`; the order shows only in what was applied before a failure, and
  -- here it is that of the list.
  unfoldable pub apply_batch_atomic :
      S.State → List (Bytes × Option Bytes) → S.State × Result (Unit {0}) StorageError
  apply_batch_atomic s [] = (s, ok tt)
  apply_batch_atomic s ((k, v) ∷ changes) =
      let (t, result) = apply_change s k v in
      elim result [ ok _ ↦ apply_batch_atomic t changes | err e ↦ (t, err e) ]
