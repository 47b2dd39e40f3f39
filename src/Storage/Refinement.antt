-- ===== src/Storage/Refinement.antt =====
-- An overlay that is committed leaves its base as the calls themselves would have
-- (crates/solen-storage/src/overlay.rs, traits.rs).
use solen.Base.{
  ◌≡◌, refl, sym, ◌∙◌, ap, subst, Option, none, some, [], ◌∷◌, arith, Result, ok, IsOk, lookup,
  bytes_key,
}
use solen.Storage.Traits.{
  Bytes, StateStore, StorageError, IsLawful, apply_change, apply_batch_atomic,
}
use solen.Storage.Overlay.{OverlayStore, Delta, overlay}
use solen.Storage.Overlay
use solen.Storage.Commit.{
  IsStaged, get-apply_change, get-commit, put-IsStaged, delete-IsStaged, new-IsStaged,
}
use solen.Storage.Laws.{overlay-IsLawful}

module _ {S : StateStore} where
  -- The calls of an overlay all succeed.
  apply_change-IsOk :
      (o : OverlayStore S) (k : Bytes) (v : Option Bytes)
      → (apply_change (overlay S) o k v).1 ≡ ok tt
  unfolding apply_change Overlay.put Overlay.delete
  apply_change-IsOk o k none = refl
  apply_change-IsOk o k (some v) = refl

  apply_change-IsStaged :
      (o : OverlayStore S) (k : Bytes) (v : Option Bytes)
      → IsStaged o
      → IsStaged (apply_change (overlay S) o k v).0
  unfolding apply_change
  apply_change-IsStaged o k none h = delete-IsStaged o k h
  apply_change-IsStaged o k (some v) h = put-IsStaged o k v h

  apply_change-base :
      (o : OverlayStore S) (k : Bytes) (v : Option Bytes)
      → (apply_change (overlay S) o k v).0.base ≡ o.base
  unfolding apply_change Overlay.put Overlay.delete
  apply_change-base o k none = refl
  apply_change-base o k (some v) = refl

  -- A log of calls on an overlay, which all succeed.
  unfoldable pub stage : OverlayStore S → Delta → OverlayStore S
  stage o [] = o
  stage o ((k, v) ∷ log) = stage (apply_change (overlay S) o k v).0 log

  pub stage-IsStaged : (o : OverlayStore S) (log : Delta) → IsStaged o → IsStaged (stage o log)
  unfolding stage
  stage-IsStaged o [] h = h
  stage-IsStaged o ((k, v) ∷ log) h =
      stage-IsStaged (apply_change (overlay S) o k v).0 log (apply_change-IsStaged o k v h)

  pub stage-base : (o : OverlayStore S) (log : Delta) → (stage o log).base ≡ o.base
  unfolding stage
  stage-base o [] = refl
  stage-base o ((k, v) ∷ log) =
      stage-base (apply_change (overlay S) o k v).0 log ∙ apply_change-base o k v

  batch-stage :
      (o : OverlayStore S) (log : Delta)
      → apply_batch_atomic (overlay S) o log ≡ (stage o log, ok tt)
  unfolding stage apply_batch_atomic apply_change Overlay.put Overlay.delete
  batch-stage o [] = refl
  batch-stage o ((k, none) ∷ log) = batch-stage (Overlay.delete S o k).0 log
  batch-stage o ((k, some v) ∷ log) = batch-stage (Overlay.put S o k v).0 log

-- A batch that succeeds has its first change succeed and goes on with the others.
batch-first :
    (S : StateStore) (t : S.State) (k : Bytes) (v : Option Bytes) (log : Delta)
    → IsOk (apply_batch_atomic S t ((k, v) ∷ log)).1
    → IsOk (apply_change S t k v).1
      × (apply_batch_atomic S t ((k, v) ∷ log) ≡ apply_batch_atomic S (apply_change S t k v).0 log)
unfolding apply_batch_atomic
batch-first S t k v log fine = ground arith

module _ (S : StateStore) (law : IsLawful S) where
  Agrees : OverlayStore S → S.State → Type 0
  Agrees o t = (j : Bytes) → Overlay.get S o j ≡ S.get t j

  apply_change-Agrees :
      (o : OverlayStore S) (t : S.State) (k : Bytes) (v : Option Bytes)
      → Agrees o t
      → IsOk (apply_change S t k v).1
      → Agrees (apply_change (overlay S) o k v).0 (apply_change S t k v).0
  unfolding Agrees
  apply_change-Agrees o t k v same fine j = ground (
    arith,
    same j,
    get-apply_change law t k v j fine,
    get-apply_change overlay-IsLawful o k v j,
    apply_change-IsOk o k v,
  )

  -- An overlay and a base store that hold the same go on to hold the same.
  stage-Agrees :
      (o : OverlayStore S) (t : S.State) (log : Delta)
      → Agrees o t
      → IsOk (apply_batch_atomic S t log).1
      → Agrees (stage o log) (apply_batch_atomic S t log).0
  unfolding stage apply_batch_atomic
  stage-Agrees o t [] same fine = same
  stage-Agrees o t ((k, v) ∷ log) same fine =
      let first = batch-first S t k v log fine in
      subst (λ b. Agrees (stage (apply_change (overlay S) o k v).0 log) b.0) (sym first.1)
        (stage-Agrees (apply_change (overlay S) o k v).0 (apply_change S t k v).0 log
          (apply_change-Agrees o t k v same first.0) (subst (λ b. IsOk b.1) first.1 fine))

  -- The log on an overlay above the base, and the commit of the overlay.
  abbrev pub commit_log : S.State → Delta → S.State × Result (Unit {0}) StorageError
  commit_log s log =
      apply_batch_atomic S s
        (Overlay.into_changes S (apply_batch_atomic (overlay S) (Overlay.new S s) log).0)

  -- `get-commit` for the state that the base of the overlay is.
  get-commit-base :
      (o : OverlayStore S) (s : S.State) (j : Bytes)
      → o.base ≡ s
      → IsStaged o
      → IsOk (apply_batch_atomic S s (Overlay.into_changes S o)).1
      → S.get (apply_batch_atomic S s (Overlay.into_changes S o)).0 j ≡ Overlay.get S o j
  get-commit-base o s j at h =
      subst
        (λ t.
          IsOk (apply_batch_atomic S t (Overlay.into_changes S o)).1
          → S.get (apply_batch_atomic S t (Overlay.into_changes S o)).0 j ≡ Overlay.get S o j)
        at (get-commit law o j h)

  new-base : (s : S.State) → (Overlay.new S s).base ≡ s
  unfolding Overlay.new
  new-base s = refl

  new-Agrees : (s : S.State) → Agrees (Overlay.new S s) s
  unfolding Agrees Overlay.new Overlay.get lookup
  new-Agrees s j = refl

  -- For a base store that keeps the promises of the trait and a log of writes and deletes that it
  -- performs without an error: an overlay above it performs the log too, and when the overlay's
  -- change set is then applied to the base without an error, each key holds what it holds after
  -- the log was performed on the base itself.
  pub get-commit-log :
      (s : S.State) (log : Delta) (j : Bytes)
      → IsOk (apply_batch_atomic S s log).1
      → IsOk (commit_log s log).1
      → S.get (commit_log s log).0 j ≡ S.get (apply_batch_atomic S s log).0 j
  unfolding Agrees
  get-commit-log s log j fine committed =
      let o = stage (Overlay.new S s) log in
      let staging = ap (λ b. b.0) (batch-stage (Overlay.new S s) log) in
      ap (λ p. S.get (apply_batch_atomic S s (Overlay.into_changes S p)).0 j) staging
      ∙ get-commit-base o s j (stage-base (Overlay.new S s) log ∙ new-base s)
          (stage-IsStaged (Overlay.new S s) log (new-IsStaged s))
          (subst (λ p. IsOk (apply_batch_atomic S s (Overlay.into_changes S p)).1) staging
            committed)
      ∙ stage-Agrees (Overlay.new S s) s log (new-Agrees s) fine j
