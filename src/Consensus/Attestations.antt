-- ===== src/Consensus/Attestations.antt =====
-- What makes a checkpoint final (crates/solen-consensus/src/checkpoint.rs).
use solen.Base.{
  length-push, on_branches, Bool, ap, ◌∙◌, subst, sym, ℕ, ◌≡◌, ◌≤◌, refl, true, false, none, some,
  Option, List, [], ◌∷◌, arith, Option-cases, inl, inr, ◌==◌, leb, if◌then◌else◌, length, push,
  contains, HasDistinct, push-HasDistinct,
}
use solen.Consensus.Validators.{ValidatorSet, has_quorum}
use solen.Consensus.Checkpoints.{
  Attestation, FinalizedCheckpoint, PendingCheckpoint, FinalizedCheckpointStore, new, attester_ids,
  finalized, settle, attest, propose_checkpoint, add_attestation, push_height, validate_block,
  is_finalized,
}

ids-push :
    (xs : List Attestation) (a : Attestation)
    → attester_ids (push xs a) ≡ push (attester_ids xs) a.0
unfolding attester_ids
ids-push [] a = refl
ids-push (x ∷ xs) a = ground (arith, ids-push xs a)

push_height-length :
    (heights : List ℕ) (height : ℕ)
    → length heights ≤ 100
    → length (push_height heights height) ≤ 100
unfolding push_height
push_height-length [] height h = ground arith
push_height-length (x ∷ xs) height h = ground (arith, length-push xs height)

-- The store in which a pending checkpoint was finalized with a further attestation.
abbrev settled :
    PendingCheckpoint → Attestation → FinalizedCheckpointStore → FinalizedCheckpointStore
settled p a s = record {
  latest = some (finalized (record p { attestations = push p.attestations a }));
  pending = none;
  finalized_heights = push_height s.finalized_heights p.height;
}

attest-true :
    (p : PendingCheckpoint) (validator_id : ℕ) (signature : List ℕ) (set : ValidatorSet)
    (s : FinalizedCheckpointStore)
    → (attest (some p) validator_id signature set s).1 ≡ true
    → (contains validator_id (attester_ids p.attestations) ≡ false)
      × (has_quorum set (push (attester_ids p.attestations) validator_id) ≡ true)
      × ((attest (some p) validator_id signature set s).0 ≡ settled p (validator_id, signature) s)
unfolding settle
attest-true p validator_id signature set s went =
    ground (arith, went, ids-push p.attestations (validator_id, signature))

-- Further calls, none of which finalizes a checkpoint.
pub data Later (s : FinalizedCheckpointStore) : FinalizedCheckpointStore → Type 0 where
  none_yet : Later s s
  then_proposes :
      {t : FinalizedCheckpointStore} (height epoch block_hash state_root now : ℕ)
      → Later s t
      → Later s (propose_checkpoint t height epoch block_hash state_root now)
  then_attests :
      {t : FinalizedCheckpointStore} (validator_id : ℕ) (signature : List ℕ) (set : ValidatorSet)
      → (add_attestation t validator_id signature set).1 ≡ false
      → Later s t
      → Later s (add_attestation t validator_id signature set).0

attest-latest :
    (o : Option PendingCheckpoint) (validator_id : ℕ) (signature : List ℕ) (set : ValidatorSet)
    (s : FinalizedCheckpointStore)
    → (attest o validator_id signature set s).1 ≡ false
    → (attest o validator_id signature set s).0.latest ≡ s.latest
unfolding settle
attest-latest none validator_id signature set s short = refl
attest-latest (some p) validator_id signature set s short = ground (arith, short)

Later-latest : {s t : FinalizedCheckpointStore} → Later s t → t.latest ≡ s.latest
unfolding propose_checkpoint add_attestation
Later-latest none_yet = refl
Later-latest (then_proposes height epoch block_hash state_root now l) = Later-latest l
Later-latest (then_attests {t} validator_id signature set short l) =
    attest-latest t.pending validator_id signature set t short ∙ Later-latest l

-- An attestation that finalizes was the first of its validator for the pending checkpoint, with it
-- the attesters have a quorum, and nothing is pending after it. Until the next checkpoint is
-- finalized, whatever is proposed and whoever attests, every height up to the checkpoint's counts as
-- finalized and no greater one, and a block of the checkpoint's height conflicts with it when its
-- hash is another one.
pub add_attestation-finalizes :
    (s t : FinalizedCheckpointStore) (validator_id : ℕ) (signature : List ℕ) (set : ValidatorSet)
    → (add_attestation s validator_id signature set).1 ≡ true
    → Later (add_attestation s validator_id signature set).0 t
    → (p : PendingCheckpoint) × (s.pending ≡ some p)
      × (contains validator_id (attester_ids p.attestations) ≡ false)
      × (has_quorum set (push (attester_ids p.attestations) validator_id) ≡ true)
      × ((add_attestation s validator_id signature set).0.pending ≡ none)
      × ((height : ℕ) → is_finalized t height ≡ leb height p.height)
      × ((hash : ℕ)
          → validate_block t p.height hash
            ≡ (if hash == p.block_hash then none else some p.block_hash))
unfolding add_attestation settle is_finalized validate_block
add_attestation-finalizes s t validator_id signature set went later =
    elim (Option-cases s.pending) [
      | inl none_eq ↦ ground (arith, went, none_eq)
      | inr (p, p_eq) ↦
          let at = ap (λ o. attest o validator_id signature set s) p_eq in
          let (fresh, quorum, left) =
            attest-true p validator_id signature set s (sym (ap (λ r. r.1) at) ∙ went) in
          let after = ap (λ r. r.0) at ∙ left in
          let kept = Later-latest later ∙ ap (λ r. r.latest) after in
          (
            p,
            p_eq,
            fresh,
            quorum,
            ap (λ r. r.pending) after,
            (λ height. rw (kept) refl),
            (λ hash. rw (kept) (ground arith)),
          )
    ]

-- A checkpoint's attesters are distinct.
abbrev IsSoundPending : Option PendingCheckpoint → Type 0
IsSoundPending none = Unit
IsSoundPending (some p) = HasDistinct (attester_ids p.attestations)

module _ (IsUsed : ValidatorSet → Type 0) where
  -- ... and a set that was used gave them a quorum.
  abbrev pub IsAgreed : Option FinalizedCheckpoint → Type 0
  IsAgreed none = Unit
  IsAgreed (some cp) =
      HasDistinct (attester_ids cp.attestations)
      × ((set : ValidatorSet) × IsUsed set × (has_quorum set (attester_ids cp.attestations) ≡ true))

  pub record IsSound (s : FinalizedCheckpointStore) : Type 0 where
    pub agreed : IsAgreed s.latest
    pub sound : IsSoundPending s.pending
    pub recent : length s.finalized_heights ≤ 100

  -- The calls; the validator set of each attestation is one that is used.
  pub data Reach : FinalizedCheckpointStore → Type 0 where
    starts : Reach new
    proposes :
        {s : FinalizedCheckpointStore} (height epoch block_hash state_root now : ℕ)
        → Reach s
        → Reach (propose_checkpoint s height epoch block_hash state_root now)
    attests :
        {s : FinalizedCheckpointStore} (validator_id : ℕ) (signature : List ℕ) (set : ValidatorSet)
        → IsUsed set
        → Reach s
        → Reach (add_attestation s validator_id signature set).0

  settle-IsSound :
      (set : ValidatorSet) (p : PendingCheckpoint) (s : FinalizedCheckpointStore)
      → IsUsed set
      → HasDistinct (attester_ids p.attestations)
      → IsSound s
      → IsSound (settle set p s).0
  unfolding settle
  settle-IsSound set p s used distinct h =
      on_branches (λ (q : FinalizedCheckpointStore × Bool). IsSound q.0)
        (has_quorum set (attester_ids p.attestations))
        (λ quorum. record {
          agreed = (distinct, (set, used, quorum));
          sound = tt;
          recent = push_height-length s.finalized_heights p.height h.recent;
        })
        (λ short. record { agreed = h.agreed; sound = distinct; recent = h.recent })

  add_attestation-IsSound :
      (s : FinalizedCheckpointStore) (validator_id : ℕ) (signature : List ℕ) (set : ValidatorSet)
      → IsUsed set
      → IsSound s
      → IsSound (add_attestation s validator_id signature set).0
  unfolding add_attestation
  add_attestation-IsSound s validator_id signature set used h = go s.pending refl
    where
      go :
          (o : Option PendingCheckpoint)
          → s.pending ≡ o
          → IsSound (attest o validator_id signature set s).0
      go none at = h
      go (some p) at =
          let a : Attestation = (validator_id, signature) in
          on_branches (λ (q : FinalizedCheckpointStore × Bool). IsSound q.0)
            (contains validator_id (attester_ids p.attestations)) (λ known. h)
            (λ fresh.
              settle-IsSound set (record p { attestations = push p.attestations a }) s used
                (subst HasDistinct (sym (ids-push p.attestations a)) (
                  push-HasDistinct (attester_ids p.attestations) validator_id
                    (subst IsSoundPending at h.sound) fresh))
                h)

  -- After every history of proposals and attestations the attesters of the latest finalized
  -- checkpoint are distinct and a validator set that was used for an attestation gives them a
  -- quorum, those of the pending one are distinct, and at most a hundred heights are kept.
  pub Reach-IsSound : {s : FinalizedCheckpointStore} → Reach s → IsSound s
  unfolding propose_checkpoint attester_ids
  Reach-IsSound starts = record { agreed = tt; sound = tt; recent = omega arith }
  Reach-IsSound (proposes height epoch block_hash state_root now r) =
      let h = Reach-IsSound r in record { agreed = h.agreed; sound = tt; recent = h.recent }
  Reach-IsSound (attests {s} validator_id signature set used r) =
      add_attestation-IsSound s validator_id signature set used (Reach-IsSound r)
