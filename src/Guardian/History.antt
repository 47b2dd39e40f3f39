-- ===== src/Guardian/History.antt =====
-- What every history of the guardian contract keeps.
use solen.Base.{
  ℕ, count-any, count-push_fresh, ◌+◌, ◌≤◌, ◌<◌, ◌≡◌, refl, true, false, some, List, [], ◌∷◌, inl,
  inr, arith, ◌==◌, Bool-cases, Option-cases, All, All-push, All-update_first, All-find, find, any,
  push, update_first, count, count-update_first, contains, add_u64, add_u64-eq, u64_mod, find-test,
}
use solen.Guardian.State.{
  GuardianContract, RecoveryRequest, RecoveryStatus, AuthMethod, cancelled, executed, is_pending,
  has_id, pending_request, pending_for, recovery_timelock_blocks,
}
use solen.Guardian.Operations.{
  initiate_recovery, confirm_recovery, cancel_recovery, mark_executed, new_request,
  add_confirmation, set_status, is_empty,
}
use solen.Guardian.Requests.{
  IsGuarded, new_request-IsGuarded, set_status-IsGuarded, add_confirmation-IsGuarded,
}

pub record IsOrderly (s : GuardianContract) : Type 0 where
  pub guarded : All IsGuarded s.recovery_requests
  pub single : (account : ℕ) → count (pending_for account) s.recovery_requests ≤ 1
  pub numbered : All (λ r. r.id < s.next_id) s.recovery_requests
  pub unique : (i : ℕ) → count (has_id i) s.recovery_requests ≤ 1

-- One call. Block heights and request numbers stay within 64 bits.
pub data Step (s : GuardianContract) : GuardianContract → Type 0 where
  initiates :
      (target initiator : ℕ) (methods : List AuthMethod) (guardians : List ℕ) (height : ℕ)
      → height + recovery_timelock_blocks < u64_mod
      → s.next_id + 1 < u64_mod
      → Step s (initiate_recovery s target initiator methods guardians height).0
  confirms : (i confirmer : ℕ) → Step s (confirm_recovery s i confirmer).0
  cancels : (i sender : ℕ) → Step s (cancel_recovery s i sender).0
  marks : (i : ℕ) → Step s (mark_executed s i).0

pub data Reach (s : GuardianContract) : GuardianContract → Type 0 where
  here : Reach s s
  next : {t u : GuardianContract} → Reach s t → Step t u → Reach s u

fresh-count :
    (n : ℕ) (rs : List RecoveryRequest)
    → All (λ r. r.id < n) rs
    → (count (has_id n) rs ≡ 0) × All (λ r. r.id < n + 1) rs
unfolding count
fresh-count n [] h = (refl, tt)
fresh-count n (r ∷ rs) h = ground (arith, fresh-count n rs)

-- A change of the request that is found, of nothing but its status and its confirmations.
module _ (s : GuardianContract) (h : IsOrderly s) (i : ℕ)
    (f : RecoveryRequest → RecoveryRequest) where
  changed :
      {r : RecoveryRequest}
      → find (pending_request i) s.recovery_requests ≡ some r
      → (f r).id ≡ r.id
      → (f r).target_account ≡ r.target_account
      → is_pending r.status ≡ true
      → IsGuarded (f r)
      → IsOrderly
          (record s { recovery_requests = update_first (pending_request i) f s.recovery_requests })
  changed {r} found same_id same_target was guarded = record {
    guarded =
        All-update_first (pending_request i) IsGuarded f s.recovery_requests h.guarded found
          guarded;
    single = λ a. ground (
      arith,
      h.single a,
      count-update_first (pending_request i) (pending_for a) f s.recovery_requests found,
    );
    numbered =
        All-update_first (pending_request i) (λ r. r.id < s.next_id) f s.recovery_requests
          h.numbered found
          (ground (
            arith,
            All-find (pending_request i) (λ r. r.id < s.next_id) s.recovery_requests h.numbered
                found,
          ));
    unique = λ k. ground (
      arith,
      h.unique k,
      count-update_first (pending_request i) (has_id k) f s.recovery_requests found,
    );
  }

-- What a search for a pending request finds is pending, and guarded.
pub found-IsGuarded :
    (s : GuardianContract) (i : ℕ) {r : RecoveryRequest}
    → IsOrderly s
    → find (pending_request i) s.recovery_requests ≡ some r
    → (is_pending r.status ≡ true) × IsGuarded r
found-IsGuarded s i h found = (
  ground (arith, find-test (pending_request i) s.recovery_requests found),
  All-find (pending_request i) IsGuarded s.recovery_requests h.guarded found,
)

module _ (s : GuardianContract) (h : IsOrderly s) where
  pushed :
      (r : RecoveryRequest)
      → r.id ≡ s.next_id
      → is_pending r.status ≡ true
      → s.next_id + 1 < u64_mod
      → any (pending_for r.target_account) s.recovery_requests ≡ false
      → IsGuarded r
      → IsOrderly (record s {
        next_id = add_u64 s.next_id 1;
        recovery_requests = push s.recovery_requests r;
      })
  pushed r numbered live fits free guarded =
      let (unused, below) = fresh-count s.next_id s.recovery_requests h.numbered in
      let step = add_u64-eq s.next_id 1 fits in
      let none_yet = count-any (pending_for r.target_account) s.recovery_requests free in
      record {
        guarded = All-push IsGuarded s.recovery_requests r h.guarded guarded;
        single = λ a.
            count-push_fresh pending_for r.target_account a s.recovery_requests r none_yet
              (h.single a) (λ ne. ground arith);
        numbered = rw step (
            All-push (λ r. r.id < s.next_id + 1) s.recovery_requests r below
              (omega (arith, numbered)));
        unique = λ k.
            count-push_fresh has_id s.next_id k s.recovery_requests r unused (h.unique k)
              (λ ne. ground arith);
      }

  initiate-IsOrderly :
      (target initiator : ℕ) (methods : List AuthMethod) (guardians : List ℕ) (height : ℕ)
      → height + recovery_timelock_blocks < u64_mod
      → s.next_id + 1 < u64_mod
      → IsOrderly (initiate_recovery s target initiator methods guardians height).0
  unfolding initiate_recovery
  initiate-IsOrderly target initiator methods guardians height fits room =
      elim (Bool-cases (is_empty guardians)) [
        | inl nobody ↦ rw (nobody, initiate_recovery) h
        | inr somebody ↦ elim (Bool-cases (contains initiator guardians)) [
          | inr stranger ↦ rw (somebody, stranger, initiate_recovery) h
          | inl member ↦ elim (Bool-cases (any (pending_for target) s.recovery_requests)) [
            | inl busy ↦ rw (somebody, member, busy, initiate_recovery) h
            | inr free ↦ elim (Bool-cases (is_empty methods)) [
              | inl bare ↦ rw (somebody, member, free, bare, initiate_recovery) h
              | inr given ↦
                  rw (somebody, member, free, given, initiate_recovery)
                    (pushed (new_request s target initiator methods guardians height) refl refl room
                      free
                      (new_request-IsGuarded s target initiator methods guardians height fits
                        somebody member))
            ]
          ]
        ]
      ]

  restated :
      (i : ℕ) (st : RecoveryStatus) {r : RecoveryRequest}
      → find (pending_request i) s.recovery_requests ≡ some r
      → IsOrderly (record s {
        recovery_requests = update_first (pending_request i) (set_status st) s.recovery_requests;
      })
  restated i st {r} found =
      let (live, guarded) = found-IsGuarded s i h found in
      changed s h i (set_status st) found refl refl live (set_status-IsGuarded st r guarded)

  confirm-IsOrderly : (i confirmer : ℕ) → IsOrderly (confirm_recovery s i confirmer).0
  unfolding confirm_recovery
  confirm-IsOrderly i confirmer =
      elim (Option-cases (find (pending_request i) s.recovery_requests)) [
        | inl absent ↦ rw (absent, confirm_recovery) h
        | inr (r, found) ↦ elim (Bool-cases (contains confirmer r.guardian_ids)) [
          | inr stranger ↦ rw (found, confirm_recovery) (rw stranger h)
          | inl member ↦ elim (Bool-cases (contains confirmer r.confirmations)) [
            | inl again ↦ rw (found, confirm_recovery) (rw (member, again) h)
            | inr new ↦
                let (live, guarded) = found-IsGuarded s i h found in
                rw (found, confirm_recovery)
                  (rw (member, new)
                    (changed s h i (add_confirmation confirmer) found refl refl live
                      (add_confirmation-IsGuarded confirmer r guarded member new)))
          ]
        ]
      ]

  cancel-IsOrderly : (i sender : ℕ) → IsOrderly (cancel_recovery s i sender).0
  unfolding cancel_recovery
  cancel-IsOrderly i sender = elim (Option-cases (find (pending_request i) s.recovery_requests)) [
    | inl absent ↦ rw (absent, cancel_recovery) h
    | inr (r, found) ↦ elim (Bool-cases (r.target_account == sender)) [
      | inl owner ↦ rw (found, cancel_recovery) (rw owner (restated i cancelled found))
      | inr other ↦ rw (found, cancel_recovery) (rw other h)
    ]
  ]

  mark-IsOrderly : (i : ℕ) → IsOrderly (mark_executed s i).0
  unfolding mark_executed
  mark-IsOrderly i = elim (Option-cases (find (pending_request i) s.recovery_requests)) [
    | inl absent ↦ rw (absent, mark_executed) h
    | inr (r, found) ↦ rw (found, mark_executed) (restated i executed found)
  ]

Step-IsOrderly : {s t : GuardianContract} → Step s t → IsOrderly s → IsOrderly t
Step-IsOrderly {s} (initiates target initiator methods guardians height fits room) h =
    initiate-IsOrderly s h target initiator methods guardians height fits room
Step-IsOrderly {s} (confirms i confirmer) h = confirm-IsOrderly s h i confirmer
Step-IsOrderly {s} (cancels i sender) h = cancel-IsOrderly s h i sender
Step-IsOrderly {s} (marks i) h = mark-IsOrderly s h i

-- After every history of calls from an orderly contract no account has two pending recoveries and
-- no number is used twice. Each recovery is confirmed by distinct guardians of the list taken when
-- it was initiated, needs the majority of that list, and waits 151200 blocks. Heights and request
-- numbers must stay within 64 bits.
pub Reach-IsOrderly : {s t : GuardianContract} → IsOrderly s → Reach s t → IsOrderly t
Reach-IsOrderly h here = h
Reach-IsOrderly h (next r step) = Step-IsOrderly step (Reach-IsOrderly h r)
