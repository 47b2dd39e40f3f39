-- ===== src/Guardian/Recovery.antt =====
-- When a recovery goes through, and that it ends there.
use solen.Base.{
  HasDistinct, ℕ, count-find, ◌+◌, ◌*◌, ◌≤◌, ◌<◌, ◌≡◌, refl, ap, ◌∙◌, true, false, none, some, List,
  [], ◌∷◌, arith, ok, err, IsOk, All, find, find-test, update_first, count, count-update_first,
  contains, length,
}
use solen.Guardian.State.{
  GuardianContract, RecoveryRequest, RecoveryStatus, cancelled, executed, is_pending, has_id,
  pending_request, recovery_timelock_blocks, not_found_or_not_pending,
}
use solen.Guardian.Operations.{
  confirm_recovery, cancel_recovery, can_execute, mark_executed, set_status, threshold_for,
}
use solen.Guardian.History.{IsOrderly, found-IsGuarded}

can_execute-inv :
    (s : GuardianContract) (i height : ℕ)
    → IsOk (can_execute s i height)
    → (r : RecoveryRequest) × (find (pending_request i) s.recovery_requests ≡ some r)
      × (r.execute_after ≤ height)
      × (r.threshold ≤ length r.confirmations)
      × (can_execute s i height ≡ ok r)
unfolding can_execute
can_execute-inv s i height done = ground arith

threshold-most : (n c : ℕ) → 0 < n → threshold_for n ≤ c → n < 2 * c
unfolding threshold_for
threshold-most n c pos enough = ground arith

-- A recovery that may be executed is pending, was initiated at least 151200 blocks before, and
-- distinct members of the guardian list that was taken then have confirmed it, more than half of
-- that list in number.
pub can_execute-IsOk :
    (s : GuardianContract) (i height : ℕ)
    → IsOrderly s
    → IsOk (can_execute s i height)
    → (r : RecoveryRequest) × (can_execute s i height ≡ ok r)
      × (find (pending_request i) s.recovery_requests ≡ some r)
      × (r.initiated_at + recovery_timelock_blocks ≤ height)
      × HasDistinct r.confirmations
      × All (λ c. contains c r.guardian_ids ≡ true) r.confirmations
      × (length r.guardian_ids < 2 * length r.confirmations)
can_execute-IsOk s i height h done =
    let (r, found, late, enough, result) = can_execute-inv s i height done in
    let guarded = (found-IsGuarded s i h found).1 in
    (
      r,
      result,
      found,
      omega (arith, late, guarded.waits),
      guarded.distinct,
      guarded.confirmed,
      threshold-most (length r.guardian_ids) (length r.confirmations) guarded.someone
          (omega (arith, enough, guarded.majority)),
    )

count-pending_le :
    (i : ℕ) (rs : List RecoveryRequest) → count (pending_request i) rs ≤ count (has_id i) rs
unfolding count
count-pending_le i [] = omega arith
count-pending_le i (r ∷ rs) = ground (arith, count-pending_le i rs)

-- Giving the pending request another status leaves none pending under its number.
settled :
    (s : GuardianContract) (i : ℕ) (st : RecoveryStatus) {r : RecoveryRequest}
    → IsOrderly s
    → is_pending st ≡ false
    → find (pending_request i) s.recovery_requests ≡ some r
    → find
        (pending_request i)
        (update_first (pending_request i) (set_status st) s.recovery_requests)
      ≡ none
settled s i st {r} h over found =
    count-find (pending_request i)
      (update_first (pending_request i) (set_status st) s.recovery_requests)
      (ground (
        arith,
        over,
        h.unique i,
        count-pending_le i s.recovery_requests,
        find-test (pending_request i) s.recovery_requests found,
        count-update_first (pending_request i) (pending_request i) (set_status st)
            s.recovery_requests found,
      ))

-- Every call for a number under which no request is pending fails.
abbrev pub Refuses : GuardianContract → ℕ → ℕ → ℕ → ℕ → Type 0
Refuses s i confirmer sender height =
    ((confirm_recovery s i confirmer).1 ≡ err not_found_or_not_pending)
    × ((cancel_recovery s i sender).1 ≡ err not_found_or_not_pending)
    × (can_execute s i height ≡ err not_found_or_not_pending)
    × ((mark_executed s i).1 ≡ err not_found_or_not_pending)

none-Refuses :
    (s : GuardianContract) (i confirmer sender height : ℕ)
    → find (pending_request i) s.recovery_requests ≡ none
    → Refuses s i confirmer sender height
unfolding confirm_recovery cancel_recovery can_execute mark_executed
none-Refuses s i confirmer sender height absent =
    (ground arith, ground arith, ground arith, ground arith)

mark_executed-inv :
    (s : GuardianContract) (i : ℕ)
    → IsOk (mark_executed s i).1
    → (r : RecoveryRequest) × (find (pending_request i) s.recovery_requests ≡ some r)
      × ((mark_executed s i).0 ≡ record s {
        recovery_requests =
            update_first (pending_request i) (set_status executed) s.recovery_requests;
      })
unfolding mark_executed
mark_executed-inv s i done = ground arith

cancel_recovery-inv :
    (s : GuardianContract) (i sender : ℕ)
    → IsOk (cancel_recovery s i sender).1
    → (r : RecoveryRequest) × (find (pending_request i) s.recovery_requests ≡ some r)
      × (r.target_account ≡ sender)
      × ((cancel_recovery s i sender).0 ≡ record s {
        recovery_requests =
            update_first (pending_request i) (set_status cancelled) s.recovery_requests;
      })
unfolding cancel_recovery
cancel_recovery-inv s i sender done = ground arith

-- A recovery is executed once: after it is marked, it can be neither confirmed, cancelled nor
-- executed again.
pub mark_executed-final :
    (s : GuardianContract) (i confirmer sender height : ℕ)
    → IsOrderly s
    → IsOk (mark_executed s i).1
    → Refuses (mark_executed s i).0 i confirmer sender height
mark_executed-final s i confirmer sender height h done =
    let (r, found, after) = mark_executed-inv s i done in
    none-Refuses (mark_executed s i).0 i confirmer sender height (
      ap (λ (t : GuardianContract). find (pending_request i) t.recovery_requests) after
      ∙ settled s i executed h refl found)

-- Only the owner of the account cancels a recovery, and what is cancelled can be neither confirmed
-- nor executed later.
pub cancel_recovery-final :
    (s : GuardianContract) (i owner confirmer sender height : ℕ)
    → IsOrderly s
    → IsOk (cancel_recovery s i owner).1
    → (r : RecoveryRequest) × (find (pending_request i) s.recovery_requests ≡ some r)
      × (r.target_account ≡ owner)
      × Refuses (cancel_recovery s i owner).0 i confirmer sender height
cancel_recovery-final s i owner confirmer sender height h done =
    let (r, found, mine, after) = cancel_recovery-inv s i owner done in
    (
      r,
      found,
      mine,
      none-Refuses (cancel_recovery s i owner).0 i confirmer sender height (
          ap (λ (t : GuardianContract). find (pending_request i) t.recovery_requests) after
          ∙ settled s i cancelled h refl found),
    )
