-- ===== src/Guardian/Tests.antt =====
-- Runs of the guardian contract, and the theorems at one recovery.
use solen.Base.{
  HasDistinct, ◌+◌, ◌*◌, ◌≤◌, ◌<◌, ◌≡◌, refl, true, some, List, [], ◌∷◌, arith, ok, err, IsOk, All,
  find, any, count, contains, length, update_first, saturating_add_u64,
}
use solen.Guardian.State.{
  GuardianContract, RecoveryRequest, AuthMethod, ed25519, new, pending_request,
  recovery_timelock_blocks, not_a_guardian, insufficient_confirmations,
}
use solen.Guardian.Operations.{
  initiate_recovery, confirm_recovery, cancel_recovery, can_execute, mark_executed, is_empty,
  threshold_for,
}
use solen.Guardian.History.{IsOrderly, Reach, here, next, initiates, confirms, Reach-IsOrderly}
use solen.Guardian.Recovery.{can_execute-IsOk}

abbrev new_keys : List AuthMethod
new_keys = ed25519 99 ∷ []

-- Account 7 with guardians 1, 2 and 3: guardian 1 starts a recovery at height 1000, 3 confirms it.
abbrev started : GuardianContract
started = (initiate_recovery new 7 1 new_keys (1 ∷ 2 ∷ 3 ∷ []) 1_000).0

abbrev agreed : GuardianContract
agreed = (confirm_recovery started 0 3).0

new-IsOrderly : IsOrderly new
unfolding count
new-IsOrderly = record {
  guarded = tt;
  single = λ a. omega arith;
  numbered = tt;
  unique = λ i. omega arith;
}

history : Reach new agreed
history =
    next (next here (initiates 7 1 new_keys (1 ∷ 2 ∷ 3 ∷ []) 1_000 (omega arith) (omega arith)))
      (confirms 0 3)

Reach-IsOrderly_example : IsOrderly agreed
Reach-IsOrderly_example = Reach-IsOrderly new-IsOrderly history

agreed-IsOrderly : IsOrderly agreed
agreed-IsOrderly = Reach-IsOrderly new-IsOrderly history

stranger_refused : (confirm_recovery started 0 4).1 ≡ err not_a_guardian
unfolding initiate_recovery confirm_recovery find any contains is_empty
stranger_refused = refl

alone_refused : can_execute started 0 200_000 ≡ err (insufficient_confirmations 1 2)
unfolding initiate_recovery can_execute find any contains is_empty threshold_for saturating_add_u64
alone_refused = refl

ready : IsOk (can_execute agreed 0 152_200)
unfolding initiate_recovery confirm_recovery can_execute find any contains is_empty update_first
    saturating_add_u64 threshold_for
ready = tt

can_execute-IsOk_example :
    (r : RecoveryRequest) × (can_execute agreed 0 152_200 ≡ ok r)
    × (find (pending_request 0) agreed.recovery_requests ≡ some r)
    × (r.initiated_at + recovery_timelock_blocks ≤ 152_200)
    × HasDistinct r.confirmations
    × All (λ c. contains c r.guardian_ids ≡ true) r.confirmations
    × (length r.guardian_ids < 2 * length r.confirmations)
can_execute-IsOk_example = can_execute-IsOk agreed 0 152_200 agreed-IsOrderly ready

markable : IsOk (mark_executed agreed 0).1
unfolding initiate_recovery confirm_recovery mark_executed find any contains is_empty update_first
markable = tt

cancellable : IsOk (cancel_recovery agreed 0 7).1
unfolding initiate_recovery confirm_recovery cancel_recovery find any contains is_empty update_first
cancellable = tt
