-- ===== src/Staking/Collision.antt =====
-- Key rotation does not look at the keys that other validators have asked for.
use solen.Base.{
  ℕ, suc, ◌+◌, ◌≤◌, ◌<◌, ◌≡◌, ◌≢◌, refl, sym, subst, ap, Bool, true, false, none, some, List, [],
  ◌∷◌, arith, ◌==◌, IsOk, find, any, update_first, count, u64_mod, find-test, find-update_first_ne,
  count-update_first, count-map, any-find, any-find-false, add_u64-eq,
}
use solen.Staking.State.{StakingContract, StakingValidator, by_id}
use solen.Staking.Rotation.{
  rotate_key, request_rotation, rotate_one, due_key, apply_pending_rotations,
}
use solen.Staking.Membership.{IsDistinct}

count-none :
    (k : ℕ) (vs : List StakingValidator) → find (by_id k) vs ≡ none → count (by_id k) vs ≡ 0
unfolding find count
count-none k [] e = refl
count-none k (v ∷ vs) e = ground (arith, count-none k vs)

count-IsDistinct : (k : ℕ) (vs : List StakingValidator) → IsDistinct vs → count (by_id k) vs ≤ 1
unfolding count
count-IsDistinct k [] h = omega arith
count-IsDistinct k (v ∷ vs) h =
    ground (arith, count-IsDistinct k vs h.1, λ (e : find (by_id k) vs ≡ none). count-none k vs e)

-- A validator whose request for key `k` is due at `epoch`, or that has the key already.
abbrev gets_key : ℕ → ℕ → StakingValidator → Bool
gets_key epoch k v = (rotate_one epoch v).id == k

requested-gets_key :
    (epoch k : ℕ) (v : StakingValidator)
    → epoch + 1 < u64_mod
    → gets_key (epoch + 1) k (request_rotation k epoch v) ≡ true
unfolding rotate_one due_key
requested-gets_key epoch k v fits = ground (arith, add_u64-eq epoch 1)

idle-gets_key :
    (epoch k : ℕ) (v : StakingValidator)
    → v.pending_new_key ≡ none
    → (v.id == k) ≡ false
    → gets_key epoch k v ≡ false
unfolding rotate_one due_key
idle-gets_key epoch k v idle other = ground arith

rotate_key-accepts :
    (s : StakingContract) (a k epoch : ℕ) {v : StakingValidator}
    → find (by_id a) s.validators ≡ some v
    → v.pending_new_key ≡ none
    → any (by_id k) s.validators ≡ false
    → IsOk (rotate_key s a k epoch).1
      × ((rotate_key s a k epoch).0.validators
          ≡ update_first (by_id a) (request_rotation k epoch) s.validators)
unfolding rotate_key
rotate_key-accepts s a k epoch found idle unused = ground arith

-- One accepted request makes one more validator take the key.
count-gets_key :
    (vs : List StakingValidator) (a k epoch : ℕ) {v : StakingValidator}
    → find (by_id a) vs ≡ some v
    → v.pending_new_key ≡ none
    → any (by_id k) vs ≡ false
    → epoch + 1 < u64_mod
    → count (gets_key (epoch + 1) k) (update_first (by_id a) (request_rotation k epoch) vs)
      ≡ suc (count (gets_key (epoch + 1) k) vs)
count-gets_key vs a k epoch {v} found idle unused fits = ground (
  arith,
  count-update_first (by_id a) (gets_key (epoch + 1) k) (request_rotation k epoch) vs found,
  requested-gets_key epoch k v,
  idle-gets_key (epoch + 1) k v idle,
  any-find-false (by_id a) (by_id k) vs unused found,
)

still_unused :
    (vs : List StakingValidator) (a k epoch : ℕ) {v : StakingValidator}
    → find (by_id a) vs ≡ some v
    → any (by_id k) vs ≡ false
    → any (by_id k) (update_first (by_id a) (request_rotation k epoch) vs) ≡ false
still_unused vs a k epoch {v} found unused = ground (
  arith,
  any-find (by_id k) vs,
  any-find (by_id k) (update_first (by_id a) (request_rotation k epoch) vs),
  any-find-false (by_id a) (by_id k) vs unused found,
  find-update_first_ne (by_id a) (by_id k) (request_rotation k epoch) vs found,
)

still_found :
    (vs : List StakingValidator) (a b k epoch : ℕ) {v w : StakingValidator}
    → a ≢ b
    → find (by_id a) vs ≡ some v
    → find (by_id b) vs ≡ some w
    → find (by_id b) (update_first (by_id a) (request_rotation k epoch) vs) ≡ some w
still_found vs a b k epoch {v} {w} ne found_a found_b = ground (
  arith,
  find-test (by_id a) vs found_a,
  find-update_first_ne (by_id a) (by_id b) (request_rotation k epoch) vs found_a,
)

count-apply_pending_rotations :
    (s : StakingContract) (k epoch : ℕ)
    → count (by_id k) (apply_pending_rotations s epoch).0.validators
      ≡ count (gets_key epoch k) s.validators
unfolding apply_pending_rotations
count-apply_pending_rotations s k epoch = count-map (by_id k) (rotate_one epoch) s.validators

-- Two registered validators may ask for the same unused key. Both requests are accepted, and at the
-- next epoch both validators have that key, so the identifiers are no longer distinct.
pub rotate_key-collision :
    (s : StakingContract) (a b k epoch : ℕ) {v w : StakingValidator}
    → a ≢ b
    → find (by_id a) s.validators ≡ some v
    → find (by_id b) s.validators ≡ some w
    → v.pending_new_key ≡ none
    → w.pending_new_key ≡ none
    → any (by_id k) s.validators ≡ false
    → epoch + 1 < u64_mod
    → let s1 = (rotate_key s a k epoch).0 in
      let s2 = (rotate_key s1 b k epoch).0 in
      IsOk (rotate_key s a k epoch).1
      × IsOk (rotate_key s1 b k epoch).1
      × (¬ IsDistinct (apply_pending_rotations s2 (epoch + 1)).0.validators)
rotate_key-collision s a b k epoch {v} {w} ne found_a found_b idle_a idle_b unused fits =
    let s1 : StakingContract = (rotate_key s a k epoch).0 in
    let s2 : StakingContract = (rotate_key s1 b k epoch).0 in
    let one = rotate_key-accepts s a k epoch found_a idle_a unused in
    let found =
      subst (λ vs. find (by_id b) vs ≡ some w) (sym one.1)
        (still_found s.validators a b k epoch ne found_a found_b) in
    let free =
      subst (λ vs. any (by_id k) vs ≡ false) (sym one.1)
        (still_unused s.validators a k epoch found_a unused) in
    let two = rotate_key-accepts s1 b k epoch found idle_b free in
    (
      one.0,
      two.0,
      λ distinct. omega (
        arith,
        count-IsDistinct k (apply_pending_rotations s2 (epoch + 1)).0.validators distinct,
        count-apply_pending_rotations s2 k (epoch + 1),
        ap (count (gets_key (epoch + 1) k)) two.1,
        count-gets_key s1.validators b k epoch found idle_b free fits,
        ap (count (gets_key (epoch + 1) k)) one.1,
        count-gets_key s.validators a k epoch found_a idle_a unused fits,
      ),
    )
