-- ===== src/Consensus/Validators.antt =====
-- The validator set (crates/solen-consensus/src/validator.rs).
-- An identifier is 32 bytes; the set compares and orders them only, so it is the number that the
-- bytes spell, the first byte highest, which orders as the bytes do.
use solen.Base.{
  ℕ, Bool, true, false, List, [], ◌∷◌, not, ◌==◌, ltb, leb, if◌then◌else◌, find, retain,
  update_first, push, contains, length, sum_u128, mul_u128, is_some,
}

pub data ValidatorStatus : Type 0 where
  active_status jailed exiting : ValidatorStatus

pub record ValidatorInfo : Type 0 where
  pub id : ℕ
  pub stake : ℕ
  pub status : ValidatorStatus
  pub missed_blocks : ℕ

-- `ValidatorInfo::new`
unfoldable pub new_info : ℕ → ℕ → ValidatorInfo
new_info id stake = record { id = id; stake = stake; status = active_status; missed_blocks = 0 }

abbrev pub is_active_status : ValidatorStatus → Bool
is_active_status active_status = true
is_active_status jailed = false
is_active_status exiting = false

abbrev pub is_active : ValidatorInfo → Bool
is_active v = is_active_status v.status

pub record ValidatorSet : Type 0 where
  pub validators : List ValidatorInfo

-- `sort_by_key` is stable: an element goes in front of its equals that stand behind it.
module _ {ℓ} {A : Type ℓ} (key : A → ℕ) where
  unfoldable pub insert_by_key : A → List A → List A
  insert_by_key x [] = x ∷ []
  insert_by_key x (y ∷ ys) = if leb (key x) (key y) then x ∷ y ∷ ys else y ∷ insert_by_key x ys

  unfoldable pub sort_by_key : List A → List A
  unfolding insert_by_key
  sort_by_key [] = []
  sort_by_key (x ∷ xs) = insert_by_key x (sort_by_key xs)

unfoldable pub active : ValidatorSet → List ValidatorInfo
unfolding sort_by_key
active set = sort_by_key (λ v. v.id) (retain is_active set.validators)

unfoldable pub total_active_stake : ValidatorSet → ℕ
unfolding active
total_active_stake set = sum_u128 (λ v. v.stake) (active set)

unfoldable pub active_count : ValidatorSet → ℕ
unfolding active
active_count set = length (active set)

abbrev pub info_id : ℕ → ValidatorInfo → Bool
info_id i v = v.id == i

abbrev pub is_attester : List ℕ → ValidatorInfo → Bool
is_attester ids v = contains v.id ids

-- More than two thirds of the stake of the whole set, whatever the status of its members.
unfoldable pub has_quorum : ValidatorSet → List ℕ → Bool
has_quorum set attester_ids =
    let total = sum_u128 (λ v. v.stake) set.validators in
    let attested = sum_u128 (λ v. v.stake) (retain (is_attester attester_ids) set.validators) in
    if total == 0 then false else ltb (mul_u128 total 2) (mul_u128 attested 3)

unfoldable pub stake_of : ValidatorSet → List ℕ → ℕ
stake_of set ids = sum_u128 (λ v. v.stake) (retain (is_attester ids) set.validators)

-- `add`, `remove` and `jail`; `get_mut` is `find` for a read and `update_first` for a write.
unfoldable pub add : ValidatorSet → ValidatorInfo → ValidatorSet
add set info = record { validators = push set.validators info }

unfoldable pub remove : ValidatorSet → ℕ → ValidatorSet
remove set i = record { validators = retain (λ v. not (v.id == i)) set.validators }

abbrev pub set_jailed : ValidatorInfo → ValidatorInfo
set_jailed v = record v { status = jailed }

unfoldable pub jail : ValidatorSet → ℕ → ValidatorSet × Bool
jail set i = (
  record { validators = update_first (info_id i) set_jailed set.validators },
  is_some (find (info_id i) set.validators),
)
