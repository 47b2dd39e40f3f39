-- ===== src/Consensus/Proposer.antt =====
-- Proposer selection (crates/solen-consensus/src/validator.rs). `solen_crypto::blake3_hash` calls
-- the blake3 library: it is a parameter, a function of byte strings.
use mathlib.Core.List.{reverse}
use solen.Base.{
  ℕ, zero, suc, ◌+◌, ◌*◌, ◌/◌, ◌%◌, ◌-◌, Bool, true, false, ◌&&◌, Option, none, some, List, [], ◌∷◌,
  ◌++◌, map, ltb, ◌==◌, if◌then◌else◌, length, get_or, take, replicate, sum_u128, add_u128,
  u128_mod,
}
use solen.Consensus.Validators.{ValidatorSet, ValidatorInfo, active, sort_by_key}

-- `to_le_bytes` of a word of `n` bytes, and `u128::from_le_bytes`.
unfoldable pub to_le_bytes : ℕ → ℕ → List ℕ
to_le_bytes zero x = []
to_le_bytes (suc n) x = (x % 256) ∷ to_le_bytes n (x / 256)

unfoldable pub from_le_bytes : List ℕ → ℕ
from_le_bytes [] = 0
from_le_bytes (b ∷ bs) = b + 256 * from_le_bytes bs

-- The 32 bytes of an identifier.
unfoldable pub id_bytes : ℕ → List ℕ
unfolding to_le_bytes
id_bytes i = reverse (to_le_bytes 32 i)

unfoldable pub bytes_eq : List ℕ → List ℕ → Bool
bytes_eq [] [] = true
bytes_eq [] (y ∷ ys) = false
bytes_eq (x ∷ xs) [] = false
bytes_eq (x ∷ xs) (y ∷ ys) = (x == y) && bytes_eq xs ys

abbrev pub zero_seed : List ℕ
zero_seed = replicate 32 0

-- The loop over the cumulative stake; `last` is returned where no range holds the target.
unfoldable pub pick_from : List ValidatorInfo → ℕ → ℕ → ℕ → ℕ
pick_from [] target cumulative last = last
pick_from (v ∷ vs) target cumulative last =
    let rest = pick_from vs target (add_u128 cumulative v.stake) last in
    if ltb target (add_u128 cumulative v.stake) then v.id else rest

unfoldable pub last_id : ValidatorInfo → List ValidatorInfo → ℕ
last_id v [] = v.id
last_id v (w ∷ vs) = last_id w vs

-- `(0..n).map(f).collect()`, from `i` on.
unfoldable pub map_from : (ℕ → ℕ) → ℕ → ℕ → List ℕ
map_from f i zero = []
map_from f i (suc n) = f i ∷ map_from f (suc i) n

-- The rotation of the genesis epoch. Every index is below the length, so no default is read.
unfoldable pub rotation : List ℕ → ℕ → List ℕ
unfolding map_from
rotation ids height =
    let n = length ids in
    let start = height % n in map_from (λ i. get_or ids ((start + i) % n) 0) 0 n

module _ (blake3_hash : List ℕ → List ℕ) where
  -- The first 16 bytes of the hash, as a u128.
  unfoldable pub selector : List ℕ → ℕ
  unfolding from_le_bytes
  selector input = from_le_bytes (take 16 (blake3_hash input))

  unfoldable pub choose : List ℕ → ℕ → ValidatorInfo → List ValidatorInfo → ℕ
  choose epoch_seed height v vs =
      let total_stake = sum_u128 (λ v. v.stake) (v ∷ vs) in
      if bytes_eq epoch_seed zero_seed
      then get_or (map (λ v. v.id) (v ∷ vs)) (height % length (v ∷ vs)) 0
      else if total_stake == 0
      then v.id
      else pick_from (v ∷ vs) (selector (epoch_seed ++ to_le_bytes 8 height) % total_stake) 0
          (last_id v vs)

  unfoldable pub proposer_for_height_with_seed : ValidatorSet → ℕ → List ℕ → Option ℕ
  proposer_for_height_with_seed set height epoch_seed = elim (active set) [
    | [] ↦ none
    | v ∷ vs ↦ some (choose epoch_seed height v vs)
  ]

  unfoldable pub proposer_for_height : ValidatorSet → ℕ → Option ℕ
  proposer_for_height set height = proposer_for_height_with_seed set height zero_seed

  unfoldable pub score : List ℕ → ℕ → ValidatorInfo → ℕ
  unfolding selector to_le_bytes id_bytes
  score epoch_seed height v =
      let hash_val = selector (epoch_seed ++ (to_le_bytes 8 height ++ id_bytes v.id)) in
      if ltb 0 v.stake then hash_val / v.stake else u128_mod - 1

  unfoldable pub proposer_order_for_height : ValidatorSet → ℕ → List ℕ → List ℕ
  proposer_order_for_height set height epoch_seed =
      if bytes_eq epoch_seed zero_seed
      then rotation (map (λ v. v.id) (active set)) height
      else map (λ scored. scored.1)
          (sort_by_key (λ (scored : ℕ × ℕ). scored.0)
            (map (λ v. (score epoch_seed height v, v.id)) (active set)))
