-- ===== src/Consensus/Selection.antt =====
-- What proposer selection guarantees: every active validator has one place in the order, only
-- active validators are chosen, and each has as many targets as it has stake.
use mathlib.Core.List.{Perm, Mem, mem-cons, mem-cons_self}
use mathlib.Core.List.Perm
use mathlib.Core.Logic.Or
use native.Mathlib.Nat.{mod-lt}
use solen.Base.{
  ℕ, zero, suc, ◌+◌, ◌%◌, ◌<◌, ◌≡◌, refl, sym, ap, subst, List, [], ◌∷◌, ◌++◌, map, ◌⊎◌, inl, inr,
  arith, ltb, ◌==◌, Bool-cases, length, get_or, sum_by, sum_u128, add_u128, add_u128-eq, u128_mod,
  retain, length-map, none, some,
}
use solen.Consensus.Validators.{ValidatorSet, ValidatorInfo, active, is_active}
use solen.Consensus.Proposer.{
  pick_from, score, proposer_order_for_height, proposer_for_height_with_seed, choose, selector,
  to_le_bytes, last_id, bytes_eq, zero_seed,
}
use solen.Consensus.Ordering.{sort_by_key-perm, sort_by_key-IsSorted, IsSorted, rotation-perm}

map_snd :
    (f : ValidatorInfo → ℕ) (vs : List ValidatorInfo)
    → map (λ (s : ℕ × ℕ). s.1) (map (λ v. (f v, v.id)) vs) ≡ map (λ v. v.id) vs
map_snd f [] = refl
map_snd f (v ∷ vs) = ap (◌∷◌ v.id) (map_snd f vs)

-- The active validators that rotation and backups go through are those of the set with the status,
-- in the order of their identifiers.
pub active-perm :
    (set : ValidatorSet)
    → Perm (active set) (retain is_active set.validators) × IsSorted (λ v. v.id) (active set)
unfolding active
active-perm set = (
  sort_by_key-perm (λ v. v.id) (retain is_active set.validators),
  sort_by_key-IsSorted (λ v. v.id) (retain is_active set.validators),
)

-- At every height, whatever the seed and the hash function, the proposer order lists each active
-- validator exactly once and nobody else.
pub proposer_order_for_height-perm :
    (blake3_hash : List ℕ → List ℕ) (set : ValidatorSet) (height : ℕ) (seed : List ℕ)
    → Perm
        (proposer_order_for_height blake3_hash set height seed)
        (map (λ v. v.id) (retain is_active set.validators))
unfolding proposer_order_for_height
proposer_order_for_height-perm blake3_hash set height seed =
    let listed = Perm.map (λ (v : ValidatorInfo). v.id) (active-perm set).0 in
    let pairs : List (ℕ × ℕ) = map (λ v. (score blake3_hash seed height v, v.id)) (active set) in
    let sorted = Perm.map (λ (s : ℕ × ℕ). s.1) (sort_by_key-perm (λ (s : ℕ × ℕ). s.0) pairs) in
    elim (Bool-cases (bytes_eq seed zero_seed)) [
      | inl genesis ↦
          rw (genesis, proposer_order_for_height)
            (Perm.trans (rotation-perm (map (λ v. v.id) (active set)) height) listed)
      | inr seeded ↦
          rw (seeded, proposer_order_for_height)
            (Perm.trans sorted (
              subst (λ l. Perm l (map (λ v. v.id) (retain is_active set.validators)))
                (sym (map_snd (score blake3_hash seed height) (active set))) listed))
    ]

-- The loop finds the validator whose range of cumulative stake holds the target: a validator is
-- chosen for each of the targets in its range, which is as long as its stake. The total stake must
-- stay within 128 bits.
pub pick_from-share :
    (front : List ValidatorInfo) (v : ValidatorInfo) (back : List ValidatorInfo)
    (start r last target : ℕ)
    → r < v.stake
    → start + sum_by (λ v. v.stake) (front ++ v ∷ back) < u128_mod
    → target ≡ start + sum_by (λ v. v.stake) front + r
    → pick_from (front ++ v ∷ back) target start last ≡ v.id
unfolding pick_from sum_by
pick_from-share [] v back start r last target within small at =
    ground (arith, add_u128-eq start v.stake)
pick_from-share (w ∷ front) v back start r last target within small at = ground (
  arith,
  add_u128-eq start w.stake,
  pick_from-share front v back (add_u128 start w.stake) r last target within,
)

get_or-mem : (xs : List ℕ) (i d : ℕ) → i < length xs → Mem (get_or xs i d) xs
get_or-mem [] i d h = elim h [ ]
get_or-mem (x ∷ xs) zero d h = mem-cons_self
get_or-mem (x ∷ xs) (suc i) d h = mem-cons.1 (Or.inr (get_or-mem xs i d (omega arith)))

last_id-mem :
    (v : ValidatorInfo) (vs : List ValidatorInfo) → Mem (last_id v vs) (map (λ v. v.id) (v ∷ vs))
unfolding last_id
last_id-mem v [] = mem-cons_self
last_id-mem v (w ∷ vs) = mem-cons.1 (Or.inr (last_id-mem w vs))

pick_from-mem :
    (vs : List ValidatorInfo) (target start last : ℕ) (ids : List ℕ)
    → Mem last ids
    → ((i : ℕ) → Mem i (map (λ v. v.id) vs) → Mem i ids)
    → Mem (pick_from vs target start last) ids
unfolding pick_from
pick_from-mem [] target start last ids h sub = h
pick_from-mem (v ∷ vs) target start last ids h sub =
    elim (Bool-cases (ltb target (add_u128 start v.stake))) [
      | inl here ↦ rw here (sub v.id mem-cons_self)
      | inr later ↦ rw later (
          pick_from-mem vs target (add_u128 start v.stake) last ids h
            (λ i m. sub i (mem-cons.1 (Or.inr m))))
    ]

choose-mem :
    (blake3_hash : List ℕ → List ℕ) (seed : List ℕ) (height : ℕ) (v : ValidatorInfo)
    (vs : List ValidatorInfo)
    → Mem (choose blake3_hash seed height v vs) (map (λ v. v.id) (v ∷ vs))
unfolding choose
choose-mem blake3_hash seed height v vs =
    let total = sum_u128 (λ (v : ValidatorInfo). v.stake) (v ∷ vs) in
    let target = selector blake3_hash (seed ++ to_le_bytes 8 height) % total in
    elim (Bool-cases (bytes_eq seed zero_seed)) [
      | inl genesis ↦
          rw (genesis, choose)
            (get_or-mem (map (λ v. v.id) (v ∷ vs)) (height % length (v ∷ vs)) 0 (
              subst (λ n. height % length (v ∷ vs) < n) (sym (length-map (λ v. v.id) (v ∷ vs)))
                (mod-lt height (omega arith))))
      | inr seeded ↦ elim (Bool-cases (total == 0)) [
        | inl none_staked ↦ rw (seeded, none_staked, choose) mem-cons_self
        | inr staked ↦
            rw (seeded, staked, choose)
              (pick_from-mem (v ∷ vs) target 0 (last_id v vs) (map (λ v. v.id) (v ∷ vs))
                (last_id-mem v vs) (λ i m. m))
      ]
    ]

-- A proposer is chosen whenever some validator is active, and it is an active validator; with no
-- active validator there is none.
pub proposer_for_height_with_seed-mem :
    (blake3_hash : List ℕ → List ℕ) (set : ValidatorSet) (height : ℕ) (seed : List ℕ)
    → ((retain is_active set.validators ≡ [])
        × (proposer_for_height_with_seed blake3_hash set height seed ≡ none))
      ⊎ ((i : ℕ) × (proposer_for_height_with_seed blake3_hash set height seed ≡ some i)
          × Mem i (map (λ v. v.id) (retain is_active set.validators)))
unfolding proposer_for_height_with_seed
proposer_for_height_with_seed-mem blake3_hash set height seed =
    go (active set) refl (active-perm set).0
  where
    members : List ValidatorInfo
    members = retain is_active set.validators

    go :
        (l : List ValidatorInfo)
        → active set ≡ l
        → Perm l members
        → ((members ≡ []) × (proposer_for_height_with_seed blake3_hash set height seed ≡ none))
          ⊎ ((i : ℕ) × (proposer_for_height_with_seed blake3_hash set height seed ≡ some i)
              × Mem i (map (λ v. v.id) members))
    go [] e perm = inl (Perm.eq-nil (Perm.symm perm), rw (e, proposer_for_height_with_seed))
    go (v ∷ vs) e perm = inr (
      choose blake3_hash seed height v vs,
      rw (e, proposer_for_height_with_seed),
      (Perm.mem_iff (Perm.map (λ (v : ValidatorInfo). v.id) perm)).0
          (choose-mem blake3_hash seed height v vs),
    )
