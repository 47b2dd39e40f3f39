-- ===== src/Consensus/Quorum.antt =====
-- The quorum rule: any two quorums overlap, and jailing does not move it.
use solen.Base.{
  ℕ, ◌+◌, ◌*◌, ◌≤◌, ◌<◌, ◌≡◌, ◌↔◌, refl, ap, ap₂, mul_u128, ◌%◌, Bool, true, false, ◌&&◌, List, [],
  ◌∷◌, inl, inr, arith, if◌then◌else◌, ◌==◌, ltb, find, retain, update_first, sum_by, sum_u128,
  contains, u128_mod, sum_u128-eq, sum_by-retain_le, mul_u128-eq, Option-cases,
}
use solen.Consensus.Validators.{
  ValidatorSet, ValidatorInfo, is_attester, has_quorum, stake_of, info_id, set_jailed, jail,
}
use solen.Consensus.Slashing.{record_missed_block, miss_one}

-- The stake of the whole committed set, and the stake in it of those that are named.
abbrev pub total_stake : ValidatorSet → ℕ
total_stake set = sum_by (λ v. v.stake) set.validators

abbrev pub named_stake : (ValidatorInfo → Bool) → ValidatorSet → ℕ
named_stake p set = sum_by (λ v. v.stake) (retain p set.validators)

-- The rule in exact arithmetic: the attesters hold more than two thirds of the committed stake. The
-- stake must stay within 128 bits when it is tripled.
pub has_quorum_iff :
    (set : ValidatorSet) (ids : List ℕ)
    → 3 * total_stake set < u128_mod
    → (has_quorum set ids ≡ true) ↔ (2 * total_stake set < 3 * named_stake (is_attester ids) set)
unfolding has_quorum
has_quorum_iff set ids small =
    let stake : ValidatorInfo → ℕ = λ v. v.stake in
    let attesters = retain (is_attester ids) set.validators in
    let part = sum_by-retain_le stake (is_attester ids) set.validators in
    let all = sum_u128-eq stake set.validators (omega arith) in
    let some_of = sum_u128-eq stake attesters (omega arith) in
    let double = mul_u128-eq (sum_by stake set.validators) 2 (omega arith) in
    let triple = mul_u128-eq (sum_by stake attesters) 3 (omega arith) in
    (
      λ h. ground (arith, all, some_of, double, triple, part, h),
      λ h. ground (arith, all, some_of, double, triple, part, h),
    )

-- Inclusion and exclusion over the members of the set.
overlap :
    (p q : ValidatorInfo → Bool) (vs : List ValidatorInfo)
    → sum_by (λ v. v.stake) (retain p vs) + sum_by (λ v. v.stake) (retain q vs)
      ≤ sum_by (λ v. v.stake) vs + sum_by (λ v. v.stake) (retain (λ v. p v && q v) vs)
unfolding retain sum_by
overlap p q [] = omega arith
overlap p q (v ∷ vs) = ground (arith, overlap p q vs)

-- Two quorums share validators that hold more than a third of the committed stake, which must stay
-- within 128 bits when it is tripled.
pub has_quorum-overlap :
    (set : ValidatorSet) (ids others : List ℕ)
    → 3 * total_stake set < u128_mod
    → has_quorum set ids ≡ true
    → has_quorum set others ≡ true
    → total_stake set < 3 * named_stake (λ v. is_attester ids v && is_attester others v) set
has_quorum-overlap set ids others small first second = omega (
  arith,
  overlap (is_attester ids) (is_attester others) set.validators,
  (has_quorum_iff set ids small).0 first,
  (has_quorum_iff set others small).0 second,
)

-- A write that keeps every identifier and stake does not show in any sum of stake.
same_stake :
    (p q : ValidatorInfo → Bool) (f : ValidatorInfo → ValidatorInfo) (vs : List ValidatorInfo)
    → ((v : ValidatorInfo) → (q (f v) ≡ q v) × ((f v).stake ≡ v.stake))
    → sum_by (λ v. v.stake) (retain q (update_first p f vs)) ≡ sum_by (λ v. v.stake) (retain q vs)
unfolding retain sum_by update_first
same_stake p q f [] same = refl
same_stake p q f (v ∷ vs) same = ground (arith, same v, same_stake p q f vs same)

same_total :
    (p : ValidatorInfo → Bool) (f : ValidatorInfo → ValidatorInfo) (vs : List ValidatorInfo)
    → ((v : ValidatorInfo) → (f v).stake ≡ v.stake)
    → sum_by (λ v. v.stake) (update_first p f vs) ≡ sum_by (λ v. v.stake) vs
unfolding sum_by update_first
same_total p f [] same = refl
same_total p f (v ∷ vs) same = ground (arith, same v, same_total p f vs same)

has_quorum-congr :
    (set other : ValidatorSet) (ids : List ℕ)
    → total_stake set ≡ total_stake other
    → named_stake (is_attester ids) set ≡ named_stake (is_attester ids) other
    → has_quorum set ids ≡ has_quorum other ids
unfolding has_quorum sum_u128
has_quorum-congr set other ids all named =
    ap₂
      (λ t a.
        if t % u128_mod == 0
        then false
        else ltb (mul_u128 (t % u128_mod) 2) (mul_u128 (a % u128_mod) 3))
      all named

-- A write that keeps identifiers and stakes leaves every quorum as it was.
has_quorum-update_first :
    (p : ValidatorInfo → Bool) (f : ValidatorInfo → ValidatorInfo) (set : ValidatorSet)
    (ids : List ℕ)
    → ((v : ValidatorInfo) → ((f v).id ≡ v.id) × ((f v).stake ≡ v.stake))
    → has_quorum (record { validators = update_first p f set.validators }) ids ≡ has_quorum set ids
has_quorum-update_first p f set ids same =
    has_quorum-congr (record { validators = update_first p f set.validators }) set ids
      (same_total p f set.validators (λ v. (same v).1))
      (same_stake p (is_attester ids) f set.validators
        (λ v. (ap (λ i. contains i ids) (same v).0, (same v).1)))

has_quorum-record_missed_block :
    (set : ValidatorSet) (j : ℕ) (ids : List ℕ)
    → has_quorum (record_missed_block set j).0 ids ≡ has_quorum set ids
unfolding record_missed_block
has_quorum-record_missed_block set j ids = elim (Option-cases (find (info_id j) set.validators)) [
  | inl absent ↦ rw (absent, record_missed_block)
  | inr (v, found) ↦
      rw (found, record_missed_block)
        (has_quorum-update_first (info_id j) miss_one set ids (λ v. (refl, refl)))
]

-- Jailing a validator and counting its missed blocks, which each node does by itself, leave every
-- quorum as it was, and the stake by which blocks are ranked.
has_quorum-jail :
    (set : ValidatorSet) (i j : ℕ) (ids : List ℕ)
    → (has_quorum (jail set i).0 ids ≡ has_quorum set ids)
      × (has_quorum (record_missed_block set j).0 ids ≡ has_quorum set ids)
      × (stake_of (jail set i).0 ids ≡ stake_of set ids)
unfolding jail stake_of sum_u128
has_quorum-jail set i j ids = (
  has_quorum-update_first (info_id i) set_jailed set ids (λ v. (refl, refl)),
  has_quorum-record_missed_block set j ids,
  ap (λ t. t % u128_mod)
      (same_stake (info_id i) (is_attester ids) set_jailed set.validators (λ v. (refl, refl))),
)
