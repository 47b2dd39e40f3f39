-- ===== src/ForkChoice/Finality.antt =====
-- What makes a block final (crates/solen-consensus/src/engine.rs).
use solen.Base.{
  contains-push, ℕ, Bool, true, false, ◌≡◌, ◌*◌, ◌<◌, refl, ◌&&◌, ◌||◌, some, List, [], ◌∷◌, ◌==◌,
  ==_iff, contains, any, push, retain, sum_by, lookup, insert, nat_key, arith, Bool-cases, inl, inr,
  lookup-insert, lookup-after, IsSortedMap, u128_mod,
}
use solen.Consensus.Validators.{ValidatorInfo, has_quorum, is_attester}
use solen.Consensus.Quorum.{total_stake, has_quorum-overlap}
use solen.ForkChoice.State.{Hash, Engine, or_empty, votes_at}
use solen.ForkChoice.Rules.{tally_from, v2_tally}

abbrev pub is_vote : ℕ → Hash → ℕ × Hash → Bool
is_vote vid h vote = (vote.0 == vid) && (vote.1 == h)

contains-tally_from :
    (vid : ℕ) (h : Hash) (votes : List (ℕ × Hash)) (t : List (Hash × List ℕ))
    → contains vid (or_empty (lookup h (tally_from votes t)))
      ≡ (contains vid (or_empty (lookup h t)) || any (is_vote vid h) votes)
unfolding tally_from any
contains-tally_from vid h [] t = ground arith
contains-tally_from vid h ((v, k) ∷ votes) t = ground (
  arith,
  contains-tally_from vid h votes (insert k (push (or_empty (lookup k t)) v) t),
  lookup-insert h k (push (or_empty (lookup k t)) v) t,
  contains-push vid v (or_empty (lookup k t)),
)

-- The voters that the tally names for a hash are those whose vote it is.
voted :
    (e : Engine) (height vid : ℕ) (h : Hash)
    → contains vid (or_empty (lookup h (v2_tally e height)))
      ≡ any (is_vote vid h) (votes_at e height)
unfolding v2_tally lookup contains
voted e height vid h = contains-tally_from vid h (votes_at e height) []

any_vote :
    (vid : ℕ) (h : Hash) (votes : List (ℕ × Hash))
    → IsSortedMap votes
    → any (is_vote vid h) votes ≡ true
    → lookup vid votes ≡ some h
unfolding any lookup
any_vote vid h [] sorted voted_h = cc
any_vote vid h ((v, k) ∷ votes) sorted voted_h =
    ground (arith, any_vote vid h votes, lookup-after v votes)

stake_none :
    (p : ValidatorInfo → Bool) (vs : List ValidatorInfo)
    → ((v : ValidatorInfo) → p v ≡ false)
    → sum_by (λ v. v.stake) (retain p vs) ≡ 0
unfolding retain sum_by
stake_none p [] absent = refl
stake_none p (v ∷ vs) absent = ground (arith, absent v, stake_none p vs absent)

-- When each validator has one vote at a height, two hashes that both have a quorum there are the
-- same: the order in which the tally is run through does not choose between winners. The stake
-- must stay within 128 bits when it is tripled.
pub has_quorum-one_hash :
    (e : Engine) (height : ℕ) (h k : Hash)
    → IsSortedMap (votes_at e height)
    → 3 * total_stake e.validator_set < u128_mod
    → has_quorum e.validator_set (or_empty (lookup h (v2_tally e height))) ≡ true
    → has_quorum e.validator_set (or_empty (lookup k (v2_tally e height))) ≡ true
    → h ≡ k
has_quorum-one_hash e height h k sorted small first second = elim (Bool-cases (h == k)) [
  | inl same ↦ (==_iff h k).0 same
  | inr other ↦
      let voters = λ (i : Hash). or_empty (lookup i (v2_tally e height)) in
      let both = λ (v : ValidatorInfo). is_attester (voters h) v && is_attester (voters k) v in
      let nobody : (v : ValidatorInfo) → both v ≡ false = λ v. ground (
        arith,
        voted e height v.id h,
        voted e height v.id k,
        any_vote v.id h (votes_at e height) sorted,
        any_vote v.id k (votes_at e height) sorted,
        other,
      ) in
      ground (
        arith,
        has_quorum-overlap e.validator_set (voters h) (voters k) small first second,
        stake_none both e.validator_set.validators nobody,
      )
]
