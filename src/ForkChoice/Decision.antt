-- ===== src/ForkChoice/Decision.antt =====
-- What `v2_reevaluate` finalizes, and what is left of the votes then
-- (crates/solen-consensus/src/engine.rs).
use solen.Base.{
  ℕ, Bool, true, false, ◌≡◌, refl, ap, ◌||◌, Option, none, some, List, [], ◌∷◌, if◌then◌else◌,
  ==_iff, contains, push, is_some, lookup, insert, nat_key, arith, on_branches, lookup-insert,
  lookup-after, insert-IsSortedMap, IsSortedMap,
}
use solen.ForkChoice.State.{
  Hash, BlockHeader, PendingBlock, FinalizedBlock, Engine, or_empty, votes_at, blocks_at,
  invalid_at,
}
use solen.ForkChoice.Rules.{
  Best, improve, candidate, consider, round, leader_loop, best_hash, v2_leader, tally_from, wins,
  winner, commit_block, reject_block, finalize_pending_block, stage_block, drop_v2, v2_finalize,
  attestations_for, restore_store_to_finalized_tip,
}

pub tally_from-IsSortedMap :
    (votes : List (ℕ × Hash)) (t : List (Hash × List ℕ))
    → IsSortedMap t
    → IsSortedMap (tally_from votes t)
unfolding tally_from
tally_from-IsSortedMap [] t h = h
tally_from-IsSortedMap ((v, k) ∷ votes) t h =
    tally_from-IsSortedMap votes (insert k (push (or_empty (lookup k t)) v) t)
      (insert-IsSortedMap k (push (or_empty (lookup k t)) v) t h)

module _ (blake3_hash : List ℕ → List ℕ) (e : Engine) (height : ℕ) where
  pub winner-wins :
      (t : List (Hash × List ℕ)) (h : Hash)
      → IsSortedMap t
      → winner blake3_hash e height t ≡ some h
      → wins blake3_hash e height h (or_empty (lookup h t)) ≡ true × (is_some (lookup h t) ≡ true)
  unfolding winner lookup
  winner-wins [] h sorted won = cc
  winner-wins ((k, vs) ∷ t) h sorted won =
      ground (arith, winner-wins t h sorted.1, lookup-after k t sorted.0, ==_iff h k)

  -- The best candidate so far is held and not proven invalid.
  abbrev IsViable : Option Best → Type 0
  IsViable none = Unit
  IsViable (some b) =
      (contains b.hash (invalid_at e height) ≡ false)
      × (is_some (lookup b.hash (blocks_at e height)) ≡ true)

  improve-IsViable :
      (c : Best) (best : Option Best)
      → IsViable (some c)
      → IsViable best
      → IsViable (improve c best)
  unfolding improve
  improve-IsViable c none h k = h
  improve-IsViable c (some b) h k = ground (arith, h, k)

  round-IsViable :
      (h : Hash) (vs : List ℕ) (best : Option Best)
      → IsViable best
      → IsViable (round blake3_hash e height h vs best)
  unfolding round candidate
  round-IsViable h vs best viable =
      on_branches IsViable (contains h (invalid_at e height)) (λ bad. viable)
        (λ good. take (lookup h (blocks_at e height)) refl good)
    where
      take :
          (o : Option PendingBlock)
          → lookup h (blocks_at e height) ≡ o
          → contains h (invalid_at e height) ≡ false
          → IsViable (consider blake3_hash e height h vs o best)
      take none at good = viable
      take (some pb) at good =
          improve-IsViable (candidate blake3_hash e height h vs pb) best (good, ap is_some at)
            viable

  leader_loop-IsViable :
      (t : List (Hash × List ℕ)) (best : Option Best)
      → IsViable best
      → IsViable (leader_loop blake3_hash e height t best)
  unfolding leader_loop
  leader_loop-IsViable [] best h = h
  leader_loop-IsViable ((k, vs) ∷ t) best h =
      leader_loop-IsViable t (round blake3_hash e height k vs best) (round-IsViable k vs best h)

  pub v2_leader-viable :
      (t : List (Hash × List ℕ)) (h : Hash)
      → v2_leader blake3_hash e height t ≡ some h
      → (contains h (invalid_at e height) ≡ false)
        × (is_some (lookup h (blocks_at e height)) ≡ true)
  unfolding v2_leader
  v2_leader-viable t h led =
      go (leader_loop blake3_hash e height t none) (leader_loop-IsViable t none tt) led
    where
      go :
          (best : Option Best)
          → IsViable best
          → best_hash best ≡ some h
          → (contains h (invalid_at e height) ≡ false)
            × (is_some (lookup h (blocks_at e height)) ≡ true)
      go none viable named = cc
      go (some b) viable named = ground (arith, viable, named)

module _ (block_hash : BlockHeader → Hash) (executes : PendingBlock → Bool) where
  -- The block that a candidate becomes.
  abbrev pub finalized : Engine → ℕ → Hash → PendingBlock → FinalizedBlock
  finalized e height h pb = record {
    header = pb.header;
    attestations = attestations_for height h (votes_at e height);
    operations = pb.operations;
  }

  pub v2_finalize-chain :
      (e : Engine) (height : ℕ) (h : Hash) (pb : PendingBlock)
      → lookup h (blocks_at e height) ≡ some pb
      → (v2_finalize block_hash executes height h e).chain ≡ (
          if pb.already_executed || executes pb
          then push e.chain (finalized e height h pb)
          else e.chain)
  unfolding v2_finalize finalize_pending_block stage_block drop_v2 commit_block reject_block
      restore_store_to_finalized_tip
  v2_finalize-chain e height h pb held = ground (
    arith,
    held,
    lookup-insert height height pb e.pending_blocks,
    lookup-insert height height (attestations_for height h (votes_at e height))
        e.pending_attestations,
  )
