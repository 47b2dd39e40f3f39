-- ===== src/ForkChoice/Safety.antt =====
-- A block becomes final only by a quorum (crates/solen-consensus/src/engine.rs).
use solen.Base.{
  ℕ, Bool, true, false, not, ◌≡◌, ◌⊎◌, refl, sym, ◌∙◌, ap, subst, ◌||◌, Option, none, some, List,
  [], ◌∷◌, if◌then◌else◌, ◌==◌, ==_iff, contains, push, is_some, lookup, insert, nat_key, arith,
  Bool-cases, Option-cases, inl, inr, on_branches, lookup-insert, IsSortedMap, add_u64,
}
use solen.Consensus.Validators.{has_quorum}
use solen.ForkChoice.State.{
  Hash, BlockHeader, PendingBlock, FinalizedBlock, Engine, or_empty, height_of, votes_at, blocks_at,
  invalid_at, set_vote,
}
use solen.ForkChoice.Rules.{
  v2_leader, tally_from, v2_tally, wins, winner, v2_finalize, attestations_for,
}
use solen.ForkChoice.Voting.{
  is_validator, same_hash, settle_leader, move_vote, follow, decide, reevaluate_tally,
  v2_reevaluate,
}
use solen.ForkChoice.Keyed.{IsKeyed, held-IsCandidate}
use solen.ForkChoice.Decision.{
  winner-wins, v2_leader-viable, v2_finalize-chain, tally_from-IsSortedMap,
}

module _ (blake3_hash : List ℕ → List ℕ) (block_hash : BlockHeader → Hash)
    (executes : PendingBlock → Bool) where
  -- The chain has grown by a block that was held for the next height, had not been proven invalid,
  -- and was executed when we made it or is accepted by the executor, and that the votes, or the
  -- votes with our own moved to it, give a quorum.
  pub record HasGrown (e : Engine) (height : ℕ) (chain : List FinalizedBlock) : Type 0 where
    pub hash : Hash
    pub block : PendingBlock
    pub votes : List (ℕ × Hash)
    pub next : height ≡ add_u64 (height_of e.chain) 1
    pub counted :
        (votes ≡ votes_at e height) ⊎ (votes ≡ insert e.validator_id hash (votes_at e height))
    pub quorum : has_quorum e.validator_set (or_empty (lookup hash (tally_from votes []))) ≡ true
    pub held : lookup hash (blocks_at e height) ≡ some block
    pub valid : contains hash (invalid_at e height) ≡ false
    pub executed : (block.already_executed || executes block) ≡ true
    pub grown :
        chain
        ≡ push e.chain (record {
          header = block.header;
          attestations = attestations_for height hash votes;
          operations = block.operations;
        })

  Kept : Engine → ℕ → List FinalizedBlock → Type 0
  Kept e height chain = (chain ≡ e.chain) ⊎ HasGrown e height chain

  -- A finalization in a state with the same chain and candidates.
  finalize-Kept :
      (e f : Engine) (height : ℕ) (h : Hash)
      → f.chain ≡ e.chain
      → blocks_at f height ≡ blocks_at e height
      → (votes_at f height ≡ votes_at e height)
        ⊎ (votes_at f height ≡ insert e.validator_id h (votes_at e height))
      → height ≡ add_u64 (height_of e.chain) 1
      → has_quorum e.validator_set (or_empty (lookup h (v2_tally f height))) ≡ true
      → (contains h (invalid_at e height) ≡ false)
        × (is_some (lookup h (blocks_at e height)) ≡ true)
      → Kept e height (v2_finalize block_hash executes height h f).chain
  unfolding Kept v2_tally
  finalize-Kept e f height h chain_eq blocks_eq counted next quorum viable =
      elim (Option-cases (lookup h (blocks_at e height))) [
        | inl missing ↦ ground (arith, viable, missing)
        | inr (pb, held) ↦
            let there = ap (lookup h) blocks_eq ∙ held in
            let after = v2_finalize-chain block_hash executes f height h pb there in
            elim (Bool-cases (pb.already_executed || executes pb)) [
              | inr refused ↦ inl (ground (arith, after, refused, chain_eq))
              | inl executed ↦ inr (record {
                hash = h;
                block = pb;
                votes = votes_at f height;
                next = next;
                counted = counted;
                quorum = quorum;
                held = held;
                valid = viable.0;
                executed = executed;
                grown = ground (arith, after, executed, chain_eq);
              })
            ]
      ]

  kept : (e : Engine) (height : ℕ) → Kept e height e.chain
  unfolding Kept
  kept e height = inl refl

  -- Our vote is moved, and the move is queued.
  moved : ℕ → Hash → Engine → Engine
  moved height h e = record (set_vote e.validator_id height h e) {
    v2_revotes = push e.v2_revotes (height, h);
  }

  votes_at-moved :
      (e : Engine) (height : ℕ) (h : Hash)
      → votes_at (moved height h e) height ≡ insert e.validator_id h (votes_at e height)
  unfolding moved set_vote
  votes_at-moved e height h =
      ground (
        arith,
        lookup-insert height height (insert e.validator_id h (votes_at e height)) e.v2_votes,
      )

  moved-Kept :
      (e : Engine) (height : ℕ) (h : Hash)
      → height ≡ add_u64 (height_of e.chain) 1
      → (contains h (invalid_at e height) ≡ false)
        × (is_some (lookup h (blocks_at e height)) ≡ true)
      → Kept e height
          (settle_leader blake3_hash block_hash executes height h (moved height h e)).chain
  unfolding settle_leader moved set_vote
  moved-Kept e height h next viable =
      on_branches (λ (f : Engine). Kept e height f.chain)
        (has_quorum e.validator_set (or_empty (lookup h (v2_tally (moved height h e) height))))
        (λ quorum.
          finalize-Kept e (moved height h e) height h refl refl (inr (votes_at-moved e height h))
            next quorum viable)
        (λ few. kept e height)

  move_vote-Kept :
      (e : Engine) (height : ℕ) (h : Hash)
      → height ≡ add_u64 (height_of e.chain) 1
      → (contains h (invalid_at e height) ≡ false)
        × (is_some (lookup h (blocks_at e height)) ≡ true)
      → Kept e height (move_vote blake3_hash block_hash executes height h e).chain
  unfolding move_vote moved
  move_vote-Kept e height h next viable =
      on_branches (λ (f : Engine). Kept e height f.chain) (not (is_validator e.validator_id e))
        (λ outside. kept e height)
        (λ inside.
          on_branches (λ (f : Engine). Kept e height f.chain)
            (same_hash h (lookup e.validator_id (votes_at e height))) (λ there. kept e height)
            (λ elsewhere. moved-Kept e height h next viable))

  follow-Kept :
      (e : Engine) (height : ℕ) (o : Option Hash) (t : List (Hash × List ℕ))
      → height ≡ add_u64 (height_of e.chain) 1
      → v2_leader blake3_hash e height t ≡ o
      → Kept e height (follow blake3_hash block_hash executes height o e).chain
  follow-Kept e height none t next led = kept e height
  follow-Kept e height (some h) t next led =
      move_vote-Kept e height h next (v2_leader-viable blake3_hash e height t h led)

  wins-viable :
      (e : Engine) (height : ℕ) (h : Hash) (voters : List ℕ)
      → wins blake3_hash e height h voters ≡ true
      → (has_quorum e.validator_set voters ≡ true)
        × (contains h (invalid_at e height) ≡ false)
        × (is_some (lookup h (blocks_at e height)) ≡ true)
  unfolding wins
  wins-viable e height h voters w = ground (arith, w)

  tally-sorted : (e : Engine) (height : ℕ) → IsSortedMap (v2_tally e height)
  unfolding v2_tally
  tally-sorted e height = tally_from-IsSortedMap (votes_at e height) [] tt

  decide-Kept :
      (e : Engine) (height : ℕ) (o : Option Hash)
      → height ≡ add_u64 (height_of e.chain) 1
      → winner blake3_hash e height (v2_tally e height) ≡ o
      → Kept e height (decide blake3_hash block_hash executes height o (v2_tally e height) e).chain
  decide-Kept e height none next won =
      follow-Kept e height (v2_leader blake3_hash e height (v2_tally e height)) (v2_tally e height)
        next refl
  decide-Kept e height (some h) next won =
      let w = winner-wins blake3_hash e height (v2_tally e height) h (tally-sorted e height) won in
      let (quorum, valid, held) =
        wins-viable e height h (or_empty (lookup h (v2_tally e height))) w.0 in
      finalize-Kept e e height h refl refl (inl refl) next quorum (valid, held)

  tally-Kept :
      (e : Engine) (height : ℕ) (t : List (Hash × List ℕ))
      → height ≡ add_u64 (height_of e.chain) 1
      → v2_tally e height ≡ t
      → Kept e height (reevaluate_tally blake3_hash block_hash executes height t e).chain
  tally-Kept e height [] next whole = kept e height
  tally-Kept e height (x ∷ xs) next whole =
      subst
        (λ t.
          Kept e height
            (decide blake3_hash block_hash executes height (winner blake3_hash e height t) t
              e).chain)
        whole (decide-Kept e height (winner blake3_hash e height (v2_tally e height)) next refl)

  reevaluate-Kept :
      (e : Engine) (height : ℕ)
      → Kept e height (v2_reevaluate blake3_hash block_hash executes height e).chain
  unfolding v2_reevaluate Kept
  reevaluate-Kept e height = elim (Bool-cases (height == add_u64 (height_of e.chain) 1)) [
    | inr other ↦ inl (ground (arith, other))
    | inl next ↦
        subst
          (λ b.
            Kept e height
              (if not b
                then e
                else reevaluate_tally blake3_hash block_hash executes height (v2_tally e height)
                    e).chain)
          (sym next)
          (tally-Kept e height (v2_tally e height)
            ((==_iff height (add_u64 (height_of e.chain) 1)).0 next) refl)
  ]

  -- When each candidate is held under the height and the hash of its header, then whatever the votes
  -- are, a re-evaluation leaves the chain as it was, or adds one block to it: one whose header has
  -- the next height, that was held and had not been proven invalid, that was executed when we made
  -- it or is accepted by the executor, and to whose hash the votes, or the votes with our own moved
  -- to it, give a quorum.
  pub v2_reevaluate-HasGrown :
      (e : Engine) (height : ℕ)
      → IsKeyed block_hash e
      → let chain = (v2_reevaluate blake3_hash block_hash executes height e).chain in
        (chain ≡ e.chain)
        ⊎ ((g : HasGrown e height chain) × (g.block.header.height ≡ add_u64 (height_of e.chain) 1)
            × (block_hash g.block.header ≡ g.hash))
  unfolding Kept
  v2_reevaluate-HasGrown e height keyed = elim (reevaluate-Kept e height) [
    | inl same ↦ inl same
    | inr g ↦
        let (at_height, named) = held-IsCandidate block_hash e height g.hash g.block keyed g.held in
        inr (g, at_height ∙ g.next, named)
  ]
