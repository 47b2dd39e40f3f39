-- ===== src/ForkChoice/Bookkeeping.antt =====
-- The votes and candidates after a finalization that fails (crates/solen-consensus/src/engine.rs).
use solen.Base.{
  ℕ, Bool, false, ◌≡◌, ◌≤◌, refl, ◌||◌, none, some, List, [], ◌∷◌, retain, lookup, nat_key, arith,
}
use solen.ForkChoice.State.{Hash, BlockHeader, PendingBlock, Engine, above, votes_at, blocks_at}
use solen.ForkChoice.Rules.{v2_finalize, finalize_pending_block, drop_v2, stage_block}
use solen.ForkChoice.Decision.{v2_finalize-chain}

lookup-above :
    {V : Type 0} (j height : ℕ) (m : List (ℕ × V)) → j ≤ height → lookup j (above height m) ≡ none
unfolding above retain lookup
lookup-above j height [] below = refl
lookup-above j height ((k, v) ∷ m) below = ground (arith, lookup-above j height m)

module _ (block_hash : BlockHeader → Hash) (executes : PendingBlock → Bool) where
  dropped :
      (e : Engine) (height j : ℕ) (h : Hash) (pb : PendingBlock)
      → lookup h (blocks_at e height) ≡ some pb
      → j ≤ height
      → let f = v2_finalize block_hash executes height h e in
        (votes_at f j ≡ []) × (blocks_at f j ≡ [])
  unfolding v2_finalize drop_v2
  dropped e height j h pb held below =
      let f = finalize_pending_block block_hash executes height (stage_block height h pb e) in
      ground (
        arith,
        held,
        lookup-above j height f.v2_votes below,
        lookup-above j height f.v2_blocks below,
      )

  -- When the executor refuses a candidate that fork choice finalizes, the chain stays as it was,
  -- but each vote and each candidate of the height or of one below it is dropped, those for the
  -- other candidates too.
  pub v2_finalize-refused :
      (e : Engine) (height j : ℕ) (h : Hash) (pb : PendingBlock)
      → lookup h (blocks_at e height) ≡ some pb
      → (pb.already_executed || executes pb) ≡ false
      → j ≤ height
      → let f = v2_finalize block_hash executes height h e in
        (f.chain ≡ e.chain) × (votes_at f j ≡ []) × (blocks_at f j ≡ [])
  v2_finalize-refused e height j h pb held refused below = (
    ground (arith, v2_finalize-chain block_hash executes e height h pb held, refused),
    (dropped e height j h pb held below).0,
    (dropped e height j h pb held below).1,
  )
