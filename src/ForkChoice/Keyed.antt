-- ===== src/ForkChoice/Keyed.antt =====
-- Where a candidate is held (crates/solen-consensus/src/engine.rs): under the height and the hash of
-- its header.
use solen.Base.{
  ℕ, ◌≡◌, refl, List, [], ◌∷◌, none, some, Option, All, ==_iff, lookup, nat_key, arith,
}
use solen.ForkChoice.State.{Hash, BlockHeader, PendingBlock, Engine, or_empty, blocks_at}

All-lookup :
    {V : Type 0} (P : ℕ × V → Type 0) (k : ℕ) (m : List (ℕ × V)) {v : V}
    → All P m
    → lookup k m ≡ some v
    → P (k, v)
unfolding lookup
All-lookup P k [] h at = absurd (cc)
All-lookup P k ((j, w) ∷ m) {v} h at = ground (arith, ==_iff k j, All-lookup P k m {v = v})

module _ (block_hash : BlockHeader → Hash) where
  abbrev pub IsCandidate : ℕ → Hash × PendingBlock → Type 0
  IsCandidate height c = (c.1.header.height ≡ height) × (block_hash c.1.header ≡ c.0)

  abbrev pub AreCandidates : ℕ × List (Hash × PendingBlock) → Type 0
  AreCandidates entry = All (IsCandidate entry.0) entry.1

  abbrev pub IsKeyed : Engine → Type 0
  IsKeyed e = All AreCandidates e.v2_blocks

  pub blocks_at-IsKeyed :
      (e : Engine) (height : ℕ) → IsKeyed e → All (IsCandidate height) (blocks_at e height)
  blocks_at-IsKeyed e height keyed = go (lookup height e.v2_blocks) refl
    where
      go :
          (o : Option (List (Hash × PendingBlock)))
          → lookup height e.v2_blocks ≡ o
          → All (IsCandidate height) (or_empty o)
      go none at = tt
      go (some cs) at = All-lookup AreCandidates height e.v2_blocks keyed at

  -- A candidate that is held is found under what its header says.
  pub held-IsCandidate :
      (e : Engine) (height : ℕ) (h : Hash) (pb : PendingBlock)
      → IsKeyed e
      → lookup h (blocks_at e height) ≡ some pb
      → (pb.header.height ≡ height) × (block_hash pb.header ≡ h)
  held-IsCandidate e height h pb keyed held =
      All-lookup (IsCandidate height) h (blocks_at e height) (blocks_at-IsKeyed e height keyed) held
