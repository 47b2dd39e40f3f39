-- ===== src/ForkChoice/Tests.antt =====
-- Runs of fork choice (crates/solen-consensus/src/engine.rs), with three validators and two
-- competing blocks.
use mathlib.Core.List.{Permᴰ}
use solen.Base.{
  ℕ, ◌*◌, ◌≡◌, ◌⊎◌, refl, true, false, List, [], ◌∷◌, lookup, insert, nat_key, arith, contains,
  retain, sum_by, add_u64, sum_u128, mul_u128, replicate, length,
}
use solen.Consensus.Validators.{ValidatorInfo, active_status, has_quorum}
use solen.ForkChoice.State.{
  no_drift, BlockHeader, PendingBlock, Engine, votes_at, blocks_at, height_of,
}
use solen.ForkChoice.Rules.{v2_tally, tally_from, v2_leader, v2_finalize}
use solen.ForkChoice.Voting.{v2_reevaluate}
use solen.ForkChoice.Leader.{v2_leader-perm}
use solen.ForkChoice.Finality.{has_quorum-one_hash}
use solen.ForkChoice.Safety.{HasGrown, v2_reevaluate-HasGrown}
use solen.ForkChoice.Bookkeeping.{v2_finalize-refused}

abbrev validator : ℕ → ℕ → ValidatorInfo
validator id stake = record { id = id; stake = stake; status = active_status; missed_blocks = 0 }

abbrev header_by : ℕ → BlockHeader
header_by proposer = record {
  height = 1;
  epoch = 0;
  parent_hash = 0;
  state_root = 0;
  transactions_root = 0;
  receipts_root = 0;
  proposer = proposer;
  timestamp_ms = 0;
  proposer_signature = [];
}

abbrev block_by : ℕ → PendingBlock
block_by proposer = record {
  header = header_by proposer;
  operations = [];
  already_executed = false;
  has_revert = false;
  mismatch_count = 0;
}

-- Blocks 100 and 200 compete at height 1: two votes and one.
abbrev racing : Engine
racing = record {
  validator_id = 1;
  fork_choice_v2_height = 0;
  epoch_seed = replicate 32 0;
  validator_set = record { validators = validator 1 40 ∷ validator 2 40 ∷ validator 3 10 ∷ [] };
  chain = [];
  pending_blocks = [];
  pending_attestations = [];
  v2_blocks = (1, (100, block_by 1) ∷ (200, block_by 2) ∷ []) ∷ [];
  v2_votes = (1, (1, 100) ∷ (2, 100) ∷ (3, 200) ∷ []) ∷ [];
  v2_revotes = [];
  v2_invalid = [];
  needs_resync = false;
  store_drift = no_drift;
}

abbrev toy_hash : List ℕ → List ℕ
toy_hash bytes = replicate 32 (length bytes)

v2_leader-perm_example :
    v2_leader toy_hash racing 1 ((100, 1 ∷ 2 ∷ []) ∷ (200, 3 ∷ []) ∷ [])
    ≡ v2_leader toy_hash racing 1 ((200, 3 ∷ []) ∷ (100, 1 ∷ 2 ∷ []) ∷ [])
v2_leader-perm_example =
    v2_leader-perm toy_hash racing 1 ((100, 1 ∷ 2 ∷ []) ∷ (200, 3 ∷ []) ∷ [])
      ((200, 3 ∷ []) ∷ (100, 1 ∷ 2 ∷ []) ∷ []) (Permᴰ.swap refl refl)

has_quorum-one_hash_example : Path ℕ 100 100
unfolding has_quorum sum_u128 sum_by retain contains mul_u128 v2_tally tally_from lookup insert
has_quorum-one_hash_example =
    has_quorum-one_hash racing 1 100 100 ((refl, (refl, tt)), ((refl, tt), (tt, tt))) (omega arith)
      refl refl

-- A hash that tells the two blocks apart, by their proposers.
abbrev header_hash : BlockHeader → ℕ
header_hash h = h.proposer * 100

v2_reevaluate-HasGrown_example :
    let chain = (v2_reevaluate toy_hash header_hash (λ pb. true) 1 racing).chain in
    (chain ≡ racing.chain)
    ⊎ ((g : HasGrown toy_hash header_hash (λ pb. true) racing 1 chain) × (g.block.header.height ≡ 1)
        × (header_hash g.block.header ≡ g.hash))
unfolding add_u64 height_of
v2_reevaluate-HasGrown_example =
    v2_reevaluate-HasGrown toy_hash header_hash (λ pb. true) racing 1
      (((refl, refl), ((refl, refl), tt)), tt)

v2_finalize-refused_example :
    let f = v2_finalize (λ h. h.proposer) (λ pb. false) 1 100 racing in
    (f.chain ≡ racing.chain) × (votes_at f 1 ≡ []) × (blocks_at f 1 ≡ [])
unfolding lookup
v2_finalize-refused_example =
    v2_finalize-refused (λ h. h.proposer) (λ pb. false) racing 1 1 100 (block_by 1) refl refl
      (omega arith)
