-- ===== src/Mempool/Tests.antt =====
-- Runs of the mempool (crates/solen-consensus/src/mempool.rs).
use Prim.Native.Nat.{min}
use solen.Base.{
  ℕ, ◌≡◌, none, some, List, [], ◌∷◌, ◌++◌, length, if◌then◌else◌, push, lookup, insert, bytes_same,
  bytes_key, err, IsOk, arith,
}
use solen.Consensus.Proposer.{id_bytes, to_le_bytes}
use solen.Mempool.Encrypted
use solen.Mempool.Encrypted.{
  OperationCommitment, EncryptedMempool, commitment_not_found, submit_commitment, expected_hash,
  reveal, reveal_found, create_commitment,
}
use solen.Mempool.Reveals.{reveal-IsOk, reveal-create_commitment}
use solen.Mempool.Entries.{UserOperation}
use solen.Mempool.Pool.{MempoolInner, new, submit, drain}
use solen.Mempool.Consistency.{IsConsistent}
use solen.Mempool.Limits.{
  Reached, reached_new, reached_submit, IsBounded, Reached-IsBounded, Reached-IsConsistent,
}
use solen.Mempool.Draining.{HasFallingFees, PayAsMuchAs, drain-highest}

abbrev op : ℕ → ℕ → ℕ → UserOperation
op sender nonce fee = record {
  sender = sender;
  nonce = nonce;
  actions = [];
  max_fee = fee;
  signature = 7 ∷ [];
}

-- A pool for two, in which the third operation evicted the first.
abbrev two_ops : MempoolInner
two_ops = (submit 2 (op 3 0 30) (submit 2 (op 2 0 20) (submit 2 (op 1 0 10) new).0).0).0

two_ops-Reached : Reached 2 two_ops
two_ops-Reached =
    reached_submit (op 3 0 30) (reached_submit (op 2 0 20) (reached_submit (op 1 0 10) reached_new))

Reached-IsBounded_example : IsBounded 2 two_ops
Reached-IsBounded_example = Reached-IsBounded 2 two_ops-Reached

Reached-IsConsistent_example : IsConsistent two_ops
Reached-IsConsistent_example = Reached-IsConsistent 2 two_ops-Reached

drain-highest_example :
    let (left, ops) = drain 1 two_ops in
    (ops ++ left.entries ≡ two_ops.entries)
    × (length ops ≡ min 1 (length two_ops.entries))
    × HasFallingFees (ops ++ left.entries)
    × PayAsMuchAs ops left.entries
drain-highest_example = drain-highest 2 1 two_ops two_ops-Reached

abbrev tag_hash : List ℕ → List ℕ
tag_hash bytes = 7 ∷ bytes

-- The commitment of account 1 to some data, and an operation of that account.
abbrev one_commitment : EncryptedMempool
one_commitment =
    (submit_commitment 4 (create_commitment tag_hash (5 ∷ 6 ∷ []) 1 10) Encrypted.new).0

abbrev one_hash : List ℕ
one_hash = expected_hash tag_hash (5 ∷ 6 ∷ []) 1

reveal-IsOk_example :
    let after = (reveal tag_hash one_hash (op 1 0 10) [] one_commitment).0 in
    ((c : OperationCommitment) × (lookup one_hash one_commitment.commitments ≡ some c)
      × (c.sender ≡ 1)
      × (expected_hash tag_hash c.encrypted_data 1 ≡ one_hash))
    × ((k : List ℕ)
        → lookup k after.commitments
          ≡ (if bytes_same k one_hash then none else lookup k one_commitment.commitments))
    × (after.revealed
        ≡ push [] (record { commitment_hash = one_hash; operation = op 1 0 10; reveal_key = [] }))
    × ((next : UserOperation) (key : List ℕ)
        → reveal tag_hash one_hash next key after ≡ (after, err commitment_not_found))
unfolding reveal reveal_found submit_commitment create_commitment expected_hash lookup insert
    id_bytes to_le_bytes
reveal-IsOk_example = reveal-IsOk tag_hash one_hash (op 1 0 10) [] one_commitment tt

reveal-create_commitment_example :
    let c = create_commitment tag_hash (5 ∷ 6 ∷ []) 1 10 in
    let held = (submit_commitment 4 c Encrypted.new).0 in
    IsOk (reveal tag_hash c.commitment_hash (op 1 9 99) (3 ∷ []) held).1
reveal-create_commitment_example =
    reveal-create_commitment tag_hash 4 (5 ∷ 6 ∷ []) 10 (op 1 9 99) (3 ∷ []) Encrypted.new
      (ground (arith))
