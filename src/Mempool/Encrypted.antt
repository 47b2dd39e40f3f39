-- ===== src/Mempool/Encrypted.antt =====
-- The commit and reveal of operations (crates/solen-consensus/src/encrypted_mempool.rs). A method
-- holds one lock or takes two in turn; it is one step here. The blake3 hash is a parameter. A
-- `HashMap` is a list of entries in the order of their keys; the encrypted data and the key are
-- bytes.
use solen.Base.{
  ℕ, Bool, true, false, not, Option, none, some, List, [], ◌++◌, map, ◌-◌, Result, ok, err,
  if◌then◌else◌, leb, ◌==◌, length, push, retain, lookup, insert, erase, bytes_key, bytes_same,
  add_u64,
}
use solen.Consensus.Proposer.{id_bytes}
use solen.Mempool.Entries.{UserOperation}

pub record OperationCommitment : Type 0 where
  pub commitment_hash : List ℕ
  pub encrypted_data : List ℕ
  pub sender : ℕ
  pub submitted_at : ℕ

pub record RevealedOperation : Type 0 where
  pub commitment_hash : List ℕ
  pub operation : UserOperation
  pub reveal_key : List ℕ

pub record EncryptedMempool : Type 0 where
  pub commitments : List (List ℕ × OperationCommitment)
  pub revealed : List RevealedOperation

-- The strings that `reveal` fails with.
pub data RevealError : Type 0 where
  commitment_not_found : RevealError
  commitment_hash_mismatch : RevealError
  sender_mismatch : RevealError

-- `EncryptedMempool::new`
abbrev pub new : EncryptedMempool
new = record { commitments = []; revealed = [] }

unfoldable pub submit_commitment :
    ℕ → OperationCommitment → EncryptedMempool → EncryptedMempool × Bool
submit_commitment max_size commitment pool =
    if leb max_size (length pool.commitments) then (pool, false) else (
      record pool { commitments = insert commitment.commitment_hash commitment pool.commitments },
      true,
    )

-- The hash that binds the encrypted data to a sender.
unfoldable pub expected_hash : (List ℕ → List ℕ) → List ℕ → ℕ → List ℕ
expected_hash blake3_hash encrypted_data sender = blake3_hash (encrypted_data ++ id_bytes sender)

-- The commitment is removed, and the operation waits for a block.
abbrev pub take_reveal : List ℕ → UserOperation → List ℕ → EncryptedMempool → EncryptedMempool
take_reveal commitment_hash operation reveal_key pool = record pool {
  commitments = erase commitment_hash pool.commitments;
  revealed = push pool.revealed (record {
    commitment_hash = commitment_hash;
    operation = operation;
    reveal_key = reveal_key;
  });
}

-- What `reveal` does with the commitment that it found.
unfoldable pub reveal_found :
    (List ℕ → List ℕ)
    → List ℕ
    → UserOperation
    → List ℕ
    → Option OperationCommitment
    → EncryptedMempool
    → EncryptedMempool × Result (Unit {0}) RevealError
reveal_found blake3_hash commitment_hash operation reveal_key none pool =
    (pool, err commitment_not_found)
reveal_found blake3_hash commitment_hash operation reveal_key (some c) pool =
    if not (bytes_same (expected_hash blake3_hash c.encrypted_data c.sender) commitment_hash)
    then (pool, err commitment_hash_mismatch)
    else if not (operation.sender == c.sender)
    then (pool, err sender_mismatch)
    else (take_reveal commitment_hash operation reveal_key pool, ok tt)

unfoldable pub reveal :
    (List ℕ → List ℕ)
    → List ℕ
    → UserOperation
    → List ℕ
    → EncryptedMempool
    → EncryptedMempool × Result (Unit {0}) RevealError
reveal blake3_hash commitment_hash operation reveal_key pool =
    reveal_found blake3_hash commitment_hash operation reveal_key
      (lookup commitment_hash pool.commitments) pool

abbrev pub revealed_op : RevealedOperation → UserOperation
revealed_op r = r.operation

unfoldable pub drain_revealed : EncryptedMempool → EncryptedMempool × List UserOperation
drain_revealed pool = (record pool { revealed = [] }, map revealed_op pool.revealed)

abbrev pub in_window : ℕ → ℕ → List ℕ × OperationCommitment → Bool
in_window reveal_window current_block e = leb current_block (add_u64 e.1.submitted_at reveal_window)

unfoldable pub expire_commitments : ℕ → ℕ → EncryptedMempool → EncryptedMempool × ℕ
expire_commitments reveal_window current_block pool =
    let left = retain (in_window reveal_window current_block) pool.commitments in
    (record pool { commitments = left }, length pool.commitments - length left)

unfoldable pub create_commitment : (List ℕ → List ℕ) → List ℕ → ℕ → ℕ → OperationCommitment
create_commitment blake3_hash encrypted_data sender current_block = record {
  commitment_hash = expected_hash blake3_hash encrypted_data sender;
  encrypted_data = encrypted_data;
  sender = sender;
  submitted_at = current_block;
}
