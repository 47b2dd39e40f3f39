-- ===== src/Mempool/Reveals.antt =====
-- What a reveal takes and leaves (crates/solen-consensus/src/encrypted_mempool.rs).
use solen.Base.{
  ℕ, ◌≡◌, refl, false, none, some, List, arith, Option-cases, inl, inr, err, IsOk, leb, length,
  push, lookup, lookup-insert, lookup-erase, bytes_key, bytes_same, bytes_same_iff, if◌then◌else◌,
}
use solen.Mempool.Entries.{UserOperation}
use solen.Mempool.Encrypted.{
  OperationCommitment, EncryptedMempool, commitment_not_found, submit_commitment, expected_hash,
  take_reveal, reveal_found, reveal, create_commitment,
}

module _ (blake3_hash : List ℕ → List ℕ) where
  -- A step of the reveal, over what the lookup found.
  found-IsOk :
      (h : List ℕ) (op : UserOperation) (reveal_key : List ℕ) (c : OperationCommitment)
      (pool : EncryptedMempool)
      → IsOk (reveal_found blake3_hash h op reveal_key (some c) pool).1
      → (c.sender ≡ op.sender)
        × (expected_hash blake3_hash c.encrypted_data op.sender ≡ h)
        × ((reveal_found blake3_hash h op reveal_key (some c) pool).0
            ≡ take_reveal h op reveal_key pool)
  unfolding reveal_found
  found-IsOk h op reveal_key c pool went =
      ground (arith, went, bytes_same_iff (expected_hash blake3_hash c.encrypted_data c.sender) h)

  -- What it found, and the pool that it leaves.
  reveal-takes :
      (h : List ℕ) (op : UserOperation) (reveal_key : List ℕ) (pool : EncryptedMempool)
      → IsOk (reveal blake3_hash h op reveal_key pool).1
      → ((c : OperationCommitment) × (lookup h pool.commitments ≡ some c)
          × (c.sender ≡ op.sender)
          × (expected_hash blake3_hash c.encrypted_data op.sender ≡ h))
        × ((reveal blake3_hash h op reveal_key pool).0 ≡ take_reveal h op reveal_key pool)
  unfolding reveal reveal_found
  reveal-takes h op reveal_key pool went = elim (Option-cases (lookup h pool.commitments)) [
    | inl none_eq ↦ ground (arith, went, none_eq)
    | inr (c, c_eq) ↦ ground (arith, went, c_eq, found-IsOk h op reveal_key c pool)
  ]

  removed :
      (h : List ℕ) (next : UserOperation) (key : List ℕ) (after : EncryptedMempool)
      → lookup h after.commitments ≡ none
      → reveal blake3_hash h next key after ≡ (after, err commitment_not_found)
  unfolding reveal reveal_found
  removed h next key after gone = ground (arith, gone)

  -- A reveal that goes through found a commitment whose sender is the operation's and whose
  -- encrypted data hashes with that sender to the key. It removes that commitment alone and puts
  -- the operation last among the revealed ones. Revealing under the same key directly afterwards,
  -- with any operation, finds no commitment and changes nothing.
  pub reveal-IsOk :
      (h : List ℕ) (op : UserOperation) (reveal_key : List ℕ) (pool : EncryptedMempool)
      → IsOk (reveal blake3_hash h op reveal_key pool).1
      → let after = (reveal blake3_hash h op reveal_key pool).0 in
        ((c : OperationCommitment) × (lookup h pool.commitments ≡ some c)
          × (c.sender ≡ op.sender)
          × (expected_hash blake3_hash c.encrypted_data op.sender ≡ h))
        × ((k : List ℕ)
            → lookup k after.commitments
              ≡ (if bytes_same k h then none else lookup k pool.commitments))
        × (after.revealed
            ≡ push pool.revealed
                (record { commitment_hash = h; operation = op; reveal_key = reveal_key }))
        × ((next : UserOperation) (key : List ℕ)
            → reveal blake3_hash h next key after ≡ (after, err commitment_not_found))
  reveal-IsOk h op reveal_key pool went =
      let (found, taken) = reveal-takes h op reveal_key pool went in
      rw (taken) (
        found,
        (λ k. lookup-erase k h pool.commitments),
        refl,
        (λ next key.
            removed h next key (take_reveal h op reveal_key pool)
              (ground (arith, lookup-erase h h pool.commitments, bytes_same_iff h h))),
      )

  -- A commitment made for some data and a sender and submitted to a pool with room can be revealed
  -- with every operation of that sender and every key.
  pub reveal-create_commitment :
      (max_size : ℕ) (encrypted_data : List ℕ) (block : ℕ) (op : UserOperation)
      (reveal_key : List ℕ) (pool : EncryptedMempool)
      → leb max_size (length pool.commitments) ≡ false
      → let c = create_commitment blake3_hash encrypted_data op.sender block in
        let held = (submit_commitment max_size c pool).0 in
        IsOk (reveal blake3_hash c.commitment_hash op reveal_key held).1
  unfolding reveal reveal_found submit_commitment create_commitment
  reveal-create_commitment max_size encrypted_data block op reveal_key pool room =
      let c = create_commitment blake3_hash encrypted_data op.sender block in
      let h = c.commitment_hash in
      ground (arith, room, lookup-insert h h c pool.commitments, bytes_same_iff h h)
