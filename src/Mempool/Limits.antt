-- ===== src/Mempool/Limits.antt =====
-- How full the pool gets (crates/solen-consensus/src/mempool.rs).
use Prim.Native.Nat.{min}
use solen.Base.{
  ℕ, zero, suc, Bool, ◌≡◌, refl, ◌≤◌, Option, none, some, List, [], ◌∷◌, ◌+◌, ltb, leb, ◌==◌, count,
  length, find, lookup, nat_key, arith, bytes_same, on_branches,
}
use solen.Mempool.Entries.{UserOperation, insert_entry, remove_entry, last, without_last, op_size}
use solen.Mempool.Pool.{
  MempoolInner, new, is_key, contains_key, or_zero, forget, evicted, make_room, admitted, admit,
  admit_in, submit, clear, drain, drain_loop, remove_found, remove_one, remove_finalized,
  max_op_size, max_ops_per_sender,
}
use solen.Mempool.Counting.{pending-increment, pending-decrement}
use solen.Mempool.Consistency.{
  IsConsistent, OnSome, new-IsConsistent, submit-IsConsistent, drain-IsConsistent,
  remove_finalized-IsConsistent,
}

length-without_last :
    (es : List UserOperation) (e : UserOperation)
    → last es ≡ some e
    → length (without_last es) + 1 ≡ length es
unfolding last without_last
length-without_last [] e h = cc
length-without_last (x ∷ []) e h = refl
length-without_last (x ∷ y ∷ es) e h = ground (arith, length-without_last (y ∷ es) e h)

length-insert_entry :
    (op : UserOperation) (es : List UserOperation) → length (insert_entry op es) ≤ length es + 1
unfolding insert_entry
length-insert_entry op [] = omega arith
length-insert_entry op (e ∷ es) = ground (arith, length-insert_entry op es)

length-remove_entry :
    (op : UserOperation) (es : List UserOperation) → length (remove_entry op es) ≤ length es
unfolding remove_entry
length-remove_entry op [] = omega arith
length-remove_entry op (e ∷ es) = ground (arith, length-remove_entry op es)

abbrev by_sender : ℕ → UserOperation → Bool
by_sender s e = e.sender == s

-- No more entries than the pool may hold, and no more of one sender than a sender may have.
pub record IsBounded (max_size : ℕ) (pool : MempoolInner) : Type 0 where
  pub size : length pool.entries ≤ max_size
  pub share : (s : ℕ) → count (by_sender s) pool.entries ≤ max_ops_per_sender

-- The same by the counts that the pool keeps.
record IsCounted (max_size : ℕ) (pool : MempoolInner) : Type 0 where
  size : length pool.entries ≤ max_size
  share : (s : ℕ) → or_zero (lookup s pool.sender_counts) ≤ max_ops_per_sender

-- Room for one more.
record IsRoomy (max_size : ℕ) (pool : MempoolInner) : Type 0 where
  room : length pool.entries + 1 ≤ max_size
  share : (s : ℕ) → or_zero (lookup s pool.sender_counts) ≤ max_ops_per_sender

forget-share :
    (e : UserOperation) (rest : List UserOperation) (pool : MempoolInner) (s : ℕ)
    → or_zero (lookup s pool.sender_counts) ≤ max_ops_per_sender
    → or_zero (lookup s (forget e rest pool).sender_counts) ≤ max_ops_per_sender
unfolding forget
forget-share e rest pool s h = ground (arith, pending-decrement e.sender s pool.sender_counts)

module _ (max_size : ℕ) where
  make_room-IsRoomy :
      (op : UserOperation) (pool : MempoolInner)
      → IsCounted max_size pool
      → OnSome (IsRoomy max_size) (make_room max_size op pool)
  unfolding make_room forget
  make_room-IsRoomy op pool h =
      on_branches (OnSome (IsRoomy max_size)) (leb max_size (length pool.entries))
        (λ full. lowest (last pool.entries) refl)
        (λ free. record { room = ground (arith, free); share = h.share })
    where
      lowest :
          (o : Option UserOperation)
          → last pool.entries ≡ o
          → OnSome (IsRoomy max_size) (evicted op o pool)
      lowest none none_last = tt
      lowest (some e) e_last =
          on_branches (OnSome (IsRoomy max_size)) (ltb e.max_fee op.max_fee)
            (λ higher. record {
              room = ground (arith, length-without_last pool.entries e e_last, h.size);
              share = λ s. forget-share e (without_last pool.entries) pool s (h.share s);
            })
            (λ lower. tt)

  admit-IsCounted :
      (op : UserOperation) (pool : MempoolInner)
      → IsRoomy max_size pool
      → IsCounted max_size (admit op pool).0
  unfolding admit admitted
  admit-IsCounted op pool h =
      on_branches (λ (r : MempoolInner × Bool). IsCounted max_size r.0)
        (leb max_ops_per_sender (or_zero (lookup op.sender pool.sender_counts))) (λ many. unchanged)
        (λ few.
          on_branches (λ (r : MempoolInner × Bool). IsCounted max_size r.0)
            (contains_key op.sender op.nonce pool.seen) (λ duplicate. unchanged)
            (λ new_key. record {
              size = ground (arith, length-insert_entry op pool.entries, h.room);
              share = λ s.
                  ground (arith, few, pending-increment op.sender s pool.sender_counts, h.share s);
            }))
    where
      unchanged : IsCounted max_size pool
      unchanged = record { size = ground (arith, h.room); share = h.share }

  admit_in-IsCounted :
      (op : UserOperation) (pool : MempoolInner) (roomy : Option MempoolInner)
      → IsCounted max_size pool
      → OnSome (IsRoomy max_size) roomy
      → IsCounted max_size (admit_in op pool roomy).0
  admit_in-IsCounted op pool none h k = h
  admit_in-IsCounted op pool (some roomy) h k = admit-IsCounted op roomy k

  submit-IsCounted :
      (op : UserOperation) (pool : MempoolInner)
      → IsCounted max_size pool
      → IsCounted max_size (submit max_size op pool).0
  unfolding submit
  submit-IsCounted op pool h =
      on_branches (λ (r : MempoolInner × Bool). IsCounted max_size r.0)
        (bytes_same op.signature (255 ∷ [])) (λ reserved. h)
        (λ external.
          on_branches (λ (r : MempoolInner × Bool). IsCounted max_size r.0)
            (ltb max_op_size (op_size op)) (λ large. h)
            (λ small.
              admit_in-IsCounted op pool (make_room max_size op pool) h
                (make_room-IsRoomy op pool h)))

  drain_loop-IsCounted :
      (n : ℕ) (pool : MempoolInner) (es : List UserOperation)
      → pool.entries ≡ es
      → IsCounted max_size pool
      → IsCounted max_size (drain_loop n es pool).0
  unfolding drain_loop forget
  drain_loop-IsCounted zero pool es at h = h
  drain_loop-IsCounted (suc n) pool [] at h = h
  drain_loop-IsCounted (suc n) pool (e ∷ es) at h =
      drain_loop-IsCounted n (forget e es pool) es refl (record {
        size = ground (arith, at, h.size);
        share = λ s. forget-share e es pool s (h.share s);
      })

  remove_found-IsCounted :
      (op : UserOperation) (pool : MempoolInner) (o : Option UserOperation)
      → IsCounted max_size pool
      → IsCounted max_size (remove_found op o pool)
  remove_found-IsCounted op pool none h = record { size = h.size; share = h.share }
  remove_found-IsCounted op pool (some e) h = record {
    size = ground (arith, length-remove_entry e pool.entries, h.size);
    share = λ s. ground (arith, pending-decrement op.sender s pool.sender_counts, h.share s);
  }

  remove_finalized-IsCounted :
      (ops : List UserOperation) (pool : MempoolInner)
      → IsCounted max_size pool
      → IsCounted max_size (remove_finalized ops pool)
  unfolding remove_finalized remove_one
  remove_finalized-IsCounted [] pool h = h
  remove_finalized-IsCounted (op ∷ ops) pool h =
      remove_finalized-IsCounted ops (remove_one op pool) (
        on_branches (IsCounted max_size) (contains_key op.sender op.nonce pool.seen)
          (λ seen. remove_found-IsCounted op pool (find (is_key op.sender op.nonce) pool.entries) h)
          (λ unseen. h))

  -- The pools that the methods make from the empty one.
  pub data Reached : MempoolInner → Type 0 where
    reached_new : Reached new
    reached_submit :
        {pool : MempoolInner} (op : UserOperation)
        → Reached pool
        → Reached (submit max_size op pool).0
    reached_drain : {pool : MempoolInner} (limit : ℕ) → Reached pool → Reached (drain limit pool).0
    reached_remove :
        {pool : MempoolInner} (ops : List UserOperation)
        → Reached pool
        → Reached (remove_finalized ops pool)
    reached_clear : {pool : MempoolInner} → Reached pool → Reached (clear pool)

  new-IsCounted : IsCounted max_size new
  unfolding lookup
  new-IsCounted = record { size = omega arith; share = λ s. omega arith }

  Reached-IsCounted : {pool : MempoolInner} → Reached pool → IsCounted max_size pool
  unfolding drain clear
  Reached-IsCounted reached_new = new-IsCounted
  Reached-IsCounted (reached_submit op r) = submit-IsCounted op _ (Reached-IsCounted r)
  Reached-IsCounted (reached_drain limit r) =
      drain_loop-IsCounted (min limit (length _)) _ _ refl (Reached-IsCounted r)
  Reached-IsCounted (reached_remove ops r) = remove_finalized-IsCounted ops _ (Reached-IsCounted r)
  Reached-IsCounted (reached_clear r) = new-IsCounted

  -- In each pool that the methods make from the empty one, in any order, the count of a sender is
  -- the number of its entries, a key of sender and nonce was seen exactly when an entry has it, and
  -- no two entries have the same key.
  pub Reached-IsConsistent : {pool : MempoolInner} → Reached pool → IsConsistent pool
  unfolding clear
  Reached-IsConsistent reached_new = new-IsConsistent
  Reached-IsConsistent (reached_submit op r) =
      submit-IsConsistent max_size op _ (Reached-IsConsistent r)
  Reached-IsConsistent (reached_drain limit r) = drain-IsConsistent limit _ (Reached-IsConsistent r)
  Reached-IsConsistent (reached_remove ops r) =
      remove_finalized-IsConsistent ops _ (Reached-IsConsistent r)
  Reached-IsConsistent (reached_clear r) = new-IsConsistent

  -- In each pool that the methods make from the empty one, in any order, there are no more entries
  -- than the pool may hold, and no more than 64 of them are of one sender.
  pub Reached-IsBounded : {pool : MempoolInner} → Reached pool → IsBounded max_size pool
  Reached-IsBounded r =
      let h = Reached-IsCounted r in
      let k = Reached-IsConsistent r in
      record { size = h.size; share = λ s. ground (arith, h.share s, k.counted s) }
